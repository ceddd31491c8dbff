-- ===== src/Console/Stream/Delay.antt =====
-- The delay before a reconnect doubles from half a second and never passes ten seconds.
use blockops.Prelude.{ℕ, zero, suc, ◌+◌, ◌*◌, ◌-◌, ◌≤◌, ◌≡◌, refl, subst, min, arith}
use blockops.Console.Stream.{reconnect_delay}

doubled : ℕ → ℕ
doubled zero = 500
doubled (suc zero) = 500
doubled (suc (suc zero)) = 1000
doubled (suc (suc (suc zero))) = 2000
doubled (suc (suc (suc (suc zero)))) = 4000
doubled (suc (suc (suc (suc (suc zero))))) = 8000
doubled _ = 10000

reconnect_delay-doubled : (n : ℕ) → reconnect_delay n ≡ doubled n
unfolding reconnect_delay doubled
reconnect_delay-doubled zero = refl
reconnect_delay-doubled (suc zero) = refl
reconnect_delay-doubled (suc (suc zero)) = refl
reconnect_delay-doubled (suc (suc (suc zero))) = refl
reconnect_delay-doubled (suc (suc (suc (suc zero)))) = refl
reconnect_delay-doubled (suc (suc (suc (suc (suc zero))))) = refl
reconnect_delay-doubled (suc (suc (suc (suc (suc (suc n)))))) =
    let e : min (suc (suc (suc (suc (suc (suc n))))) - 1) 5 ≡ 5 = omega arith in rw e

doubled_range :
    (n : ℕ)
    → (500 ≤ doubled n)
      × (doubled n ≤ 10000)
      × (doubled n ≤ doubled (suc n))
      × (doubled (suc (suc n)) ≡ min 10000 (2 * doubled (suc n)))
unfolding doubled
doubled_range zero = omega arith
doubled_range (suc zero) = omega arith
doubled_range (suc (suc zero)) = omega arith
doubled_range (suc (suc (suc zero))) = omega arith
doubled_range (suc (suc (suc (suc zero)))) = omega arith
doubled_range (suc (suc (suc (suc (suc zero))))) = omega arith
doubled_range (suc (suc (suc (suc (suc (suc n)))))) = omega arith

doubled_mono : (m k : ℕ) → doubled m ≤ doubled (k + m)
doubled_mono m zero = let e : 0 + m ≡ m = omega arith in rw e (omega arith)
doubled_mono m (suc k) =
    let e : suc k + m ≡ suc (k + m) = omega arith in
    rw e (omega (arith, doubled_range (k + m), doubled_mono m k))

-- Every delay lies between half a second and ten seconds, a later attempt never waits less, and
-- below the cap the delay of an attempt is twice the delay of the one before.
pub reconnect_delay_bounds :
    (m n : ℕ)
    → m ≤ n
    → (500 ≤ reconnect_delay m)
      × (reconnect_delay m ≤ reconnect_delay n)
      × (reconnect_delay n ≤ 10000)
      × (reconnect_delay (n + 2) ≡ min 10000 (2 * reconnect_delay (n + 1)))
reconnect_delay_bounds m n h =
    let e1 : n + 1 ≡ suc n = omega arith in
    let e2 : n + 2 ≡ suc (suc n) = omega arith in
    let e3 : (n - m) + m ≡ n = omega arith in
    let mono : doubled m ≤ doubled n =
      subst (λ k. doubled m ≤ doubled k) e3 (doubled_mono m (n - m)) in
    rw (e1, e2)
      (omega (
        arith,
        reconnect_delay-doubled m,
        reconnect_delay-doubled n,
        reconnect_delay-doubled (suc n),
        reconnect_delay-doubled (suc (suc n)),
        doubled_range m,
        doubled_range n,
        mono,
      ))
