-- ===== src/Formatters/Laws.antt =====
-- How the loop of `formatBytes` ends, and what `formatDuration` shows.
use blockops.Prelude.{
  ℕ, zero, suc, ◌+◌, ◌*◌, ◌^◌, ◌≤◌, ◌<◌, ◌≡◌, ◌⊎◌, inl, inr, refl, sym, ◌/◌, ◌%◌, true, false, some,
  ◌++◌, length, Bool-cases, ltb, if◌then◌else◌, arith,
}
use native.Mathlib.Omega.{pow_step}
use blockops.Js.Text.{Text, codes}
use blockops.Js.Number.{to_text}
use blockops.Formatters.{units, Amount, whole, goes_on, scale_loop, format_duration}

-- The amount is a power of 1,024 down, and is at least 1 unless it is in bytes.
pub record IsScaled (value : ℕ) (a : Amount) : Type 0 where
  pub power : a.divisor ≡ 1024 ^ a.index
  pub named : a.index < length units
  pub filled : (a.index ≡ 0) ⊎ (a.divisor ≤ value)

next-IsScaled :
    (value : ℕ) (a : Amount)
    → goes_on value a ≡ true
    → IsScaled value a
    → IsScaled value (record { divisor = 1024 * a.divisor; index = a.index + 1 })
unfolding goes_on
next-IsScaled value a g h =
    let turned : (1024 * a.divisor ≤ value) × (a.index < 4) = ground arith in
    let up : a.index + 1 ≡ suc a.index = omega arith in
    record {
      power = rw (up, h.power) (sym (pow_step 1024 a.index));
      named = omega (arith, turned.1);
      filled = inr turned.0;
    }

full : (value : ℕ) (a : Amount) → length units ≤ a.index → goes_on value a ≡ false
unfolding goes_on
full value a h = ground arith

scale_loop-stops' :
    (fuel value : ℕ) (a : Amount)
    → IsScaled value a
    → length units ≤ fuel + a.index
    → IsScaled value (scale_loop fuel value a) × (goes_on value (scale_loop fuel value a) ≡ false)
unfolding scale_loop
scale_loop-stops' zero value a h enough = (h, full value a (omega arith))
scale_loop-stops' (suc fuel) value a h enough = elim (Bool-cases (goes_on value a)) [
  | inl e ↦
      rw (scale_loop, e)
        (scale_loop-stops' fuel value (record { divisor = 1024 * a.divisor; index = a.index + 1 })
          (next-IsScaled value a e h) (omega arith))
  | inr e ↦ rw (scale_loop, e) (h, e)
]

-- Where the test of the loop fails, the amount is below 1,024 or in the last unit.
ended :
    (value : ℕ) (a : Amount)
    → goes_on value a ≡ false
    → IsScaled value a
    → (value < 1024 * a.divisor) ⊎ (a.index + 1 ≡ length units)
unfolding goes_on
ended value a e h = let known = h.named in ground arith

-- With a turn for each unit, or with more, the loop of `formatBytes` comes to an amount that is below
-- 1,024 or in the last unit: its unit is one of the list's, the amount is the value over that power
-- of 1,024, and it is at least 1 unless it is in bytes.
pub scale_loop-stops :
    (fuel value : ℕ)
    → length units ≤ fuel
    → let a = scale_loop fuel value whole in
      IsScaled value a × ((value < 1024 * a.divisor) ⊎ (a.index + 1 ≡ length units))
scale_loop-stops fuel value h =
    let (scaled, e) = scale_loop-stops' fuel value whole (ground arith) (omega arith) in
    (scaled, ended value (scale_loop fuel value whole) e scaled)

-- What is shown of a duration that is made of days, hours, minutes and seconds.
abbrev pub shown : ℕ → ℕ → ℕ → Text
shown days hours minutes =
    if ltb 0 days
    then to_text days ++ (codes "d " ++ (to_text hours ++ codes "h"))
    else if ltb 0 hours
    then to_text hours ++ (codes "h " ++ (to_text minutes ++ codes "m"))
    else to_text minutes ++ codes "m"

-- A duration of days, hours below 24, minutes below 60 and seconds below 60 is shown by its two
-- largest parts, of which the first is not 0, or by its minutes alone.
pub format_duration-parts :
    (days hours minutes seconds : ℕ)
    → hours < 24
    → minutes < 60
    → seconds < 60
    → format_duration (some (((days * 24 + hours) * 60 + minutes) * 60 + seconds))
      ≡ shown days hours minutes
unfolding format_duration
format_duration-parts d h m s a b c =
    let total = ((d * 24 + h) * 60 + m) * 60 + s in
    let days : total / 86400 ≡ d = omega arith in
    let hours : total % 86400 / 3600 ≡ h = omega arith in
    let minutes : total % 3600 / 60 ≡ m = omega arith in rw (days, hours, minutes) refl
