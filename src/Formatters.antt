-- ===== src/Formatters.antt =====
-- frontend/src/formatters.ts: sizes and durations as texts.
--
-- Sizes and durations are natural numbers. The amount that the loop of `formatBytes` keeps is the
-- fraction of the value and a power of 1,024, which a double holds exactly for a safe integer; `toFixed`
-- rounds that fraction to the nearest digit, a half up.
pub mod Laws
mod Tests
use blockops.Prelude.{
  ℕ, zero, suc, ◌+◌, ◌-◌, ◌*◌, ◌/◌, ◌%◌, Bool, true, false, ◌&&◌, ◌||◌, Option, none, some, List,
  [], ◌∷◌, ◌++◌, length, get_elem?, leb, ltb, ◌==◌, if◌then◌else◌,
}
use blockops.Js.Text.{Text, codes}
use blockops.Js.Number.{to_text}

abbrev pub units : List Text
units = codes "B" ∷ codes "KB" ∷ codes "MB" ∷ codes "GB" ∷ codes "TB" ∷ []

-- `${units[index]}`
abbrev pub unit_text : Option Text → Text
unit_text none = codes "undefined"
unit_text (some t) = t

-- The variables of the loop; the amount is `value / divisor`.
pub record Amount : Type 0 where
  pub divisor : ℕ
  pub index : ℕ

abbrev pub whole : Amount
whole = record { divisor = 1; index = 0 }

-- `amount >= 1024 && index < units.length - 1`
unfoldable pub goes_on : ℕ → Amount → Bool
goes_on value a = leb (1024 * a.divisor) value && ltb a.index (length units - 1)

-- The loop of `formatBytes`, with at most `fuel` turns.
unfoldable pub scale_loop : ℕ → ℕ → Amount → Amount
scale_loop zero value a = a
scale_loop (suc fuel) value a = elim (goes_on value a) [
  | true ↦ scale_loop fuel value (record { divisor = 1024 * a.divisor; index = a.index + 1 })
  | false ↦ a
]

-- `length units` turns are enough.
abbrev pub scale : ℕ → Amount
scale value = scale_loop (length units) value whole

-- `toFixed(0)` and `toFixed(1)` of the fraction
abbrev pub to_fixed_0 : ℕ → ℕ → Text
to_fixed_0 value divisor = to_text ((2 * value + divisor) / (2 * divisor))

abbrev pub to_fixed_1 : ℕ → ℕ → Text
to_fixed_1 value divisor =
    let tenths = (20 * value + divisor) / (2 * divisor) in
    to_text (tenths / 10) ++ (b'.' ∷ to_text (tenths % 10))

unfoldable pub format_bytes : Option ℕ → Text
unfolding scale_loop
format_bytes none = codes "Unavailable"
format_bytes (some value) =
    let amount = scale value in
    (if leb (10 * amount.divisor) value || amount.index == 0
      then to_fixed_0 value amount.divisor
      else to_fixed_1 value amount.divisor)
    ++ (b' ' ∷ unit_text (get_elem? units amount.index))

unfoldable pub format_duration : Option ℕ → Text
format_duration none = codes "Unavailable"
format_duration (some seconds) =
    let days = seconds / 86400 in
    let hours = seconds % 86400 / 3600 in
    let minutes = seconds % 3600 / 60 in
    if ltb 0 days
    then to_text days ++ (codes "d " ++ (to_text hours ++ codes "h"))
    else if ltb 0 hours
    then to_text hours ++ (codes "h " ++ (to_text minutes ++ codes "m"))
    else to_text minutes ++ codes "m"

-- `format` stands for `new Date` and the format of `Intl`: `none` where the date has no time.
unfoldable pub format_date : (Text → Option Text) → Option Text → Text
format_date format none = codes "Never"
format_date format (some []) = codes "Never"
format_date format (some (c ∷ s)) = elim (format (c ∷ s)) [
  | none ↦ codes "Unavailable"
  | some t ↦ t
]
