-- ===== src/Formatters/Tests.antt =====
-- Sizes and durations at concrete values.
use blockops.Prelude.{◌≡◌, refl, some, arith, ◌+◌, ◌*◌, ◌<◌, ◌⊎◌, length}
use blockops.Js.Text.{codes}
use blockops.Js.Number.{to_text}
use blockops.Formatters.{units, goes_on, whole, scale_loop, format_bytes, format_duration}
use blockops.Formatters.Laws.{IsScaled, scale_loop-stops, shown, format_duration-parts}

scale_loop-stops_example :
    let a = scale_loop 5 1536 whole in
    IsScaled 1536 a × ((1536 < 1024 * a.divisor) ⊎ (a.index + 1 ≡ length units))
scale_loop-stops_example = scale_loop-stops 5 1536 (ground arith)

format_duration-parts_example :
    format_duration (some (((0 * 24 + 1) * 60 + 5) * 60 + 0)) ≡ shown 0 1 5
format_duration-parts_example =
    format_duration-parts 0 1 5 0 (ground arith) (ground arith) (ground arith)

-- A size just below a megabyte is rounded up to 1,024 kilobytes.
almost_a_megabyte : format_bytes (some 1048575) ≡ codes "1024 KB"
unfolding format_bytes to_text goes_on
almost_a_megabyte = refl

-- What formatters.test.ts asks for.
one_and_a_half : format_bytes (some 1536) ≡ codes "1.5 KB"
unfolding format_bytes to_text goes_on
one_and_a_half = refl

an_hour_and_five_minutes : format_duration (some 3900) ≡ codes "1h 5m"
unfolding format_duration to_text
an_hour_and_five_minutes = refl

a_day_and_an_hour : format_duration (some 90000) ≡ codes "1d 1h"
unfolding format_duration to_text
a_day_and_an_hour = refl
