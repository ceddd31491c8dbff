-- ===== src/Console/Schema.antt =====
-- console-schema.ts: `consoleCommandSchema`.
use blockops.Prelude.{◌≤◌, ◌≡◌, ◌↔◌, Bool, false, not, ◌||◌, leb, arith}
use blockops.Js.Text.{Text, codes, trim, includes_unit}
use blockops.Js.Utf8.{utf8_length}
use blockops.Zod.{accept, verdict, check, alter, Zod}

unfoldable pub has_line_break_or_null : Text → Bool
has_line_break_or_null value =
    includes_unit b'\r' value || includes_unit b'\n' value || includes_unit 0 value

abbrev pub command_line_breaks : Text
command_line_breaks = codes "Command cannot contain line breaks."

abbrev pub command_required : Text
command_required = codes "Command is required."

abbrev pub command_too_long : Text
command_too_long = codes "Command must be at most 4,096 bytes."

module _ (z : Zod) where
  open z use {Schema, safe_parse, string, refine, transform}

  unfoldable pub console_command_schema : Schema
  console_command_schema =
      refine
        (refine
          (transform
            (refine string (λ value. not (has_line_break_or_null value)) command_line_breaks) trim)
          (λ value. leb 1 (utf8_length value)) command_required)
        (λ value. leb (utf8_length value) 4096) command_too_long

  console_command_schema-verdict :
      (t : Text)
      → verdict (safe_parse console_command_schema t)
        ≡ check
            (λ value. leb (utf8_length value) 4096)
            command_too_long
            (check
              (λ value. leb 1 (utf8_length value))
              command_required
              (alter trim (
                check
                  (λ value. not (has_line_break_or_null value))
                  command_line_breaks
                  (accept t))))
  unfolding console_command_schema
  console_command_schema-verdict t = simp (z.refine_law, z.transform_law, z.string_law)

-- A command is accepted exactly when it has no line break and no null and its trimmed text has 1
-- to 4,096 bytes, and what is sent is the trimmed text.
pub console_command_schema_iff :
    (z : Zod) (t u : Text)
    → (verdict (z.safe_parse (console_command_schema z) t) ≡ accept u) ↔ (
        (has_line_break_or_null t ≡ false)
        × (u ≡ trim t)
        × (1 ≤ utf8_length u)
        × (utf8_length u ≤ 4096))
console_command_schema_iff z t u = rw (console_command_schema-verdict z t) (ground arith)
