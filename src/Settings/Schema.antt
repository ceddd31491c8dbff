-- ===== src/Settings/Schema.antt =====
-- settings-schema.ts: `isHostPort` and the credentials of RCON.
pub mod Laws
use blockops.Prelude.{
  ℕ, ◌+◌, ◌-◌, Bool, true, false, not, ◌&&◌, Option, none, some, List, [], ◌∷◌, length, get_elem?,
  any, leb, ltb, ◌==◌, if◌then◌else◌,
}
use blockops.Js.Text.{
  Text, codes, is_space, starts_with, index_of, last_index_of, slice_to, includes_unit,
}
use blockops.Js.Utf8.{utf8_length}
use blockops.Zod.{Zod}

abbrev is_unit : ℕ → Option ℕ → Bool
is_unit c none = false
is_unit c (some d) = d == c

-- the branch for a bracketed address, with `closingBracket`; -1 is `none`
unfoldable pub bracketed : Text → Option ℕ → Bool
bracketed value none = false
bracketed value (some closing_bracket) =
    ltb 1 closing_bracket
    && is_unit b':' (get_elem? value (closing_bracket + 1))
    && ltb (closing_bracket + 2) (length value)

-- the other branch, with `separator`
unfoldable pub separated : Text → Option ℕ → Bool
separated value none = false
separated value (some separator) =
    ltb 0 separator
    && ltb separator (length value - 1)
    && not (includes_unit b':' (slice_to separator value))

unfoldable pub is_host_port : Text → Bool
unfolding is_space bracketed separated
is_host_port value =
    if any is_space value
    then false
    else if starts_with (codes "[") value
    then bracketed value (index_of b']' value)
    else separated value (last_index_of b':' value)

module _ (z : Zod) where
  open z use {Schema, string, refine, min, max, trimmed}

  unfoldable pub rcon_address_schema : Schema
  rcon_address_schema =
      refine
        (max (min (trimmed string) 1 (codes "RCON address is required.")) 512
          (codes "RCON address is too long."))
        is_host_port (codes "RCON address must use host:port format.")

  unfoldable pub rcon_password_schema : Schema
  rcon_password_schema =
      refine
        (refine string (λ value. leb 8 (utf8_length value))
          (codes "RCON password must be at least 8 characters."))
        (λ value. leb (utf8_length value) 256)
        (codes "RCON password must be at most 256 characters.")
