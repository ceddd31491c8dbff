-- ===== src/Players/Schema.antt =====
-- player-schema.ts and player-action-copy.ts: names, reasons and the seven actions.
pub mod Laws
use blockops.Prelude.{
  ℕ, Bool, true, false, not, ◌&&◌, ◌||◌, Option, none, some, List, [], ◌∷◌, ◌++◌, length, all, leb,
  ◌==◌, if◌then◌else◌,
}
use blockops.Js.Text.{Text, codes, in_range, includes_unit, same_text}
use blockops.Js.Utf8.{utf8_length}
use blockops.Zod.{Zod, ObjectParsed, accepted, rejected}

abbrev pub max_name_length : ℕ
max_name_length = 16

abbrev pub max_reason_bytes : ℕ
max_reason_bytes = 160

unfoldable pub has_line_break_or_null : Text → Bool
has_line_break_or_null value =
    includes_unit b'\r' value || includes_unit b'\n' value || includes_unit 0 value

-- `[A-Za-z0-9_]`
unfoldable pub is_name_unit : ℕ → Bool
is_name_unit c = in_range b'A' b'Z' c || in_range b'a' b'z' c || in_range b'0' b'9' c || c == b'_'

-- `^[A-Za-z0-9_]{1,16}$`
unfoldable pub player_name_pattern : Text → Bool
unfolding is_name_unit
player_name_pattern name =
    leb 1 (length name) && leb (length name) max_name_length && all is_name_unit name

abbrev pub name_invalid : Text
name_invalid = codes "Use a valid Java username with 1–16 letters, numbers, or underscores."

abbrev pub reason_required : Text
reason_required = codes "Reason is required."

abbrev pub reason_too_long : Text
reason_too_long =
    codes "Reason must be at most 160 bytes — accents and emoji count as more than one."

abbrev pub reason_line_breaks : Text
reason_line_breaks = codes "Reason cannot contain line breaks."

pub data PlayerAction : Type 0 where
  allowlist_add allowlist_remove kick ban pardon op deop : PlayerAction

-- `ReasonPlayerAction`: the members of the union whose schema takes a reason
abbrev pub takes_reason : PlayerAction → Bool
takes_reason kick = true
takes_reason ban = true
takes_reason _ = false

pub record PlayerActionRequest : Type 0 where
  pub action : PlayerAction
  pub name : Text
  pub reason : Text

-- `PendingPlayerAction`
pub record PendingPlayerAction : Type 0 where
  pub action : PlayerAction
  pub name : Text

pub record Player : Type 0 where
  pub name : Text
  pub uuid : Option Text
  pub online : Bool
  pub allowlisted : Bool
  pub banned : Bool
  pub operator : Bool

-- What the form shows when a request is refused: the first issue of the field `reason`, if any.
pub data RequestVerdict : Type 0 where
  valid : PlayerActionRequest → RequestVerdict
  invalid : Option Text → RequestVerdict

request_verdict : PlayerAction → ObjectParsed → RequestVerdict
request_verdict action (accepted (name ∷ reason ∷ _)) =
    valid (record { action = action; name = name; reason = reason })
request_verdict action (rejected (_ ∷ reason ∷ _)) = invalid reason
request_verdict action _ = invalid none

module _ (z : Zod) where
  open z use {Schema, safe_parse, string, regex, refine, trimmed, literal, min, safe_parse_object}

  unfoldable pub player_name_schema : Schema
  player_name_schema = regex string player_name_pattern name_invalid

  unfoldable pub reason_schema : Schema
  reason_schema =
      refine
        (refine (min (trimmed string) 1 reason_required)
          (λ reason. leb (utf8_length reason) max_reason_bytes) reason_too_long)
        (λ reason. not (has_line_break_or_null reason)) reason_line_breaks

  -- `z.literal("")`
  unfoldable pub no_reason_schema : Schema
  no_reason_schema = literal []

  -- The member of `playerActionRequestSchema` that the action selects, for its field `reason`.
  unfoldable pub reason_field : PlayerAction → Schema
  unfolding reason_schema no_reason_schema
  reason_field action = if takes_reason action then reason_schema else no_reason_schema

  -- `playerActionRequestSchema.safeParse({ action, name, reason })`; `action` always selects a
  -- member, so the object has the two fields that can fail.
  unfoldable pub parse_request : PlayerActionRequest → RequestVerdict
  unfolding request_verdict
  parse_request r =
      request_verdict r.action
        (safe_parse_object ((player_name_schema, r.name) ∷ (reason_field r.action, r.reason) ∷ []))

-- An entry of the table `playerActionCopy`.
pub record ActionCopy : Type 0 where
  pub title : Text → Text
  pub description : Text
  pub confirm_label : Text
  pub dangerous : Bool
  pub needs_reason : Bool

unfoldable pub player_action_copy : PlayerAction → ActionCopy
player_action_copy allowlist_add = record {
  title = λ name. codes "Allowlist " ++ (name ++ codes "?");
  description = codes "The player will be allowed to join when the server allowlist is enabled.";
  confirm_label = codes "Add to allowlist";
  dangerous = false;
  needs_reason = false;
}
player_action_copy allowlist_remove = record {
  title = λ name. codes "Remove " ++ (name ++ codes " from the allowlist?");
  description =
      codes "They may no longer be able to join. This does not disconnect an online player.";
  confirm_label = codes "Remove";
  dangerous = true;
  needs_reason = false;
}
player_action_copy kick = record {
  title = λ name. codes "Kick " ++ (name ++ codes "?");
  description =
      codes "The player will be disconnected immediately but can reconnect if otherwise allowed.";
  confirm_label = codes "Kick player";
  dangerous = true;
  needs_reason = true;
}
player_action_copy ban = record {
  title = λ name. codes "Ban " ++ (name ++ codes "?");
  description = codes "The player will be blocked from joining until pardoned.";
  confirm_label = codes "Ban player";
  dangerous = true;
  needs_reason = true;
}
player_action_copy pardon = record {
  title = λ name. codes "Pardon " ++ (name ++ codes "?");
  description = codes "The vanilla player ban will be removed.";
  confirm_label = codes "Pardon player";
  dangerous = false;
  needs_reason = false;
}
player_action_copy op = record {
  title = λ name. codes "Grant operator to " ++ (name ++ codes "?");
  description =
      codes
        "Minecraft operators have powerful in-game command privileges. This is separate from dashboard roles.";
  confirm_label = codes "Grant OP";
  dangerous = true;
  needs_reason = false;
}
player_action_copy deop = record {
  title = λ name. codes "Remove operator from " ++ (name ++ codes "?");
  description = codes "Their vanilla Minecraft operator status will be removed.";
  confirm_label = codes "Remove OP";
  dangerous = true;
  needs_reason = false;
}
