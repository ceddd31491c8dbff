-- ===== src/Players/Schema/Laws.antt =====
-- What the schemas of player actions accept.
use blockops.Prelude.{
  ◌≤◌, ◌≡◌, ◌↔◌, ◌⊎◌, true, false, not, leb, length, all, [], Bool-cases, inl, inr, arith,
}
use blockops.Js.Text.{Text, trim, same_text}
use blockops.Js.Text.Laws.{same_text_iff}
use blockops.Js.Utf8.{utf8_length}
use blockops.Zod.{Verdict, accept, verdict, check, alter, accepted, add_field, Zod}
use blockops.Zod.Laws.{two_fields}
use blockops.Players.Schema.{
  max_name_length, max_reason_bytes, has_line_break_or_null, is_name_unit, player_name_pattern,
  name_invalid, reason_required, reason_too_long, reason_line_breaks, PlayerAction, takes_reason,
  PlayerActionRequest, valid, player_name_schema, reason_schema, no_reason_schema, reason_field,
  request_verdict, parse_request, player_action_copy, allowlist_add, pardon,
}

-- What the server expects of a request for an action.
pub record IsRequest (r : PlayerActionRequest) : Type 0 where
  pub name_bounds : (1 ≤ length r.name) × (length r.name ≤ max_name_length)
  pub name_units : all is_name_unit r.name ≡ true
  pub reason_bytes : utf8_length r.reason ≤ max_reason_bytes
  pub reason_given : takes_reason r.action ≡ true → 1 ≤ length r.reason
  pub reason_one_line : takes_reason r.action ≡ true → has_line_break_or_null r.reason ≡ false
  pub reason_empty : takes_reason r.action ≡ false → r.reason ≡ []

request_verdict-fields :
    (a : PlayerAction) (v w : Verdict Text) (q : PlayerActionRequest)
    → request_verdict a (add_field v (add_field w (accepted []))) ≡ valid q
    → (q.action ≡ a) × (v ≡ accept q.name) × (w ≡ accept q.reason)
unfolding request_verdict
request_verdict-fields a (accept n) (accept r) q e = ground arith
request_verdict-fields a v w q e = ground arith

module _ (z : Zod) where
  name_verdict :
      (t : Text)
      → verdict (z.safe_parse (player_name_schema z) t)
        ≡ check player_name_pattern name_invalid (accept t)
  unfolding player_name_schema
  name_verdict t = simp (z.regex_law, z.string_law)

  reason_verdict :
      (t : Text)
      → verdict (z.safe_parse (reason_schema z) t)
        ≡ check
            (λ reason. not (has_line_break_or_null reason))
            reason_line_breaks
            (check
              (λ reason. leb (utf8_length reason) max_reason_bytes)
              reason_too_long
              (check (λ reason. leb 1 (length reason)) reason_required (alter trim (accept t))))
  unfolding reason_schema
  reason_verdict t = simp (z.refine_law, z.min_law, z.trimmed_law, z.string_law)

  no_reason_verdict :
      (t : Text)
      → verdict (z.safe_parse (no_reason_schema z) t)
        ≡ check (λ (reason : Text). same_text reason []) z.default_message (accept t)
  unfolding no_reason_schema
  no_reason_verdict t = z.literal_law [] t

  name_sound :
      (t u : Text)
      → verdict (z.safe_parse (player_name_schema z) t) ≡ accept u
      → (u ≡ t) × (1 ≤ length u) × (length u ≤ max_name_length) × (all is_name_unit u ≡ true)
  unfolding player_name_pattern
  name_sound t u e = ground (arith, name_verdict t)

  reason_sound :
      (t u : Text)
      → verdict (z.safe_parse (reason_schema z) t) ≡ accept u
      → (u ≡ trim t)
        × (1 ≤ length u)
        × (utf8_length u ≤ max_reason_bytes)
        × (has_line_break_or_null u ≡ false)
  reason_sound t u e = ground (arith, reason_verdict t)

  no_reason_sound :
      (t u : Text) → verdict (z.safe_parse (no_reason_schema z) t) ≡ accept u → (u ≡ []) × (t ≡ [])
  no_reason_sound t u e = ground (arith, no_reason_verdict t, same_text_iff t [])

  parse_request-fields :
      (r q : PlayerActionRequest)
      → parse_request z r ≡ valid q
      → (q.action ≡ r.action)
        × (verdict (z.safe_parse (player_name_schema z) r.name) ≡ accept q.name)
        × (verdict (z.safe_parse (reason_field z r.action) r.reason) ≡ accept q.reason)
  unfolding parse_request
  parse_request-fields r q e =
      request_verdict-fields r.action (verdict (z.safe_parse (player_name_schema z) r.name))
        (verdict (z.safe_parse (reason_field z r.action) r.reason)) q (rw two_fields at e)

  reason_field_sound :
      (a : PlayerAction) (t u : Text)
      → verdict (z.safe_parse (reason_field z a) t) ≡ accept u
      → (utf8_length u ≤ max_reason_bytes)
        × (takes_reason a ≡ true → u ≡ trim t)
        × (takes_reason a ≡ true → 1 ≤ length u)
        × (takes_reason a ≡ true → has_line_break_or_null u ≡ false)
        × (takes_reason a ≡ false → u ≡ [])
  unfolding reason_field
  reason_field_sound a t u e = elim (Bool-cases (takes_reason a)) [
    | inl takes ↦
        let s = reason_sound t u (rw takes at e) in (s.2, λ h. s.0, λ h. s.1, λ h. s.3, λ h. cc)
    | inr none_ ↦
        let s = no_reason_sound t u (rw none_ at e) in
        (rw s.0 (unfold utf8_length in omega arith), λ h. cc, λ h. cc, λ h. cc, λ h. s.0)
  ]

-- A request that passes the schema keeps the action, the name and the trimmed reason of its input,
-- and is one that the server expects: the name is a Java username, the reason has at most 160
-- bytes, is a single line with at least one unit for a kick or a ban, and empty otherwise.
pub parse_request-IsRequest :
    (z : Zod) (r q : PlayerActionRequest)
    → parse_request z r ≡ valid q
    → IsRequest q
      × (q.action ≡ r.action)
      × (q.name ≡ r.name)
      × (takes_reason r.action ≡ true → q.reason ≡ trim r.reason)
parse_request-IsRequest z r q e =
    let (a, n, p) = parse_request-fields z r q e in
    let (same, lo, hi, units) = name_sound z r.name q.name n in
    let (bytes, trimmed, given, line, empty) = reason_field_sound z r.action r.reason q.reason p in
    (
      record {
        name_bounds = (lo, hi);
        name_units = units;
        reason_bytes = bytes;
        reason_given = rw a given;
        reason_one_line = rw a line;
        reason_empty = rw a empty;
      },
      a,
      same,
      trimmed,
    )

-- The confirmation asks for a reason exactly for the actions whose schema takes one, and only
-- adding to the allowlist and pardoning are not dangerous.
pub player_action_copy-needs_reason :
    (a : PlayerAction)
    → ((player_action_copy a).needs_reason ≡ takes_reason a)
      × ((player_action_copy a).dangerous ≡ false ↔ (a ≡ allowlist_add) ⊎ (a ≡ pardon))
unfolding player_action_copy
player_action_copy-needs_reason allowlist_add = ground arith
player_action_copy-needs_reason a = ground arith
