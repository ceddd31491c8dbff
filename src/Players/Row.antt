-- ===== src/Players/Row.antt =====
-- components/player-row.tsx: what a row says of a player and which actions it offers, and the
-- search of players-page.tsx.
use blockops.Prelude.{
  ◌≡◌, ◌↔◌, Bool, true, false, not, ◌||◌, List, [], ◌∷◌, ◌++◌, select, any, if◌then◌else◌, arith,
}
use blockops.Js.Text.{Text, codes, includes}
use blockops.Players.Schema.{
  PlayerAction, allowlist_add, allowlist_remove, kick, ban, pardon, op, deop, Player,
}

pub record RowAction : Type 0 where
  pub action : PlayerAction
  pub label : Text
  pub destructive : Bool

abbrev button : PlayerAction → Text → Bool → RowAction
button a l d = record { action = a; label = l; destructive = d }

-- The buttons of a row, in order; none of them for a viewer.
unfoldable pub row_actions : Bool → Player → List RowAction
row_actions can_manage player =
    if can_manage
    then (if player.allowlisted
        then button allowlist_remove (codes "Remove allowlist") false
        else button allowlist_add (codes "Allowlist") false)
      ∷ (if player.operator
          then button deop (codes "De-OP") false
          else button op (codes "OP") false)
      ∷ (if player.banned
          then button pardon (codes "Pardon") false
          else button ban (codes "Ban") true)
      ∷ (if player.online then button kick (codes "Kick") true ∷ [] else [])
    else []

-- The badges of the access column.
unfoldable pub access_badges : Player → List Text
access_badges player =
    let badges =
      (if player.allowlisted then codes "Allowlisted" ∷ [] else [])
      ++ ((if player.operator then codes "Operator" ∷ [] else [])
          ++ (if player.banned then codes "Banned" ∷ [] else [])) in
    let has_access_badge = player.allowlisted || player.operator || player.banned in
    if has_access_badge then badges else codes "Standard access" ∷ []

-- `filtered`; `to_lower` stands for `toLowerCase`
unfoldable pub filter_players : (Text → Text) → Text → List Player → List Player
filter_players to_lower search players =
    let normalized = to_lower search in
    select (λ player. includes normalized (to_lower player.name)) players

abbrev pub same_action : PlayerAction → PlayerAction → Bool
same_action allowlist_add allowlist_add = true
same_action allowlist_remove allowlist_remove = true
same_action kick kick = true
same_action ban ban = true
same_action pardon pardon = true
same_action op op = true
same_action deop deop = true
same_action _ _ = false

abbrev pub offers : Bool → Player → PlayerAction → Bool
offers can_manage player a =
    any (λ (r : RowAction). same_action r.action a) (row_actions can_manage player)

-- Which action undoes or changes which fact of a player.
abbrev pub would_change : Player → PlayerAction → Bool
would_change p allowlist_add = not p.allowlisted
would_change p allowlist_remove = p.allowlisted
would_change p kick = p.online
would_change p ban = not p.banned
would_change p pardon = p.banned
would_change p op = not p.operator
would_change p deop = p.operator

-- A row offers an action exactly when the user may manage players and the action would change
-- something about this player.
pub row_actions-would_change :
    (can_manage : Bool) (player : Player) (a : PlayerAction)
    → (offers can_manage player a ≡ true) ↔ ((can_manage ≡ true) × (would_change player a ≡ true))
unfolding row_actions
row_actions-would_change can_manage player allowlist_add = ground arith
row_actions-would_change can_manage player a = ground arith
