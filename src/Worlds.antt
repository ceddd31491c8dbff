-- ===== src/Worlds.antt =====
-- frontend/src/features/worlds: worlds-page.tsx and world-schemas.ts, the choice of a file and the
-- replacement of the world.
--
-- `to_lower` stands for `toLowerCase`.
pub mod Invariant
pub mod View
pub mod Tests
use blockops.Prelude.{
  ℕ, Bool, true, false, not, ◌&&◌, ◌||◌, Option, none, some, List, [], ◌∷◌, is_some, ltb,
  if◌then◌else◌,
}
use blockops.Js.Text.{Text, codes, same_text, ends_with}
use blockops.Zod.{accept, reject, verdict, Verdict, ZodRefine}
use blockops.Query.{is_pending, Mutation}
use blockops.Auth.Permissions.{Role, world_replace, has_permission}

pub record File : Type 0 where
  pub size : ℕ
  pub name : Text
  pub type_ : Text

unfoldable pub is_zip_type : File → Bool
is_zip_type file =
    same_text file.type_ []
    || same_text file.type_ (codes "application/zip")
    || same_text file.type_ (codes "application/x-zip-compressed")

unfoldable pub has_zip_name : (Text → Text) → File → Bool
has_zip_name to_lower file = ends_with (codes ".zip") (to_lower file.name)

unfoldable pub world_file_schema : (zr : ZodRefine File) → (Text → Text) → zr.Schema
unfolding is_zip_type has_zip_name
world_file_schema zr to_lower =
    zr.refine
      (zr.refine
        (zr.refine zr.base (λ file. ltb 0 file.size) (codes "Choose a non-empty world ZIP."))
        (has_zip_name to_lower) (codes "World uploads must use a .zip filename."))
      is_zip_type (codes "The selected file must be a ZIP archive.")

pub record WorldsPage (S : Type 0) : Type 0 where
  pub file : Option File
  pub file_error : Option Text
  pub confirm_open : Bool
  pub replace : S
  pub sent : List File  -- the newest first

module _ {E : Type 0} (m : Mutation File E) where
  abbrev pub Page : Type 0
  Page = WorldsPage m.State

  abbrev pub initial_page : Page
  initial_page = record {
    file = none;
    file_error = none;
    confirm_open = false;
    replace = m.initial;
    sent = [];
  }

  -- the rest of `selectFile` after the schema
  unfoldable pub select_parsed : Verdict File → Page → Page
  select_parsed (reject message) p = record p { file = none; file_error = some message }
  select_parsed (accept file) p = record p { file = some file; file_error = none }

  unfoldable pub select_file : (zr : ZodRefine File) → (Text → Text) → Option File → Page → Page
  unfolding select_parsed
  select_file zr to_lower none p = record p { file = none; file_error = none }
  select_file zr to_lower (some selected) p =
      select_parsed (verdict (zr.safe_parse (world_file_schema zr to_lower) selected)) p

  unfoldable pub remove_file : Page → Page
  remove_file p = record p { file = none; file_error = none }

  unfoldable pub replace_file : Option File → Page → Page
  replace_file none p = p
  replace_file (some file) p = record p { replace = m.mutate file p.replace; sent = file ∷ p.sent }

  -- `replaceSelectedWorld`
  unfoldable pub replace_selected_world : Page → Page
  unfolding replace_file
  replace_selected_world p = replace_file p.file p

  -- The server has replaced the world: the callback runs while the observer follows the call.
  unfoldable pub resolved : Page → Page
  resolved p =
      let settled = record p { replace = m.resolve p.replace } in
      if is_pending (m.status p.replace)
      then record settled { file = none; file_error = none; confirm_open = false }
      else settled

pub data WorldsEvent (E : Type 0) : Type 0 where
  selected : Option File → WorldsEvent E
  removed opened closed confirmed accepted : WorldsEvent E
  failed : E → WorldsEvent E

-- The input and its buttons are rendered only for a role that may replace the world; the button that
-- opens the confirmation needs a file and no replacement under way; a busy dialog does not confirm.
module _ {E : Type 0} (zr : ZodRefine File) (to_lower : Text → Text) (m : Mutation File E)
    (role : Role) where
  abbrev pub can_replace : Bool
  can_replace = has_permission role world_replace

  unfoldable pub handle : WorldsEvent E → Page m → Page m
  unfolding select_file remove_file replace_selected_world resolved
  handle (selected f) p = if can_replace then select_file m zr to_lower f p else p
  handle removed p = if can_replace && is_some p.file then remove_file m p else p
  handle opened p =
      if can_replace && is_some p.file && not (is_pending (m.status p.replace))
      then record p { confirm_open = true }
      else p
  handle closed p = record p { confirm_open = false }
  handle confirmed p =
      if p.confirm_open && not (is_pending (m.status p.replace))
      then replace_selected_world m p
      else p
  handle accepted p = resolved m p
  handle (failed e) p = record p { replace = m.reject e p.replace }

  abbrev pub run : List (WorldsEvent E) → Page m → Page m
  run [] p = p
  run (e ∷ es) p = run es (handle e p)
