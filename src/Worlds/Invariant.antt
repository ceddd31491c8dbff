-- ===== src/Worlds/Invariant.antt =====
-- What the worlds page sends after any events.
use blockops.Prelude.{
  ◌<◌, ◌≡◌, refl, true, false, Option, none, some, List, [], ◌∷◌, All, ltb, arith,
}
use blockops.Js.Text.{Text, codes}
use blockops.Zod.{Verdict, accept, reject, verdict, check, ZodRefine}
use blockops.Query.{Mutation}
use blockops.Auth.Permissions.{Role, world_replace, has_permission}
use blockops.Worlds.{
  File, is_zip_type, has_zip_name, world_file_schema, Page, initial_page, select_parsed,
  select_file, remove_file, replace_file, replace_selected_world, resolved, WorldsEvent, selected,
  removed, opened, closed, confirmed, accepted, failed, handle, run,
}

-- What the server expects of an upload.
pub record IsWorldFile (to_lower : Text → Text) (f : File) : Type 0 where
  pub not_empty : 0 < f.size
  pub zip_name : has_zip_name to_lower f ≡ true
  pub zip_type : is_zip_type f ≡ true

world_file_verdict :
    (zr : ZodRefine File) (to_lower : Text → Text) (f : File)
    → verdict (zr.safe_parse (world_file_schema zr to_lower) f)
      ≡ check is_zip_type (codes "The selected file must be a ZIP archive.") (
          check
            (has_zip_name to_lower)
            (codes "World uploads must use a .zip filename.")
            (check (λ file. ltb 0 file.size) (codes "Choose a non-empty world ZIP.") (accept f)))
unfolding world_file_schema
world_file_verdict zr to_lower f = simp (zr.refine_law, zr.base_law)

world_file_schema-IsWorldFile :
    (zr : ZodRefine File) (to_lower : Text → Text) (f g : File)
    → verdict (zr.safe_parse (world_file_schema zr to_lower) f) ≡ accept g
    → IsWorldFile to_lower g
world_file_schema-IsWorldFile zr to_lower f g e = ground (arith, world_file_verdict zr to_lower f)

module _ {E : Type 0} (zr : ZodRefine File) (to_lower : Text → Text) (m : Mutation File E)
    (role : Role) where
  pub record IsChecked (p : Page m) : Type 0 where
    pub file_checked : (f : File) → p.file ≡ some f → IsWorldFile to_lower f
    pub file_allowed : (f : File) → p.file ≡ some f → has_permission role world_replace ≡ true
    pub sent_checked : All (IsWorldFile to_lower) p.sent
    pub sent_allowed : has_permission role world_replace ≡ false → p.sent ≡ []

  select_parsed-IsChecked :
      (v : Verdict File) (p : Page m)
      → ((g : File) → v ≡ accept g → IsWorldFile to_lower g)
      → has_permission role world_replace ≡ true
      → IsChecked p
      → IsChecked (select_parsed m v p)
  unfolding select_parsed
  select_parsed-IsChecked (reject t) p ok c h = ground arith
  select_parsed-IsChecked (accept g) p ok c h = ground (arith, ok g refl)

  select_file-IsChecked :
      (f : Option File) (p : Page m)
      → has_permission role world_replace ≡ true
      → IsChecked p
      → IsChecked (select_file m zr to_lower f p)
  unfolding select_file
  select_file-IsChecked none p c h = ground arith
  select_file-IsChecked (some f) p c h =
      select_parsed-IsChecked _ p (world_file_schema-IsWorldFile zr to_lower f) c h

  replace_file-IsChecked :
      (o : Option File) (p : Page m) → p.file ≡ o → IsChecked p → IsChecked (replace_file m o p)
  unfolding replace_file
  replace_file-IsChecked none p e h = h
  replace_file-IsChecked (some f) p e h = ground (arith, h.file_checked f e, h.file_allowed f e)

  handle-IsChecked :
      (e : WorldsEvent E) (p : Page m) → IsChecked p → IsChecked (handle zr to_lower m role e p)
  unfolding handle remove_file replace_selected_world resolved
  handle-IsChecked (selected f) p h = ground (arith, select_file-IsChecked f p)
  handle-IsChecked removed p h = ground arith
  handle-IsChecked opened p h = ground arith
  handle-IsChecked closed p h = ground arith
  handle-IsChecked confirmed p h = ground (arith, replace_file-IsChecked p.file p refl h)
  handle-IsChecked accepted p h = ground arith
  handle-IsChecked (failed e) p h = ground arith

  run-IsChecked' :
      (es : List (WorldsEvent E)) (p : Page m)
      → IsChecked p
      → IsChecked (run zr to_lower m role es p)
  run-IsChecked' [] p h = h
  run-IsChecked' (e ∷ es) p h =
      run-IsChecked' es (handle zr to_lower m role e p) (handle-IsChecked e p h)

  initial_page-IsChecked : IsChecked (initial_page m)
  initial_page-IsChecked = ground arith

-- After any events, every file that was sent or is about to be is not empty, has a name that ends in
-- `.zip` and a type of a ZIP archive or none, and a role that may not replace the world sends none.
pub run-IsChecked :
    {E : Type 0} (zr : ZodRefine File) (to_lower : Text → Text) (m : Mutation File E) (role : Role)
    (es : List (WorldsEvent E))
    → IsChecked zr to_lower m role (run zr to_lower m role es (initial_page m))
run-IsChecked zr to_lower m role es =
    run-IsChecked' zr to_lower m role es (initial_page m)
      (initial_page-IsChecked zr to_lower m role)
