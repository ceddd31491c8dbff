-- ===== src/Worlds/View/Laws.antt =====
-- The controls of the rendered worlds page.
use blockops.Prelude.{
  ◌≡◌, refl, sym, ◌∙◌, Option, none, some, List, [], ◌∷◌, ◌++◌, ◌&&◌, not, is_some, if◌then◌else◌,
}
use blockops.Js.Text.{Text}
use blockops.Query.{Mutation}
use blockops.Api.Error.{Caught}
use blockops.Api.Client.{returned, thrown}
use blockops.Auth.Permissions.{Role, world_replace, has_permission}
use blockops.Ui.{View, clicks, in_dialogs, click_if, notice, page_header}
use blockops.Ui.Laws.{elements, clicks-text_notice, confirm_dialog-clicks, clicks-nothing}
use blockops.Worlds.{File, Page, removed, opened, closed, confirmed}
use blockops.Worlds.View.Dialogs.{in_dialogs-page_with}
use blockops.Worlds.View.{
  Click, on_page, download, world_download_url, selected_file, busy, upload, confirmation,
  page_with, worlds_page,
}

clicks-selected_file :
    (o : Option File) → clicks (selected_file o) ≡ click_if (is_some o) (on_page removed)
unfolding selected_file
clicks-selected_file none = simp elements
clicks-selected_file (some f) = simp elements

module _ (m : Mutation File Caught) (role : Role) (p : Page m) where
  clicks-upload :
      clicks (upload m role p)
      ≡ click_if (is_some p.file) (on_page removed)
        ++ click_if (is_some p.file && not (busy m role p)) (on_page opened)
  unfolding upload
  clicks-upload = simp (elements, clicks-text_notice, clicks-selected_file)

  abbrev pub dialog_clicks : List Click
  dialog_clicks =
      on_page closed
      ∷ on_page closed
      ∷ (if busy m role p then [] else on_page closed ∷ on_page confirmed ∷ [])

  -- What the page offers with the address of its download.
  abbrev pub page_clicks : Text → List Click
  page_clicks url =
      download url
      ∷ ((if has_permission role world_replace
            then click_if (is_some p.file) (on_page removed)
              ++ click_if (is_some p.file && not (busy m role p)) (on_page opened)
            else [])
          ++ (if p.confirm_open then dialog_clicks else []))

  clicks-confirmation :
      clicks (confirmation m role p) ≡ (if p.confirm_open then dialog_clicks else [])
  unfolding confirmation
  clicks-confirmation = confirm_dialog-clicks _ clicks-nothing

  clicks-page_with : (url : Text) → clicks (page_with m role p url) ≡ page_clicks url
  unfolding page_with page_header notice
  clicks-page_with url = simp (elements, clicks-upload, clicks-confirmation)

  -- Where the page renders it has a link with the address of its download, for everybody; for who may
  -- replace the world, enabled controls that remove a selected file, and that open the confirmation
  -- with one while no replacement is under way; and an open confirmation has those that close it, and
  -- confirm it unless a replacement is under way. The open dialog has those of the confirmation, and no
  -- others.
  pub worlds_page-clicks :
      (server : Option Text) (v : View Click)
      → worlds_page m role p server ≡ returned v
      → (url : Text) × (world_download_url server ≡ returned url)
        × (clicks v ≡ page_clicks url)
        × (in_dialogs v ≡ (if p.confirm_open then dialog_clicks else []))
  unfolding worlds_page
  worlds_page-clicks server v =
      elim (world_download_url server)
        as (λ o.
          elim o [ thrown e ↦ thrown e | returned url ↦ returned (page_with m role p url) ]
            ≡ returned v
          → (url : Text) × (o ≡ returned url)
            × (clicks v ≡ page_clicks url)
            × (in_dialogs v ≡ (if p.confirm_open then dialog_clicks else []))) [
              | thrown e ↦ λ h. absurd cc
              | returned url ↦ λ h.
                  let same : page_with m role p url ≡ v = cc in
                  (
                    url,
                    refl,
                    rw (sym same) (clicks-page_with url),
                    rw (sym same) (in_dialogs-page_with m role p url ∙ clicks-confirmation),
                  )
            ]
