-- ===== src/Zod/Laws.antt =====
-- Objects of two and three fields.
use blockops.Prelude.{◌≡◌, ◌∙◌, ap, [], ◌∷◌}
use blockops.Js.Text.{Text}
use blockops.Zod.{verdict, accepted, add_field, Zod}

module _ (z : Zod) where
  open z use {Schema, safe_parse, safe_parse_object}

  pub two_fields :
      (s r : Schema) (t u : Text)
      → safe_parse_object ((s, t) ∷ (r, u) ∷ [])
        ≡ add_field (verdict (safe_parse s t)) (add_field (verdict (safe_parse r u)) (accepted []))
  two_fields s r t u =
      z.object_cons_law s t ((r, u) ∷ [])
      ∙ ap (add_field (verdict (safe_parse s t)))
          (z.object_cons_law r u [] ∙ ap (add_field (verdict (safe_parse r u))) z.object_nil_law)
