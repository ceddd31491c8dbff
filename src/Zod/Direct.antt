-- ===== src/Zod/Direct.antt =====
-- An implementation that meets the interface: a schema is the function that parses by it.
use blockops.Prelude.{◌≡◌, refl, Bool, List, [], ◌∷◌, ◌++◌, length, leb, if◌then◌else◌, arith}
use blockops.Js.Text.{Text, trim, same_text}
use blockops.Zod.{
  Parsed, success, failure, verdict, check, alter, ObjectParsed, accepted, add_field, Zod,
  ZodRefine,
}

module _ {A : Type 0} where
  abbrev pub checked : (A → Parsed A) → (A → Bool) → Text → A → Parsed A
  checked s p m t = elim (s t) [
    | success u ↦ if p u then success u else failure m []
    | failure n ns ↦ failure n (ns ++ m ∷ [])
  ]

  pub checked-verdict :
      (s : A → Parsed A) (p : A → Bool) (m : Text) (t : A)
      → verdict (checked s p m t) ≡ check p m (verdict (s t))
  checked-verdict s p m t = ground arith

  abbrev pub altered : (A → Parsed A) → (A → A) → A → Parsed A
  altered s f t = elim (s t) [ success u ↦ success (f u) | failure n ns ↦ failure n ns ]

  pub altered-verdict :
      (s : A → Parsed A) (f : A → A) (t : A) → verdict (altered s f t) ≡ alter f (verdict (s t))
  altered-verdict s f t = ground arith

abbrev pub direct_refine : (A : Type 0) → ZodRefine A
direct_refine A = record {
  Schema = A → Parsed A;
  safe_parse = λ s t. s t;
  base = success;
  refine = checked;
  base_law = λ t. refl;
  refine_law = checked-verdict;
}

abbrev pub parse_object : List ((Text → Parsed Text) × Text) → ObjectParsed
parse_object [] = accepted []
parse_object ((s, t) ∷ fields) = add_field (verdict (s t)) (parse_object fields)

abbrev pub direct : Zod
direct = record {
  Schema = Text → Parsed Text;
  safe_parse = λ s t. s t;
  string = success;
  min = λ s n m. checked s (λ u. leb n (length u)) m;
  max = λ s n m. checked s (λ u. leb (length u) n) m;
  regex = checked;
  refine = checked;
  transform = altered;
  trimmed = λ s. altered s trim;
  literal = λ w. checked success (λ u. same_text u w) [];
  default_message = [];
  safe_parse_object = parse_object;
  string_law = λ t. refl;
  min_law = λ s n m t. checked-verdict s (λ u. leb n (length u)) m t;
  max_law = λ s n m t. checked-verdict s (λ u. leb (length u) n) m t;
  regex_law = checked-verdict;
  refine_law = checked-verdict;
  transform_law = altered-verdict;
  trimmed_law = λ s t. altered-verdict s trim t;
  literal_law = λ w t. checked-verdict success (λ u. same_text u w) [] t;
  object_nil_law = refl;
  object_cons_law = λ s t fields. refl;
}
