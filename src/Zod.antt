-- ===== src/Zod.antt =====
-- What the source uses of the package zod for texts, as an interface: the builders that the form
-- schemas call, `safeParse`, and the documented behaviour of each. Not code of this repository.
pub mod Direct
pub mod Laws
use blockops.Prelude.{
  ℕ, ◌≡◌, Bool, true, false, ◌&&◌, Option, none, some, List, [], ◌∷◌, length, leb, if◌then◌else◌,
}
use blockops.Js.Text.{Text, trim, same_text}

-- `safeParse`: `parsed.data`, or the messages of `parsed.error.issues`, of which there is at least
-- one.
pub data Parsed (A : Type 0) : Type 0 where
  success : A → Parsed A
  failure : Text → List Text → Parsed A

-- The value, or the message of the first issue.
pub data Verdict (A : Type 0) : Type 0 where
  accept : A → Verdict A
  reject : Text → Verdict A

module _ {A : Type 0} where
  abbrev pub verdict : Parsed A → Verdict A
  verdict (success t) = accept t
  verdict (failure m ms) = reject m

  abbrev pub check : (A → Bool) → Text → Verdict A → Verdict A
  check p m (accept t) = if p t then accept t else reject m
  check p m (reject n) = reject n

  abbrev pub alter : (A → A) → Verdict A → Verdict A
  alter f (accept t) = accept (f t)
  alter f (reject n) = reject n

-- `z.object(…).safeParse(…)`: the values, or for each field the first of its messages.
pub data ObjectParsed : Type 0 where
  accepted : List Text → ObjectParsed
  rejected : List (Option Text) → ObjectParsed

abbrev pub none_each : List Text → List (Option Text)
none_each [] = []
none_each (u ∷ us) = none ∷ none_each us

abbrev pub add_field : Verdict Text → ObjectParsed → ObjectParsed
add_field (accept t) (accepted ts) = accepted (t ∷ ts)
add_field (accept t) (rejected ms) = rejected (none ∷ ms)
add_field (reject m) (accepted ts) = rejected (some m ∷ none_each ts)
add_field (reject m) (rejected ms) = rejected (some m ∷ ms)

-- The refinements of a value that is no text.
pub record ZodRefine (A : Type 0) : Type 1 where
  pub Schema : Type 0
  pub safe_parse : Schema → A → Parsed A
  pub base : Schema
  pub refine : Schema → (A → Bool) → Text → Schema
  pub base_law : (a : A) → verdict (safe_parse base a) ≡ accept a
  pub refine_law :
      (s : Schema) (p : A → Bool) (m : Text) (a : A)
      → verdict (safe_parse (refine s p m) a) ≡ check p m (verdict (safe_parse s a))

pub record Zod : Type 1 where
  pub Schema : Type 0
  pub safe_parse : Schema → Text → Parsed Text
  pub string : Schema
  pub min : Schema → ℕ → Text → Schema
  pub max : Schema → ℕ → Text → Schema
  pub regex : Schema → (Text → Bool) → Text → Schema
  pub refine : Schema → (Text → Bool) → Text → Schema
  pub transform : Schema → (Text → Text) → Schema
  pub trimmed : Schema → Schema
  pub literal : Text → Schema
  pub default_message : Text
  pub safe_parse_object : List (Schema × Text) → ObjectParsed
  pub string_law : (t : Text) → verdict (safe_parse string t) ≡ accept t
  pub min_law :
      (s : Schema) (n : ℕ) (m t : Text)
      → verdict (safe_parse (min s n m) t)
        ≡ check (λ u. leb n (length u)) m (verdict (safe_parse s t))
  pub max_law :
      (s : Schema) (n : ℕ) (m t : Text)
      → verdict (safe_parse (max s n m) t)
        ≡ check (λ u. leb (length u) n) m (verdict (safe_parse s t))
  pub regex_law :
      (s : Schema) (p : Text → Bool) (m t : Text)
      → verdict (safe_parse (regex s p m) t) ≡ check p m (verdict (safe_parse s t))
  pub refine_law :
      (s : Schema) (p : Text → Bool) (m t : Text)
      → verdict (safe_parse (refine s p m) t) ≡ check p m (verdict (safe_parse s t))
  pub transform_law :
      (s : Schema) (f : Text → Text) (t : Text)
      → verdict (safe_parse (transform s f) t) ≡ alter f (verdict (safe_parse s t))
  pub trimmed_law :
      (s : Schema) (t : Text)
      → verdict (safe_parse (trimmed s) t) ≡ alter trim (verdict (safe_parse s t))
  pub literal_law :
      (w t : Text)
      → verdict (safe_parse (literal w) t) ≡ check (λ u. same_text u w) default_message (accept t)
  pub object_nil_law : safe_parse_object [] ≡ accepted []
  pub object_cons_law :
      (s : Schema) (t : Text) (fields : List (Schema × Text))
      → safe_parse_object ((s, t) ∷ fields)
        ≡ add_field (verdict (safe_parse s t)) (safe_parse_object fields)
