-- ===== src/Console/Line.antt =====
-- console-schema.ts: the type that `consoleLineSchema` infers. Texts are lists of UTF-16 units.
use blockops.Prelude.{ℕ, List}

pub record ConsoleLine : Type 0 where
  pub sequence : ℕ
  pub timestamp : List ℕ
  pub text : List ℕ
