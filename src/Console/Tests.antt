-- ===== src/Console/Tests.antt =====
-- The console's hook at a concrete stream, and its schema at a concrete command.
use blockops.Prelude.{ℕ, Option, none, List}
use blockops.Console.Line.{ConsoleLine}

abbrev refuse : List ℕ → Option ConsoleLine
refuse _ = none
