-- ===== src/Libraries/Unicode.antt =====
-- The tables of Unicode behind `char::is_lowercase`, `char::is_uppercase`, `str::to_lowercase` and
-- `char::to_uppercase`.
use Prim.Native.Char.{Char}
use risaml.Prelude.{String, Bool}

pub record UnicodeLibrary : Type 0 where
  pub is_lowercase : Char → Bool
  pub is_uppercase : Char → Bool
  pub to_lowercase : String → String
  pub to_uppercase : Char → String
