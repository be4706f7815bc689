-- ===== src/Util/Case.antt =====
-- src/util.rs: `camel_case`.
use Prim.Native.Char.{Char, code}
use Prim.Native.String as Text
use risaml.Prelude.{
  String, Bool, true, false, ◌&&◌, ◌||◌, Option, none, some, List, [], ◌∷◌, ◌==◌, nat_eq,
  if◌then◌else◌,
}
use risaml.Prelude.Text.{is_empty}
use risaml.Libraries.Unicode.{UnicodeLibrary}

abbrev is_separator : Char → Bool
is_separator c =
    code c == b'-'
    || code c == b'_'
    || code c == b' '
    || code c == b'.'
    || code c == b'/'
    || code c == b':'

abbrev flush : String → List String → List String
flush cur rest = if is_empty cur then rest else cur ∷ rest

abbrev pub next_is : (Char → Bool) → String → Bool
next_is p Text.[] = false
next_is p (Text.◌∷◌ c s) = p c

abbrev pub last_is : (Char → Bool) → Option Char → Bool
last_is p none = false
last_is p (some c) = p c

module _ (unicode : UnicodeLibrary) where
  -- Whether a word ends between `prev` and `c`, with the characters behind `c`.
  abbrev breaks : Option Char → Char → String → Bool
  breaks prev c rest =
      last_is unicode.is_lowercase prev && unicode.is_uppercase c
      || last_is unicode.is_uppercase prev
        && unicode.is_uppercase c
        && next_is unicode.is_lowercase rest

  -- The words of the rest, with the current word and the character before.
  unfoldable pub words_from : String → Option Char → String → List String
  words_from cur prev Text.[] = flush cur []
  words_from cur prev (Text.◌∷◌ c s) = elim (is_separator c) [
    | true ↦ flush cur (words_from "" (some c) s)
    | false ↦ elim (is_empty cur) [
      | true ↦ words_from (Text.◌∷◌ c "") (some c) s
      | false ↦ elim (breaks prev c s) [
        | true ↦ cur ∷ words_from (Text.◌∷◌ c "") (some c) s
        | false ↦ words_from (Text.◌++◌ cur (Text.◌∷◌ c "")) (some c) s
      ]
    ]
  ]

  abbrev capitalized : String → String
  capitalized Text.[] = ""
  capitalized (Text.◌∷◌ c s) = Text.◌++◌ (unicode.to_uppercase c) s

  abbrev joined : List String → String
  joined [] = ""
  joined (w ∷ ws) = Text.◌++◌ (capitalized (unicode.to_lowercase w)) (joined ws)

  abbrev camel_words : List String → String
  camel_words [] = ""
  camel_words (w ∷ ws) = Text.◌++◌ (unicode.to_lowercase w) (joined ws)

  unfoldable pub camel_case : String → String
  unfolding words_from
  camel_case input = camel_words (words_from "" none input)
