-- ===== src/Prelude/Text/Affixes.antt =====
-- What is left of a text when a prefix or a suffix is stripped.
use Prim.Native.String as Text
use Prim.Native.Char.{code}
use risaml.Prelude.Tests.{◌==◌, string_eq, nat_eq, nat_beq_iff, Bool-cases, Option-cases}
use mathlib.Core.Path.{◌≡◌, refl, ap}
use mathlib.Core.Logic.{inl, inr}
use mathlib.Core.Bool.{true}
use mathlib.Core.Option.{some}
use Prim.Native.String.{String}
use text.Mathlib.TextEquality.{eq_iff, Char-path}
use text.Mathlib.TextLemmas.{nil-append, cons-append}
use risaml.Prelude.Text.{strip_prefix, strip_suffix, is_empty}

some_eq : {a b : String} → some a ≡ some b → a ≡ b
some_eq h = cc

pub strip_prefix_lem : (p s r : String) → strip_prefix p s ≡ some r → s ≡ Text.◌++◌ p r
unfolding strip_prefix
strip_prefix_lem Text.[] s r h = rw nil-append (some_eq h)
strip_prefix_lem (Text.◌∷◌ c p) Text.[] r h = cc
strip_prefix_lem (Text.◌∷◌ c p) (Text.◌∷◌ d s) r h = elim (Bool-cases (code c == code d)) [
  | inl same ↦
      let e : c ≡ d = Char-path c d ((nat_beq_iff (code c) (code d)).0 same) in
      let rest : s ≡ Text.◌++◌ p r = strip_prefix_lem p s r (rw same at h) in
      rw (cons-append, e, rest)
  | inr other ↦ cc (rw other at h)
]

pub is_empty-eq : (t : String) → is_empty t ≡ true → t ≡ ""
is_empty-eq Text.[] h = refl
is_empty-eq (Text.◌∷◌ c t) h = cc

pub strip_suffix_lem : (t s r : String) → strip_suffix t s ≡ some r → s ≡ Text.◌++◌ r t
unfolding strip_suffix
strip_suffix_lem t Text.[] r h = elim (Bool-cases (is_empty t)) [
  | inl empty ↦
      let no_suffix : t ≡ "" = is_empty-eq t empty in
      let none_left : "" ≡ r = some_eq (rw empty at h) in rw (← none_left, nil-append, no_suffix)
  | inr full ↦ cc (rw full at h)
]
strip_suffix_lem t (Text.◌∷◌ c s) r h = elim (Bool-cases (Text.◌∷◌ c s == t)) [
  | inl whole ↦
      let e : Text.◌∷◌ c s ≡ t = (eq_iff (Text.◌∷◌ c s) t).0 whole in
      let none_left : "" ≡ r = some_eq (rw whole at h) in rw (← none_left, nil-append) e
  | inr part ↦ elim (Option-cases (strip_suffix t s)) [
    | inl absent ↦ cc (rw (part, absent) at h)
    | inr (q, left) ↦
        let e : Text.◌∷◌ c q ≡ r = some_eq (rw (part, left) at h) in
        rw (← e, cons-append) (ap (Text.◌∷◌ c) (strip_suffix_lem t s q left))
  ]
]
