-- ===== src/Util.antt =====
-- src/util.rs: certificate texts. The dynamic values and `camel_case` stand in the children.
pub mod Value
pub mod Case
use Prim.Native.String as Text
use risaml.Prelude.{ℕ, zero, suc, ◌-◌, String, true, false, ◌||◌, not, [], ◌∷◌, ◌==◌, nat_eq}
use risaml.Prelude.Text.{concat, starts_with, filter_chars}

-- `replace(pattern, "")` of a pattern that is not empty; `skip` characters of a match are still to
-- be left out.
remove_from : String → ℕ → String → String
remove_from pattern skip Text.[] = ""
remove_from pattern (suc skip) (Text.◌∷◌ c s) = remove_from pattern skip s
remove_from pattern zero (Text.◌∷◌ c s) = elim (starts_with pattern (Text.◌∷◌ c s)) [
  | true ↦ remove_from pattern (Text.count pattern - 1) s
  | false ↦ Text.◌∷◌ c (remove_from pattern 0 s)
]

unfoldable pub remove : String → String → String
unfolding remove_from
remove pattern s = remove_from pattern 0 s

unfoldable pub strip_pem : String → String → String
strip_pem input label =
    filter_chars (λ c. not (c == b'\n' || c == b'\r' || c == b' ' || c == b'\t'))
      (remove (concat ("-----END " ∷ label ∷ "-----" ∷ []))
        (remove (concat ("-----BEGIN " ∷ label ∷ "-----" ∷ [])) input))

unfoldable pub normalize_cert_string : String → String
normalize_cert_string cert = strip_pem cert "CERTIFICATE"
