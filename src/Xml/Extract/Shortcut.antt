-- ===== src/Xml/Extract/Shortcut.antt =====
-- The document of the last shortcut that `extract_with_limits` (src/xml/extract.rs) keeps changes no
-- result: each field is read as if its own document were parsed for it.
use risaml.Prelude.{
  String, Option, none, some, List, [], ◌∷◌, ok, err, ◌>>=◌, ◌==◌, string_eq, eq_iff, traverse,
  map_ok, ◌≡◌, refl, sym, ◌⊎◌, inl, inr, Bool-cases, Result-cases,
}
use risaml.Errors.{SamlError, SamlResult}
use risaml.Libraries.Xml.{XmlLibrary}
use risaml.Libraries.Unicode.{UnicodeLibrary}
use risaml.Util.Value.{Value, object_of}
use risaml.Xml.Dom.{XmlLimits}
use risaml.Xml.Dom.Tree.{Node}
use risaml.Xml.Dom.Parse.{parse_with_limits}
use risaml.Xml.Extract.{
  ExtractorField, ShortcutDoc, cached, shortcut_root, extract_field, extract_fields, document_of,
  extract_with_limits,
}

map_ok_lem :
    {A : Type 0} {B : Type 0} (f : A → B) (m : SamlResult A) → (m >>= λ a. ok (f a)) ≡ map_ok f m
map_ok_lem f (ok a) = refl
map_ok_lem f (err e) = refl

module _ (unicode : UnicodeLibrary) (xml : XmlLibrary) (limits : XmlLimits) where
  -- The document that a field names, parsed for it.
  abbrev pub own_document : String → Node → Option String → SamlResult (String × Node)
  own_document source root none = ok (source, root)
  own_document source root (some other) =
      map_ok (λ shortcut. (other, shortcut)) (parse_with_limits xml other limits)

  abbrev pub field_alone : String → Node → ExtractorField → SamlResult (String × Value)
  field_alone source root f =
      map_ok (λ d. (f.key, extract_field unicode d.0 d.1 f)) (own_document source root f.shortcut)

  abbrev pub extract_each : String → List ExtractorField → SamlResult Value
  extract_each source fields = do
    root ← parse_with_limits xml source limits
    pairs ← traverse (field_alone source root) fields
    ok (object_of pairs)

  -- What is kept is the document of its source.
  abbrev IsParsed : ShortcutDoc unicode → Type 0
  IsParsed none = Unit
  IsParsed (some (source, root)) = parse_with_limits xml source limits ≡ ok root

  shortcut_root_lem :
      (kept : ShortcutDoc unicode) (source : String)
      → IsParsed kept
      → shortcut_root unicode xml limits kept source ≡ parse_with_limits xml source limits
  shortcut_root_lem none source parsed = refl
  shortcut_root_lem (some (last, root)) source parsed = elim (Bool-cases (last == source)) [
    | inl same ↦
        let e : last ≡ source = (eq_iff last source).0 same in
        rw (shortcut_root, cached, same) (sym (rw e at parsed))
    | inr other ↦ rw (shortcut_root, cached, other)
  ]

  -- What one field is read from, and the invariant of what is kept.
  abbrev Agrees : String → Node → ShortcutDoc unicode → Option String → Type 0
  Agrees source root kept shortcut =
      ((e : SamlError) × (document_of unicode xml limits source root kept shortcut ≡ err e)
        × (own_document source root shortcut ≡ err e))
      ⊎ ((d : String × Node × ShortcutDoc unicode) × (document_of unicode xml limits source root
              kept shortcut
            ≡ ok d)
          × (own_document source root shortcut ≡ ok (d.0, d.1))
          × IsParsed d.2)

  document_of-Agrees :
      (source : String) (root : Node) (kept : ShortcutDoc unicode) (shortcut : Option String)
      → IsParsed kept
      → Agrees source root kept shortcut
  document_of-Agrees source root kept none parsed = inr ((source, root, kept), refl, refl, parsed)
  document_of-Agrees source root kept (some other) parsed =
      let found = shortcut_root_lem kept other parsed in
      elim (Result-cases (parse_with_limits xml other limits)) [
        | inl (r, whole) ↦ inr ((other, r, some (other, r)), rw (found, whole), rw whole, whole)
        | inr (e, fails) ↦ inl (e, rw (found, fails), rw fails)
      ]

  extract_fields_lem :
      (source : String) (root : Node) (fields : List ExtractorField) (kept : ShortcutDoc unicode)
      → IsParsed kept
      → extract_fields unicode xml limits source root kept fields
        ≡ traverse (field_alone source root) fields
  unfolding extract_fields
  extract_fields_lem source root [] kept parsed = refl
  extract_fields_lem source root (f ∷ fs) kept parsed =
      elim (document_of-Agrees source root kept f.shortcut parsed) [
        | inl (e, here, alone) ↦ rw (here, alone)
        | inr (d, here, alone, keeps) ↦
            rw (here, alone, extract_fields_lem source root fs d.2 keeps)
              (map_ok_lem _ (traverse (field_alone source root) fs))
      ]

  -- Keeping the document of the last shortcut changes nothing: the fields of a document are extracted
  -- as if each one parsed the document that it names, errors included.
  pub extract_with_limits_lem :
      (source : String) (fields : List ExtractorField)
      → extract_with_limits unicode xml limits source fields ≡ extract_each source fields
  unfolding extract_with_limits
  extract_with_limits_lem source fields =
      elim (Result-cases (parse_with_limits xml source limits)) [
        | inl (root, whole) ↦ rw (whole, extract_fields_lem source root fields none tt)
        | inr (e, fails) ↦ rw fails
      ]
