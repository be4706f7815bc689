-- ===== src/Xml/Extract.antt =====
-- src/xml/extract.rs: the extraction of fields from a document by paths of element names.
pub mod Select
pub mod Paths
pub mod Shortcut
use risaml.Prelude.{
  ℕ, String, slice, Bool, true, false, Option, none, some, List, [], ◌∷◌, ◌++◌, map, flat_map,
  filter_map, find_map, is_nil, ok, ◌>>=◌, ◌==◌, string_eq, if◌then◌else◌, map_ok,
}
use risaml.Errors.{SamlResult}
use risaml.Libraries.Xml.{XmlLibrary}
use risaml.Libraries.Unicode.{UnicodeLibrary}
use risaml.Util.Value.{Value, null, str, array_of, object_of, zip_object, uniq}
use risaml.Util.Case.{camel_case}
use risaml.Xml.Dom.{XmlLimits, default_limits}
use risaml.Xml.Dom.Tree.{Node, text, start, attr}
use risaml.Xml.Dom.Tree
use risaml.Xml.Dom.Parse.{parse_with_limits}
use risaml.Xml.Extract.Select.{select_path, descend}

pub data LocalPath : Type 0 where
  single : List String → LocalPath
  multi : List (List String) → LocalPath

pub record ExtractorField : Type 0 where
  pub key : String
  pub local_path : LocalPath
  pub attributes : List String
  pub index : Option (List String)
  pub attribute_path : Option (List String)
  pub context : Bool
  pub shortcut : Option String

-- `ExtractorField::new`, and the builders.
abbrev pub new : String → List String → ExtractorField
new key path = record {
  key = key;
  local_path = single path;
  attributes = [];
  index = none;
  attribute_path = none;
  context = false;
  shortcut = none;
}

abbrev pub attrs : List String → ExtractorField → ExtractorField
attrs attributes f = record f { attributes = attributes }

abbrev pub with_context : ExtractorField → ExtractorField
with_context f = record f { context = true }

abbrev pub with_aggregate : List String → List String → ExtractorField → ExtractorField
with_aggregate index path f = record f { index = some index; attribute_path = some path }

abbrev pub with_shortcut : String → ExtractorField → ExtractorField
with_shortcut source f = record f { shortcut = some source }

abbrev pub one_or_array : List Value → Value
one_or_array (v ∷ []) = v
one_or_array vs = array_of vs

abbrev pub unwrap_or_default : Option String → String
unwrap_or_default none = ""
unwrap_or_default (some s) = s

abbrev first_or_default : List String → String
first_or_default [] = ""
first_or_default (s ∷ ss) = s

-- The values that one node gives to its key.
abbrev aggregated_values : List String → List String → Node → List Value
aggregated_values path [] n = map (λ t. str (text t)) (descend n path)
aggregated_values path (attribute ∷ _) n =
    map str (filter_map (λ t. attr attribute t) (descend n path))

unfoldable pub aggregate : List Node → List String → List String → List String → Value
aggregate nodes index path attributes =
    zip_object (map (λ n. unwrap_or_default (attr (first_or_default index) n)) nodes)
      (map (λ n. one_or_array (aggregated_values path attributes n)) nodes) false

abbrev span : String → Node → Value
span source n = str (slice source (start n) (Tree.end n))

-- `Null`, the value of the only node, or an array.
abbrev by_count : (Node → Value) → List Node → Value
by_count f [] = null
by_count f (n ∷ []) = f n
by_count f ns = array_of (map f ns)

module _ (unicode : UnicodeLibrary) where
  abbrev attribute_entries : List String → Node → List (String × Value)
  attribute_entries names n =
      filter_map
        (λ name. elim (attr name n) [
          | none ↦ none
          | some v ↦ some (camel_case unicode name, str v)
        ])
        names

  abbrev by_attributes : List String → List Node → Value
  by_attributes [] nodes = by_count (λ n. str (text n)) nodes
  by_attributes (name ∷ []) nodes = elim (find_map (attr name) nodes) [
    | none ↦ null
    | some v ↦ str v
  ]
  by_attributes names nodes = one_or_array (map (λ n. object_of (attribute_entries names n)) nodes)

  -- The single path, behind the aggregation.
  abbrev extract_nodes : String → List Node → ExtractorField → Value
  extract_nodes source nodes f =
      if f.context then by_count (span source) nodes else by_attributes f.attributes nodes

  abbrev extract_single : String → List Node → ExtractorField → Value
  extract_single source nodes f = elim f.index [
    | none ↦ extract_nodes source nodes f
    | some index ↦ elim f.attribute_path [
      | none ↦ extract_nodes source nodes f
      | some path ↦ aggregate nodes index path f.attributes
    ]
  ]

  abbrev all_texts : Node → List (List String) → List String
  all_texts root paths = flat_map (λ p. map text (select_path root p)) paths

  unfoldable pub extract_field : String → Node → ExtractorField → Value
  extract_field source root f = elim f.local_path [
    | multi paths ↦ array_of (map str (uniq (all_texts root paths)))
    | single path ↦ extract_single source (select_path root path) f
  ]

  -- The shortcut document that was parsed last, with its source.
  abbrev pub ShortcutDoc : Type 0
  ShortcutDoc = Option (String × Node)

  abbrev pub cached : ShortcutDoc → String → Option Node
  cached none source = none
  cached (some (kept, root)) source = if kept == source then some root else none

  module _ (xml : XmlLibrary) (limits : XmlLimits) where
    -- The document of a shortcut: the one that is kept, or a new one.
    abbrev pub shortcut_root : ShortcutDoc → String → SamlResult Node
    shortcut_root kept source = elim (cached kept source) [
      | some root ↦ ok root
      | none ↦ parse_with_limits xml source limits
    ]

    -- The document that a field is read from, with its source, and what is kept behind it.
    abbrev pub document_of :
        String → Node → ShortcutDoc → Option String → SamlResult (String × Node × ShortcutDoc)
    document_of source root kept none = ok (source, root, kept)
    document_of source root kept (some other) =
        map_ok (λ shortcut. (other, shortcut, some (other, shortcut))) (shortcut_root kept other)

    -- The loop over the fields.
    unfoldable pub extract_fields :
        String → Node → ShortcutDoc → List ExtractorField → SamlResult (List (String × Value))
    extract_fields source root kept [] = ok []
    extract_fields source root kept (f ∷ fs) = do
      d ← document_of source root kept f.shortcut
      rest ← extract_fields source root d.2 fs
      ok ((f.key, extract_field d.0 d.1 f) ∷ rest)

    unfoldable pub extract_with_limits : String → List ExtractorField → SamlResult Value
    extract_with_limits source fields = do
      root ← parse_with_limits xml source limits
      pairs ← extract_fields source root none fields
      ok (object_of pairs)
