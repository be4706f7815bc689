-- ===== src/Libraries/Xml.antt =====
-- The `quick_xml` crate: a document as the sequence of what its readers return before `Eof`.
-- Names are texts, since both readers are made from a `str`.
use risaml.Prelude.{ℕ, String, Bool, Option, List}
use risaml.Errors.{Foreign}

-- `ResolveResult`: the namespace of a name. A bound one has its raw text, and the value that the
-- attribute normalisation of XML 1.0 makes of it.
pub data Namespace : Type 0 where
  unbound unknown : Namespace
  bound : String → Foreign String → Namespace

pub record XmlAttribute : Type 0 where
  -- the name as it is written, and behind its prefix
  pub key : String
  pub local_name : String
  pub is_namespace_binding : Bool
  -- `NsReader::resolver().resolve_attribute`
  pub namespace : Namespace
  -- `decoded_and_normalized_value`
  pub value : Foreign String

pub record Element : Type 0 where
  pub local_name : String
  pub attributes : List (Foreign XmlAttribute)

-- `BytesRef`: `resolve_char_ref`, and `decode`.
pub record GeneralRef : Type 0 where
  pub char_ref : Foreign (Option String)
  pub entity : Foreign String

pub data Event : Type 0 where
  start empty : Element → Event
  close doc_type other : Event
  text : Foreign String → Event
  cdata : String → Event
  general_ref : GeneralRef → Event

-- What `Reader` returns, between two values of `buffer_position`.
pub record Positioned : Type 0 where
  pub before : ℕ
  pub after : ℕ
  pub event : Event

-- What `NsReader::read_resolved_event` returns.
pub record Resolved : Type 0 where
  pub namespace : Namespace
  pub event : Event

pub record XmlLibrary : Type 0 where
  pub read_events : String → List (Foreign Positioned)
  -- with `set_max_declarations_per_element`, if it is called
  pub read_resolved_events : Option ℕ → String → List (Foreign Resolved)
  -- `resolve_predefined_entity`
  pub predefined_entity : String → Option String
