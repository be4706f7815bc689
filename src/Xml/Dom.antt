-- ===== src/Xml/Dom.antt =====
-- src/xml/dom.rs: the document tree, and the reader that builds it from the events of `quick_xml`
-- within limits.
pub mod Tree
pub mod Parse
pub mod Bounds
pub mod Steps
pub mod Invariant
use risaml.Prelude.{
  ℕ, suc, ◌+◌, ◌-◌, ◌^◌, String, len, slice, Bool, true, false, ◌||◌, not, Option, none, some, List,
  [], ◌∷◌, ◌++◌, is_nil, length, Result, ok, err, ◌>>=◌, ◌>>◌, fail_if, ok_or, map_err, ltb, ◌==◌,
  nat_eq, if◌then◌else◌, head,
}
use mathlib.Core.Option
use Prim.Native.Char.{Char, code, len_utf8}
use risaml.Prelude.Text.{concat, show}
use risaml.Errors.{SamlError, SamlResult, Foreign}
use risaml.Libraries.Xml.{XmlAttribute, Element, GeneralRef, Event, Positioned, XmlLibrary}
use risaml.Xml.Dom.Tree.{Node, append_child}

pub record XmlLimits : Type 0 where
  pub max_bytes : ℕ
  pub max_depth : ℕ
  pub max_nodes : ℕ
  pub max_attributes_per_element : ℕ
  pub max_attribute_value_bytes : ℕ
  pub max_text_bytes : ℕ

abbrev pub usize_max : ℕ
usize_max = 2 ^ 64 - 1

abbrev pub unbounded : XmlLimits
unbounded = record {
  max_bytes = usize_max;
  max_depth = usize_max;
  max_nodes = usize_max;
  max_attributes_per_element = usize_max;
  max_attribute_value_bytes = usize_max;
  max_text_bytes = usize_max;
}

-- `XmlLimits::default`
abbrev pub default_limits : XmlLimits
default_limits = record {
  max_bytes = 1_048_576;
  max_depth = 1024;
  max_nodes = 50_000;
  max_attributes_per_element = 64;
  max_attribute_value_bytes = 16_384;
  max_text_bytes = 1_048_576;
}

abbrev limit_exceeded : String → ℕ → SamlError
limit_exceeded limit max =
    SamlError.invalid
      (concat ("ERR_XML_LIMIT_EXCEEDED: " ∷ limit ∷ " exceeded (" ∷ show max ∷ ")" ∷ []))

-- `usize::checked_add`
abbrev checked_add : ℕ → ℕ → Option ℕ
checked_add a b = if ltb usize_max (a + b) then none else some (a + b)

unfoldable pub check_input_bytes : XmlLimits → ℕ → SamlResult (Unit {0})
check_input_bytes limits n =
    fail_if (ltb limits.max_bytes n) (limit_exceeded "max XML bytes" limits.max_bytes)

-- The count behind the one that is passed.
unfoldable pub checked_node_count : ℕ → XmlLimits → SamlResult ℕ
checked_node_count count limits = do
  next ← ok_or (checked_add count 1) (limit_exceeded "max XML nodes" limits.max_nodes)
  fail_if (ltb limits.max_nodes next) (limit_exceeded "max XML nodes" limits.max_nodes)
  ok next

unfoldable pub check_depth : ℕ → XmlLimits → SamlResult (Unit {0})
check_depth depth limits =
    fail_if (ltb limits.max_depth depth) (limit_exceeded "max XML depth" limits.max_depth)

-- The text with the other behind it.
unfoldable pub checked_append_text : String → String → XmlLimits → SamlResult String
checked_append_text target text limits = do
  next_len ←
      ok_or (checked_add (len target) (len text))
        (limit_exceeded "max XML text bytes" limits.max_text_bytes)
  fail_if (ltb limits.max_text_bytes next_len)
      (limit_exceeded "max XML text bytes" limits.max_text_bytes)
  ok (Prim.Native.String.◌++◌ target text)

-- The attributes from the one with this index on.
unfoldable pub read_attrs_from :
    ℕ → List (Foreign XmlAttribute) → XmlLimits → SamlResult (List (String × String))
read_attrs_from index [] limits = ok []
read_attrs_from index (a ∷ rest) limits = do
  fail_if (not (ltb index limits.max_attributes_per_element))
      (limit_exceeded "max XML attributes per element" limits.max_attributes_per_element)
  attribute ← map_err SamlError.xml a
  value ← map_err SamlError.xml (attribute.value)
  fail_if (ltb limits.max_attribute_value_bytes (len value))
      (limit_exceeded "max XML attribute value bytes" limits.max_attribute_value_bytes)
  others ← read_attrs_from (suc index) rest limits
  ok (if attribute.is_namespace_binding then others else (attribute.key, value) ∷ others)

unfoldable pub read_attrs : Element → XmlLimits → SamlResult (List (String × String))
read_attrs e limits = read_attrs_from 0 e.attributes limits

position_of : ℕ → String → Option ℕ
position_of c Prim.Native.String.[] = none
position_of c (Prim.Native.String.◌∷◌ d s) =
    let rest = position_of c s in
    if code d == c then some 0 else Option.map (λ p. len_utf8 d + p) rest

unfoldable pub find_lt : String → ℕ → ℕ → ℕ
unfolding position_of
find_lt xml before after = elim (position_of b'<' (slice xml before after)) [
  | none ↦ before
  | some p ↦ before + p
]

pub data ParseMode : Type 0 where
  document roots : ParseMode

-- What the loop carries: the open elements, the innermost first, the finished roots, and how many
-- elements have begun.
pub record Reader : Type 0 where
  pub stack : List Node
  pub roots : List Node
  pub node_count : ℕ

unfoldable pub push_child : List Node → List Node → Node → List Node × List Node
push_child [] done n = ([], done ++ (n ∷ []))
push_child (parent ∷ stack) done n = (append_child n parent ∷ stack, done)

unfoldable pub is_xml_whitespace : String → Bool
is_xml_whitespace Prim.Native.String.[] = true
is_xml_whitespace (Prim.Native.String.◌∷◌ c s) =
    let rest = is_xml_whitespace s in
    if code c == 0x20 || code c == 0x09 || code c == 0x0d || code c == 0x0a then rest else false

unfoldable pub reject_non_document_content : ParseMode → SamlResult (Unit {0})
reject_non_document_content ParseMode.document =
    err (SamlError.xml "content is not allowed outside the document element")
reject_non_document_content ParseMode.roots = ok tt
