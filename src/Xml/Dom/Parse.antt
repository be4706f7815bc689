-- ===== src/Xml/Dom/Parse.antt =====
-- `parse_roots_inner`, `parse_with_limits` and their callers, in src/xml/dom.rs.

use risaml.Prelude.{
  ℕ, ◌+◌, String, len, not, none, some, List, [], ◌∷◌, is_nil, length, ok, err, ◌>>=◌, ◌>>◌,
  fail_if, ok_or, map_err, if◌then◌else◌,
}
use risaml.Prelude.Text.{concat}
use risaml.Errors.{SamlError, SamlResult, Foreign}
use risaml.Libraries.Xml.{Element, GeneralRef, Event, Positioned, XmlLibrary}
use risaml.Xml.Dom.Tree as Tree
use risaml.Xml.Dom.Tree.{Node, node}
use risaml.Xml.Dom.{
  XmlLimits, check_input_bytes, checked_node_count, check_depth, checked_append_text, read_attrs,
  find_lt, ParseMode, Reader, push_child, is_xml_whitespace, reject_non_document_content,
  default_limits,
}

-- The text that a reference stands for: `push_general_ref` appends it.
unfoldable pub general_ref_text : XmlLibrary → GeneralRef → SamlResult String
general_ref_text xml e = do
  char ← map_err SamlError.xml (e.char_ref)
  elim char [
    | some ch ↦ ok ch
    | none ↦ do
      entity ← map_err SamlError.xml (e.entity)
      ok_or (xml.predefined_entity entity)
          (SamlError.xml (concat ("unrecognized entity `" ∷ entity ∷ "`" ∷ [])))
  ]

unfoldable pub push_general_ref : XmlLibrary → Node → GeneralRef → XmlLimits → SamlResult Node
push_general_ref xml top e limits = do
  resolved ← general_ref_text xml e
  text ← checked_append_text (Tree.text top) resolved limits
  ok (Tree.with_text text top)

-- A start tag, or an empty element, that passes the limits: its node, and the count behind it.
unfoldable pub open_element :
    String → XmlLimits → Reader → ℕ → ℕ → ℕ → Element → SamlResult (Node × ℕ)
open_element source limits r before after end e = do
  count ← checked_node_count (r.node_count) limits
  check_depth (length (r.stack) + 1) limits
  attributes ← read_attrs e limits
  ok (node (e.local_name) attributes Tree.nil "" (find_lt source before after) end, count)

unfoldable pub append_text_to : XmlLimits → Reader → Node → List Node → String → SamlResult Reader
append_text_to limits r top rest text = do
  all ← checked_append_text (Tree.text top) text limits
  ok (record r { stack = Tree.with_text all top ∷ rest })

unfoldable pub add_child : Reader → ℕ → List Node → Node → Reader
add_child r count stack n =
    let pushed = push_child stack (r.roots) n in
    record { stack = pushed.0; roots = pushed.1; node_count = count }

module _ (xml : XmlLibrary) (source : String) (limits : XmlLimits) (mode : ParseMode) where
  -- One event that is not `Eof`: a turn of the loop.
  unfoldable pub step : Reader → Positioned → SamlResult Reader
  unfolding add_child
  step r p = elim p.event [
    | Event.start e ↦ do
      opened ← open_element source limits r p.before p.after 0 e
      ok (record r { stack = opened.0 ∷ r.stack; node_count = opened.1 })
    | Event.empty e ↦ do
      opened ← open_element source limits r p.before p.after p.after e
      ok (add_child r opened.1 r.stack opened.0)
    | Event.close ↦ elim r.stack [
      | [] ↦ ok r
      | top ∷ rest ↦ ok (add_child r r.node_count rest (Tree.with_end p.after top))
    ]
    | Event.text t ↦ do
      decoded ← map_err SamlError.xml t
      elim r.stack [
        | [] ↦
            if is_xml_whitespace decoded
            then ok r
            else (reject_non_document_content mode >>= λ _. ok r)
        | top ∷ rest ↦ append_text_to limits r top rest decoded
      ]
    | Event.cdata t ↦ elim r.stack [
      | [] ↦ reject_non_document_content mode >>= λ _. ok r
      | top ∷ rest ↦ append_text_to limits r top rest t
    ]
    | Event.general_ref e ↦ elim r.stack [
      | [] ↦ reject_non_document_content mode >>= λ _. ok r
      | top ∷ rest ↦ do
        named ← push_general_ref xml top e limits
        ok (record r { stack = named ∷ rest })
    ]
    | Event.doc_type ↦ err (SamlError.xml "DOCTYPE is not allowed")
    | Event.other ↦ ok r
  ]

  -- The loop, to the end of the events.
  unfoldable pub run : Reader → List (Foreign Positioned) → SamlResult (List Node)
  unfolding step
  run r [] = do
    fail_if (not (is_nil (r.stack))) (SamlError.xml "unclosed document element")
    ok (r.roots)
  run r (e ∷ events) = do event ← map_err SamlError.xml e; next ← step r event; run next events

abbrev pub empty_reader : Reader
empty_reader = record { stack = []; roots = []; node_count = 0 }

unfoldable pub parse_roots_inner :
    XmlLibrary → String → XmlLimits → ParseMode → SamlResult (List Node)
parse_roots_inner xml source limits mode = do
  check_input_bytes limits (len source)
  run xml source limits mode empty_reader (xml.read_events source)

unfoldable pub only_root : List Node → SamlResult Node
only_root [] = err (SamlError.xml "no document element")
only_root (root ∷ []) = ok root
only_root _ = err (SamlError.xml "multiple document elements")

-- `parse_with_limits`: the `root` of its `Document`.
unfoldable pub parse_with_limits : XmlLibrary → String → XmlLimits → SamlResult Node
parse_with_limits xml source limits = do
  roots ← parse_roots_inner xml source limits ParseMode.document
  only_root roots

unfoldable pub parse : XmlLibrary → String → SamlResult Node
parse xml source = parse_with_limits xml source default_limits

unfoldable pub parse_roots_with_limits : XmlLibrary → String → XmlLimits → SamlResult (List Node)
parse_roots_with_limits xml source limits = parse_roots_inner xml source limits ParseMode.roots

unfoldable pub parse_roots : XmlLibrary → String → SamlResult (List Node)
parse_roots xml source = parse_roots_with_limits xml source default_limits
