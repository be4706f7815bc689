-- ===== src/Tests/Xml.antt =====
-- The reader of src/xml/dom.rs at a document.
use risaml.Prelude.{len, ◌≤◌, ◌≡◌, refl, ok}
use risaml.Xml.Dom.{default_limits}
use risaml.Xml.Dom.Tree.{size}
use risaml.Xml.Dom.Parse.{parse_with_limits}
use risaml.Xml.Dom.Bounds.{Fits}
use risaml.Xml.Dom.Invariant.{parse_with_limits-Fits}
use risaml.Tests.Documents.{sample_xml, signed_source, signed_root}

pub signed_root_parsed : parse_with_limits sample_xml signed_source default_limits ≡ ok signed_root
unfolding parse_with_limits risaml.Xml.Dom.Parse.parse_roots_inner risaml.Xml.Dom.check_input_bytes
    risaml.Xml.Dom.Parse.run risaml.Xml.Dom.Parse.open_element risaml.Xml.Dom.checked_node_count
    risaml.Xml.Dom.check_depth risaml.Xml.Dom.read_attrs risaml.Xml.Dom.read_attrs_from
    risaml.Xml.Dom.push_child risaml.Xml.Dom.Parse.only_root risaml.Xml.Dom.find_lt
signed_root_parsed = refl

parse_with_limits-Fits_example :
    (len signed_source ≤ 1_048_576)
    × Fits default_limits 1 signed_root
    × (size signed_root ≤ 50_000)
parse_with_limits-Fits_example =
    parse_with_limits-Fits sample_xml signed_source default_limits signed_root signed_root_parsed
