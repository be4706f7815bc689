-- ===== src/Xml/Dom/Invariant.antt =====
-- The limits of a whole document (src/xml/dom.rs), by the invariant of the loop.
use risaml.Prelude.{
  ◌≤◌, String, len, List, [], ◌∷◌, All, ◌≡◌, arith, ok, >>=-eq-ok, of_ok, map_err, is_nil, not,
  fail_if,
}
use risaml.Errors.{SamlError, Foreign}
use risaml.Libraries.Xml.{Positioned, XmlLibrary}
use risaml.Xml.Dom.Tree.{Node, size}
use risaml.Xml.Dom.{XmlLimits, check_input_bytes, ParseMode, Reader}
use risaml.Xml.Dom.Parse.{step, run, empty_reader, only_root, parse_roots_inner, parse_with_limits}
use risaml.Xml.Dom.Bounds.{Fits, total, IsValid}
use risaml.Xml.Dom.Steps.{step-IsValid}

module _ (limits : XmlLimits) where
  module _ (xml : XmlLibrary) (source : String) (mode : ParseMode) where
    -- The roots that the loop returns are within the limits, and count no more elements.
    run-Fits :
        (r : Reader) (events : List (Foreign Positioned)) (out : List Node)
        → IsValid limits r
        → run xml source limits mode r events ≡ ok out
        → All (Fits limits 1) out × (total out ≤ limits.max_nodes)
    unfolding run
    run-Fits r [] out v h =
        let (_, _, last) = >>=-eq-ok (fail_if (not (is_nil r.stack)) _) _ h in
        of_ok (λ ns. All (Fits limits 1) ns × (total ns ≤ limits.max_nodes)) last
          (v.roots_fit, omega (arith, v.counted, v.within_nodes))
    run-Fits r (e ∷ events) out v h =
        let (event, _, h1) = >>=-eq-ok (map_err SamlError.xml e) _ h in
        let (next, stepped, h2) = >>=-eq-ok (step xml source limits mode r event) _ h1 in
        run-Fits next events out (step-IsValid limits xml source mode r event next v stepped) h2

only_root_lem : (roots : List Node) (root : Node) → only_root roots ≡ ok root → roots ≡ root ∷ []
unfolding only_root
only_root_lem roots root h = ground arith

module _ (xml : XmlLibrary) (source : String) (limits : XmlLimits) where
  -- The roots that are read, in either mode, from a source within `max_bytes`: every element of
  -- theirs is within the limits on depth, attributes and text, and together they have at most
  -- `max_nodes` elements.
  pub parse_roots_inner-Fits :
      (mode : ParseMode) (out : List Node)
      → parse_roots_inner xml source limits mode ≡ ok out
      → (len source ≤ limits.max_bytes) × All (Fits limits 1) out × (total out ≤ limits.max_nodes)
  unfolding parse_roots_inner check_input_bytes total
  parse_roots_inner-Fits mode out h =
      let (_, short, h1) = >>=-eq-ok (check_input_bytes limits (len source)) _ h in
      let within : len source ≤ limits.max_bytes = ground arith in
      let start : IsValid limits empty_reader = record {
        stack_fits = tt;
        roots_fit = tt;
        counted = omega arith;
        within_nodes = omega arith;
      } in
      let bounds =
        run-Fits limits xml source mode empty_reader (xml.read_events source) out start h1 in
      (within, bounds.0, bounds.1)

  -- A document that is parsed is no longer than `max_bytes`, every element of it, with its
  -- attributes and its text, is within the limits, and it has at most `max_nodes` elements.
  pub parse_with_limits-Fits :
      (root : Node)
      → parse_with_limits xml source limits ≡ ok root
      → (len source ≤ limits.max_bytes) × Fits limits 1 root × (size root ≤ limits.max_nodes)
  unfolding parse_with_limits total
  parse_with_limits-Fits root h =
      let (roots, read, last) =
        >>=-eq-ok (parse_roots_inner xml source limits ParseMode.document) _ h in
      let (within, fit, few) = parse_roots_inner-Fits ParseMode.document roots read in
      let only = only_root_lem roots root last in
      let fits : All (Fits limits 1) (root ∷ []) = rw only at fit in
      let count : total (root ∷ []) ≤ limits.max_nodes = rw only at few in
      (within, fits.0, omega (arith, count))
