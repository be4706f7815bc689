-- ===== src/Xml/Dom/Steps.antt =====
-- Every turn of the loop of `parse_roots_inner` (src/xml/dom.rs) keeps the limits.
use risaml.Prelude.{
  ℕ, suc, ◌+◌, ◌≤◌, String, len, List, [], ◌∷◌, length, All, All-append, ◌≡◌, refl, arith, ok,
  ◌>>=◌, >>=-eq-ok, of_ok, Bool-cases, inl, inr, map_err,
}
use risaml.Errors.{SamlError, Foreign}
use risaml.Libraries.Xml.{Element, GeneralRef, Event, Positioned, XmlLibrary}
use risaml.Xml.Dom.Tree as Tree
use risaml.Xml.Dom.Tree.{Node, Nodes, node, nil, cons, snoc, size, sizes}
use risaml.Xml.Dom.{
  XmlLimits, checked_node_count, check_depth, checked_append_text, read_attrs, read_attrs_from,
  ParseMode, Reader, push_child, reject_non_document_content, is_xml_whitespace,
}
use risaml.Xml.Dom.Parse.{
  step, open_element, append_text_to, push_general_ref, general_ref_text, add_child,
}
use risaml.Xml.Dom.Bounds.{
  Fits, StackFits, total, IsValid, checked_node_count-le, check_depth-le, checked_append_text-le,
  read_attrs_from-Fits, append_child-Fits, with_end-Fits, with_text-Fits, size-append_child,
  size-with_end, size-with_text, total-append,
}

module _ (limits : XmlLimits) where
  open_element-Fits :
      (source : String) (r : Reader) (before after end : ℕ) (e : Element) (n : Node) (count : ℕ)
      → open_element source limits r before after end e ≡ ok (n, count)
      → Fits limits (length r.stack + 1) n
        × (size n ≡ 1)
        × (count ≡ r.node_count + 1)
        × (count ≤ limits.max_nodes)
  unfolding open_element read_attrs size
  open_element-Fits source r before after end e n count h =
      let (next, counted, h1) = >>=-eq-ok (checked_node_count r.node_count limits) _ h in
      let (_, deep, h2) = >>=-eq-ok (check_depth (length r.stack + 1) limits) _ h1 in
      let (attributes, read, h3) = >>=-eq-ok (read_attrs_from 0 e.attributes limits) _ h2 in
      let counts = checked_node_count-le limits r.node_count next counted in
      let depth = check_depth-le limits (length r.stack + 1) deep in
      let fits = read_attrs_from-Fits limits 0 e.attributes attributes read in
      of_ok
        (λ (o : Node × ℕ).
          Fits limits (length r.stack + 1) o.0
          × (size o.0 ≡ 1)
          × (o.1 ≡ r.node_count + 1)
          × (o.1 ≤ limits.max_nodes))
        h3
        ((depth, omega (arith, fits.0), fits.1, omega arith, tt), omega arith, counts.0, counts.1)

  add_child-IsValid :
      (r : Reader) (count : ℕ) (stack : List Node) (n : Node)
      → StackFits limits stack
      → Fits limits (length stack + 1) n
      → All (Fits limits 1) r.roots
      → total stack + size n + total r.roots ≡ count
      → count ≤ limits.max_nodes
      → IsValid limits (add_child r count stack n)
  unfolding add_child push_child total
  add_child-IsValid r count [] n stack fits roots counted within = record {
    stack_fits = tt;
    roots_fit = All-append (Fits limits 1) r.roots (n ∷ []) roots (fits, tt);
    counted = omega (arith, counted, total-append r.roots (n ∷ []));
    within_nodes = within;
  }
  add_child-IsValid r count (parent ∷ rest) n stack fits roots counted within =
      let level : suc (length rest) + 1 ≡ suc (length rest + 1) = omega arith in
      let inner : Fits limits (suc (length rest + 1)) n = rw (← level) fits in
      record {
        stack_fits = (append_child-Fits limits (length rest + 1) n parent inner stack.0, stack.1);
        roots_fit = roots;
        counted = omega (arith, counted, size-append_child n parent);
        within_nodes = within;
      }

  with_top-IsValid :
      (r : Reader) (top : Node) (rest : List Node) (text : String)
      → IsValid limits r
      → r.stack ≡ top ∷ rest
      → len text ≤ limits.max_text_bytes
      → IsValid limits (record r { stack = Tree.with_text text top ∷ rest })
  unfolding total
  with_top-IsValid r top rest text v shape short =
      let fits : StackFits limits (top ∷ rest) = rw shape at v.stack_fits in
      let counts : total (top ∷ rest) + total r.roots ≡ r.node_count = rw shape at v.counted in
      record {
        stack_fits = (with_text-Fits limits (length rest + 1) text top fits.0 short, fits.1);
        roots_fit = v.roots_fit;
        counted = omega (arith, counts, size-with_text text top);
        within_nodes = v.within_nodes;
      }

  append_text_to-IsValid :
      (r : Reader) (top : Node) (rest : List Node) (text : String) (next : Reader)
      → IsValid limits r
      → r.stack ≡ top ∷ rest
      → append_text_to limits r top rest text ≡ ok next
      → IsValid limits next
  unfolding append_text_to
  append_text_to-IsValid r top rest text next v shape h =
      let (all, appended, last) = >>=-eq-ok (checked_append_text (Tree.text top) text limits) _ h in
      let short = checked_append_text-le limits (Tree.text top) text all appended in
      of_ok (IsValid limits) last (with_top-IsValid r top rest all v shape short)

  module _ (xml : XmlLibrary) (source : String) (mode : ParseMode) where
    step-start :
        (r : Reader) (before after : ℕ) (e : Element) (next : Reader)
        → IsValid limits r
        → step xml source limits mode r
            (record { before = before; after = after; event = Event.start e })
          ≡ ok next
        → IsValid limits next
    unfolding step total
    step-start r before after e next v h =
        let (opened, made, last) = >>=-eq-ok (open_element source limits r before after 0 e) _ h in
        let (fits, one, count, within) =
          open_element-Fits source r before after 0 e opened.0 opened.1 made in
        of_ok (IsValid limits) last (record {
          stack_fits = (fits, v.stack_fits);
          roots_fit = v.roots_fit;
          counted = omega (arith, one, count, v.counted);
          within_nodes = within;
        })

    step-empty :
        (r : Reader) (before after : ℕ) (e : Element) (next : Reader)
        → IsValid limits r
        → step xml source limits mode r
            (record { before = before; after = after; event = Event.empty e })
          ≡ ok next
        → IsValid limits next
    unfolding step
    step-empty r before after e next v h =
        let (opened, made, last) =
          >>=-eq-ok (open_element source limits r before after after e) _ h in
        let (fits, one, count, within) =
          open_element-Fits source r before after after e opened.0 opened.1 made in
        of_ok (IsValid limits) last (
          add_child-IsValid r opened.1 r.stack opened.0 v.stack_fits fits v.roots_fit
            (omega (arith, one, count, v.counted)) within)

    step-close :
        (r : Reader) (stack : List Node) (before after : ℕ) (next : Reader)
        → IsValid limits r
        → r.stack ≡ stack
        → step xml source limits mode r
            (record { before = before; after = after; event = Event.close })
          ≡ ok next
        → IsValid limits next
    unfolding step total
    step-close r [] before after next v shape h =
        of_ok (IsValid limits) (rw shape at h) (rw shape at v)
    step-close r (top ∷ rest) before after next v shape h =
        let fits : StackFits limits (top ∷ rest) = rw shape at v.stack_fits in
        let counts : total (top ∷ rest) + total r.roots ≡ r.node_count = rw shape at v.counted in
        let n = Tree.with_end after top in
        of_ok (IsValid limits) (rw shape at h) (
          add_child-IsValid r r.node_count rest n fits.1
            (with_end-Fits limits (length rest + 1) after top fits.0) v.roots_fit
            (omega (arith, counts, size-with_end after top)) v.within_nodes)

    outside :
        (r next : Reader)
        → IsValid limits r
        → (reject_non_document_content mode >>= λ _. ok r) ≡ ok next
        → IsValid limits next
    outside r next v h =
        let (_, _, last) = >>=-eq-ok (reject_non_document_content mode) _ h in
        of_ok (IsValid limits) last v

    step-text :
        (r : Reader) (stack : List Node) (before after : ℕ) (t : Foreign String) (next : Reader)
        → IsValid limits r
        → r.stack ≡ stack
        → step xml source limits mode r
            (record { before = before; after = after; event = Event.text t })
          ≡ ok next
        → IsValid limits next
    unfolding step
    step-text r [] before after t next v shape h =
        let (decoded, _, last) = >>=-eq-ok (map_err SamlError.xml t) _ (rw shape at h) in
        elim (Bool-cases (is_xml_whitespace decoded)) [
          | inl blank ↦ of_ok (IsValid limits) (rw blank at last) v
          | inr content ↦ outside r next v (rw content at last)
        ]
    step-text r (top ∷ rest) before after t next v shape h =
        let (decoded, _, last) = >>=-eq-ok (map_err SamlError.xml t) _ (rw shape at h) in
        append_text_to-IsValid r top rest decoded next v shape last

    step-cdata :
        (r : Reader) (stack : List Node) (before after : ℕ) (t : String) (next : Reader)
        → IsValid limits r
        → r.stack ≡ stack
        → step xml source limits mode r
            (record { before = before; after = after; event = Event.cdata t })
          ≡ ok next
        → IsValid limits next
    unfolding step
    step-cdata r [] before after t next v shape h = outside _ next (rw shape at v) (rw shape at h)
    step-cdata r (top ∷ rest) before after t next v shape h =
        append_text_to-IsValid _ top rest t next (rw shape at v) refl (rw shape at h)

    step-general_ref :
        (r : Reader) (stack : List Node) (before after : ℕ) (e : GeneralRef) (next : Reader)
        → IsValid limits r
        → r.stack ≡ stack
        → step xml source limits mode r
            (record { before = before; after = after; event = Event.general_ref e })
          ≡ ok next
        → IsValid limits next
    unfolding step push_general_ref
    step-general_ref r [] before after e next v shape h =
        outside _ next (rw shape at v) (rw shape at h)
    step-general_ref r (top ∷ rest) before after e next v shape h =
        let (named, made, last) = >>=-eq-ok (push_general_ref xml top e limits) _ (rw shape at h) in
        let (text, _, made1) = >>=-eq-ok (general_ref_text xml e) _ made in
        let (all, appended, made2) =
          >>=-eq-ok (checked_append_text (Tree.text top) text limits) _ made1 in
        let short = checked_append_text-le limits (Tree.text top) text all appended in
        let named_is : Tree.with_text all top ≡ named = cc in
        of_ok (IsValid limits) last
          (rw (← named_is) (with_top-IsValid r top rest all v shape short))

    step-event :
        (r : Reader) (b a : ℕ) (event : Event) (next : Reader)
        → IsValid limits r
        → step xml source limits mode r (record { before = b; after = a; event = event }) ≡ ok next
        → IsValid limits next
    unfolding step
    step-event r b a (Event.start e) next v h = step-start r b a e next v h
    step-event r b a (Event.empty e) next v h = step-empty r b a e next v h
    step-event r b a Event.close next v h = step-close r r.stack b a next v refl h
    step-event r b a Event.doc_type next v h = cc
    step-event r b a Event.other next v h = of_ok (IsValid limits) h v
    step-event r b a (Event.text t) next v h = step-text r r.stack b a t next v refl h
    step-event r b a (Event.cdata t) next v h = step-cdata r r.stack b a t next v refl h
    step-event r b a (Event.general_ref e) next v h = step-general_ref r r.stack b a e next v refl h

    pub step-IsValid :
        (r : Reader) (p : Positioned) (next : Reader)
        → IsValid limits r
        → step xml source limits mode r p ≡ ok next
        → IsValid limits next
    step-IsValid r p next v h = step-event r p.before p.after p.event next v h
