-- ===== src/Xml/Dom/Bounds.antt =====
-- The limits of src/xml/dom.rs, as a property of the trees that the reader returns.
use risaml.Prelude.{
  ℕ, suc, ◌+◌, ◌-◌, ◌≤◌, String, len, List, [], ◌∷◌, ◌++◌, length, All, ◌≡◌, refl, arith, ok, err,
  Result-cases, inl, inr,
}
use text.Mathlib.TextPositions.{len-append}
use risaml.Errors.{Foreign}
use risaml.Libraries.Xml.{XmlAttribute}
use risaml.Xml.Dom.Tree as Tree
use risaml.Xml.Dom.Tree.{Node, Nodes, node, nil, cons, snoc, size, sizes}
use risaml.Xml.Dom.{
  XmlLimits, checked_node_count, check_depth, checked_append_text, read_attrs_from, Reader,
}

abbrev pub ValueFits : XmlLimits → String × String → Type 0
ValueFits limits a = len a.1 ≤ limits.max_attribute_value_bytes

-- The element at this level, counted from 1 at the document element, is within the limits, and so
-- are those in it.
abbrev mutual
  pub Fits : XmlLimits → ℕ → Node → Type 0
  Fits limits level (node _ attrs children text _ _) =
      (level ≤ limits.max_depth)
      × (length attrs ≤ limits.max_attributes_per_element)
      × All (ValueFits limits) attrs
      × (len text ≤ limits.max_text_bytes)
      × FitAll limits (suc level) children

  pub FitAll : XmlLimits → ℕ → Nodes → Type 0
  FitAll limits level nil = Unit
  FitAll limits level (cons n ns) = Fits limits level n × FitAll limits level ns

abbrev pub StackFits : XmlLimits → List Node → Type 0
StackFits limits [] = Unit
StackFits limits (n ∷ rest) = Fits limits (length rest + 1) n × StackFits limits rest

unfoldable pub total : List Node → ℕ
total [] = 0
total (n ∷ ns) = size n + total ns

-- What holds between two turns of the loop.
pub record IsValid (limits : XmlLimits) (r : Reader) : Type 0 where
  pub stack_fits : StackFits limits r.stack
  pub roots_fit : All (Fits limits 1) r.roots
  pub counted : total r.stack + total r.roots ≡ r.node_count
  pub within_nodes : r.node_count ≤ limits.max_nodes

module _ (limits : XmlLimits) where
  pub checked_node_count-le :
      (count next : ℕ)
      → checked_node_count count limits ≡ ok next
      → (next ≡ count + 1) × (next ≤ limits.max_nodes)
  unfolding checked_node_count
  checked_node_count-le count next h = ground arith

  pub check_depth-le : (depth : ℕ) → check_depth depth limits ≡ ok tt → depth ≤ limits.max_depth
  unfolding check_depth
  check_depth-le depth h = ground arith

  pub checked_append_text-le :
      (target text all : String)
      → checked_append_text target text limits ≡ ok all
      → len all ≤ limits.max_text_bytes
  unfolding checked_append_text
  checked_append_text-le target text all h = ground (arith, len-append target text)

  pub read_attrs_from-Fits :
      (index : ℕ) (es : List (Foreign XmlAttribute)) (out : List (String × String))
      → read_attrs_from index es limits ≡ ok out
      → (length out ≤ limits.max_attributes_per_element - index) × All (ValueFits limits) out
  unfolding read_attrs_from
  read_attrs_from-Fits index [] out h = let e : [] ≡ out = cc in rw (← e) (omega arith, tt)
  read_attrs_from-Fits index (ok a ∷ rest) out h =
      elim (Result-cases (read_attrs_from (suc index) rest limits)) [
        | inl (others, made) ↦ ground (arith, read_attrs_from-Fits (suc index) rest others made)
        | inr (e, made) ↦ ground arith
      ]
  read_attrs_from-Fits index (err e ∷ rest) out h = ground arith

  snoc-FitAll :
      (level : ℕ) (c : Nodes) (m : Node)
      → FitAll limits level c
      → Fits limits level m
      → FitAll limits level (snoc c m)
  snoc-FitAll level nil m h k = (k, tt)
  snoc-FitAll level (cons n ns) m h k = (h.0, snoc-FitAll level ns m h.1 k)

  pub append_child-Fits :
      (level : ℕ) (m parent : Node)
      → Fits limits (suc level) m
      → Fits limits level parent
      → Fits limits level (Tree.append_child m parent)
  append_child-Fits level m (node n a c t s e) h (d, l, v, x, cs) =
      (d, l, v, x, snoc-FitAll (suc level) c m cs h)

  pub with_end-Fits :
      (level e : ℕ) (n : Node) → Fits limits level n → Fits limits level (Tree.with_end e n)
  with_end-Fits level e (node _ _ _ _ _ _) h = h

  pub with_text-Fits :
      (level : ℕ) (t : String) (n : Node)
      → Fits limits level n
      → len t ≤ limits.max_text_bytes
      → Fits limits level (Tree.with_text t n)
  with_text-Fits level t (node _ _ _ _ _ _) (d, l, v, x, cs) h = (d, l, v, h, cs)

sizes-snoc : (c : Nodes) (m : Node) → sizes (snoc c m) ≡ sizes c + size m
unfolding size
sizes-snoc nil m = omega arith
sizes-snoc (cons n ns) m = omega (arith, sizes-snoc ns m)

pub size-append_child : (m parent : Node) → size (Tree.append_child m parent) ≡ size parent + size m
unfolding size
size-append_child m (node n a c t s e) = omega (arith, sizes-snoc c m)

pub size-with_end : (e : ℕ) (n : Node) → size (Tree.with_end e n) ≡ size n
unfolding size
size-with_end e (node _ _ _ _ _ _) = refl

pub size-with_text : (t : String) (n : Node) → size (Tree.with_text t n) ≡ size n
unfolding size
size-with_text t (node _ _ _ _ _ _) = refl

pub total-append : (a b : List Node) → total (a ++ b) ≡ total a + total b
unfolding total
total-append [] b = omega arith
total-append (n ∷ ns) b = omega (arith, total-append ns b)
