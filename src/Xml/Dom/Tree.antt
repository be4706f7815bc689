-- ===== src/Xml/Dom/Tree.antt =====
-- `Node` of src/xml/dom.rs: an element, its attributes, its children, and its place in the source.

use risaml.Prelude.{ℕ, suc, ◌+◌, String, Option, List, [], ◌∷◌, find, ◌==◌, string_eq}
use mathlib.Core.Option

mutual
  pub data Node : Type 0 where
    node : String → List (String × String) → Nodes → String → ℕ → ℕ → Node

  pub data Nodes : Type 0 where
    nil : Nodes
    cons : Node → Nodes → Nodes

abbrev pub local_name : Node → String
local_name (node n _ _ _ _ _) = n

abbrev pub attrs : Node → List (String × String)
attrs (node _ a _ _ _ _) = a

abbrev pub text : Node → String
text (node _ _ _ t _ _) = t

abbrev pub start : Node → ℕ
start (node _ _ _ _ s _) = s

abbrev pub end : Node → ℕ
end (node _ _ _ _ _ e) = e

abbrev pub to_list : Nodes → List Node
to_list nil = []
to_list (cons n ns) = n ∷ to_list ns

-- The children in document order.
abbrev pub children : Node → List Node
children (node _ _ c _ _ _) = to_list c

-- `Node::attr`
unfoldable pub attr : String → Node → Option String
attr name n =
    Option.map (λ (p : String × String). p.1)
      (find (λ (p : String × String). p.0 == name) (attrs n))

abbrev pub snoc : Nodes → Node → Nodes
snoc nil m = cons m nil
snoc (cons n ns) m = cons n (snoc ns m)

abbrev pub append_child : Node → Node → Node
append_child m (node n a c t s e) = node n a (snoc c m) t s e

abbrev pub with_end : ℕ → Node → Node
with_end e (node n a c t s _) = node n a c t s e

abbrev pub with_text : String → Node → Node
with_text t (node n a c _ s e) = node n a c t s e

-- How many elements the tree has.
unfoldable mutual
  pub size : Node → ℕ
  size (node _ _ c _ _ _) = suc (sizes c)

  pub sizes : Nodes → ℕ
  sizes nil = 0
  sizes (cons n ns) = size n + sizes ns
