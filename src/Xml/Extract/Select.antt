-- ===== src/Xml/Extract/Select.antt =====
-- src/xml/extract.rs: which elements a path selects.
use risaml.Prelude.{
  String, Bool, none, some, List, [], ◌∷◌, filter, flat_map, ◌==◌, string_eq, if◌then◌else◌,
}
use risaml.Prelude.Text.{strip_prefix, contains_str}
use risaml.Xml.Dom.Tree.{Node, local_name, children}

-- A segment behind `~` is to occur in the name.
unfoldable pub seg_matches : String → String → Bool
seg_matches name segment = elim (strip_prefix "~" segment) [
  | none ↦ name == segment
  | some sub ↦ contains_str sub name
]

-- The loop of `select_path` and `descend`: one segment for each level.
unfoldable pub walk : List Node → List String → List Node
walk current [] = current
walk current (segment ∷ rest) =
    walk (filter (λ c. seg_matches (local_name c) segment) (flat_map children current)) rest

unfoldable pub select_path : Node → List String → List Node
unfolding walk
select_path root [] = []
select_path root (first ∷ rest) =
    let selected = walk (root ∷ []) rest in
    if seg_matches (local_name root) first then selected else []

unfoldable pub descend : Node → List String → List Node
unfolding walk
descend n names = walk (n ∷ []) names
