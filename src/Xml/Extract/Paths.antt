-- ===== src/Xml/Extract/Paths.antt =====
-- What `select_path` (src/xml/extract.rs) selects, against a relation on the elements of a tree.
use risaml.Prelude.{
  String, Bool, true, List, [], ◌∷◌, filter, flat_map, ◌≡◌, refl, ◌↔◌, inl, inr, Any, Any-map,
  Any-pick, Any-put, Any-filter, Any-of_filter, Any-flat_map, Any-of_flat_map, Bool-cases,
}
use risaml.Xml.Dom.Tree.{Node, local_name, children}
use risaml.Xml.Extract.Select.{seg_matches, walk, select_path}

-- An element is reached from another by the names of its ancestors below that one, and its own.
pub data Descends : Node → List String → Node → Type 0 where
  here : {n m : Node} → n ≡ m → Descends n [] m
  below :
      {n m : Node} {segment : String} {rest : List String} (c : Node)
      → Any (λ d. d ≡ c) (children n)
      → seg_matches (local_name c) segment ≡ true
      → Descends c rest m
      → Descends n (segment ∷ rest) m

-- An absolute path names the root first.
abbrev pub IsAtPath : Node → List String → Node → Type 0
IsAtPath root [] n = ⊥
IsAtPath root (first ∷ rest) n = (seg_matches (local_name root) first ≡ true) × Descends root rest n

-- One level of the walk.
children_at-walk :
    (segment : String) (rest : List String) (m : Node) (current : List Node)
    → Any
        (λ c. Descends c rest m)
        (filter (λ c. seg_matches (local_name c) segment) (flat_map children current))
      ↔ Any (λ c. Descends c (segment ∷ rest) m) current
children_at-walk segment rest m current = (
  λ found.
      Any-map (λ n chosen. lower n (Any-pick chosen))
        (Any-of_flat_map children current
          (Any-of_filter matches (flat_map children current) found)),
  λ above. Any-filter matches (Any-flat_map children (Any-map (λ n. raise) above)),
)
  where
    matches : Node → Bool
    matches c = seg_matches (local_name c) segment

    lower :
        (n : Node)
        → (c : Node) × Any (λ u. u ≡ c) (children n) × ((matches c ≡ true) × Descends c rest m)
        → Descends n (segment ∷ rest) m
    lower n (c, at, (fits, down)) = Descends.below c at fits down

    raise :
        {n : Node}
        → Descends n (segment ∷ rest) m
        → Any (λ c. (matches c ≡ true) × Descends c rest m) (children n)
    raise (Descends.below c at fits down) = Any-put at (fits, down)

walk_lem :
    (path : List String) (current : List Node) (m : Node)
    → Any (λ n. n ≡ m) (walk current path) ↔ Any (λ c. Descends c path m) current
unfolding walk
walk_lem [] current m = (Any-map (λ n. Descends.here), Any-map (λ n. same))
  where
    same : {n : Node} → Descends n [] m → n ≡ m
    same (Descends.here e) = e
walk_lem (segment ∷ rest) current m =
    let level = children_at-walk segment rest m current in
    let below =
      walk_lem rest (filter (λ c. seg_matches (local_name c) segment) (flat_map children current))
        m in
    (λ found. level.0 (below.0 found), λ above. below.1 (level.1 above))

-- The elements that an absolute path selects are those at that path: the root matches the first
-- segment, and each further segment matches a child of the element before.
pub select_path_lem :
    (root : Node) (path : List String) (n : Node)
    → Any (λ m. m ≡ n) (select_path root path) ↔ IsAtPath root path n
unfolding select_path
select_path_lem root [] n = (λ found. elim found [ ], λ h. absurd h)
select_path_lem root (first ∷ rest) n = elim (Bool-cases (seg_matches (local_name root) first)) [
  | inl fits ↦ rw fits (
    λ found. (refl, one ((walk_lem rest (root ∷ []) n).0 found)),
    λ h. (walk_lem rest (root ∷ []) n).1 (Any.here h.1),
  )
  | inr differs ↦ rw differs (λ found. elim found [ ], λ h. absurd (cc h.0))
]
  where
    one : Any (λ c. Descends c rest n) (root ∷ []) → Descends root rest n
    one (Any.here h) = h
    one (Any.there later) = elim later [ ]
