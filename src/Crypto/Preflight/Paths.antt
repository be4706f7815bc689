-- ===== src/Crypto/Preflight/Paths.antt =====
-- Paths of open elements, and where `signature_position` (src/crypto/verify.rs) lets a signature
-- stand.
use risaml.Prelude.{
  String, Bool, true, false, ◌&&◌, ◌||◌, Option, some, List, [], ◌∷◌, ok, err, ◌==◌, string_eq,
  option_eq, if◌then◌else◌, contains, ◌≡◌, sym, ◌∙◌, ◌⊎◌, inl, inr, arith, eq_iff,
}
use risaml.Constants.{ns_protocol, ns_assertion, ns_metadata, ns_dsig}
use risaml.Errors.{Foreign}
use risaml.Libraries.Xml.{Element, Event, Resolved}
use risaml.Crypto.Preflight.{
  SignaturePosition, permits_signature, SignatureFrame, in_namespace, protocol_messages,
  root_position, is_response, signature_position, signature_namespace, parent_permits,
}

-- An open element: its namespace and its local name.
abbrev pub Step : Type 0
Step = Option String × String

-- The element is one that the standard signs as a document of its own.
abbrev pub IsSignedRoot : Step → Type 0
IsSignedRoot e =
    ((e.1 ≡ "Assertion") × (in_namespace e.0 ns_assertion ≡ true))
    ⊎ ((e.1 ≡ "EntityDescriptor") × (in_namespace e.0 ns_metadata ≡ true))
    ⊎ ((e.1 ≡ "EntitiesDescriptor") × (in_namespace e.0 ns_metadata ≡ true))
    ⊎ ((e.1 ≡ "Response") × (in_namespace e.0 ns_protocol ≡ true))
    ⊎ ((contains protocol_messages e.1 ≡ true) × (in_namespace e.0 ns_protocol ≡ true))

-- The innermost open element may hold a signature: it is such a root, or an assertion directly in
-- a response that is the root.
abbrev pub MaySign : List Step → Type 0
MaySign (e ∷ []) = IsSignedRoot e
MaySign (e ∷ parent ∷ []) =
    (e.1 ≡ "Assertion")
    × (in_namespace e.0 ns_assertion ≡ true)
    × (parent.1 ≡ "Response")
    × (in_namespace parent.0 ns_protocol ≡ true)
MaySign _ = ⊥

abbrev pub is_dsig_signature : Step → Bool
is_dsig_signature e = e.0 == some ns_dsig && e.1 == "Signature"

-- The element is no XML signature, or the element around it may hold one.
abbrev pub IsPlaced : List Step → Step → Type 0
IsPlaced path e = (is_dsig_signature e ≡ false) ⊎ MaySign path

abbrev pub outer : List Step → List Step
outer [] = []
outer (_ ∷ path) = path

abbrev pub EventIsPlaced : List Step → Option String → Event → Type 0
EventIsPlaced path ns (Event.start e) = IsPlaced path (ns, e.local_name)
EventIsPlaced path ns (Event.empty e) = IsPlaced path (ns, e.local_name)
EventIsPlaced path ns _ = Unit

-- The open elements behind an event.
abbrev pub next_path : List Step → Option String → Event → List Step
next_path path ns (Event.start e) = (ns, e.local_name) ∷ path
next_path path ns Event.close = outer path
next_path path ns _ = path

-- The events are read to their end, and every signature of theirs is placed, when the path is open
-- before them.
abbrev pub ArePlaced : List Step → List (Foreign Resolved) → Type 0
ArePlaced path [] = Unit
ArePlaced path (err _ ∷ events) = ⊥
ArePlaced path (ok e ∷ events) =
    (ns : Option String) × (signature_namespace e.namespace ≡ ok ns)
    × EventIsPlaced path ns e.event
    × ArePlaced (next_path path ns e.event) events

-- The frames have the positions of the elements of the path.
abbrev pub Tracks : List Step → List SignatureFrame → Type 0
Tracks [] [] = Unit
Tracks (step ∷ path) (frame ∷ scopes) =
    ((element : Element) × (element.local_name ≡ step.1)
      × (frame.position ≡ signature_position element step.0 scopes))
    × Tracks path scopes
Tracks _ _ = ⊥

and_eq : (a b : Bool) → (a && b) ≡ true → (a ≡ true) × (b ≡ true)
and_eq a b h = ground arith

-- The cases of `root_position`, by its tests.
abbrev position_if : Bool → Bool → Bool → Bool → Bool → Bool → Bool → Bool → SignaturePosition
position_if a in_a d ds in_m in_p r m =
    if a && in_a
    then SignaturePosition.message
    else if (d || ds) && in_m
    then SignaturePosition.message
    else if in_p
    then (if r
        then SignaturePosition.response
        else if m
        then SignaturePosition.message
        else SignaturePosition.elsewhere)
    else SignaturePosition.elsewhere

abbrev Both : Bool → Bool → Type 0
Both a b = (a ≡ true) × (b ≡ true)

position_if-permits :
    (a in_a d ds in_m in_p r m : Bool)
    → permits_signature (position_if a in_a d ds in_m in_p r m) ≡ true
    → Both a in_a ⊎ Both d in_m ⊎ Both ds in_m ⊎ Both r in_p ⊎ Both m in_p
position_if-permits true true d ds in_m in_p r m h = ground arith
position_if-permits a in_a true ds true in_p r m h = ground arith
position_if-permits a in_a d true true in_p r m h = ground arith
position_if-permits a in_a d ds in_m true true m h = ground arith
position_if-permits a in_a d ds in_m true false m h = ground arith
position_if-permits a in_a d ds in_m in_p r m h = ground arith

position_if-response :
    (a in_a d ds in_m in_p r m : Bool)
    → is_response (position_if a in_a d ds in_m in_p r m) ≡ true
    → Both r in_p
position_if-response a in_a d ds in_m in_p r m h = ground arith

module _ (name : String) (ns : Option String) where
  root_position-IsSignedRoot :
      permits_signature (root_position name ns) ≡ true → IsSignedRoot (ns, name)
  unfolding root_position
  root_position-IsSignedRoot h =
      elim (position_if-permits (name == "Assertion") (in_namespace ns ns_assertion)
        (name == "EntityDescriptor") (name == "EntitiesDescriptor") (in_namespace ns ns_metadata)
        (in_namespace ns ns_protocol) (name == "Response") (contains protocol_messages name) h) [
          | inl a ↦ inl ((eq_iff name "Assertion").0 a.0, a.1)
          | inr (inl d) ↦ inr (inl ((eq_iff name "EntityDescriptor").0 d.0, d.1))
          | inr (inr (inl ds)) ↦ inr (inr (inl ((eq_iff name "EntitiesDescriptor").0 ds.0, ds.1)))
          | inr (inr (inr (inl r))) ↦ inr (inr (inr (inl ((eq_iff name "Response").0 r.0, r.1))))
          | inr (inr (inr (inr m))) ↦ inr (inr (inr (inr m)))
        ]

  root_position-response :
      is_response (root_position name ns) ≡ true
      → (name ≡ "Response") × (in_namespace ns ns_protocol ≡ true)
  unfolding root_position
  root_position-response h =
      let both =
        position_if-response (name == "Assertion") (in_namespace ns ns_assertion)
          (name == "EntityDescriptor") (name == "EntitiesDescriptor") (in_namespace ns ns_metadata)
          (in_namespace ns ns_protocol) (name == "Response") (contains protocol_messages name) h in
      ((eq_iff name "Response").0 both.0, both.1)

direct_if :
    (a b c : Bool)
    → permits_signature
        (if a && b && c then SignaturePosition.direct_assertion else SignaturePosition.elsewhere)
      ≡ true
    → (a ≡ true) × (b ≡ true) × (c ≡ true)
direct_if a b c h = ground arith

pub Tracks-MaySign :
    (path : List Step) (scopes : List SignatureFrame)
    → Tracks path scopes
    → parent_permits scopes ≡ true
    → MaySign path
unfolding signature_position
Tracks-MaySign [] [] t h = cc
Tracks-MaySign [] (f ∷ scopes) t h = absurd t
Tracks-MaySign (e ∷ path) [] t h = absurd t
Tracks-MaySign (e ∷ []) (f ∷ []) ((element, named, at), rest) h =
    root_position-IsSignedRoot e.1 e.0 (rw (at, named) at h)
Tracks-MaySign (e ∷ []) (f ∷ g ∷ scopes) (_, rest) h = absurd rest
Tracks-MaySign (e ∷ p ∷ path) (f ∷ []) (_, rest) h = absurd rest
Tracks-MaySign (e ∷ p ∷ []) (f ∷ g ∷ []) ((element, named, at), ((parent, p_named, p_at), _)) h =
    let (responded, assertion, within) = direct_if _ _ _ (rw at at h) in
    let root = root_position-response p.1 p.0 (rw (← p_named, ← p_at) responded) in
    ((sym named ∙ (eq_iff element.local_name "Assertion").0 assertion), within, root.0, root.1)
Tracks-MaySign (e ∷ p ∷ []) (f ∷ g ∷ i ∷ scopes) (_, (_, rest)) h = absurd rest
Tracks-MaySign (e ∷ p ∷ q ∷ path) (f ∷ g ∷ []) (_, (_, rest)) h = absurd rest
Tracks-MaySign (e ∷ p ∷ q ∷ path) (f ∷ g ∷ i ∷ scopes) ((element, named, at), _) h = cc (rw at at h)
