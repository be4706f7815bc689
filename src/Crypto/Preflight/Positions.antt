-- ===== src/Crypto/Preflight/Positions.antt =====
-- Where the XML signatures of a document stand that passes `preflight_backend_signatures`
-- (src/crypto/verify.rs): a path of open elements, against the frames of the check.
use risaml.Prelude.{
  String, false, ◌&&◌, not, Option, none, some, List, [], ◌∷◌, ok, err, >>=-eq-ok, of_ok,
  fail_if-ok, fail_if, ◌==◌, string_eq, option_eq, any, ◌≡◌, refl, inl, inr, arith, Bool-cases,
}
use risaml.Constants.{ns_dsig}
use risaml.Errors.{Foreign}
use risaml.Libraries.Xml.{Namespace, Element, Event, Resolved, XmlLibrary}
use risaml.Crypto.Preflight.{
  SignatureFrame, signature_namespace, parent_permits, preflight_element, preflight_event,
  preflight_from, preflight_backend_signatures, is_signature, parent_scope,
  preflight_signature_element, pop,
}
use risaml.Crypto.Preflight.Paths.{
  Step, IsPlaced, outer, EventIsPlaced, next_path, ArePlaced, Tracks, Tracks-MaySign,
}

-- The frame of an element that passes, with the element put to the path.
preflight_element-Tracks :
    (path : List Step) (scopes : List SignatureFrame) (ns : Option String) (element : Element)
    (frame : SignatureFrame)
    → Tracks path scopes
    → preflight_element scopes ns element ≡ ok frame
    → IsPlaced path (ns, element.local_name)
      × Tracks ((ns, element.local_name) ∷ path) (frame ∷ scopes)
unfolding preflight_element
preflight_element-Tracks path scopes ns element frame t h =
    let (u, _, h1) =
      >>=-eq-ok
        (fail_if (ns == some ns_dsig && element.local_name == "Object" && any is_signature scopes)
          _)
        _ h in
    let (w, placed, h2) =
      >>=-eq-ok
        (fail_if
          (ns == some ns_dsig && element.local_name == "Signature" && not (parent_permits scopes))
          _)
        _ h1 in
    let (scope, _, h3) =
      >>=-eq-ok (preflight_signature_element element (ns == some ns_dsig) (parent_scope scopes)) _
        h2 in
    (
      is_placed (fail_if-ok _ _ w placed),
      of_ok (λ f. Tracks ((ns, element.local_name) ∷ path) (f ∷ scopes)) h3
          ((element, refl, refl), t),
    )
  where
    is_placed :
        (ns == some ns_dsig && element.local_name == "Signature" && not (parent_permits scopes))
          ≡ false
        → IsPlaced path (ns, element.local_name)
    is_placed e = elim (Bool-cases (parent_permits scopes)) [
      | inl permits ↦ inr (Tracks-MaySign path scopes t permits)
      | inr refuses ↦ inl (ground arith)
    ]

outer-Tracks :
    (path : List Step) (scopes : List SignatureFrame)
    → Tracks path scopes
    → Tracks (outer path) (pop scopes)
outer-Tracks [] [] t = tt
outer-Tracks (e ∷ path) (f ∷ scopes) (_, t) = t
outer-Tracks [] (f ∷ scopes) t = absurd t
outer-Tracks (e ∷ path) [] t = absurd t

-- One event, behind its namespace.
event-Tracks :
    (path : List Step) (scopes next : List SignatureFrame) (namespace : Namespace)
    (ns : Option String) (event : Event)
    → Tracks path scopes
    → signature_namespace namespace ≡ ok ns
    → preflight_event scopes (record { namespace = namespace; event = event }) ≡ ok next
    → EventIsPlaced path ns event × Tracks (next_path path ns event) next
unfolding preflight_event
event-Tracks path scopes next namespace ns (Event.start element) t resolved h =
    let (frame, made, last) =
      >>=-eq-ok (preflight_element scopes ns element) _ (rw resolved at h) in
    let (placed, tracked) = preflight_element-Tracks path scopes ns element frame t made in
    (placed, of_ok (Tracks ((ns, element.local_name) ∷ path)) last tracked)
event-Tracks path scopes next namespace ns (Event.empty element) t resolved h =
    let (frame, made, last) =
      >>=-eq-ok (preflight_element scopes ns element) _ (rw resolved at h) in
    let (placed, _) = preflight_element-Tracks path scopes ns element frame t made in
    (placed, of_ok (Tracks path) last t)
event-Tracks path scopes next namespace ns Event.close t resolved h =
    (tt, of_ok (Tracks (outer path)) (rw resolved at h) (outer-Tracks path scopes t))
event-Tracks path scopes next namespace ns Event.doc_type t resolved h =
    (tt, of_ok (Tracks path) (rw resolved at h) t)
event-Tracks path scopes next namespace ns Event.other t resolved h =
    (tt, of_ok (Tracks path) (rw resolved at h) t)
event-Tracks path scopes next namespace ns (Event.text s) t resolved h =
    (tt, of_ok (Tracks path) (rw resolved at h) t)
event-Tracks path scopes next namespace ns (Event.cdata s) t resolved h =
    (tt, of_ok (Tracks path) (rw resolved at h) t)
event-Tracks path scopes next namespace ns (Event.general_ref s) t resolved h =
    (tt, of_ok (Tracks path) (rw resolved at h) t)

namespace_of_event :
    (scopes next : List SignatureFrame) (e : Resolved)
    → preflight_event scopes e ≡ ok next
    → (ns : Option String) × (signature_namespace e.namespace ≡ ok ns)
unfolding preflight_event
namespace_of_event scopes next e h =
    let found = >>=-eq-ok (signature_namespace e.namespace) _ h in (found.0, found.1)

preflight_from-ArePlaced :
    (path : List Step) (scopes : List SignatureFrame) (events : List (Foreign Resolved))
    → Tracks path scopes
    → preflight_from scopes events ≡ ok tt
    → ArePlaced path events
unfolding preflight_from
preflight_from-ArePlaced path scopes [] t h = tt
preflight_from-ArePlaced path scopes (err e ∷ events) t h = cc
preflight_from-ArePlaced path scopes (ok e ∷ events) t h =
    let (next, passed, h1) = >>=-eq-ok (preflight_event scopes e) _ h in
    let (ns, resolved) = namespace_of_event scopes next e passed in
    let (placed, tracked) =
      event-Tracks path scopes next e.namespace ns e.event t resolved passed in
    (
      ns,
      resolved,
      placed,
      preflight_from-ArePlaced (next_path path ns e.event) next events tracked h1,
    )

-- In a document that passes, every element of the XML-DSig namespace that is named `Signature` is
-- a child of a root that may be signed, or of an assertion that is a child of a response.
pub preflight_backend_signatures-ArePlaced :
    (xml : XmlLibrary) (source : String)
    → preflight_backend_signatures xml source ≡ ok tt
    → ArePlaced [] (xml.read_resolved_events none source)
unfolding preflight_backend_signatures
preflight_backend_signatures-ArePlaced xml source h =
    preflight_from-ArePlaced [] [] (xml.read_resolved_events none source) tt h
