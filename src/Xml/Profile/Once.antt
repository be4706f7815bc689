-- ===== src/Xml/Profile/Once.antt =====
-- An assertion that passes `validate_protocol_profile` (src/xml/profile.rs) has its conditions once.
use risaml.Prelude.{
  String, len, Bool, true, false, some, List, [], ◌∷◌, ◌++◌, ok, err, >>=-eq-ok, of_ok, ◌≡◌, ◌≢◌,
  refl, ◌∙◌, inl, inr, arith, string_eq,
}
use mathlib.Core.List.{append_assoc}
use mathlib.Core.Path.{subst}
use risaml.Constants.{ParserType}
use risaml.Libraries.Xml.{Namespace, Element, Event, Resolved, XmlLibrary}
use risaml.Xml.Dom.{XmlLimits, check_input_bytes}
use risaml.Xml.Profile.Attributes.{NamespaceKind, kind_eq, classify_namespace}
use risaml.Xml.Profile.Children.{ExpandedName}
use risaml.Xml.Profile.{
  mark_parent, mark_stack, opened, ProfileReader, profile_step, profile_run, unread,
  validate_element, validate_protocol_profile,
}
use risaml.Xml.Profile.Balanced.{
  Events, IsBalanced, Opens, IsElement, Keeps, at_frame, step_start, step_empty, step_close,
  balanced-Returns,
}

abbrev pub IsAssertion : ExpandedName → Type 0
IsAssertion f = (f.local ≡ "Assertion") × (f.namespace ≡ NamespaceKind.assertion)

abbrev assertion_frame : Bool → Bool → Bool → ExpandedName
assertion_frame seen once proxy = record {
  local = "Assertion";
  namespace = NamespaceKind.assertion;
  conditions_seen = seen;
  one_time_use_seen = once;
  proxy_restriction_seen = proxy;
}

marks_once :
    (seen once proxy : Bool) (g : ExpandedName)
    → mark_parent "Conditions" (assertion_frame seen once proxy) ≡ ok g
    → (seen ≡ false) × (g.conditions_seen ≡ true)
marks_once true once proxy g h = cc
marks_once false once proxy g h =
    (refl, of_ok (λ (f : ExpandedName). f.conditions_seen ≡ true) h refl)

-- Conditions are marked on an assertion, and only once.
mark_stack-once :
    (element : Element) (kind : NamespaceKind) (f g : ExpandedName) (stack : List ExpandedName)
    → element.local_name ≡ "Conditions"
    → kind ≡ NamespaceKind.assertion
    → IsAssertion f
    → mark_stack element kind (f ∷ stack) ≡ ok (g ∷ stack)
    → (f.conditions_seen ≡ false) × (g.conditions_seen ≡ true)
unfolding mark_stack
mark_stack-once element kind f g stack named in_assertion (local, namespace) h =
    let is_frame : f
        ≡ assertion_frame f.conditions_seen f.one_time_use_seen f.proxy_restriction_seen =
      ground arith in
    let (p, parent, rest) = >>=-eq-ok (mark_parent element.local_name f) _ (rw in_assertion at h) in
    let parent' : mark_parent "Conditions" f ≡ ok p = rw named at parent in
    let (unseen, seen) =
      marks_once f.conditions_seen f.one_time_use_seen f.proxy_restriction_seen p
        (subst (λ x. mark_parent "Conditions" x ≡ ok p) is_frame parent') in
    let same : p ≡ g = cc (rest) in (unseen, rw (← same) seen)

-- One whole element of this name in the assertion namespace, with the events behind its first.
pub data IsWhole (name : String) (e : Resolved) : Events → Type 0 where
  alone :
      (element : Element)
      → e.event ≡ Event.empty element
      → element.local_name ≡ name
      → classify_namespace e.namespace ≡ NamespaceKind.assertion
      → IsWhole name e []
  around :
      (element : Element) (close : Resolved) (inner : Events)
      → e.event ≡ Event.start element
      → element.local_name ≡ name
      → classify_namespace e.namespace ≡ NamespaceKind.assertion
      → IsBalanced inner
      → close.event ≡ Event.close
      → IsWhole name e (inner ++ (ok close ∷ []))

stays : (f g : ExpandedName) → Keeps f g → IsAssertion f → IsAssertion g
stays f g keeps (local, namespace) = (keeps.same_name ∙ local, keeps.same_kind ∙ namespace)

module _ (parser_type : ParserType) where
  -- An element `Conditions` at an open assertion.
  conditions_step :
      (e : Resolved) (f : ExpandedName) (stack : List ExpandedName) (saw : Bool)
      (next : ProfileReader)
      → IsElement "Conditions" e
      → IsAssertion f
      → profile_step parser_type (at_frame f stack saw) e ≡ ok next
      → f.conditions_seen ≡ false
  conditions_step e f stack saw next (element, inl is_start, named, kind) is_assertion h =
      let (g, marks, _, _) =
        step_start parser_type e.namespace e.event element f stack saw next is_start h in
      (mark_stack-once element _ f g stack named kind is_assertion marks).0
  conditions_step e f stack saw next (element, inr is_empty, named, kind) is_assertion h =
      let (g, marks, _, _) =
        step_empty parser_type e.namespace e.event element f stack saw next is_empty h in
      (mark_stack-once element _ f g stack named kind is_assertion marks).0

  -- Behind a whole `Conditions` the assertion is marked.
  conditions-seen :
      {content : Events} (e : Resolved)
      → IsWhole "Conditions" e content
      → (rest : Events) (f : ExpandedName) (stack : List ExpandedName) (saw : Bool)
        (out : ProfileReader)
      → IsAssertion f
      → profile_run parser_type (at_frame f stack saw) (ok e ∷ (content ++ rest)) ≡ ok out
      → (g : ExpandedName) × (saw' : Bool) × (profile_run parser_type (at_frame g stack saw') rest
          ≡ ok out)
        × IsAssertion g
        × (g.conditions_seen ≡ true)
  unfolding profile_run
  conditions-seen e (IsWhole.alone element is_empty named kind) rest f stack saw out is_assertion
        h =
      let (next, stepped, h1) = >>=-eq-ok (profile_step parser_type (at_frame f stack saw) e) _ h in
      let (g, marks, is_next, keeps) =
        step_empty parser_type e.namespace e.event element f stack saw next is_empty stepped in
      let (_, seen) = mark_stack-once element _ f g stack named kind is_assertion marks in
      (g, true, rw is_next at h1, stays f g keeps is_assertion, seen)
  conditions-seen e (IsWhole.around element close inner is_start named kind within is_close) rest f
        stack saw out is_assertion h =
      let (next, stepped, h1) = >>=-eq-ok (profile_step parser_type (at_frame f stack saw) e) _ h in
      let (g, marks, is_next, keeps) =
        step_start parser_type e.namespace e.event element f stack saw next is_start stepped in
      let (_, seen) = mark_stack-once element _ f g stack named kind is_assertion marks in
      let (k, saw_k, closing, _) =
        balanced-Returns parser_type within (ok close ∷ rest) _ (g ∷ stack) true out
          (rw (is_next, append_assoc) at h1) in
      let (next', closed, h2) =
        >>=-eq-ok (profile_step parser_type (at_frame k (g ∷ stack) saw_k) close) _ closing in
      let is_next' =
        step_close parser_type close close.event (at_frame k (g ∷ stack) saw_k) next' is_close
          closed in
      (g, saw_k, rw is_next' at h2, stays f g keeps is_assertion, seen)

  -- From an open assertion on.
  repeated_fails :
      {content before between : Events} (e e' : Resolved)
      → IsBalanced before
      → IsWhole "Conditions" e content
      → IsBalanced between
      → IsElement "Conditions" e'
      → (rest : Events) (f : ExpandedName) (stack : List ExpandedName) (saw : Bool)
        (out : ProfileReader)
      → IsAssertion f
      → profile_run parser_type
          (at_frame f stack saw)
          (before ++ (ok e ∷ (content ++ (between ++ (ok e' ∷ rest)))))
        ≢ ok out
  unfolding profile_run
  repeated_fails {content} {before} {between} e e' first whole second again rest f stack saw out
        is_assertion h =
      let (f1, saw1, ran1, keeps1) =
        balanced-Returns parser_type first (ok e ∷ (content ++ (between ++ (ok e' ∷ rest)))) f stack
          saw out h in
      let (f2, saw2, ran2, is_assertion2, seen) =
        conditions-seen e whole (between ++ (ok e' ∷ rest)) f1 stack saw1 out
          (stays f f1 keeps1 is_assertion) ran1 in
      let (f3, saw3, ran3, keeps3) =
        balanced-Returns parser_type second (ok e' ∷ rest) f2 stack saw2 out ran2 in
      let (next, stepped, _) =
        >>=-eq-ok (profile_step parser_type (at_frame f3 stack saw3) e') _ ran3 in
      let unseen =
        conditions_step e' f3 stack saw3 next again (stays f2 f3 keeps3 is_assertion2) stepped in
      cc (keeps3.still_seen seen, unseen)

  run-append :
      (xs ys : Events) (r out : ProfileReader)
      → profile_run parser_type r (xs ++ ys) ≡ ok out
      → (middle : ProfileReader) × (profile_run parser_type middle ys ≡ ok out)
  unfolding profile_run
  run-append [] ys r out h = (r, h)
  run-append (err e ∷ xs) ys r out h = cc
  run-append (ok e ∷ xs) ys r out h =
      let (next, _, h1) = >>=-eq-ok (profile_step parser_type r e) _ h in
      run-append xs ys next out h1

  -- The assertion opens, whatever stands around it.
  enters :
      (a : Resolved) (r next : ProfileReader)
      → Opens "Assertion" a
      → profile_step parser_type r a ≡ ok next
      → (f : ExpandedName) × (stack : List ExpandedName) × (next ≡ at_frame f stack true)
        × IsAssertion f
  unfolding profile_step
  enters a r next (element, is_start, named, kind) h = opens a.namespace a.event is_start kind h
    where
      opens :
          (namespace : Namespace) (event : Event)
          → event ≡ Event.start element
          → classify_namespace namespace ≡ NamespaceKind.assertion
          → profile_step parser_type r (record { namespace = namespace; event = event }) ≡ ok next
          → (f : ExpandedName) × (stack : List ExpandedName) × (next ≡ at_frame f stack true)
            × IsAssertion f
      opens namespace event starts in_assertion k =
          let (out, marks, h1) =
            >>=-eq-ok (mark_stack element (classify_namespace namespace) r.stack) _
              (rw starts at k) in
          let (_, _, h2) =
            >>=-eq-ok (validate_element element (classify_namespace namespace) out parser_type) _
              h1 in
          (
            opened element (classify_namespace namespace),
            out,
            of_ok (λ n. n ≡ at_frame (opened element (classify_namespace namespace)) out true) h2
                refl,
            (named, in_assertion),
          )

-- A document is refused in which an assertion has conditions twice: it opens, and whole elements
-- later come whole conditions, and whole elements later conditions again, whatever stands before the
-- assertion and behind.
pub validate_protocol_profile-once :
    {content before between : Events} (xml : XmlLibrary) (source : String)
    (parser_type : ParserType) (limits : XmlLimits) (outside : Events) (a e e' : Resolved)
    (rest : Events)
    → Opens "Assertion" a
    → IsBalanced before
    → IsWhole "Conditions" e content
    → IsBalanced between
    → IsElement "Conditions" e'
    → xml.read_resolved_events (some limits.max_attributes_per_element) source
      ≡ outside ++ (ok a ∷ (before ++ (ok e ∷ (content ++ (between ++ (ok e' ∷ rest))))))
    → validate_protocol_profile xml source parser_type limits ≢ ok tt
unfolding validate_protocol_profile profile_run
validate_protocol_profile-once {content} {before} {between} xml source parser_type limits outside a
      e e' rest opens first whole second again is_source h =
    let tail : Events = before ++ (ok e ∷ (content ++ (between ++ (ok e' ∷ rest)))) in
    let (_, _, h1) = >>=-eq-ok (check_input_bytes limits (len source)) _ h in
    let (out, ran, _) =
      >>=-eq-ok
        (profile_run parser_type unread
          (xml.read_resolved_events (some limits.max_attributes_per_element) source))
        _ h1 in
    let (middle, ran_middle) =
      run-append parser_type outside (ok a ∷ tail) unread out (rw is_source at ran) in
    let (next, stepped, inside) = >>=-eq-ok (profile_step parser_type middle a) _ ran_middle in
    let (f, stack, is_next, is_assertion) = enters parser_type a middle next opens stepped in
    repeated_fails parser_type e e' first whole second again rest f stack true out is_assertion
      (rw is_next at inside)
