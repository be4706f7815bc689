-- ===== src/Xml/Profile/Balanced.antt =====
-- Whole elements among the events of src/xml/profile.rs, and the frames that the loop keeps of them.
use risaml.Prelude.{
  String, Bool, true, false, ◌&&◌, List, [], ◌∷◌, ◌++◌, ok, ◌>>◌, >>=-eq-ok, of_ok, fail_if, ◌==◌,
  string_eq, ◌≡◌, ◌⊎◌, refl, ◌∙◌, inl, inr, Bool-cases, if◌then◌else◌,
}
use mathlib.Core.List.{append_assoc}
use risaml.Constants.{ParserType}
use risaml.Errors.{SamlError, Foreign}
use risaml.Libraries.Xml.{Namespace, Element, Event, Resolved}
use risaml.Xml.Profile.Attributes.{NamespaceKind, kind_eq, classify_namespace}
use risaml.Xml.Profile.Children.{ExpandedName, is}
use risaml.Xml.Profile.{
  validate_element, mark_use, mark_conditions, mark_parent, mark_stack, opened, pop, ProfileReader,
  profile_step, profile_run,
}

abbrev pub Events : Type 0
Events = List (Foreign Resolved)

-- Events that open and close no element.
abbrev pub IsFlat : Event → Type 0
IsFlat (Event.start _) = ⊥
IsFlat Event.close = ⊥
IsFlat _ = Unit

-- A run of whole elements, and of what stands between them.
pub data IsBalanced : Events → Type 0 where
  done : IsBalanced []
  flat :
      {e : Resolved} {rest : Events} → IsFlat e.event → IsBalanced rest → IsBalanced (ok e ∷ rest)
  nested :
      (e close : Resolved) (inner rest : Events) (element : Element)
      → e.event ≡ Event.start element
      → IsBalanced inner
      → close.event ≡ Event.close
      → IsBalanced rest
      → IsBalanced (ok e ∷ (inner ++ (ok close ∷ rest)))

-- The start of an element of this name in the assertion namespace, or the element without content.
abbrev pub Opens : String → Resolved → Type 0
Opens name e =
    (element : Element) × (e.event ≡ Event.start element)
    × (element.local_name ≡ name)
    × (classify_namespace e.namespace ≡ NamespaceKind.assertion)

abbrev pub IsElement : String → Resolved → Type 0
IsElement name e =
    (element : Element) × ((e.event ≡ Event.start element) ⊎ (e.event ≡ Event.empty element))
    × (element.local_name ≡ name)
    × (classify_namespace e.namespace ≡ NamespaceKind.assertion)

-- The frame of one open element, before and after.
pub record Keeps (f g : ExpandedName) : Type 0 where
  pub same_name : g.local ≡ f.local
  pub same_kind : g.namespace ≡ f.namespace
  pub still_seen : f.conditions_seen ≡ true → g.conditions_seen ≡ true

Keeps-refl : (f : ExpandedName) → Keeps f f
Keeps-refl f = record { same_name = refl; same_kind = refl; still_seen = λ h. h }

Keeps-trans : {f g h : ExpandedName} → Keeps f g → Keeps g h → Keeps f h
Keeps-trans a b = record {
  same_name = b.same_name ∙ a.same_name;
  same_kind = b.same_kind ∙ a.same_kind;
  still_seen = λ seen. b.still_seen (a.still_seen seen);
}

-- A mark is set by the same chain in each case.
marked : (b : Bool) (e : SamlError) (f g : ExpandedName) → (fail_if b e >> ok f) ≡ ok g → f ≡ g
marked true e f g h = cc
marked false e f g h = cc

mark_use-Keeps : (local : String) (f g : ExpandedName) → mark_use local f ≡ ok g → Keeps f g
mark_use-Keeps local f g h = elim (Bool-cases (local == "OneTimeUse")) [
  | inl once ↦
      rw (← marked _ _ _ g (rw once at h))
        (record { same_name = refl; same_kind = refl; still_seen = λ seen. seen })
  | inr not_once ↦ elim (Bool-cases (local == "ProxyRestriction")) [
    | inl proxy ↦
        rw (← marked _ _ _ g (rw (not_once, proxy) at h))
          (record { same_name = refl; same_kind = refl; still_seen = λ seen. seen })
    | inr other ↦ of_ok (Keeps f) (rw (not_once, other) at h) (Keeps-refl f)
  ]
]

mark_conditions-Keeps :
    (local : String) (f g : ExpandedName) → mark_conditions local f ≡ ok g → Keeps f g
mark_conditions-Keeps local f g h =
    elim (Bool-cases (local == "Conditions" && is f "Assertion" NamespaceKind.assertion)) [
      | inl here ↦
          rw (← marked _ _ _ g (rw here at h))
            (record { same_name = refl; same_kind = refl; still_seen = λ seen. refl })
      | inr elsewhere ↦ of_ok (Keeps f) (rw elsewhere at h) (Keeps-refl f)
    ]

mark_parent-Keeps : (local : String) (f g : ExpandedName) → mark_parent local f ≡ ok g → Keeps f g
mark_parent-Keeps local f g h =
    let (used, first, second) =
      >>=-eq-ok (if is f "Conditions" NamespaceKind.assertion then mark_use local f else ok f) _
        h in
    Keeps-trans (use_part used first) (mark_conditions-Keeps local used g second)
  where
    use_part :
        (used : ExpandedName)
        → (if is f "Conditions" NamespaceKind.assertion then mark_use local f else ok f) ≡ ok used
        → Keeps f used
    use_part used first = elim (Bool-cases (is f "Conditions" NamespaceKind.assertion)) [
      | inl conditions ↦ mark_use-Keeps local f used (rw conditions at first)
      | inr other ↦ of_ok (Keeps f) (rw other at first) (Keeps-refl f)
    ]

mark_stack-Keeps :
    (element : Element) (namespace : NamespaceKind) (f : ExpandedName)
    (stack out : List ExpandedName)
    → mark_stack element namespace (f ∷ stack) ≡ ok out
    → (g : ExpandedName) × (out ≡ g ∷ stack) × Keeps f g
unfolding mark_stack
mark_stack-Keeps element namespace f stack out h =
    elim (Bool-cases (namespace == NamespaceKind.assertion)) [
      | inl here ↦
          let (g, parent, rest) = >>=-eq-ok (mark_parent element.local_name f) _ (rw here at h) in
          (g, of_ok (λ s. s ≡ g ∷ stack) rest refl, mark_parent-Keeps element.local_name f g parent)
      | inr other ↦ (f, of_ok (λ s. s ≡ f ∷ stack) (rw other at h) refl, Keeps-refl f)
    ]

abbrev pub at_frame : ExpandedName → List ExpandedName → Bool → ProfileReader
at_frame f stack saw = record { stack = f ∷ stack; saw_root = saw }

module _ (parser_type : ParserType) where
  -- One turn of the loop, for each kind of event.
  pub step_start :
      (namespace : Namespace) (event : Event) (element : Element) (f : ExpandedName)
      (stack : List ExpandedName) (saw : Bool) (next : ProfileReader)
      → event ≡ Event.start element
      → profile_step parser_type
          (at_frame f stack saw)
          (record { namespace = namespace; event = event })
        ≡ ok next
      → (g : ExpandedName) × (mark_stack element (classify_namespace namespace) (f ∷ stack)
          ≡ ok (g ∷ stack))
        × (next ≡ at_frame (opened element (classify_namespace namespace)) (g ∷ stack) true)
        × Keeps f g
  unfolding profile_step
  step_start namespace event element f stack saw next is_start h =
      let kind = classify_namespace namespace in
      let (out, marks, h1) =
        >>=-eq-ok (mark_stack element (classify_namespace namespace) (f ∷ stack)) _
          (rw is_start at h) in
      let (_, _, h2) =
        >>=-eq-ok (validate_element element (classify_namespace namespace) out parser_type) _ h1 in
      let (g, is_out, keeps) =
        mark_stack-Keeps element (classify_namespace namespace) f stack out marks in
      (
        g,
        rw is_out at marks,
        of_ok (λ n. n ≡ at_frame (opened element (classify_namespace namespace)) (g ∷ stack) true)
            h2 (rw is_out refl),
        keeps,
      )

  pub step_empty :
      (namespace : Namespace) (event : Event) (element : Element) (f : ExpandedName)
      (stack : List ExpandedName) (saw : Bool) (next : ProfileReader)
      → event ≡ Event.empty element
      → profile_step parser_type
          (at_frame f stack saw)
          (record { namespace = namespace; event = event })
        ≡ ok next
      → (g : ExpandedName) × (mark_stack element (classify_namespace namespace) (f ∷ stack)
          ≡ ok (g ∷ stack))
        × (next ≡ at_frame g stack true)
        × Keeps f g
  unfolding profile_step
  step_empty namespace event element f stack saw next is_empty h =
      let (out, marks, h1) =
        >>=-eq-ok (mark_stack element (classify_namespace namespace) (f ∷ stack)) _
          (rw is_empty at h) in
      let (_, _, h2) =
        >>=-eq-ok (validate_element element (classify_namespace namespace) out parser_type) _ h1 in
      let (g, is_out, keeps) =
        mark_stack-Keeps element (classify_namespace namespace) f stack out marks in
      (g, rw is_out at marks, of_ok (λ n. n ≡ at_frame g stack true) h2 (rw is_out refl), keeps)

  pub step_close :
      (e : Resolved) (event : Event) (r next : ProfileReader)
      → event ≡ Event.close
      → profile_step parser_type r (record e { event = event }) ≡ ok next
      → next ≡ record r { stack = pop r.stack }
  unfolding profile_step
  step_close e event r next is_close h =
      of_ok (λ n. n ≡ record r { stack = pop r.stack }) (rw is_close at h) refl

  -- A flat event keeps the innermost frame.
  step_flat :
      (namespace : Namespace) (event : Event) (f : ExpandedName) (stack : List ExpandedName)
      (saw : Bool) (next : ProfileReader)
      → IsFlat event
      → profile_step parser_type
          (at_frame f stack saw)
          (record { namespace = namespace; event = event })
        ≡ ok next
      → (g : ExpandedName) × (saw' : Bool) × (next ≡ at_frame g stack saw') × Keeps f g
  unfolding profile_step
  step_flat namespace (Event.start x) f stack saw next is_flat h = absurd is_flat
  step_flat namespace Event.close f stack saw next is_flat h = absurd is_flat
  step_flat namespace (Event.empty element) f stack saw next is_flat h =
      let (g, _, is_next, keeps) =
        step_empty namespace (Event.empty element) element f stack saw next refl h in
      (g, true, is_next, keeps)
  step_flat namespace Event.doc_type f stack saw next is_flat h =
      (f, saw, of_ok (λ n. n ≡ at_frame f stack saw) h refl, Keeps-refl f)
  step_flat namespace Event.other f stack saw next is_flat h =
      (f, saw, of_ok (λ n. n ≡ at_frame f stack saw) h refl, Keeps-refl f)
  step_flat namespace (Event.text t) f stack saw next is_flat h =
      (f, saw, of_ok (λ n. n ≡ at_frame f stack saw) h refl, Keeps-refl f)
  step_flat namespace (Event.cdata t) f stack saw next is_flat h =
      (f, saw, of_ok (λ n. n ≡ at_frame f stack saw) h refl, Keeps-refl f)
  step_flat namespace (Event.general_ref t) f stack saw next is_flat h =
      (f, saw, of_ok (λ n. n ≡ at_frame f stack saw) h refl, Keeps-refl f)

  -- A run of whole elements comes back to the frame that it started from.
  abbrev pub Returns : ExpandedName → List ExpandedName → Events → ProfileReader → Type 0
  Returns f stack rest out =
      (g : ExpandedName) × (saw : Bool) × (profile_run parser_type (at_frame g stack saw) rest
        ≡ ok out)
      × Keeps f g

  pub balanced-Returns :
      {events : Events}
      → IsBalanced events
      → (rest : Events) (f : ExpandedName) (stack : List ExpandedName) (saw : Bool)
        (out : ProfileReader)
      → profile_run parser_type (at_frame f stack saw) (events ++ rest) ≡ ok out
      → Returns f stack rest out
  unfolding profile_run
  balanced-Returns IsBalanced.done rest f stack saw out h = (f, saw, h, Keeps-refl f)
  balanced-Returns (IsBalanced.flat {e = e} is_flat balanced) rest f stack saw out h =
      let (next, stepped, h1) = >>=-eq-ok (profile_step parser_type (at_frame f stack saw) e) _ h in
      let (g, saw', is_next, keeps) =
        step_flat e.namespace e.event f stack saw next is_flat stepped in
      let (k, saw_k, ran, kept) =
        balanced-Returns balanced rest g stack saw' out (rw is_next at h1) in
      (k, saw_k, ran, Keeps-trans keeps kept)
  balanced-Returns (IsBalanced.nested e close inner after element is_start within is_close balanced)
        rest f stack saw out h =
      let (next, stepped, h1) = >>=-eq-ok (profile_step parser_type (at_frame f stack saw) e) _ h in
      let (g, _, is_next, keeps) =
        step_start e.namespace e.event element f stack saw next is_start stepped in
      let (k, saw_k, closing, _) =
        balanced-Returns within (ok close ∷ (after ++ rest)) _ (g ∷ stack) true out
          (rw (is_next, append_assoc) at h1) in
      let (next', closed, h2) =
        >>=-eq-ok (profile_step parser_type (at_frame k (g ∷ stack) saw_k) close) _ closing in
      let is_next' =
        step_close close close.event (at_frame k (g ∷ stack) saw_k) next' is_close closed in
      let (m, saw_m, ran, kept) =
        balanced-Returns balanced rest g stack saw_k out (rw is_next' at h2) in
      (m, saw_m, ran, Keeps-trans keeps kept)
