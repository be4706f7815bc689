-- ===== src/Xml/Profile/Root.antt =====
-- The root of a message that passes `validate_protocol_profile` (src/xml/profile.rs).
use risaml.Prelude.{
  String, len, Bool, true, false, ◌||◌, not, Option, none, some, List, [], ◌∷◌, ok, err, >>=-eq-ok,
  of_ok, fail_if-ok, fail_if, ok_or, ok_or-ok, ◌==◌, string_eq, option_eq, option_beq_iff, eq_iff,
  ◌≡◌, ◌≢◌, refl, ◌⊎◌, inl, inr, Bool-cases,
}
use risaml.Constants.{ParserType}
use risaml.Errors.{Foreign}
use risaml.Libraries.Xml.{Namespace, Element, Event, Resolved, XmlLibrary}
use risaml.Xml.DateTime.{parse_saml_utc_date_time}
use risaml.Xml.Dom.{XmlLimits, check_input_bytes}
use risaml.Xml.Profile.Attributes.{
  NamespaceKind, kind_eq, kind_beq_iff, classify_namespace, is_present, AttributeValues, value_of,
  validate_unqualified_attributes, require_version_2, require_issue_instant,
}
use risaml.Xml.Profile.{
  parser_root, root_consumed_attributes, always_required, validate_root, validate_element,
  mark_stack, ProfileReader, profile_step, profile_run, unread, validate_protocol_profile,
}

-- A root of the kind: its name, its namespace, version 2.0 and an instant of issue.
pub record IsRoot (parser_type : ParserType) (e : Resolved) : Type 0 where
  pub element : Element
  pub is_element : (e.event ≡ Event.start element) ⊎ (e.event ≡ Event.empty element)
  pub is_named : element.local_name ≡ parser_root parser_type
  pub is_protocol : classify_namespace e.namespace ≡ NamespaceKind.protocol
  pub values : AttributeValues
  pub are_values :
      validate_unqualified_attributes element (root_consumed_attributes parser_type) always_required
      ≡ ok values
  pub is_version_2 : value_of "Version" values ≡ some "2.0"
  pub issued : String
  pub is_issued : value_of "IssueInstant" values ≡ some issued
  pub is_instant : parse_saml_utc_date_time issued ≢ none

-- The first element among the events is such a root.
pub data StartsWithRoot (parser_type : ParserType) : List (Foreign Resolved) → Type 0 where
  here :
      {e : Resolved} {rest : List (Foreign Resolved)}
      → IsRoot parser_type e
      → StartsWithRoot parser_type (ok e ∷ rest)
  past :
      {e : Resolved} {rest : List (Foreign Resolved)}
      → ((element : Element) → (e.event ≢ Event.start element) × (e.event ≢ Event.empty element))
      → StartsWithRoot parser_type rest
      → StartsWithRoot parser_type (ok e ∷ rest)

require_version_2-eq :
    (values : AttributeValues) (element : Element)
    → require_version_2 values element ≡ ok tt
    → value_of "Version" values ≡ some "2.0"
unfolding require_version_2
require_version_2-eq values element h =
    elim (Bool-cases (value_of "Version" values == some "2.0")) [
      | inl same ↦ (option_beq_iff string_eq (value_of "Version" values) (some "2.0")).0 same
      | inr other ↦ cc (rw other at h)
    ]

present : (o : Option String) → not (is_present o) ≡ false → o ≢ none
present none h = cc
present (some _) h = λ e. cc

require_issue_instant-some :
    (values : AttributeValues) (element : Element)
    → require_issue_instant values element ≡ ok tt
    → (issued : String) × (value_of "IssueInstant" values ≡ some issued)
      × (parse_saml_utc_date_time issued ≢ none)
unfolding require_issue_instant
require_issue_instant-some values element h =
    let (issued, found, h1) = >>=-eq-ok (ok_or (value_of "IssueInstant" values) _) _ h in
    (
      issued,
      ok_or-ok _ _ issued found,
      present (parse_saml_utc_date_time issued) (fail_if-ok _ _ tt h1),
    )

module _ (parser_type : ParserType) (element : Element) (kind : NamespaceKind) where
  root_name :
      validate_root element kind parser_type ≡ ok tt
      → (element.local_name ≡ parser_root parser_type) × (kind ≡ NamespaceKind.protocol)
  unfolding validate_root
  root_name h = elim (Bool-cases (element.local_name == parser_root parser_type)) [
    | inr other ↦ cc (rw other at h)
    | inl named ↦ elim (Bool-cases (kind == NamespaceKind.protocol)) [
      | inr foreign ↦ cc (rw (named, foreign) at h)
      | inl same ↦ ((eq_iff _ _).0 named, (kind_beq_iff kind NamespaceKind.protocol).0 same)
    ]
  ]

  validate_root-IsRoot :
      (e : Resolved)
      → (e.event ≡ Event.start element) ⊎ (e.event ≡ Event.empty element)
      → classify_namespace e.namespace ≡ kind
      → validate_root element kind parser_type ≡ ok tt
      → IsRoot parser_type e
  unfolding validate_root
  validate_root-IsRoot e is_element kinded h =
      let (named, protocol) = root_name h in
      let (_, _, h1) =
        >>=-eq-ok
          (fail_if
            (not (element.local_name == parser_root parser_type)
              || not (kind == NamespaceKind.protocol))
            _)
          _ h in
      let (values, read, h2) =
        >>=-eq-ok
          (validate_unqualified_attributes element (root_consumed_attributes parser_type)
            always_required)
          _ h1 in
      let (_, version, h3) = >>=-eq-ok (require_version_2 values element) _ h2 in
      let (_, instant, _) = >>=-eq-ok (require_issue_instant values element) _ h3 in
      let (issued, is_issued, is_instant) = require_issue_instant-some values element instant in
      record {
        element = element;
        is_element = is_element;
        is_named = named;
        is_protocol = rw kinded protocol;
        values = values;
        are_values = read;
        is_version_2 = require_version_2-eq values element version;
        issued = issued;
        is_issued = is_issued;
        is_instant = is_instant;
      }

-- One event before the root leaves the loop as it was, or is the root.
abbrev IsNoElement : Resolved → Type 0
IsNoElement e =
    (element : Element) → (e.event ≢ Event.start element) × (e.event ≢ Event.empty element)

abbrev resolved : Namespace → Event → Resolved
resolved namespace event = record { namespace = namespace; event = event }

profile_step-first :
    (parser_type : ParserType) (namespace : Namespace) (event : Event) (next : ProfileReader)
    → profile_step parser_type unread (resolved namespace event) ≡ ok next
    → IsRoot parser_type (resolved namespace event)
      ⊎ (IsNoElement (resolved namespace event) × (next ≡ unread))
unfolding profile_step mark_stack validate_element
profile_step-first parser_type namespace (Event.start element) next h =
    let (_, valid, _) =
      >>=-eq-ok (validate_root element (classify_namespace namespace) parser_type) _ h in
    inl (
      validate_root-IsRoot parser_type element (classify_namespace namespace)
        (resolved namespace (Event.start element)) (inl refl) refl valid)
profile_step-first parser_type namespace (Event.empty element) next h =
    let (_, valid, _) =
      >>=-eq-ok (validate_root element (classify_namespace namespace) parser_type) _ h in
    inl (
      validate_root-IsRoot parser_type element (classify_namespace namespace)
        (resolved namespace (Event.empty element)) (inr refl) refl valid)
profile_step-first parser_type namespace Event.close next h =
    inr ((λ element. ((λ e. cc), λ e. cc)), of_ok (λ n. n ≡ unread) h refl)
profile_step-first parser_type namespace Event.doc_type next h =
    inr ((λ element. ((λ e. cc), λ e. cc)), of_ok (λ n. n ≡ unread) h refl)
profile_step-first parser_type namespace Event.other next h =
    inr ((λ element. ((λ e. cc), λ e. cc)), of_ok (λ n. n ≡ unread) h refl)
profile_step-first parser_type namespace (Event.text t) next h =
    inr ((λ element. ((λ e. cc), λ e. cc)), of_ok (λ n. n ≡ unread) h refl)
profile_step-first parser_type namespace (Event.cdata t) next h =
    inr ((λ element. ((λ e. cc), λ e. cc)), of_ok (λ n. n ≡ unread) h refl)
profile_step-first parser_type namespace (Event.general_ref r) next h =
    inr ((λ element. ((λ e. cc), λ e. cc)), of_ok (λ n. n ≡ unread) h refl)

profile_run-StartsWithRoot :
    (parser_type : ParserType) (events : List (Foreign Resolved)) (out : ProfileReader)
    → profile_run parser_type unread events ≡ ok out
    → out.saw_root ≡ true
    → StartsWithRoot parser_type events
unfolding profile_run
profile_run-StartsWithRoot parser_type [] out h seen =
    cc (of_ok (λ (r : ProfileReader). r.saw_root ≡ false) h refl)
profile_run-StartsWithRoot parser_type (err e ∷ events) out h seen = cc
profile_run-StartsWithRoot parser_type (ok e ∷ events) out h seen =
    let (next, stepped, h1) = >>=-eq-ok (profile_step parser_type unread e) _ h in
    elim (profile_step-first parser_type e.namespace e.event next stepped) [
      | inl root ↦ StartsWithRoot.here root
      | inr (no_element, same) ↦
          StartsWithRoot.past no_element
            (profile_run-StartsWithRoot parser_type events out (rw same at h1) seen)
    ]

-- A document fits the profile of a kind of message only if its first element is the root of that
-- kind, in the protocol namespace, with version 2.0 and an instant of issue that can be read.
pub validate_protocol_profile-StartsWithRoot :
    (xml : XmlLibrary) (source : String) (parser_type : ParserType) (limits : XmlLimits)
    → validate_protocol_profile xml source parser_type limits ≡ ok tt
    → StartsWithRoot parser_type
        (xml.read_resolved_events (some limits.max_attributes_per_element) source)
unfolding validate_protocol_profile
validate_protocol_profile-StartsWithRoot xml source parser_type limits h =
    let (_, _, h1) = >>=-eq-ok (check_input_bytes limits (len source)) _ h in
    let (out, ran, h2) =
      >>=-eq-ok
        (profile_run parser_type unread
          (xml.read_resolved_events (some limits.max_attributes_per_element) source))
        _ h1 in
    profile_run-StartsWithRoot parser_type _ out ran (seen out.saw_root (fail_if-ok _ _ tt h2))
  where
    seen : (b : Bool) → not b ≡ false → b ≡ true
    seen true e = refl
    seen false e = cc
