-- ===== src/Xml/Profile/Children.antt =====
-- src/xml/profile.rs: which namespace a child is to have, and which attributes are read.
use risaml.Prelude.{
  String, Bool, false, ◌&&◌, ◌||◌, Option, none, some, List, [], ◌∷◌, ◌==◌, string_eq,
  if◌then◌else◌, contains,
}
use risaml.Xml.Profile.Attributes.{NamespaceKind, kind_eq}

pub record ExpandedName : Type 0 where
  pub local : String
  pub namespace : NamespaceKind
  pub conditions_seen : Bool
  pub one_time_use_seen : Bool
  pub proxy_restriction_seen : Bool

abbrev pub is : ExpandedName → String → NamespaceKind → Bool
is e local namespace = e.local == local && e.namespace == namespace

-- `stack.last().is_some_and(…)`, for an element of the assertion namespace.
abbrev pub top_is : List ExpandedName → String → Bool
top_is [] local = false
top_is (top ∷ _) local = is top local NamespaceKind.assertion

abbrev one_of : List String → String → NamespaceKind → Option NamespaceKind
one_of names child namespace = if contains names child then some namespace else none

abbrev or_else : Option NamespaceKind → Option NamespaceKind → Option NamespaceKind
or_else none second = second
or_else (some n) second = some n

-- The children of the root; the outer `none` falls through to the rules of every depth.
abbrev root_child : ExpandedName → String → Option (Option NamespaceKind)
root_child root child =
    if child == "Issuer"
    then some (some NamespaceKind.assertion)
    else if child == "Signature"
    then some (some NamespaceKind.dsig)
    else if is root "AuthnRequest" NamespaceKind.protocol
    then some (
        or_else
          (one_of ("NameIDPolicy" ∷ "RequestedAuthnContext" ∷ []) child NamespaceKind.protocol)
          (one_of ("AuthnContextClassRef" ∷ []) child NamespaceKind.assertion))
    else if is root "Response" NamespaceKind.protocol
    then some (
        or_else (one_of ("Status" ∷ []) child NamespaceKind.protocol)
          (one_of ("Assertion" ∷ "EncryptedAssertion" ∷ []) child NamespaceKind.assertion))
    else if is root "LogoutRequest" NamespaceKind.protocol
    then some (
        or_else (one_of ("NameID" ∷ []) child NamespaceKind.assertion)
          (one_of ("SessionIndex" ∷ []) child NamespaceKind.protocol))
    else if is root "LogoutResponse" NamespaceKind.protocol && child == "Status"
    then some (some NamespaceKind.protocol)
    else none

abbrev assertion_children : List String
assertion_children =
    "Issuer" ∷ "Subject" ∷ "Conditions" ∷ "AuthnStatement" ∷ "AttributeStatement" ∷ []

-- The rules of every depth.
abbrev inner_child : ExpandedName → String → Option NamespaceKind
inner_child parent child =
    if is parent "Status" NamespaceKind.protocol || is parent "StatusCode" NamespaceKind.protocol
    then one_of ("StatusCode" ∷ []) child NamespaceKind.protocol
    else if is parent "RequestedAuthnContext" NamespaceKind.protocol
    then one_of ("AuthnContextClassRef" ∷ []) child NamespaceKind.assertion
    else if is parent "Assertion" NamespaceKind.assertion
    then or_else (one_of ("Signature" ∷ []) child NamespaceKind.dsig)
        (one_of assertion_children child NamespaceKind.assertion)
    else if is parent "Subject" NamespaceKind.assertion
    then one_of ("NameID" ∷ "SubjectConfirmation" ∷ []) child NamespaceKind.assertion
    else if is parent "SubjectConfirmation" NamespaceKind.assertion
    then one_of ("SubjectConfirmationData" ∷ []) child NamespaceKind.assertion
    else if is parent "Conditions" NamespaceKind.assertion
    then one_of ("AudienceRestriction" ∷ "OneTimeUse" ∷ "ProxyRestriction" ∷ []) child
        NamespaceKind.assertion
    else if is parent "AudienceRestriction" NamespaceKind.assertion
        || is parent "ProxyRestriction" NamespaceKind.assertion
    then one_of ("Audience" ∷ []) child NamespaceKind.assertion
    else if is parent "AttributeStatement" NamespaceKind.assertion
    then one_of ("Attribute" ∷ []) child NamespaceKind.assertion
    else if is parent "Attribute" NamespaceKind.assertion
    then one_of ("AttributeValue" ∷ []) child NamespaceKind.assertion
    else if is parent "EncryptedAssertion" NamespaceKind.assertion
    then one_of ("EncryptedData" ∷ []) child NamespaceKind.xml_encryption
    else none

abbrev at_root : ExpandedName → String → Option NamespaceKind
at_root root child = elim (root_child root child) [
  | none ↦ inner_child root child
  | some answer ↦ answer
]

-- The stack has the innermost element first; with one element, that is the root.
unfoldable pub expected_child_namespace : List ExpandedName → String → Option NamespaceKind
expected_child_namespace [] child = none
expected_child_namespace (root ∷ []) child =
    if root.namespace == NamespaceKind.protocol then at_root root child else inner_child root child
expected_child_namespace (parent ∷ _) child = inner_child parent child

abbrev assertion_attributes : String → List String
assertion_attributes local =
    if local == "Assertion"
    then "ID" ∷ "Version" ∷ "IssueInstant" ∷ []
    else if local == "Conditions"
    then "NotBefore" ∷ "NotOnOrAfter" ∷ []
    else if local == "NameID"
    then "Format" ∷ []
    else if local == "SubjectConfirmation"
    then "Method" ∷ []
    else if local == "SubjectConfirmationData"
    then "NotOnOrAfter" ∷ "Recipient" ∷ "InResponseTo" ∷ []
    else if local == "AuthnStatement"
    then "AuthnInstant" ∷ "SessionNotOnOrAfter" ∷ "SessionIndex" ∷ []
    else if local == "Attribute"
    then "Name" ∷ []
    else []

abbrev protocol_attributes : String → List String
protocol_attributes local =
    if local == "StatusCode"
    then "Value" ∷ []
    else if local == "NameIDPolicy"
    then "Format" ∷ "AllowCreate" ∷ []
    else []

abbrev attributes_by_kind : NamespaceKind → String → List String
attributes_by_kind NamespaceKind.assertion local = assertion_attributes local
attributes_by_kind NamespaceKind.protocol local = protocol_attributes local
attributes_by_kind _ local = []

unfoldable pub consumed_attributes : ExpandedName → List String
consumed_attributes element = attributes_by_kind element.namespace element.local
