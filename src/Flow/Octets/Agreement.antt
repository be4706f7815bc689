-- ===== src/Flow/Octets/Agreement.antt =====
-- An octet string that passes the check of src/flow.rs has the fields that are consumed.
use risaml.Prelude.{
  String, Bool, true, false, not, Option, none, some, List, [], ◌∷◌, ok, >>=-eq-ok, ok_or-ok,
  fail_if-ok, fail_if, ok_or, ◌==◌, string_eq, option_eq, ◌≡◌, ◌↔◌, ◌⊎◌, refl, eq_iff,
  option_beq_iff, Any, Bool-cases, inl, inr,
}
use risaml.Prelude.Text.{concat}
use risaml.Constants.{ParserType, query_param}
use risaml.Libraries.Web.{UrlLibrary}
use risaml.Flow.Params.{HttpRequest, single_param, query_get, body_get}
use risaml.Flow.Params.Laws.{HasOnly, Lacks, single_param_lem, single_param-Lacks}
use risaml.Flow.Octets.{
  is_present, is_one_of, simplesign_octets, missing_binding_parameter,
  ensure_redirect_octet_matches_consumed_fields, ensure_simplesign_octet_matches_consumed_fields,
}

-- The signed pairs and the query have one message and one RelayState, the same; the signed pairs
-- name the algorithm once, and hold no signature.
abbrev pub RedirectAgrees : UrlLibrary → ParserType → HttpRequest → String → String → Type 0
RedirectAgrees urls parser_type request sig_alg octet =
    ((message : String) × HasOnly (query_param parser_type) message (urls.form_parse octet)
      × HasOnly (query_param parser_type) message request.query)
    × HasOnly "SigAlg" sig_alg (urls.form_parse octet)
    × ((relay : Option String) × (single_param (urls.form_parse octet) "RelayState" ≡ ok relay)
        × (single_param request.query "RelayState" ≡ ok relay))
    × (single_param (urls.form_parse octet) "Signature" ≡ ok none)

equal_if : (a b : String) → not (a == b) ≡ false → a ≡ b
equal_if a b h = elim (Bool-cases (a == b)) [
  | inl same ↦ (eq_iff a b).0 same
  | inr other ↦ cc (rw other at h)
]

same_relay : (a b : Option String) → not (a == b) ≡ false → a ≡ b
same_relay a b h = elim (Bool-cases (a == b)) [
  | inl same ↦ (option_beq_iff string_eq a b).0 same
  | inr other ↦ cc (rw other at h)
]

absent_if : (o : Option String) → is_present o ≡ false → o ≡ none
absent_if none h = refl
absent_if (some s) h = cc

module _ (urls : UrlLibrary) (parser_type : ParserType) (request : HttpRequest)
    (sig_alg octet : String) where
  -- A redirect octet string that passes: its message, RelayState and algorithm are those that are
  -- consumed, each of them given once.
  pub ensure_redirect_octet-RedirectAgrees :
      ensure_redirect_octet_matches_consumed_fields urls parser_type request sig_alg octet ≡ ok tt
      → RedirectAgrees urls parser_type request sig_alg octet
  unfolding ensure_redirect_octet_matches_consumed_fields query_get
  ensure_redirect_octet-RedirectAgrees h =
      let direction = query_param parser_type in
      let signed = urls.form_parse octet in
      let (signature, read_signature, h1) = >>=-eq-ok (single_param signed "Signature") _ h in
      let (u, unsigned, h2) = >>=-eq-ok (fail_if (is_present signature) _) _ h1 in
      let (found, read_found, h3) = >>=-eq-ok (single_param signed direction) _ h2 in
      let (message, is_message, h4) =
        >>=-eq-ok (ok_or found (missing_binding_parameter direction)) _ h3 in
      let (given, read_given, h5) = >>=-eq-ok (single_param request.query direction) _ h4 in
      let (consumed, is_consumed, h6) =
        >>=-eq-ok (ok_or given (missing_binding_parameter direction)) _ h5 in
      let (w, same_message, h7) = >>=-eq-ok (fail_if (not (message == consumed)) _) _ h6 in
      let (algorithm, read_algorithm, h8) = >>=-eq-ok (single_param signed "SigAlg") _ h7 in
      let (named, is_named, h9) =
        >>=-eq-ok (ok_or algorithm (missing_binding_parameter "SigAlg")) _ h8 in
      let (x, same_algorithm, h10) = >>=-eq-ok (fail_if (not (named == sig_alg)) _) _ h9 in
      let (relay, read_relay, h11) = >>=-eq-ok (single_param signed "RelayState") _ h10 in
      let (consumed_relay, read_consumed, h12) =
        >>=-eq-ok (single_param request.query "RelayState") _ h11 in
      let (y, related, _) = >>=-eq-ok (fail_if (not (relay == consumed_relay)) _) _ h12 in
      let e_message : message ≡ consumed =
        equal_if message consumed (fail_if-ok _ _ w same_message) in
      let e_named : named ≡ sig_alg = equal_if named sig_alg (fail_if-ok _ _ x same_algorithm) in
      let e_relay : relay ≡ consumed_relay =
        same_relay relay consumed_relay (fail_if-ok _ _ y related) in
      let e_signature : signature ≡ none = absent_if signature (fail_if-ok _ _ u unsigned) in
      let signed_message : single_param signed direction ≡ ok (some message) =
        rw (← ok_or-ok found _ message is_message) read_found in
      let consumed_message : single_param request.query direction ≡ ok (some message) =
        rw (e_message, ← ok_or-ok given _ consumed is_consumed) read_given in
      let signed_algorithm : single_param signed "SigAlg" ≡ ok (some sig_alg) =
        rw (← e_named, ← ok_or-ok algorithm _ named is_named) read_algorithm in
      (
        (
          message,
          (single_param_lem signed direction message).0 signed_message,
          (single_param_lem request.query direction message).0 consumed_message,
        ),
        (single_param_lem signed "SigAlg" sig_alg).0 signed_algorithm,
        (relay, read_relay, rw e_relay read_consumed),
        rw (← e_signature) read_signature,
      )

is_one_of-Any :
    (octet : String) (expected : List String)
    → is_one_of octet expected ≡ true
    → Any (λ e. octet ≡ e) expected
is_one_of-Any octet [] h = cc
is_one_of-Any octet (e ∷ rest) h = elim (Bool-cases (octet == e)) [
  | inl same ↦ Any.here ((eq_iff octet e).0 same)
  | inr other ↦ Any.there (is_one_of-Any octet rest (rw other at h))
]

Any-is_one_of :
    (octet : String) (expected : List String)
    → Any (λ e. octet ≡ e) expected
    → is_one_of octet expected ≡ true
Any-is_one_of octet [] found = elim found [ ]
Any-is_one_of octet (e ∷ rest) (Any.here same) = rw ((eq_iff octet e).1 same) refl
Any-is_one_of octet (e ∷ rest) (Any.there later) = elim (Bool-cases (octet == e)) [
  | inl same ↦ rw same refl
  | inr other ↦ rw other (Any-is_one_of octet rest later)
]

module _ (parser_type : ParserType) (request : HttpRequest) (xml sig_alg octet : String) where
  -- The octet string is the decoded message, the RelayState of the body and the algorithm, behind
  -- their names. Without a RelayState in the body, it has none, or an empty one.
  abbrev pub IsOctetOf : Option String → Type 0
  IsOctetOf (some relay) =
      HasOnly "RelayState" relay request.body
      × (octet
          ≡ concat (
              query_param parser_type
              ∷ "="
              ∷ xml
              ∷ "&RelayState="
              ∷ relay
              ∷ "&SigAlg="
              ∷ sig_alg
              ∷ []))
  IsOctetOf none =
      Lacks "RelayState" request.body
      × ((octet ≡ concat (query_param parser_type ∷ "=" ∷ xml ∷ "&SigAlg=" ∷ sig_alg ∷ []))
          ⊎ (octet
              ≡ concat
                  (query_param parser_type ∷ "=" ∷ xml ∷ "&RelayState=&SigAlg=" ∷ sig_alg ∷ [])))

  -- The body has one message, and at most one RelayState.
  abbrev pub SimpleSignAgrees : Type 0
  SimpleSignAgrees =
      ((message : String) × HasOnly (query_param parser_type) message request.body)
      × ((relay : Option String) × IsOctetOf relay)

  octets_of :
      (relay : Option String)
      → single_param request.body "RelayState" ≡ ok relay
      → Any (λ e. octet ≡ e) (simplesign_octets (query_param parser_type) xml relay sig_alg)
      → IsOctetOf relay
  unfolding simplesign_octets concat
  octets_of (some relay) read (Any.here same) =
      ((single_param_lem request.body "RelayState" relay).0 read, same)
  octets_of none read (Any.here same) =
      ((single_param-Lacks request.body "RelayState").0 read, inl same)
  octets_of none read (Any.there (Any.here same)) =
      ((single_param-Lacks request.body "RelayState").0 read, inr same)
  octets_of none read (Any.there (Any.there later)) = elim later [ ]
  octets_of (some relay) read (Any.there later) = elim later [ ]

  octets_are :
      (relay : Option String)
      → IsOctetOf relay
      → (single_param request.body "RelayState" ≡ ok relay)
        × Any (λ e. octet ≡ e) (simplesign_octets (query_param parser_type) xml relay sig_alg)
  unfolding simplesign_octets concat
  octets_are (some relay) (only, same) =
      ((single_param_lem request.body "RelayState" relay).1 only, Any.here same)
  octets_are none (lacks, inl same) =
      ((single_param-Lacks request.body "RelayState").1 lacks, Any.here same)
  octets_are none (lacks, inr same) =
      ((single_param-Lacks request.body "RelayState").1 lacks, Any.there (Any.here same))

  -- A SimpleSign octet string passes exactly if the body has one message and at most one RelayState,
  -- and the string is written of the decoded message, of that RelayState and of the algorithm; where
  -- the body has no RelayState, the string may have an empty one.
  pub ensure_simplesign_octet_matches_consumed_fields_lem :
      (ensure_simplesign_octet_matches_consumed_fields parser_type request xml sig_alg octet
        ≡ ok tt)
      ↔ SimpleSignAgrees
  unfolding ensure_simplesign_octet_matches_consumed_fields body_get
  ensure_simplesign_octet_matches_consumed_fields_lem = (
    (λ h.
        let direction = query_param parser_type in
        let (message, read_message, h1) = >>=-eq-ok (single_param request.body direction) _ h in
        let (present, is_present, h2) =
          >>=-eq-ok (ok_or message (missing_binding_parameter direction)) _ h1 in
        let (relay, read, h3) = >>=-eq-ok (single_param request.body "RelayState") _ h2 in
        let octets = simplesign_octets direction xml relay sig_alg in
        let (u, fits, _) = >>=-eq-ok (fail_if (not (is_one_of octet octets)) _) _ h3 in
        let one = not_not (is_one_of octet octets) (fail_if-ok _ _ u fits) in
        let has_message : single_param request.body direction ≡ ok (some present) =
          rw (← ok_or-ok message _ present is_present) read_message in
        (
          (present, (single_param_lem request.body direction present).0 has_message),
          (relay, octets_of relay read (is_one_of-Any octet octets one)),
        )),
    λ ((message, only), (relay, is_octet)).
        let (read, one) = octets_are relay is_octet in
        rw
          (
            (single_param_lem request.body (query_param parser_type) message).1 only,
            read,
            Any-is_one_of octet (simplesign_octets (query_param parser_type) xml relay sig_alg) one,
          )
          refl,
  )
    where
      not_not : (b : Bool) → not b ≡ false → b ≡ true
      not_not true e = refl
      not_not false e = cc
