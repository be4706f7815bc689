-- ===== src/Tests/Documents.antt =====
-- A small signed response, and libraries that read and verify it.
use risaml.Prelude.{
  length, ℕ, String, true, none, some, List, [], ◌∷◌, ok, err, ◌==◌, string_eq, if◌then◌else◌,
}
use risaml.Errors.{Foreign}
use risaml.Libraries.Xml.{Namespace, XmlAttribute, Event, Positioned, Resolved, XmlLibrary}
use risaml.Libraries.Crypto.{CryptoLibrary, VerifyResult, VerifiedReference}
use risaml.Xml.Dom.Tree.{Node, node, nil, cons}
use risaml.Libraries.Web.{UrlLibrary, Codec, Status}

abbrev pub dsig : Namespace
dsig =
    Namespace.bound "http://www.w3.org/2000/09/xmldsig#" (ok "http://www.w3.org/2000/09/xmldsig#")

abbrev pub attribute : String → String → Foreign XmlAttribute
attribute name value = ok (record {
  key = name;
  local_name = name;
  is_namespace_binding = name == "xmlns";
  namespace = Namespace.unbound;
  value = ok value;
})

abbrev pub at : ℕ → ℕ → Event → Foreign Positioned
at before after event = ok (record { before = before; after = after; event = event })

abbrev pub resolved : Namespace → Event → Foreign Resolved
resolved namespace event = ok (record { namespace = namespace; event = event })

abbrev pub signed_source : String
signed_source =
    "<Response ID=\"r\"><Signature xmlns=\"http://www.w3.org/2000/09/xmldsig#\"><SignedInfo><Reference URI=\"#r\"/></SignedInfo></Signature><Assertion ID=\"a\"/></Response>"

abbrev pub signed_events : List (Foreign Positioned)
signed_events =
    at 0 17 (Event.start (record { local_name = "Response"; attributes = attribute "ID" "r" ∷ [] }))
    ∷ at 17 71 (
        Event.start (record {
          local_name = "Signature";
          attributes = attribute "xmlns" "http://www.w3.org/2000/09/xmldsig#" ∷ [];
        }))
    ∷ at 71 83 (Event.start (record { local_name = "SignedInfo"; attributes = [] }))
    ∷ at 83 104
        (Event.empty (record { local_name = "Reference"; attributes = attribute "URI" "#r" ∷ [] }))
    ∷ at 104 117 Event.close
    ∷ at 117 129 Event.close
    ∷ at 129 148
        (Event.empty (record { local_name = "Assertion"; attributes = attribute "ID" "a" ∷ [] }))
    ∷ at 148 159 Event.close
    ∷ []

abbrev pub signed_resolved : List (Foreign Resolved)
signed_resolved =
    resolved Namespace.unbound
      (Event.start (record { local_name = "Response"; attributes = attribute "ID" "r" ∷ [] }))
    ∷ resolved dsig (
        Event.start (record {
          local_name = "Signature";
          attributes = attribute "xmlns" "http://www.w3.org/2000/09/xmldsig#" ∷ [];
        }))
    ∷ resolved dsig (Event.start (record { local_name = "SignedInfo"; attributes = [] }))
    ∷ resolved dsig
        (Event.empty (record { local_name = "Reference"; attributes = attribute "URI" "#r" ∷ [] }))
    ∷ resolved dsig Event.close
    ∷ resolved dsig Event.close
    ∷ resolved Namespace.unbound
        (Event.empty (record { local_name = "Assertion"; attributes = attribute "ID" "a" ∷ [] }))
    ∷ resolved Namespace.unbound Event.close
    ∷ []

-- A reader that knows the one document.
abbrev pub sample_xml : XmlLibrary
sample_xml = record {
  read_events = λ source. if source == signed_source then signed_events else [];
  read_resolved_events = λ _ source. if source == signed_source then signed_resolved else [];
  predefined_entity = λ name. if name == "amp" then some "&" else none;
}

abbrev pub response_reference : VerifiedReference
response_reference = record { uri = "#r"; digest_verified = true; is_resolved = true }

-- A backend whose keys are texts, and which accepts the document under one of them.
abbrev pub sample_crypto : CryptoLibrary
sample_crypto = record {
  Key = String;
  VerifyingKey = String;
  Algorithm = String;
  initialize = ok tt;
  load_x509_cert_pem = λ pem. if pem == trusted_pem then ok "trusted" else err "not a certificate";
  load_pem_auto = λ pem _. ok pem;
  verify = λ context source. ok (accepted context.key);
  verify_all = λ context source. ok (accepted context.key ∷ []);
  to_signing_key = λ key. ok (some key);
  from_uri = λ uri. ok uri;
  algorithm_verify = λ _ _ _ _. ok true;
  decrypt = λ _ source. ok source;
  is_rustcrypto = true;
}
  where
    trusted_pem : String
    trusted_pem = "-----BEGIN CERTIFICATE-----\nAAAA\n-----END CERTIFICATE-----\n"

    accepted : String → VerifyResult
    accepted key =
        if key == "trusted"
        then VerifyResult.valid (response_reference ∷ [])
        else VerifyResult.invalid

abbrev pub sample_urls : UrlLibrary
sample_urls = record {
  parse = λ text. ok (record { scheme = "https"; has_host = true });
  form_parse = λ text.
      if text == "SAMLRequest=M&SigAlg=A" then ("SAMLRequest", "M") ∷ ("SigAlg", "A") ∷ [] else [];
  byte_serialize = λ text. text;
}

-- The tree of the document.
abbrev pub signed_root : Node
signed_root =
    node "Response" (("ID", "r") ∷ [])
      (cons
        (node "Signature" ([])
          (cons
            (node "SignedInfo" ([]) (cons (node "Reference" (("URI", "#r") ∷ []) nil "" 83 104) nil)
              "" 71 117)
            nil)
          "" 17 129)
        (cons (node "Assertion" (("ID", "a") ∷ []) nil "" 129 148) nil))
      "" 0 159

-- A codec that decodes one text.
abbrev pub sample_codec : Codec
sample_codec = record {
  base64_decode = λ text. if text == "AAAA" then ok (0 ∷ 0 ∷ 0 ∷ []) else err "invalid byte";
  base64_encode = λ bytes. "AAAA";
  Decoder = Unit;
  raw_decoder = tt;
  decompress = λ decoder input room. ok (record {
    decoder = tt;
    consumed = length input;
    written = input;
    status = Status.stream_end;
  });
  deflate = λ bytes. ok bytes;
}
