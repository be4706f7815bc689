-- ===== src/Lib.antt =====
-- A model of risaml, a SAML 2.0 service-provider and identity-provider library in Rust.
--
-- The parts and their files:
--   Xml/Dom        src/xml/dom.rs: the tree of a document (Tree), the loop that builds it
--                  (Parse), and the limits as an invariant of that loop (Bounds, Steps,
--                  Invariant).
--   Crypto         src/crypto: certificates as keys (Keys, of keys.rs), and verify.rs: the guards
--                  on a document (Guards), the targets of references and their transforms
--                  (Targets), the content that targets cover (Coverage), the check of every
--                  signature before the backend runs (Preflight), and the verification itself
--                  (Verify).
--   Xml/Extract    src/xml/extract.rs: the fields that are read from a document, by paths
--                  (Select) and by documents of their own; Xml/Fields has the sets of
--                  src/xml/fields.rs.
--   Xml/Profile    src/xml/profile.rs: the check of an inbound message on its resolved events,
--                  with the rules on attributes (Attributes) and on children (Children);
--                  Xml/DateTime has the instants of src/xml/date_time.rs.
--   Crypto/Decrypt src/crypto/enc.rs: the decryption of an assertion, around the backend.
--   Flow           src/flow.rs: the options (Options), the parameters of a request (Params) and
--                  the message in them (Decode), the octet string of a detached signature
--                  (Octets) and its verification (Detached, with verify_message_signature of
--                  src/crypto/sign.rs), the preparation of what an embedded signature or an
--                  encryption covers (Prepare), the audience (Audience), the confirmation of the
--                  subject (Confirmation), the checks of the fields (Context), and the flow that
--                  puts them in order (Run).
--   Encoding       src/binding/encoding.rs: Base64 and its limit.
--   Inflate        src/binding/deflate.rs: raw DEFLATE within a limit.
--   Browser        src/browser: bindings, endpoints, what a browser sends as a request (Input, of
--                  input.rs), and the state of a request that was sent (Pending, of pending.rs),
--                  with its snapshot and its deadline.
--   Model          src/model: RelayState, identifiers and endpoint URLs, what the messages read
--                  of extracted fields (Extract, with the formats of NameId), the statements
--                  about a session (Session, of session.rs and extract.rs), and the replay policy
--                  (Replay, of validation.rs), with the caller's cache as an argument.
--   Metadata       src/metadata/policy.rs (Policy): the deadline, the certificates and the names
--                  of a metadata document.
--   Validator      src/validator.rs: time windows, the status of a response (Status, with the
--                  check of src/context.rs by the registered schema), the end of a logout request
--                  (Deadline).
--   Constants, Errors, Util src/constants.rs, src/error.rs, src/util.rs with its values (Value)
--                  and the words of a name (Case).
--   Libraries      what the code uses of other crates, as records of functions that the
--                  definitions take as an argument: the clock and dates (Time), URLs and codecs
--                  (Web), the events of quick_xml (Xml), the case of letters (Unicode), and the
--                  cryptographic backend (Crypto). Documented behaviour that a theorem needs of
--                  them is a hypothesis, such as IsLawful.
--   Prelude        shared helpers. Tests holds concrete libraries, and the theorems at them.
--
-- How they interact: Browser/Input makes the request that Flow reads. Flow/Run decodes a message
-- by Encoding and Inflate, holds it against Xml/Profile and its status, verifies it by
-- Flow/Detached or, through Flow/Prepare, by Crypto/Verify and Crypto/Decrypt, extracts the
-- fields by Xml/Extract, and checks them by Flow/Context, whose times are those of Validator and
-- Model/Session. Crypto/Verify parses a document with Xml/Dom, applies Guards and Preflight, asks
-- the backend, and reads the content by Coverage. Browser keeps the identifiers of Model, and its
-- deadlines use the conversion of Validator.
--
-- How code becomes a definition: a function that returns Result<_, SamlError> returns SamlResult,
-- and `?` is a bind. A loop over events, attributes or certificates is structural recursion on
-- the list; the end of the list of events is Eof. The loop of Inflate runs on fuel, a turn for
-- each byte of the input and of the limit and one more, which is enough since each turn reads or
-- writes. A turn without fuel is an error of its own, which does not arise. A Vec that is used as
-- a stack is a list with the innermost element first, and the set of seen identifiers is a list.
-- A Node holds its children in a list of its own, since a document is a mutual block. usize is a
-- natural number, and each checked addition has the bound 2^64 - 1 written out. Texts are
-- measured in the bytes of their UTF-8, as in Rust. An OffsetDateTime and a SystemTime are
-- nanoseconds since the Unix epoch. An error of another crate is its text. Each place that reads the clock is a case of ClockReading, so that two
-- readings may differ.
--
-- Not modelled: signing and encryption, which hand templates to the backend; the outbound
-- profiles of logout messages, the readers and writers of metadata, logout messages and the
-- facades, on which no definition here depends; a build without a crypto provider; and the
-- rendering of templates and forms, which is output only.
pub mod Browser
pub mod Constants
pub mod Crypto
pub mod Encoding
pub mod Errors
pub mod Flow
pub mod Inflate
pub mod Libraries
pub mod Metadata
pub mod Model
mod Prelude
pub mod Tests
pub mod Util
pub mod Validator
pub mod Xml
