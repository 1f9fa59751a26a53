-- ===== src/Lib.antt =====
-- AINextGenC2: the labelling, policy, audit and exchange core of a MIM 5.1 interoperability stack.
--
-- The program labels objects of the MIP Information Model with confidentiality labels, decides on
-- access and cross-domain transfer by policy, records each decision in a hash-chained audit log,
-- and exchanges the objects between brokers that replicate each other's journals. A label goes
-- from the metadata of an instance to the policy information point, which builds a context; the
-- decision point evaluates it over the policy store; the enforcement point turns a denial into an
-- error and records the decision. The broker keeps instances and a journal that others pull; it
-- checks an instance over the registry of the information model. The data-centric guard releases a
-- payload from one domain to another: it verifies the binding of its label, asks the enforcement
-- point, and binds the label that it decided on anew.
--
-- The files and the code they model:
-- - Base: lists, texts as code points, results, numbers, UTF-8 and maps, as the code uses Rust's.
-- - Core: Nillable, Error and Representation are nil_reason.rs, error.rs and representation.rs of
--   crates/mim-core/src.
-- - Model: crates/mim-model/src. Metadata, Taxonomy, CodeList, Manifest and Registry hold the code of
--   the files of these names; Ancestors and Integrity the proofs.
-- - Label: crates/mim-labeling/src. Classification, Policy, Domain, Confidentiality and Security
--   hold the code of classification.rs, policy.rs, domain.rs and label.rs; Parsing, Validity and
--   Bridge hold the proofs.
-- - Policy: crates/mim-policy/src. Context, Pip, Store, Downgrade, Pdp and Pep hold the code of the
--   files of these names; Checks, Access, Intersection, Transfer, Release, Enforcement, Admin,
--   Removal and Flag hold the proofs. Policy/Spif is the data of crates/mim-spif/src/policy.rs.
-- - Spif: crates/mim-spif/src. Presets, Registry and Validator are policy.rs, registry.rs and
--   validator.rs; Conforming holds the proofs.
-- - Crypto/Provider: the bindings of crates/mim-crypto/src/provider.rs over a backend.
-- - Audit: crates/mim-audit/src. Record, Chain and Log hold the code; Linked and Integrity the
--   proofs.
-- - Stanag: crates/mim-stanag4778/src. Binding, Assertion and DataObject are binding.rs,
--   assertion.rs, and bdo.rs with detached.rs; Profiles is rest_envelope.rs and smtp_header.rs;
--   Verified and Swapped hold the proofs.
-- - Ztdf: crates/mim-ztdf/src. Manifest is assertion.rs, manifest.rs and the local client of kas.rs,
--   Package is package.rs; Opened holds the proofs. Crypto/Symmetric is
--   crates/mim-crypto/src/symmetric.rs.
-- - Dcs: crates/mim-dcs/src. Guard is guard.rs, Transfer and Receipt are transfer.rs; Releasing, Naming
--   and Receiving hold the proofs. A transfer is stated over an interface of packages, which those of
--   Ztdf fill in Receipt.
-- - Runtime: the instances, the validation report and the validator of crates/mim-runtime/src;
--   Conformance holds the proofs on the validator.
-- - Transport: crates/mim-transport/src. Message, Broker, Apply, Query, Filter, Replication, Snapshot,
--   Secured, SecuredQuery and Enveloped model code of message.rs, error.rs, broker.rs, filter.rs,
--   replication.rs, persistence.rs, secured.rs and envelope.rs; Lookup, Journal, Sync, Paging, Matching,
--   Selection, Render, Refusal, Gated, GatedQuery and GatedSync hold proofs, and Enveloped
--   those of its own.
-- - Tests: concrete inputs, and the theorems applied to them.
--
-- An operation on `&mut self` is a function to the new state, in a result where it may fail; where
-- a failure leaves a changed state behind, the state is returned beside the result. Loops over a list
-- are structural recursion. Three loops run on fuel. That of `decimal` is one unit more than the
-- number, which is more than its digits. That of `parse_predicates` is one unit more than the length
-- of the text, of which each round takes a part. `ancestors_of`, and `validate_instance` over it,
-- take their fuel as an argument and answer `none` without enough of it: the rank of the class is
-- enough in a registry whose parents form no cycle. A sequence number saturates at 2 ^ 64 - 1.
--
-- Parameters: the cryptographic backend and base64 (`CryptoProvider`, with `IsSound` for what it
-- documents), the JSON of an audit record (`ChainBackend`), the audit sink (`AuditSink`), the JSON
-- values (`Json`), the Unicode upper-case tables, the time and the identifier of a record
-- (`Stamp`), the checks of an instance before the broker stores it (`Validators`), the codec of
-- STANAG 4774 and the resolver of detached labels (`BindingBackend`), the packages that a transfer
-- makes (`ZtdfBackend`), the encryption of content and the wrapping of its keys (`ContentBackend`,
-- with `IsSoundContent` for what they document), the archive (`ArchiveBackend`), the deserialiser of
-- an envelope's payload, the text of an error of UTF-8, and how Rust prints a list of texts
-- (`debug_texts`).
--
-- Not modelled: files, network, HTTP, TLS, LDAP and SAML, the XML and JSON codecs, the serialiser, the
-- OWL importer and the conformance runners, which are I/O or calls of other libraries; of the guard
-- its configuration files, and of the identity sources the directory in memory.
pub mod Base
pub mod Core
pub mod Model
pub mod Label
pub mod Policy
pub mod Spif
pub mod Crypto
pub mod Stanag
pub mod Ztdf
pub mod Dcs
pub mod Audit
pub mod Runtime
pub mod Transport
pub mod Tests
