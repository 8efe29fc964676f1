-- ===== src/Lib.antt =====
-- Verification of the WebMCP security lab.
--
-- lib/capability-core decides what an agent may do once: a lease that is claimed at most once, the
-- bindings that an invocation is checked against, and the receipt that links approval and use.
-- Capability/Lease.antt is lease.ts, Capability/Bindings.antt is bindings.ts and
-- Capability/Receipt.antt is receipt.ts; their children hold the proofs.
--
-- products/connector is the local connector. Connector/Bridge.antt is bridge-coordinator.ts, which
-- queues commands for paired browser pages and takes their results: Sessions pairs, authenticates
-- and revokes, Delivery queues commands, hands them out and lets their timers fire, Completion
-- takes a result, and Commit writes it to a receipt by way of an asynchronous attempt. The state is
-- one record with the five Maps of the class; a promise is the history of its settlements, and an
-- object that the code compares by identity carries a serial number. Trace makes one step of each
-- call, timer and end of an attempt, so that its properties hold for every interleaving of them.
-- Session ids are taken to be new, as randomUUID makes them. canonicalJson of a result is a
-- parameter: it is only compared. Connector/Challenges.antt is pairing-challenge.ts, the challenges
-- by which a browser tab pairs once, and Connector/Access.antt is report-access.ts, the launch
-- tickets of the connector's own pages and the sessions that they open. Both keep their entries in
-- a Map under the SHA-256 of a secret; the digest and the URL parser are parameters, and safeEqual
-- is equality of texts. Connector/SaveActions.antt is the action manager of issue-review.ts, by
-- whose tokens a local form saves an issue once. Connector/Receipts.antt is receipt-store.ts, the
-- hash-chained ledger of the receipts that pages returned, with its operations in
-- Receipts/Store.antt: the file is the list of its entries, and the validation of a receipt and the
-- two hashes are the fields of a Validator.
--
-- Issues models the reports of issues, also of products/connector. Issues/Draft.antt is
-- issue-draft.ts, Issues/Candidate.antt is issue-candidate.ts, Issues/Review.antt is the local
-- review store of issue-review.ts, Issues/External.antt is external-report-action.ts, the actions
-- by which a report on a public site is composed and submitted, Issues/Publication.antt is
-- issue-publication.ts and Issues/Moderation.antt is issue-moderation.ts. A report that is taken in
-- is a record with the history of its states; Moderation/Reached makes the records that intakes and
-- transitions lead to an inductive type, against which the reading of stored records is compared.
-- The values are typed, so the tests of own keys and of words, and parsePublicIssueFeedRecord, are
-- left out; new URL, net.isIP and toLowerCase are the fields of a Runtime that every module takes.
--
-- products/native-host carries messages between the browser, the native host and the connector.
-- NativeHost/Framing.antt is the length-prefixed framing of native-messaging.ts and of
-- ipc-protocol.ts, one model with the byte order and the limit as fields, and
-- NativeHost/Replay.antt is the replay window of ipc-protocol.ts and the checks of a request and
-- of a response. NativeHost/Exchange.antt is the creation of both, with the schemas, the HMAC and
-- the messages as the fields of a Channel. The loop of `push` runs on fuel, one more than the
-- bytes in the buffer: each round takes four bytes or more, so it never runs out. JSON, the
-- schemas (zod) and the HMAC are parameters or left out.
--
-- products/reporting-service keeps public reports. Reporting/Retention.antt is retention-core.ts:
-- the deadline of a report, its legal hold, and the hash-chained events of both, with SHA-256 of an
-- event's JSON as a parameter. Reporting/Correction.antt is correction-core.ts, the withdrawal of a
-- public report. Reporting/Auth.antt is auth.ts, the bearer tokens of the service, over the parts
-- of a configuration that it reads. Reporting/Ledger.antt is ledger.ts, which records each step of
-- the moderation of Issues/Moderation.antt as an event of a hash chain, by an actor with the role
-- for it; the SHA-256 of an event and of its payload are the fields of a Digests. Ledger/Kept makes
-- the ledgers that an intake and transitions lead to an inductive type, as Moderation/Reached does
-- for records.
--
-- products/reporting-operator gives a reviewer local pages of the service's reports.
-- Operator/Actions.antt is the ReviewerActionManager of reviewer-access.ts, whose tokens let a page
-- view a report, turn to a page of reports and move a report along the transitions of
-- Issues/Moderation.antt. The call that issues a token for each target takes one reading of the
-- clock and of the generator for each.
--
-- Prelude holds what the components share: throwing code as a Result, a JavaScript Map as its
-- entries in insertion order, dates as instants counted from the earliest that Date can hold.
--
-- A clock that is read more than once in a call is an argument for each reading. Error texts are
-- constructors of the component's error type. Not modelled: HTTP, sockets, files, SQL, HTML and
-- the browser extension.
pub mod Prelude
pub mod Capability
pub mod Connector
pub mod Issues
pub mod NativeHost
pub mod Operator
pub mod Reporting
