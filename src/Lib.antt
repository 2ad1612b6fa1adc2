-- ===== src/Lib.antt =====
-- company-data-go: the parts of the Go SDK in companydata/ that keep state or decide.
--
-- A company drains its feed of changes with a pump (companydata/pump.go), which persists every
-- batch in a durable buffer (companydata/buffer.go) before it delivers an event to the handler.
-- Requests go through one transport (companydata/http.go); changes may also be pushed to a webhook
-- receiver (companydata/webhooks.go). Both are driven by the configuration
-- (companydata/config.go). The conditions of contract flows are evaluated on answers
-- (companydata/flowcondition.go), after the constants of the flow were computed from them
-- (companydata/flowconstants.go). A plugin of a flow is called with inputs from the same answers
-- (companydata/plugin.go), and a document is generated with copies of the sources that are held
-- for it (companydata/flowsources.go). The texts of a flow name values of its parties
-- (companydata/flowtext.go). The values of contact fields are validated against the served
-- registry of types (companydata/fieldtypes.go).
--
-- Files:
--   Prelude, Prelude/*: the shared names, Boolean tests, lists, Go's integers, walked texts.
--   Json: the dynamic values that encoding/json decodes (`any`), with the operations on maps.
--   Errors: *DecryptError against other errors (companydata/errors.go), and results.
--   Floats: float64 as IEEE bit patterns, with the conversions and comparisons that are used.
--   Buffer: companydata/buffer.go. Decimal and Names are the numbers and file names (Append's Sprintf,
--     sanitizeID, seqOf, idPart), Disk the two directories and .seq with the actions on them, Ops the
--     methods of FileBuffer: next_seq is nextSeq, append Append, pending_events Pending, ack Ack,
--     dead_letter_event DeadLetterEvent, dead_letters DeadLetters, update_dead_letter
--     UpdateDeadLetter, remove_dead_letter RemoveDeadLetter. Order, ReadBack and Counter are about
--     names and numbers, Slots and Invariant about the files between two methods, Rounds, Append,
--     Outcomes, Settle and DeadLetters about the methods.
--   Pump: companydata/pump.go. Options is PumpOptions with withDefaults, clampBatch and
--     defaultPumpBackoffFn, Loop ProcessChanges with deliverOne, drainIntoBuffer and DrainBatch,
--     Redrive RetryDeadLetters. Deliver, Process, Opening and Run are about one event, one pass, the
--     start of a cycle and one run, Feed and Ends about the end of a run, Retries and Backoff about
--     retries and delays, Kept and Redriven about RetryDeadLetters.
--   Flow: companydata/flowcondition.go. Scalars is flowAnswered to flowCmpStr, Condition is
--     EvaluateCondition; Boolean and Answers are about its nodes and its leaves.
--   Config: companydata/config.go. Load is rawConfig and Config, Build is buildConfig, WebhookSecret
--     and WebhookAuthMethod; Meaning says what a usable configuration is, Valid and Methods are about what
--     is built.
--   Webhooks: companydata/webhooks.go. Headers is lookup and asHeaderMap, Verify is VerifyWebhook,
--     Payload the envelope, the payload and HandleWebhook; Credentials and Sealed are about them.
--   Http: companydata/http.go. Wire is the replies, error bodies, URLs and backoffDelay, Client the
--     token and the region base, Loop is doRequestRaw; Ends and Backoff are about the loop.
--   FieldTypes: companydata/fieldtypes.go. Checks is IsCalendarDate and luhnOK, Registry is
--     NewFieldTypeRegistry and resolveIn, Tree is Descendants, the derived sets, Ordered and
--     EffectiveType, Patterns the fixed regular expressions, Values the named checks and the members of an
--     envelope, Validate is Validate with the sub-field entries. Dates, Luhn, Ancestors, Below, Descend,
--     Sets, Display, Effective, Accepted, Objects and Composite are about them.
--   Keys: lists of keys that stand for the program's maps of Booleans.
--   Constants: companydata/flowconstants.go. Dates is parseFlowDate and the differences of dates, Expr
--     is evalExpr, Refs the collection of references, Compute is ComputeConstants, Plugins the expansion, the
--     summary and the view of plugin answers. Typed, Largest, Periods and Calendar are about values, Grows,
--     Agree and Depends about references, Visits, Sorted, Reached and Ordered about the search for an
--     order, Solved about the constants that are computed, Expanded about plugin answers.
--   Plugins: companydata/plugin.go. Elements is forEachElement, answerElements and liveFlowAnswers, with
--     partyOf and fieldElementForSlug (companydata/client.go), Privacy is flowPrivacy, Inputs is pluginInputs
--     and flowBoundError, Pass is PluginPass, Call is call with options and outputs, Values is
--     ParsePluginValue. Explored and Reach are about Privacy, Sent and Bounds about Inputs, Rounds about
--     Call.
--   Sources: companydata/flowsources.go. Held is heldSources with fileRef, Generate is
--     generateWithInputs, sealAnswerValues and responseFile. Distinct and Exact are about the held
--     sources, Uploaded about a generation.
--   Texts: companydata/flowtext.go. Tags is FlowTextTags with its regular expressions, Parties is
--     NonOwnerPartyTags, Named is about them.
--
-- State is passed explicitly. The buffer's methods are actions on a Disk that carries the outcomes of
-- the disk actions to come: each action takes the next one, and a failed action changes nothing, so a
-- failure, or a stop, at every point of a method is an instance. A temporary file that is renamed is
-- one action. The drain source, the decryption, the handler, the clock, the server and the sleep are
-- functions on a world that is passed along beside the program's own state. Go's map iteration is the
-- order of an association list.
--
-- Bounds: sequence numbers stay below 10^16, the width to which names pad them. `process_changes`
-- takes a cycle of its loop from its fuel, the retries of one event are bounded by MaxRetries, and
-- `do_request_raw` has a round for each retry of a 429, for the refresh, the rebase and the answer.
-- `chain`, `effective_from`, `passes` and `walk` have a unit of fuel for every row of the registry, the visits
-- of constants one for every constant, `is_private` one for every constant and drafted answer and one
-- more. `call_loop` has three rounds. Durations are nanoseconds on 64 bits that wrap round.
--
-- Parameters, which stand for the standard library and for files that are not modelled: strconv's
-- floats, the arithmetic of float64, strings.ToLower, regexp.Compile for stored patterns,
-- encoding/json's decoding of texts, net/url, HMAC, base64, PEM, PKCS#8, RSA-OAEP and AES-GCM,
-- the sealing and posting of a plugin's request, the one-time key of a generation, the XML parser
-- (companydata/xml.go) and the decoding of a change (companydata/models.go).
--
-- Not modelled: the operations of the client and the customer (companydata/client.go, customer.go),
-- most of the records of models.go, crypto.go, oauth.go, twofactor.go, xml.go, the tables of codes
-- (fieldvalidation.go, countrydata.go), the caches of the field types, reading a configuration file,
-- logging, fsync, the lock on the sequence counter, and the examples. Reading a directory or a stored
-- event does not fail in the model, and a stored event is read back as the value that was written,
-- where encoding/json would turn float64 and int numbers into json.Number. strings.ToLower is written
-- out for ASCII where header names and formats are compared (companydata/webhooks.go, config.go). The
-- decoder of an object reads the first JSON value of a text and ignores what follows it.
pub mod Prelude
pub mod Json
pub mod Errors
pub mod Floats
pub mod Buffer
pub mod Pump
pub mod Flow
pub mod Config
pub mod Constants
pub mod Webhooks
pub mod Http
pub mod FieldTypes
pub mod Keys
pub mod Plugins
pub mod Sources
pub mod Texts
