-- ===== src/Lib.antt =====
-- trollbridge is a forward proxy that gates outbound requests: a request is allowed, denied, or
-- held until an operator, a language model or a timer decides. This library models the decision
-- path.
--
-- The parts and their files, with the source each translates:
--   Types                internal/types/types.go: the request, the effects and the decision.
--   HostList             internal/hostlist: Parse is parsePattern, Match is LoadInline and Match, Subsumes is
--                        Subsumes, Sort is sort.go (Smart, AppendUnique, RemoveMatching).
--   Pattern              internal/pattern: Registry is pattern.go, Arm the two built-in families.
--   Policy               internal/policy: Window is timewindow.go, History is history.go, Rule is the clauses of
--                        rule.go, Reload and Engine are Reload and Decide of engine.go.
--   Approvals            internal/approvals/queue.go: Store has the types and claim, Enqueue has Enqueue and
--                        Pending, Resolve has Approve, Deny, ResolveByAdvisor, the endings of Wait,
--                        cancelWaiter and Shutdown. Steps makes them a state machine, Wait is Wait.
--   Opstream             internal/opstream/opstream.go: Ring has the type and its operations, Steps and Invariant
--                        make it a state machine, Snapshot is Snapshot.
--   Configwrite          internal/configwrite/configwrite.go: Yaml has the helpers on yaml.v3's nodes, Edit the edits
--                        of the two lists, Declined AddDeclinedSuggestion, Blanks the repair of blank lines.
--   Advisor              internal/advisor: Service is the types, New, validate and the cache of advisor.go, Classify is
--                        Classify, Digest is digest.go. Vetted, Verdict and Runs are about what it answers.
--   Server               internal/server: OpenMode is openmode.go, Gate is the path of handleHTTP and
--                        handleConnect to the queue, Refusal is refusal.go, Consult is
--                        consultAdvisorForHold of server.go, OpRows what the server tells the ring.
--   Redact               internal/redact/redact.go: Headers is Headers, Body is the rest.
--   Clients              Identity is internal/identity/identity.go, Sessions internal/sessions/sessions.go, Reloads
--                        internal/reloadstatus/reloadstatus.go.
--   Prelude, Text        the shared helpers, and the functions of Go's strings and strconv that the code calls.
--   Tests                each result at concrete values.
--
-- How the parts meet: Server.Gate asks the two HostList values first, then Policy.Engine,
-- overrides both while Server.OpenMode is open, and puts a request whose decision asks on the
-- queue of Approvals. What is not forwarded is answered by Server.Refusal. What Configwrite writes
-- is what HostList.Match loads. Server.Consult asks the Advisor about a hold and resolves it with
-- the verdict.
--
-- How state is modelled. A record stands for a struct, and an operation takes it and returns it.
-- Each operation of the queue is atomic: what it does after it lets go of the mutex concerns only
-- the hold that it has taken off the queue. An interleaving is a sequence of steps. Holds and
-- channels live at addresses of an explicit store, so that both indexes share one hold; a channel
-- has room for one decision. A call of Wait is a choice of one of three events, any time after the
-- enqueue, and blocks if its channel is empty. The calls of the persistence hook are recorded in
-- the state.
--
-- Conventions. A string is the list of its bytes, and case and white space are those of ASCII. A
-- map is an association list. Times and durations are natural numbers of nanoseconds, and the zero
-- time is 0; sums of them do not wrap. Port numbers and priorities are integers that no sum is
-- made of. In the queue's New and Reconfigure 0 stands for every value that is not positive, and
-- so does 0 in NewHistory. Errors are constructors, but for the texts that the advisor puts into a
-- reason. All loops are structural recursion, so that no fuel is used.
--
-- Parameters. The advisor's provider is a function, SHA-256 and Go's quoting are the record Host
-- of Advisor.Service. Go's regexp package and the zone database are the record Host; reading of
-- files, YAML decoding and SHA-256 are the record Loader; the pattern validator is an optional
-- function; media types and JSON encoding are the record Codec. The encoder and the parser of
-- yaml.v3 are the record Yaml, and the outcome of each write is an argument; what the edits rely
-- on is the record Keeps, that lists of one-line strings survive the encoding and the blank lines
-- that are put back. UUIDs and the clock are arguments, and a step that uses a UUID has the
-- hypothesis that no hold has it. The text of a duration is a function `shown`.
--
-- Not modelled: logging, metrics and audit files, network and TLS code, the advisor's HTTP calls
-- and latency buckets, the encoding of the configuration file and its watcher, the terminal
-- interface, LoadFiles (deprecated), and the signal-after race of holdAndWait. The engine takes
-- the registry of Pattern as its optional validator, and its recognitions as the field
-- matched_pattern of a request.
pub mod Prelude
pub mod Text
pub mod Types
pub mod HostList
pub mod Pattern
pub mod Policy
pub mod Approvals
pub mod Server
pub mod Opstream
pub mod Configwrite
pub mod Advisor
pub mod Redact
pub mod Clients
mod Tests
