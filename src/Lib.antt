-- ===== src/Lib.antt =====
-- Models of the parts of the coding agent that decide: what a model is told, what a tool may do,
-- which model and how many workers run, where requests go, when a failure is tried again, and what a
-- terminal shows.
--
-- Parts, files, and the code that they model (paths from the repository's root):
--   Base        lists, texts, maps, results with thrown errors, and Boolean equality
--   Json        shared/json.ts: JSON values, `assertBoundedJsonValue`
--   Route       shared/model-route.ts: route snapshots, `assertModelRouteSnapshotSafe`
--   Message     shared/message.ts: message records, `assertMessageRecordSemantics`
--   History     electron/session/canonical-history.ts. Append and Turn have its operations on a
--               `CanonicalHistoryState`, Frame what they share, Transcript the text of a record
--               (`messageText`), Compile the class `MessageHistoryCompiler`: Grammar describes
--               canonical histories without its loop, Steps, Epochs, Pairs, Sound and Complete lead
--               from one to the other, Canonical joins them
--   Permission  electron/permission: policy-engine.ts in Policy (`evaluatePolicy`), and
--               permission-pipeline.ts in Signals, Remember and Pipeline (the class
--               `PermissionPipeline`); Call has approved-tool-call.ts and approved-call-validation.ts of electron/tooling
--   Net         electron/net: network-address.ts in Address (`isPublicNetworkAddress`), ssrf.ts in
--               Body, Request and Fetch (`fetchWithSsrfGuard`)
--   Session     electron/session: session-interjection-coordinator.ts in Interjections (messages that
--               arrive while a Run is on), background-wakeup-gate.ts in WakeupGate
--   Subagent    electron/subagent: capacity.ts in Capacity (the class `SubagentCapacity`),
--               worker-deadline.ts in Deadline (the class `WorkerDeadline`)
--   Swarm       electron/swarm/job-validation.ts: `boundResult`
--   ModelPool   electron/model-pool/allocator.ts: `planModelPoolAssignments`
--   Provider    electron/providers/provider-retry-policy.ts, and session-provider-retry.ts and
--               session-compact-retry.ts of electron/session: the retry decisions
--   Patch       electron/tools/text-patch.ts, from the parsed hunks on: `findUniqueSequence` and the
--               loop of `applyTextPatch` over the hunks
--   Usage       shared/execution-usage.ts: saturating sums of token counts
--   Tagged      shared/tagged-message.ts: escaped texts in tags
--   Terminal    electron/terminal: byte-ring-buffer.ts and ansi-stream-sanitizer.ts
--   Tests       the theorems at concrete inputs
--
-- How they interact: a history's operations build message records, which Message checks with Json
-- and Route before the compiler takes them; the pipeline asks the policy, which compares JSON
-- arguments with remembered constraints, and makes the calls that Call checks again; Fetch takes
-- the test of addresses as a parameter, of which Address is the code's; draining interjections
-- appends to a history, with the tags of Tagged; the allocator's routes have the reasoning efforts
-- of Route. The other parts stand alone.
--
-- A drain of interjections awaits the log after each of them: the calls of `queue` that come in
-- between are an argument of the model. Nothing else is taken to change the Run, its queue or its
-- history during these awaits.
--
-- State is passed explicitly: a record goes in and the new one comes out, with a `Result` where the
-- code throws; what was changed before a throw stays changed. The platform is a parameter: the URL
-- parser, the setters of a URL, `JSON.stringify`, SHA-256, the compiled schemas, file system paths,
-- dates, random jitter, lower case, decimal numerals, and the decoding of bytes. A random id and the
-- time are arguments.
--
-- Numbers are natural numbers. Where JavaScript's could be negative or fractional, the code's own
-- clamps and tests are written out: cursors, counters and sequence numbers start at 0 or 1 and
-- grow. Texts whose characters matter are lists of UTF-16 code units, others are `String`. Loops
-- are recursion on their lists; `replaceAll` of a text and the slices of a transcript run on fuel,
-- the length of the text, of which each round takes at least one code unit; the search for a hunk
-- counts its rounds down; a fetch has one turn more than its limit on redirects; an address is
-- looked at twice at most, once for the address mapped into it; the search for a bound has a turn
-- for each byte of the longest text.
--
-- Not modelled: the parser of patches; databases, files, processes, sockets, IPC and the user
-- interface, whose work is the operating system's; the schemas' lengths and patterns; JSON values
-- that are no trees; what a JavaScript object inherits; callbacks that throw where the source does
-- not catch it; the attempts that callers count besides the retry budgets.
pub mod Base
pub mod Json
pub mod Net
pub mod Route
pub mod Session
pub mod Message
pub mod History
pub mod Permission
pub mod Provider
pub mod Subagent
pub mod Swarm
pub mod ModelPool
pub mod Patch
pub mod Usage
pub mod Tagged
pub mod Terminal
pub mod Tests
