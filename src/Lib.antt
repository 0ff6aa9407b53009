-- ===== src/Lib.antt =====
-- Angel Cloud: the decision core, the policy gate, the control plane of an Account, and the small
-- state machines around them.
--
-- A published Angel is an artifact: a list of tools, each with argument guards and a sealed HTTP
-- request. Two gates, the Gateway (which asks for a key) and the Broker, each hold an installation
-- of it and decide every call; each keeps a chain of receipts. The control plane of an Account
-- keeps its Angels, their Versions, and per environment what is deployed, which keys are active and
-- what is available; it writes down what it wants before it asks the gates for it, so that the same
-- request, sent again, finishes what was interrupted.
--
-- Parts, by file of this library and path of the repository:
--   Decision (packages/core/src/decision.ts, types.ts). Walk: collectByField, stringLeaves and
--     exceedsDepth. Guard: evaluateGuard and the loop over the guards. Call: compileRules and
--     evaluateToolCall. Occurs, Depth, Meaning, Rules and Verdict state what they decide.
--   Json (packages/core/src/canonical-json.ts) and Crypto (packages/core/src/crypto.ts).
--   Gate (src/gate.ts). State: the records, createPolicyGateState. Encode: the objects that are
--     hashed. Availability: changeAvailability, isToolConnectionEnabled. Bindings: assertBindings,
--     selectBinding, availableTools, availableRuntimeTools. Keys: the active key hashes. Receipts:
--     appendReceipt and verifyChain. ReceiptText: what a receipt's hash is the digest of. Migrate:
--     migrateInstalledAvailability. Install and Evaluate: the operations of those names. Object:
--     GateRuntime of src/workers/gate-object.ts, whose calls run one after another, so that a history
--     is a list of calls.
--     Environment and Identity: canonicalEnvironment of src/environments.ts, gateReceiptMismatch.
--   Adapters (packages/core/src/adapter-derive.ts and artifact-validate.ts). Scopes:
--     selectRequiredScopes. Validate: validateArtifactAdapters. The registry is a parameter.
--   Artifact (packages/core/src/domain.ts): flattenTools, providersFor, requirementsFor and
--     rebaseComposedRequirements, which a composite Angel is made with.
--   Fleet (src/control.ts): MemoryGateFleet, which holds a Gateway and a Broker for
--     each environment in memory. Gates: what its calls ask of each gate. Intact: the gates' chains.
--   Management (src/management.ts, with the records of src/management-internal.ts and of
--     packages/core/src/management-contract.ts). State: the records. World: an operation that may
--     throw, on the state in memory, the stored state and what the rest of the system holds; the
--     constructor's dependencies (store, ids, clock, vault of answers, gate fleet) are the record
--     Dependencies. Paths and Mutate: slugs, canonical paths, mutate and its idempotency
--     records. Lookup, Encode, Views: finding and showing. Ensure, Publish, PublishVersion, Keys,
--     Bindings, Refs, Target and Deploy, Promote, Availability, ChangeAvailability, Delete: the
--     operations of those names. Load: the constructor and what it repairs. Commands: dispatch of
--     src/workers/account-registry.ts over them, which makes a control plane of the stored state
--     for each command. Phase, KeyRule: the soundness of an environment; Runs, Steps, Writes,
--     Keep and History: what a history of commands keeps. Replay, Repeat, Once: a mutation
--     sent again.
--     Agree: the recorded availability and the gates'. Usable: accepted bindings. Reaches,
--     Converge, Resume: an interrupted deployment. Leads, Gone: what a deletion leaves.
--   Handles (src/handles.ts, and the handle directory of src/workers/account-registry.ts).
--   Throttle (src/login-throttle.ts and src/workers/login-throttle.ts).
--   Prelude and Text hold shared helpers, Fixtures the inputs that the Tests modules run on.
--
-- How the code is read:
--   The state of a class is a record, an operation is a function from the state to the next one,
--   and what throws gives an error; where an operation changes the state in memory before it
--   throws, the model returns that state too (Evaluate). Awaits inside one call are not
--   interleaved, as the gate object serialises its calls.
--   A value of JSON is a tree whose objects are lists of fields; a number is the text that it
--   prints as. An object used as a map is a list of entries that is read for its own keys. Names
--   that every object inherits are modelled only where the defaults are filled in; elsewhere the
--   names of tools, providers, deployments and refs are taken not to be among them. An
--   Idempotency-Key among them is refused as the code refuses it. Messages of errors are dropped,
--   but for those that reach a receipt and those of the control plane.
--   The control plane's dependencies may answer, fail and change what they hold in any way, unless
--   a theorem asks for more by name: IsFaithful, that the vault opens what it has sealed; IsWorking, that the store
--   and the gates do not fail and a gate installs what it is asked to. A history is a list of
--   events, each a command or the Connections that the Broker reports, so the commands that ask
--   the Broker first are two events. What an earlier release may have stored has records of its
--   own in Load, which brings it to the present shape.
--   What the JavaScript runtime does and cannot be read here is the record Runtime, an argument of
--   everything that uses it: case mappings, NFC, localeCompare, SHA-256, JSON.stringify of a text,
--   JSON.parse, decodeURIComponent and the decimal text of a number. Assumed of it are only
--   Sha256Digests, that a digest is 32 bytes, JsonTexts, that it can be told where a text and a
--   number end in JSON, and in Repeat that JSON.parse reads the answer as JSON.stringify printed
--   it; where they are, the theorem says so.
--   Every loop is a structural recursion, so no fuel is used anywhere.
--   `1 << n` of selectRequiredScopes is the shift of 32 bits that it is: the loop has no mask where n
--   is 31 modulo 32.
--
-- Not modelled: DemoControl of src/control.ts, which drives the fleet for the demonstration,
-- custody, OAuth, MCP, the workers' HTTP routing, rendering and scripts, the reading of
-- ANGEL.yaml and the generated adapters: they are other components, or I/O and generated data.
pub mod Prelude
pub mod Text
pub mod Json
pub mod Runtime
pub mod Crypto
pub mod Decision
pub mod Gate
pub mod Adapters
pub mod Artifact
pub mod Handles
pub mod Throttle
pub mod Fleet
pub mod Management
pub mod Fixtures
