-- ===== src/Gate/Object.antt =====
-- src/workers/gate-object.ts: the durable object that holds one gate. `exclusive` runs the calls
-- one after another, so a history is a list of calls.
use angel_cloud.Prelude.{
  String, Bool, true, false, Option, none, some, List, [], ◌∷◌, Result, ok, err, ◌>>=◌, ◌>>◌, guard,
}
use angel_cloud.Runtime.{Runtime}
use angel_cloud.Gate.State.{
  GateKind, gateway, broker, PolicyGateState, GateInstallCommand, GateInstallation,
  GateAvailability, GateAvailabilityCommand, GateEvaluationInput, GateEvaluation, GateError,
  kind_mismatch, create_policy_gate_state,
}
use angel_cloud.Gate.Availability.{change_availability}
use angel_cloud.Gate.Keys.{reconcile_gateway_keys}
use angel_cloud.Gate.Receipts.{GateChainVerification, verify_chain}
use angel_cloud.Gate.Install.{policy_gate, install}
use angel_cloud.Gate.Evaluate.{evaluate}

-- The value under the key "state" of the object's storage.
abbrev pub Storage : Type 0
Storage = Option PolicyGateState

pub data Operation : Type 0 where
  installs : GateInstallCommand → Operation
  changes : GateAvailabilityCommand → Operation
  reconciles : List String → Operation
  evaluates : GateEvaluationInput → Operation

pub data Call : Type 0 where
  reset : Call
  on_gate : Operation → Call

pub data Reply : Type 0 where
  done : Reply
  installed : GateInstallation → Reply
  changed : GateAvailability → Reply
  reconciled : List String → Reply
  evaluated : GateEvaluation → Reply

abbrev pub same_kind : GateKind → GateKind → Bool
same_kind gateway gateway = true
same_kind broker broker = true
same_kind _ _ = false

unfoldable pub load : GateKind → Storage → Result GateError PolicyGateState
unfolding policy_gate create_policy_gate_state
load kind none = policy_gate (create_policy_gate_state kind)
load kind (some s) = guard (same_kind s.gate kind) kind_mismatch >> policy_gate s

-- A call that throws stores nothing.
abbrev pub keep {ℓ} :
    {A : Type ℓ}
    → Storage
    → (A → Reply)
    → Result GateError (PolicyGateState × A)
    → Storage × Result GateError Reply
keep before reply (err e) = (before, err e)
keep before reply (ok (s, a)) = (some s, ok (reply a))

abbrev pub keep_answer :
    Storage → PolicyGateState × Result GateError GateEvaluation → Storage × Result GateError Reply
keep_answer before (s, err e) = (before, err e)
keep_answer before (s, ok answer) = (some s, ok (evaluated answer))

module _ (r : Runtime) where
  unfoldable pub serve : Storage → PolicyGateState → Operation → Storage × Result GateError Reply
  unfolding install change_availability reconcile_gateway_keys evaluate
  serve before s (installs command) = keep before installed (install r s command)
  serve before s (changes command) = keep before changed (change_availability r s command)
  serve before s (reconciles hashes) = keep before reconciled (reconcile_gateway_keys s hashes)
  serve before s (evaluates input) = keep_answer before (evaluate r s input)

  abbrev pub serve_loaded :
      Storage → Operation → Result GateError PolicyGateState → Storage × Result GateError Reply
  serve_loaded before op (err e) = (before, err e)
  serve_loaded before op (ok s) = serve before s op

  -- `reset` reads nothing of the storage.
  unfoldable pub call_object : GateKind → Storage → Call → Storage × Result GateError Reply
  unfolding load serve create_policy_gate_state
  call_object kind before reset = (some (create_policy_gate_state kind), ok done)
  call_object kind before (on_gate op) = serve_loaded before op (load kind before)

  unfoldable pub run_object : GateKind → Storage → List Call → Storage
  unfolding call_object
  run_object kind before [] = before
  run_object kind before (c ∷ cs) = run_object kind (call_object kind before c).0 cs

  -- The object's own `verify`.
  unfoldable pub verify_object : GateKind → Storage → Result GateError GateChainVerification
  unfolding load verify_chain
  verify_object kind before = load kind before >>= λ s. ok (verify_chain r s)
