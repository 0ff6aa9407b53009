-- ===== src/Fleet.antt =====
-- src/control.ts: MemoryGateFleet, which holds the two gates of each environment in memory.
use angel_cloud.Prelude.{
  ◌++◌, String, List, [], ◌∷◌, ℕ, nat_eq, Result, ok, err, ◌>>=◌, ◌>>◌, guard,
}
use angel_cloud.Runtime.{Runtime}
use angel_cloud.Gate.State.{
  GateKind, gateway, broker, HostedEnvironment, preview, production, PolicyGateState, GateReceipt,
  GateInstallCommand, GateInstallation, GateAvailability, GateAvailabilityCommand,
  GateEvaluationInput, GateEvaluation, GateError, unsupported_schema, create_policy_gate_state,
}
use angel_cloud.Gate.Availability.{change_availability}
use angel_cloud.Gate.Keys.{reconcile_gateway_keys}
use angel_cloud.Gate.Install
use angel_cloud.Gate.Install.{policy_gate}
use angel_cloud.Gate.Evaluate
pub mod Gates
pub mod Intact
mod Tests

pub data FleetOperation : Type 0 where
  of_install : FleetOperation
  of_availability : FleetOperation

pub record MemoryGateFleetEvent : Type 0 where
  pub operation : FleetOperation
  pub gate : GateKind
  pub environment : HostedEnvironment

-- Record<GateKind, PolicyGate>
pub record GatePair : Type 0 where
  pub gateway : PolicyGateState
  pub broker : PolicyGateState

pub record MemoryGateFleetState : Type 0 where
  pub schema_version : ℕ
  pub preview : GatePair
  pub production : GatePair

pub record MemoryGateFleet : Type 0 where
  pub preview : GatePair
  pub production : GatePair
  pub events : List MemoryGateFleetEvent

abbrev pub pair_of : HostedEnvironment → MemoryGateFleet → GatePair
pair_of preview f = f.preview
pair_of production f = f.production

abbrev pub gate_in : GateKind → GatePair → PolicyGateState
gate_in gateway p = p.gateway
gate_in broker p = p.broker

abbrev pub gate_of : GateKind → HostedEnvironment → MemoryGateFleet → PolicyGateState
gate_of kind env f = gate_in kind (pair_of env f)

abbrev pub put_in : GateKind → PolicyGateState → GatePair → GatePair
put_in gateway s p = record p { gateway = s }
put_in broker s p = record p { broker = s }

abbrev pub put : GateKind → HostedEnvironment → PolicyGateState → MemoryGateFleet → MemoryGateFleet
put kind preview s f = record f { preview = put_in kind s f.preview }
put kind production s f = record f { production = put_in kind s f.production }

abbrev pub logged :
    FleetOperation → GateKind → HostedEnvironment → MemoryGateFleet → MemoryGateFleet
logged operation kind env f = record f {
  events = f.events ++ (record { operation = operation; gate = kind; environment = env } ∷ []);
}

abbrev pub new_pair : GatePair
new_pair = record {
  gateway = create_policy_gate_state gateway;
  broker = create_policy_gate_state broker;
}

abbrev pub empty_fleet_state : MemoryGateFleetState
empty_fleet_state = record { schema_version = 1; preview = new_pair; production = new_pair }

unfoldable pub restore_pair : GatePair → Result GateError GatePair
unfolding policy_gate
restore_pair p = do
  g ← policy_gate p.gateway
  b ← policy_gate p.broker
  ok (record { gateway = g; broker = b })

-- The constructor, on a state.
unfoldable pub restore_fleet : MemoryGateFleetState → Result GateError MemoryGateFleet
unfolding restore_pair
restore_fleet s = do
  guard (nat_eq s.schema_version 1) unsupported_schema
  first ← restore_pair s.preview
  second ← restore_pair s.production
  ok (record { preview = first; production = second; events = [] })

unfoldable pub export_fleet : MemoryGateFleet → MemoryGateFleetState
export_fleet f = record { schema_version = 1; preview = f.preview; production = f.production }

-- What a call leaves; a gate whose operation throws is as it was.
abbrev pub settle {ℓ} :
    {A : Type ℓ}
    → GateKind
    → HostedEnvironment
    → MemoryGateFleet
    → Result GateError (PolicyGateState × A)
    → MemoryGateFleet × Result GateError A
settle kind env f (err e) = (f, err e)
settle kind env f (ok (s, a)) = (put kind env s f, ok a)

abbrev pub with_unit :
    Result GateError PolicyGateState → Result GateError (PolicyGateState × Unit {0})
with_unit x = x >>= λ s. ok (s, tt)

unfoldable pub reset_gate :
    GateKind → HostedEnvironment → MemoryGateFleet → MemoryGateFleet × Result GateError (Unit {0})
unfolding policy_gate create_policy_gate_state
reset_gate kind env f = settle kind env f (with_unit (policy_gate (create_policy_gate_state kind)))

module _ (r : Runtime) where
  unfoldable pub install :
      GateKind
      → GateInstallCommand
      → MemoryGateFleet
      → MemoryGateFleet × Result GateError GateInstallation
  unfolding Install.install
  install kind c f =
      let g = logged of_install kind c.environment f in
      settle kind c.environment g (Install.install r (gate_of kind c.environment f) c)

  unfoldable pub change :
      GateKind
      → HostedEnvironment
      → GateAvailabilityCommand
      → MemoryGateFleet
      → MemoryGateFleet × Result GateError GateAvailability
  unfolding change_availability
  change kind env c f =
      let g = logged of_availability kind env f in
      settle kind env g (change_availability r (gate_of kind env f) c)

  unfoldable pub reconcile_keys :
      GateKind
      → HostedEnvironment
      → List String
      → MemoryGateFleet
      → MemoryGateFleet × Result GateError (List String)
  unfolding reconcile_gateway_keys
  reconcile_keys kind env hashes f =
      settle kind env f (reconcile_gateway_keys (gate_of kind env f) hashes)

  -- A gate whose evaluation throws may have appended a receipt before.
  unfoldable pub evaluate :
      GateKind
      → HostedEnvironment
      → GateEvaluationInput
      → MemoryGateFleet
      → MemoryGateFleet × Result GateError GateEvaluation
  unfolding Evaluate.evaluate
  evaluate kind env input f =
      let (s, answer) = Evaluate.evaluate r (gate_of kind env f) input in (put kind env s f, answer)

unfoldable pub snapshot : GateKind → HostedEnvironment → MemoryGateFleet → PolicyGateState
snapshot kind env f = gate_of kind env f

unfoldable pub activity : GateKind → HostedEnvironment → MemoryGateFleet → List GateReceipt
unfolding snapshot
activity kind env f = (snapshot kind env f).receipts

unfoldable pub history : MemoryGateFleet → List MemoryGateFleetEvent
history f = f.events

-- The calls that change a fleet.
pub data FleetCall : Type 0 where
  resets : GateKind → HostedEnvironment → FleetCall
  installs : GateKind → GateInstallCommand → FleetCall
  changes : GateKind → HostedEnvironment → GateAvailabilityCommand → FleetCall
  reconciles : GateKind → HostedEnvironment → List String → FleetCall
  evaluates : GateKind → HostedEnvironment → GateEvaluationInput → FleetCall

module _ (r : Runtime) where
  unfoldable pub call_fleet : FleetCall → MemoryGateFleet → MemoryGateFleet
  unfolding reset_gate install change reconcile_keys evaluate
  call_fleet (resets kind env) f = (reset_gate kind env f).0
  call_fleet (installs kind c) f = (install r kind c f).0
  call_fleet (changes kind env c) f = (change r kind env c f).0
  call_fleet (reconciles kind env hashes) f = (reconcile_keys r kind env hashes f).0
  call_fleet (evaluates kind env input) f = (evaluate r kind env input f).0

  unfoldable pub run_fleet : List FleetCall → MemoryGateFleet → MemoryGateFleet
  unfolding call_fleet
  run_fleet [] f = f
  run_fleet (c ∷ cs) f = run_fleet cs (call_fleet c f)
