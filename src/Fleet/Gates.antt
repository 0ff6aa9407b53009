-- ===== src/Fleet/Gates.antt =====
-- Each gate of a fleet by itself: MemoryGateFleet of src/control.ts against PolicyGate of
-- src/gate.ts.
use angel_cloud.Prelude.{
  ◌≡◌, refl, sym, ap, ◌∙◌, Bool, true, false, List, [], ◌∷◌, if◌then◌else◌, Result, ok, err,
  Bool-cases, inl, inr,
}
use mathlib.Core.Path.{ap₂}
use angel_cloud.Runtime.{Runtime}
use angel_cloud.Gate.State.{
  GateKind, gateway, broker, HostedEnvironment, preview, production, PolicyGateState, GateError,
  create_policy_gate_state,
}
use angel_cloud.Gate.Availability.{change_availability}
use angel_cloud.Gate.Keys.{reconcile_gateway_keys}
use angel_cloud.Gate.Install
use angel_cloud.Gate.Install.{policy_gate}
use angel_cloud.Gate.Evaluate
use angel_cloud.Gate.Evaluate.{Outcome}
use angel_cloud.Gate.Object.{Call, reset, on_gate, same_kind}
use angel_cloud.Gate.Object
use angel_cloud.Fleet
use angel_cloud.Fleet.{
  FleetOperation, of_install, of_availability, GatePair, MemoryGateFleet, gate_in, put_in, gate_of,
  put, logged, settle, with_unit, FleetCall, resets, installs, changes, reconciles, evaluates,
  call_fleet, run_fleet,
}

abbrev pub is_at : GateKind → HostedEnvironment → GateKind → HostedEnvironment → Bool
is_at k preview l preview = same_kind k l
is_at k production l production = same_kind k l
is_at k _ l _ = false

-- The state that a gate has after it was asked for something.
abbrev pub after {ℓ} :
    {A : Type ℓ} → PolicyGateState → Result GateError (PolicyGateState × A) → PolicyGateState
after s (err e) = s
after s (ok (t, a)) = t

-- What a call asks of the gate that it is made to.
abbrev request : FleetCall → Call
request (resets kind env) = reset
request (installs kind c) = on_gate (Object.installs c)
request (changes kind env c) = on_gate (Object.changes c)
request (reconciles kind env hashes) = on_gate (Object.reconciles hashes)
request (evaluates kind env input) = on_gate (Object.evaluates input)

abbrev target_kind : FleetCall → GateKind
target_kind (resets kind env) = kind
target_kind (installs kind c) = kind
target_kind (changes kind env c) = kind
target_kind (reconciles kind env hashes) = kind
target_kind (evaluates kind env input) = kind

abbrev target_environment : FleetCall → HostedEnvironment
target_environment (resets kind env) = env
target_environment (installs kind c) = c.environment
target_environment (changes kind env c) = env
target_environment (reconciles kind env hashes) = env
target_environment (evaluates kind env input) = env

module _ (kind : GateKind) (env : HostedEnvironment) where
  abbrev addressed_here : FleetCall → Bool
  addressed_here c = is_at kind env (target_kind c) (target_environment c)

  -- What the calls ask of one gate, in their order.
  unfoldable pub addressed : List FleetCall → List Call
  addressed [] = []
  addressed (c ∷ cs) =
      let rest = addressed cs in if addressed_here c then request c ∷ rest else rest

module _ (r : Runtime) (kind : GateKind) where
  -- One gate by itself.
  unfoldable pub ask_gate : Call → PolicyGateState → PolicyGateState
  unfolding policy_gate create_policy_gate_state Install.install change_availability
      reconcile_gateway_keys Evaluate.evaluate
  ask_gate reset s = after s (with_unit (policy_gate (create_policy_gate_state kind)))
  ask_gate (on_gate (Object.installs c)) s = after s (Install.install r s c)
  ask_gate (on_gate (Object.changes c)) s = after s (change_availability r s c)
  ask_gate (on_gate (Object.reconciles hashes)) s = after s (reconcile_gateway_keys s hashes)
  ask_gate (on_gate (Object.evaluates input)) s = (Evaluate.evaluate r s input).0

  unfoldable pub ask_all : List Call → PolicyGateState → PolicyGateState
  unfolding ask_gate
  ask_all [] s = s
  ask_all (c ∷ cs) s = ask_all cs (ask_gate c s)

same_kind-eq : (k l : GateKind) → same_kind k l ≡ true → k ≡ l
same_kind-eq gateway gateway h = refl
same_kind-eq broker broker h = refl
same_kind-eq gateway broker h = cc
same_kind-eq broker gateway h = cc

is_at-eq :
    (k : GateKind) (e : HostedEnvironment) (l : GateKind) (q : HostedEnvironment)
    → is_at k e l q ≡ true
    → (k ≡ l) × (e ≡ q)
is_at-eq k preview l preview h = (same_kind-eq k l h, refl)
is_at-eq k production l production h = (same_kind-eq k l h, refl)
is_at-eq k preview l production h = cc
is_at-eq k production l preview h = cc

if-same {ℓ} : {A : Type ℓ} (b : Bool) (a : A) → a ≡ (if b then a else a)
if-same true a = refl
if-same false a = refl

gate_in-put_in :
    (k l : GateKind) (s : PolicyGateState) (p : GatePair)
    → gate_in k (put_in l s p) ≡ (if same_kind k l then s else gate_in k p)
gate_in-put_in gateway gateway s p = refl
gate_in-put_in gateway broker s p = refl
gate_in-put_in broker gateway s p = refl
gate_in-put_in broker broker s p = refl

gate_of-put :
    (k : GateKind) (e : HostedEnvironment) (l : GateKind) (q : HostedEnvironment)
    (s : PolicyGateState) (f : MemoryGateFleet)
    → gate_of k e (put l q s f) ≡ (if is_at k e l q then s else gate_of k e f)
gate_of-put k preview l preview s f = gate_in-put_in k l s f.preview
gate_of-put k production l production s f = gate_in-put_in k l s f.production
gate_of-put k preview l production s f = refl
gate_of-put k production l preview s f = refl

gate_of-logged :
    (k : GateKind) (e : HostedEnvironment) (o : FleetOperation) (l : GateKind)
    (q : HostedEnvironment) (f : MemoryGateFleet)
    → gate_of k e (logged o l q f) ≡ gate_of k e f
gate_of-logged k preview o l q f = refl
gate_of-logged k production o l q f = refl

module _ (r : Runtime) (k : GateKind) (e : HostedEnvironment) where
  gate_of-settle {ℓ} :
      {A : Type ℓ} (l : GateKind) (q : HostedEnvironment) (f : MemoryGateFleet)
      (o : Result GateError (PolicyGateState × A))
      → gate_of k e (settle l q f o).0
        ≡ (if is_at k e l q then after (gate_of l q f) o else gate_of k e f)
  gate_of-settle l q f (err x) = elim (Bool-cases (is_at k e l q)) [
    | inl h ↦ let (same, at) = is_at-eq k e l q h in rw h (ap₂ (λ k e. gate_of k e f) same at)
    | inr h ↦ rw h refl
  ]
  gate_of-settle l q f (ok (s, a)) = gate_of-put k e l q s f

  gate_of-call_fleet :
      (c : FleetCall) (f : MemoryGateFleet)
      → gate_of k e (call_fleet r c f) ≡ (
          if addressed_here k e c
          then ask_gate r
              (target_kind c)
              (request c)
              (gate_of (target_kind c) (target_environment c) f)
          else gate_of k e f)
  unfolding call_fleet Fleet.reset_gate Fleet.install Fleet.change Fleet.reconcile_keys
      Fleet.evaluate ask_gate
  gate_of-call_fleet (resets l q) f = gate_of-settle l q f _
  gate_of-call_fleet (installs l c) f =
      let done =
        gate_of-settle l c.environment (logged of_install l c.environment f)
          (Install.install r (gate_of l c.environment f) c) in
      rw
        (
          gate_of-logged l c.environment of_install l c.environment f,
          gate_of-logged k e of_install l c.environment f,
        )
        at done
  gate_of-call_fleet (changes l q c) f =
      let done =
        gate_of-settle l q (logged of_availability l q f)
          (change_availability r (gate_of l q f) c) in
      rw (gate_of-logged l q of_availability l q f, gate_of-logged k e of_availability l q f) at
        done
  gate_of-call_fleet (reconciles l q hashes) f = gate_of-settle l q f _
  gate_of-call_fleet (evaluates l q input) f =
      gate_of-put k e l q (Evaluate.evaluate r (gate_of l q f) input).0 f

  -- After any history of calls of the fleet, failed ones included, each gate is what it would be
  -- had it, by itself, been asked what the calls that are made to it ask, in their order.
  pub run_fleet-addressed :
      (cs : List FleetCall) (f : MemoryGateFleet)
      → gate_of k e (run_fleet r cs f) ≡ ask_all r k (addressed k e cs) (gate_of k e f)
  unfolding run_fleet addressed ask_all
  run_fleet-addressed [] f = refl
  run_fleet-addressed (c ∷ cs) f =
      let now = gate_of-call_fleet c f in
      let later = run_fleet-addressed cs (call_fleet r c f) in
      elim (Bool-cases (addressed_here k e c)) [
        | inl h ↦
            let (same, at) = is_at-eq k e (target_kind c) (target_environment c) h in
            let here : gate_of k e (call_fleet r c f) ≡ ask_gate r k (request c) (gate_of k e f) =
              rw h at now
              ∙ ap₂ (λ k e. ask_gate r k (request c) (gate_of k e f)) (sym same) (sym at) in
            rw h (later ∙ ap (λ s. ask_all r k (addressed k e cs) s) here)
        | inr h ↦ rw h (later ∙ ap (λ s. ask_all r k (addressed k e cs) s) (rw h at now))
      ]
