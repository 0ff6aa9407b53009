-- ===== src/Fleet/Intact.antt =====
-- The chains of receipts of the gates of MemoryGateFleet (src/control.ts).
use angel_cloud.Prelude.{◌≡◌, refl, sym, subst, List, [], ◌∷◌, Result, ok, err}
use angel_cloud.Runtime.{Runtime}
use angel_cloud.Crypto.Digest.{Sha256Digests}
use angel_cloud.Gate.State.{
  GateKind, HostedEnvironment, PolicyGateState, GateError, create_policy_gate_state,
}
use angel_cloud.Gate.Evaluate.{Outcome}
use angel_cloud.Gate.Frame.{Framed, untouched, answered, providerless, evaluate-Framed}
use angel_cloud.Gate.Object.{Call, reset, on_gate, installs, changes, reconciles, evaluates}
use angel_cloud.Gate.Reach.{
  IsSound, create-IsSound, install-IsSound, change-IsSound, reconcile-IsSound,
  append_receipt-IsSound, policy_gate-IsSound,
}
use angel_cloud.Fleet.{MemoryGateFleet, gate_of, with_unit, FleetCall, run_fleet, snapshot}
use angel_cloud.Fleet.Gates.{after, ask_gate, ask_all, addressed, run_fleet-addressed}

module _ (r : Runtime) (digests : Sha256Digests r) where
  module _ (k : GateKind) where
    after-IsSound :
        {A : Type 0} (s : PolicyGateState) (o : Result GateError (PolicyGateState × A))
        → IsSound r k s
        → ((t : PolicyGateState) (a : A) → o ≡ ok (t, a) → IsSound r k t)
        → IsSound r k (after s o)
    after-IsSound s (err e) v h = v
    after-IsSound s (ok (t, a)) v h = h t a refl

    evaluated-IsSound :
        (s : PolicyGateState) (o : Outcome) → Framed r s o → IsSound r k s → IsSound r k o.0
    evaluated-IsSound s _ (untouched e) v = v
    evaluated-IsSound s _ (answered body answer e) v = append_receipt-IsSound r k digests s body v
    evaluated-IsSound s _ (providerless body) v = append_receipt-IsSound r k digests s body v

    ask_gate-IsSound :
        (c : Call) (s : PolicyGateState) → IsSound r k s → IsSound r k (ask_gate r k c s)
    unfolding ask_gate
    ask_gate-IsSound reset s v =
        let (t, e, w) =
          policy_gate-IsSound r k digests (create_policy_gate_state k) (create-IsSound r k) in
        subst (λ o. IsSound r k (after s (with_unit o))) (sym e) w
    ask_gate-IsSound (on_gate (installs c)) s v =
        after-IsSound s _ v (λ t i h. install-IsSound r k s t c i h v)
    ask_gate-IsSound (on_gate (changes c)) s v =
        after-IsSound s _ v (λ t a h. change-IsSound r k s t c a h v)
    ask_gate-IsSound (on_gate (reconciles hashes)) s v =
        after-IsSound s _ v (λ t keys h. reconcile-IsSound r k s t hashes keys h v)
    ask_gate-IsSound (on_gate (evaluates input)) s v =
        evaluated-IsSound s _ (evaluate-Framed r s input) v

    ask_all-IsSound :
        (cs : List Call) (s : PolicyGateState) → IsSound r k s → IsSound r k (ask_all r k cs s)
    unfolding ask_all
    ask_all-IsSound [] s v = v
    ask_all-IsSound (c ∷ cs) s v = ask_all-IsSound cs (ask_gate r k c s) (ask_gate-IsSound c s v)

  -- After any history of calls of the fleet, failed ones included, a gate whose kind, schema,
  -- checkpoint and chain of receipts were sound is so still. SHA-256 is assumed to give 32 bytes.
  pub run_fleet-IsSound :
      (cs : List FleetCall) (f : MemoryGateFleet) (k : GateKind) (e : HostedEnvironment)
      → IsSound r k (snapshot k e f)
      → IsSound r k (snapshot k e (run_fleet r cs f))
  unfolding snapshot
  run_fleet-IsSound cs f k e v =
      subst (IsSound r k) (sym (run_fleet-addressed r k e cs f))
        (ask_all-IsSound k (addressed k e cs) (gate_of k e f) v)
