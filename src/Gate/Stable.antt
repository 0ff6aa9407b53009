-- ===== src/Gate/Stable.antt =====
-- What a history of operations without a reset does not undo.
use angel_cloud.Prelude.{
  String, ◌≡◌, refl, sym, ap, ◌∙◌, subst, true, Option, none, some, List, [], ◌∷◌, ◌++◌, ◌==◌,
  eq_iff, map, Bool-cases, inl, inr, nat_eq, Result, ok, err, >>-eq-ok, ok-injective,
}
use mathlib.Core.List.{append_assoc, append-nil}
use angel_cloud.Prelude.Dict.{lookup, lookup-insert}
use angel_cloud.Text.{is_sha256_hex}
use angel_cloud.Runtime.{Runtime}
use angel_cloud.Gate.State.{
  GateKind, GateReceipt, PolicyGateState, ReceiptBody, GateInstallCommand, GateInstallation,
  GateAvailability, GateAvailabilityCommand, GateError, create_policy_gate_state,
}
use angel_cloud.Gate.Availability.{change_availability, revised}
use angel_cloud.Gate.Keys.{reconcile_gateway_keys}
use angel_cloud.Gate.Receipts.{append_receipt}
use angel_cloud.Gate.Install.{policy_gate, install, installed_state, same_fingerprint, fingerprint}
use angel_cloud.Gate.Evaluate.{Outcome}
use angel_cloud.Gate.Frame.{Framed, untouched, answered, providerless, evaluate-Framed}
use angel_cloud.Gate.Changes.{
  install-IsInstalled, change_availability-IsChanged, reconcile-IsReconciled,
}
use angel_cloud.Gate.Object.{
  Storage, Operation, installs, changes, reconciles, evaluates, on_gate, Reply, installed, changed,
  reconciled, same_kind, load, keep, keep_answer, serve, serve_loaded, call_object, run_object,
}

-- Every fingerprint of a deployment is still there, and the receipts are those there were and more.
pub record Extends (s t : PolicyGateState) : Type 0 where
  pub fingerprints :
      (id print : String)
      → lookup id s.deployment_fingerprints ≡ some print
      → lookup id t.deployment_fingerprints ≡ some print
  pub more : List GateReceipt
  pub log : t.receipts ≡ s.receipts ++ more

Extends-same :
    (s t : PolicyGateState)
    → t.deployment_fingerprints ≡ s.deployment_fingerprints
    → t.receipts ≡ s.receipts
    → Extends s t
Extends-same s t e q = record {
  fingerprints = λ id print h. rw e h;
  more = [];
  log = q ∙ sym (append-nil s.receipts);
}

Extends-trans : (s t u : PolicyGateState) → Extends s t → Extends t u → Extends s u
Extends-trans s t u a b = record {
  fingerprints = λ id print h. b.fingerprints id print (a.fingerprints id print h);
  more = a.more ++ b.more;
  log = b.log ∙ ap (λ xs. xs ++ b.more) a.log ∙ append_assoc s.receipts a.more b.more;
}

-- A stored fingerprint that is compared with a new one is not replaced by another.
same_fingerprint-eq :
    (o : Option String) (print stored : String)
    → same_fingerprint o print ≡ true
    → o ≡ some stored
    → stored ≡ print
same_fingerprint-eq none print stored h e = cc
same_fingerprint-eq (some x) print stored h e = let same : x ≡ print = (eq_iff x print).0 h in cc

module _ (r : Runtime) (kind : GateKind) where
  install-Extends :
      (s t : PolicyGateState) (c : GateInstallCommand) (i : GateInstallation)
      → install r s c ≡ ok (t, i)
      → Extends s t
  unfolding installed_state
  install-Extends s t c i h =
      let k = install-IsInstalled r s t c i h in
      rw k.after (record {
        fingerprints = λ id print e.
            rw (lookup-insert i.deployment_id id (fingerprint r i) s.deployment_fingerprints)
              (elim (Bool-cases (i.deployment_id == id)) [
                | inl q ↦
                    let at : lookup i.deployment_id s.deployment_fingerprints ≡ some print =
                      subst (λ x. lookup x s.deployment_fingerprints ≡ some print)
                        (sym ((eq_iff _ _).0 q)) e in
                    rw q (ap some (sym (same_fingerprint-eq _ (fingerprint r i) print k.fresh at)))
                | inr q ↦ rw q e
              ]);
        more = [];
        log = sym (append-nil s.receipts);
      })

  change-Extends :
      (s t : PolicyGateState) (c : GateAvailabilityCommand) (a : GateAvailability)
      → change_availability r s c ≡ ok (t, a)
      → Extends s t
  unfolding revised
  change-Extends s t c a h =
      let k = change_availability-IsChanged r s t c a h in
      rw (ap (λ (p : PolicyGateState × GateAvailability). p.0) k.after) (Extends-same s _ refl refl)

  reconcile-Extends :
      (s t : PolicyGateState) (hashes keys : List String)
      → reconcile_gateway_keys s hashes ≡ ok (t, keys)
      → Extends s t
  reconcile-Extends s t hashes keys h =
      rw (reconcile-IsReconciled s t hashes keys h).after (Extends-same s _ refl refl)

  -- The state that an object's storage stands for.
  abbrev pub state_of : Storage → PolicyGateState
  state_of none = create_policy_gate_state kind
  state_of (some s) = s

  keep_answer-Extends :
      (before : Storage) (s : PolicyGateState) (o : Outcome)
      → Extends (state_of before) s
      → Framed r s o
      → Extends (state_of before) (state_of (keep_answer before o).0)
  keep_answer-Extends before s _ b (untouched e) =
      Extends-same (state_of before) (state_of before) refl refl
  keep_answer-Extends before s _ b (answered body answer e) =
      Extends-trans (state_of before) s (append_receipt r s body).0 b (appended body)
    where
      appended : (body : ReceiptBody) → Extends s (append_receipt r s body).0
      appended body =
          unfold append_receipt in
          record {
            fingerprints = λ id print h. h;
            more = (append_receipt r s body).1 ∷ [];
            log = refl;
          }
  keep_answer-Extends before s _ b (providerless body) =
      Extends-same (state_of before) (state_of before) refl refl

  keep-Extends :
      {A : Type 0} (before : Storage) (s : PolicyGateState) (reply : A → Reply)
      (o : Result GateError (PolicyGateState × A))
      → Extends (state_of before) s
      → ((t : PolicyGateState) (a : A) → o ≡ ok (t, a) → Extends s t)
      → Extends (state_of before) (state_of (keep before reply o).0)
  keep-Extends before s reply (err e) b h =
      Extends-same (state_of before) (state_of before) refl refl
  keep-Extends before s reply (ok (t, a)) b h = Extends-trans (state_of before) s t b (h t a refl)

  serve-Extends :
      (before : Storage) (s : PolicyGateState) (op : Operation)
      → Extends (state_of before) s
      → Extends (state_of before) (state_of (serve r before s op).0)
  unfolding serve
  serve-Extends before s (installs c) b =
      keep-Extends before s installed _ b (λ t i h. install-Extends s t c i h)
  serve-Extends before s (changes c) b =
      keep-Extends before s changed _ b (λ t a h. change-Extends s t c a h)
  serve-Extends before s (reconciles hashes) b =
      keep-Extends before s reconciled _ b (λ t k h. reconcile-Extends s t hashes k h)
  serve-Extends before s (evaluates input) b =
      keep_answer-Extends before s _ b (evaluate-Framed r s input)

  policy_gate-Extends : (s t : PolicyGateState) → policy_gate s ≡ ok t → Extends s t
  unfolding policy_gate
  policy_gate-Extends s t h =
      let (_, h1) = >>-eq-ok (nat_eq s.schema_version 1) _ _ h in
      let (_, h2) = >>-eq-ok (is_sha256_hex s.checkpoint) _ _ h1 in
      subst (Extends s) (ok-injective h2) (Extends-same s _ refl refl)

  load-Extends :
      (before : Storage) (t : PolicyGateState)
      → load kind before ≡ ok t
      → Extends (state_of before) t
  unfolding load
  load-Extends none t h = policy_gate-Extends (create_policy_gate_state kind) t h
  load-Extends (some s) t h = policy_gate-Extends s t (>>-eq-ok (same_kind s.gate kind) _ _ h).1

  loaded-Extends :
      (before : Storage) (op : Operation) (o : Result GateError PolicyGateState)
      → load kind before ≡ o
      → Extends (state_of before) (state_of (serve_loaded r before op o).0)
  loaded-Extends before op (err e) h = Extends-same (state_of before) (state_of before) refl refl
  loaded-Extends before op (ok s) h = serve-Extends before s op (load-Extends before s h)

  -- Whatever operations but a reset a gate goes through, failed ones included, the receipts that
  -- it had stay at the head of its log, and each deployment keeps the fingerprint of the content
  -- that it was first installed with.
  pub run_object-Extends :
      (before : Storage) (ops : List Operation)
      → Extends (state_of before) (state_of (run_object r kind before (map on_gate ops)))
  unfolding run_object call_object
  run_object-Extends before [] = Extends-same (state_of before) (state_of before) refl refl
  run_object-Extends before (op ∷ ops) =
      let next = (call_object r kind before (on_gate op)).0 in
      Extends-trans (state_of before) (state_of next) _
        (loaded-Extends before op (load kind before) refl) (run_object-Extends next ops)
