-- ===== src/Gate/Reach.antt =====
-- What holds of a gate's storage after any history of calls.
use angel_cloud.Prelude.{
  ℕ, suc, String, ◌≡◌, refl, sym, ap, subst, ◌∙◌, true, List, [], ◌∷◌, none, some, Result, ok, err,
}
use angel_cloud.Text.{is_sha256_hex}
use angel_cloud.Runtime.{Runtime}
use angel_cloud.Gate.State.{
  GateKind, gateway, broker, PolicyGateState, GateInstallCommand, GateInstallation,
  GateAvailability, GateAvailabilityCommand, GateError, ReceiptBody, create_policy_gate_state,
}
use angel_cloud.Gate.Availability.{change_availability, revised}
use angel_cloud.Gate.Keys.{reconcile_gateway_keys, seeded}
use angel_cloud.Gate.Receipts.{intact, verify_chain, append_receipt, receipt_hash}
use angel_cloud.Gate.Chain.{verify_chain-append_receipt}
use angel_cloud.Gate.Frame.{Framed, untouched, answered, providerless, evaluate-Framed}
use angel_cloud.Gate.Install.{policy_gate, install, installed_state}
use angel_cloud.Gate.Changes.{
  install-IsInstalled, change_availability-IsChanged, reconcile-IsReconciled,
}
use angel_cloud.Crypto.Digest.{Sha256Digests, is_sha256_hex-sha256_hex}
use angel_cloud.Gate.Encode.{digest_json}
use angel_cloud.Gate.Evaluate.{Outcome}
use angel_cloud.Gate.Object.{
  Storage, Call, Operation, reset, on_gate, installs, changes, reconciles, evaluates, Reply,
  installed, changed, reconciled, same_kind, load, keep, keep_answer, serve, serve_loaded,
  call_object, run_object, verify_object,
}

-- The stored gate is of the namespace's kind, has a well-formed checkpoint and an intact chain.
module _ (r : Runtime) (kind : GateKind) where
  pub record IsSound (s : PolicyGateState) : Type 0 where
    pub schema : s.schema_version ≡ 1
    pub of_kind : s.gate ≡ kind
    pub checkpoint : is_sha256_hex s.checkpoint ≡ true
    pub links : ℕ
    pub chain : verify_chain r s ≡ intact links

  abbrev pub IsSoundStorage : Storage → Type 0
  IsSoundStorage none = Unit
  IsSoundStorage (some s) = IsSound s

  pub create-IsSound : IsSound (create_policy_gate_state kind)
  unfolding create_policy_gate_state verify_chain is_sha256_hex
  create-IsSound = record {
    schema = refl;
    of_kind = refl;
    checkpoint = refl;
    links = 0;
    chain = refl;
  }

  -- An operation that keeps the chain's part of the state.
  pub record SameChain (s t : PolicyGateState) : Type 0 where
    pub schema : t.schema_version ≡ s.schema_version
    pub gate : t.gate ≡ s.gate
    pub receipts : t.receipts ≡ s.receipts
    pub checkpoint : t.checkpoint ≡ s.checkpoint

  SameChain-IsSound : (s t : PolicyGateState) → SameChain s t → IsSound s → IsSound t
  unfolding verify_chain
  SameChain-IsSound s t c v = record {
    schema = c.schema ∙ v.schema;
    of_kind = c.gate ∙ v.of_kind;
    checkpoint = rw c.checkpoint v.checkpoint;
    links = v.links;
    chain = rw (c.checkpoint, c.receipts) v.chain;
  }

  pub install-IsSound :
      (s t : PolicyGateState) (c : GateInstallCommand) (i : GateInstallation)
      → install r s c ≡ ok (t, i)
      → IsSound s
      → IsSound t
  unfolding installed_state
  install-IsSound s t c i h v =
      let k = install-IsInstalled r s t c i h in
      rw k.after (
        SameChain-IsSound s _
          (record { schema = refl; gate = refl; receipts = refl; checkpoint = refl }) v)

  pub change-IsSound :
      (s t : PolicyGateState) (c : GateAvailabilityCommand) (a : GateAvailability)
      → change_availability r s c ≡ ok (t, a)
      → IsSound s
      → IsSound t
  unfolding revised
  change-IsSound s t c a h v =
      let k = change_availability-IsChanged r s t c a h in
      rw (ap (λ (p : PolicyGateState × GateAvailability). p.0) k.after) (
        SameChain-IsSound s _
          (record { schema = refl; gate = refl; receipts = refl; checkpoint = refl }) v)

  pub reconcile-IsSound :
      (s t : PolicyGateState) (hashes keys : List String)
      → reconcile_gateway_keys s hashes ≡ ok (t, keys)
      → IsSound s
      → IsSound t
  reconcile-IsSound s t hashes keys h v =
      let k = reconcile-IsReconciled s t hashes keys h in
      rw k.after (
        SameChain-IsSound s _
          (record { schema = refl; gate = refl; receipts = refl; checkpoint = refl }) v)

  module _ (digests : Sha256Digests r) where
    pub append_receipt-IsSound :
        (s : PolicyGateState) (body : ReceiptBody) → IsSound s → IsSound (append_receipt r s body).0
    append_receipt-IsSound s body v = record {
      schema = unfold append_receipt in v.schema;
      of_kind = unfold append_receipt in v.of_kind;
      checkpoint = hex;
      links = suc v.links;
      chain = verify_chain-append_receipt r s body v.links v.chain;
    }
      where
        hex : is_sha256_hex (append_receipt r s body).0.checkpoint ≡ true
        hex = unfold append_receipt receipt_hash digest_json in is_sha256_hex-sha256_hex r digests _

    keep_answer-IsSound :
        (before : Storage) (s : PolicyGateState) (o : Outcome)
        → IsSoundStorage before
        → Framed r s o
        → IsSound s
        → IsSoundStorage (keep_answer before o).0
    keep_answer-IsSound before s _ b (untouched e) v = b
    keep_answer-IsSound before s _ b (answered body answer e) v = append_receipt-IsSound s body v
    keep_answer-IsSound before s _ b (providerless body) v = b

    keep-IsSound :
        {A : Type 0} (before : Storage) (reply : A → Reply)
        (o : Result GateError (PolicyGateState × A))
        → IsSoundStorage before
        → ((t : PolicyGateState) (a : A) → o ≡ ok (t, a) → IsSound t)
        → IsSoundStorage (keep before reply o).0
    keep-IsSound before reply (err e) b h = b
    keep-IsSound before reply (ok (t, a)) b h = h t a refl

    serve-IsSound :
        (before : Storage) (s : PolicyGateState) (op : Operation)
        → IsSoundStorage before
        → IsSound s
        → IsSoundStorage (serve r before s op).0
    unfolding serve
    serve-IsSound before s (installs c) b v =
        keep-IsSound before installed _ b (λ t i h. install-IsSound s t c i h v)
    serve-IsSound before s (changes c) b v =
        keep-IsSound before changed _ b (λ t a h. change-IsSound s t c a h v)
    serve-IsSound before s (reconciles hashes) b v =
        keep-IsSound before reconciled _ b (λ t k h. reconcile-IsSound s t hashes k h v)
    serve-IsSound before s (evaluates input) b v =
        keep_answer-IsSound before s _ b (evaluate-Framed r s input) v

    same_kind_refl : (k l : GateKind) → k ≡ l → same_kind k l ≡ true
    same_kind_refl gateway gateway e = refl
    same_kind_refl broker broker e = refl
    same_kind_refl gateway broker e = cc
    same_kind_refl broker gateway e = cc

    pub policy_gate-IsSound :
        (s : PolicyGateState)
        → IsSound s
        → (t : PolicyGateState) × (policy_gate s ≡ ok t) × IsSound t
    policy_gate-IsSound s v = (
      record s { gateway_key_hashes = some (seeded s.gateway_key_hashes s.gateway_key_hash) },
      unfold policy_gate in rw (v.schema, v.checkpoint),
      SameChain-IsSound s _
          (record { schema = refl; gate = refl; receipts = refl; checkpoint = refl }) v,
    )

    load-IsSound :
        (before : Storage)
        → IsSoundStorage before
        → (t : PolicyGateState) × (load kind before ≡ ok t) × IsSound t
    unfolding load
    load-IsSound none b = policy_gate-IsSound (create_policy_gate_state kind) create-IsSound
    load-IsSound (some s) b =
        let (t, e, v) = policy_gate-IsSound s b in
        (t, rw (same_kind_refl s.gate kind b.of_kind) e, v)

    call_object-IsSound :
        (before : Storage) (c : Call)
        → IsSoundStorage before
        → IsSoundStorage (call_object r kind before c).0
    unfolding call_object
    call_object-IsSound before reset b = create-IsSound
    call_object-IsSound before (on_gate op) b =
        let (t, e, v) = load-IsSound before b in
        subst (λ o. IsSoundStorage (serve_loaded r before op o).0) (sym e)
          (serve-IsSound before t op b v)

    run_object-IsSound :
        (before : Storage) (cs : List Call)
        → IsSoundStorage before
        → IsSoundStorage (run_object r kind before cs)
    unfolding run_object
    run_object-IsSound before [] b = b
    run_object-IsSound before (c ∷ cs) b =
        run_object-IsSound (call_object r kind before c).0 cs (call_object-IsSound before c b)

-- After any history of calls, failed ones included, a gate that began empty loads and verifies:
-- its namespace's kind, its schema and its checkpoint are accepted, and its receipts form an
-- intact chain up to the checkpoint. SHA-256 is assumed to give 32 bytes.
pub verify_object-run_object :
    (r : Runtime) (kind : GateKind) (cs : List Call)
    → Sha256Digests r
    → (n : ℕ) × (verify_object r kind (run_object r kind none cs) ≡ ok (intact n))
unfolding verify_object
verify_object-run_object r kind cs d =
    let (t, e, v) = load-IsSound r kind d _ (run_object-IsSound r kind d none cs tt) in
    (v.links, rw e (ap ok v.chain))
