-- ===== src/Management/Replay.antt =====
-- What a repeated mutation is answered (ManagementControl.mutate in src/management.ts).
use angel_cloud.Prelude.{
  String, ◌≡◌, refl, sym, ap, subst, ◌∙◌, Bool, true, false, Option, some, eq_refl, Result, ok, err,
  ok-injective,
}
use angel_cloud.Prelude.Dict.{lookup, lookup-insert}
use angel_cloud.Json.{Json, stringify}
use angel_cloud.Runtime.{Runtime}
use angel_cloud.Management.State.{
  Failure, IdempotencyRecord, StoredResponse, ciphertext, ManagementState,
}
use angel_cloud.Management.World.{
  Action, Dependencies, World, pure, call, modify, after, stored_if, checkpoint, ◌>>=◌,
}
use angel_cloud.Management.Mutate.{opened, recorded, store_record, perform}

module _ {D A B : Type 0} where
  after-eq :
      (x : Result Failure A) (f : A → Action D B) (w : World D) {a : A}
      → x ≡ ok a
      → after x f w ≡ f a w
  after-eq x f w h = rw h

  -- A sequence whose first step is done goes on with the rest.
  pub >>=-eq :
      (m : Action D A) (f : A → Action D B) (w : World D) {a : A}
      → (m w).0 ≡ ok a
      → (m >>= f) w ≡ f a (m w).1
  unfolding ◌>>=◌
  >>=-eq m f w h = after-eq (m w).0 f (m w).1 h

  after-ok :
      (x : Result Failure A) (f : A → Action D B) (w : World D) {b : B}
      → (after x f w).0 ≡ ok b
      → (a : A) × (x ≡ ok a)
  after-ok (ok a) f w h = (a, refl)
  after-ok (err e) f w h = cc

  -- A sequence that succeeds has done its first step.
  pub >>=-ok :
      (m : Action D A) (f : A → Action D B) (w : World D) {b : B}
      → ((m >>= f) w).0 ≡ ok b
      → (a : A) × ((m w).0 ≡ ok a)
  unfolding ◌>>=◌
  >>=-ok m f w h = after-ok (m w).0 f (m w).1 h

module _ (r : Runtime) {D : Type 0} (d : Dependencies D) where
  -- The replay vault opens what it has sealed.
  pub record IsFaithful : Type 0 where
    pub opens :
        (text sealed : String) (o : D)
        → (d.seal text o).0 ≡ ok sealed
        → (p : D) → (d.unseal sealed p).0 ≡ ok text

  checkpoint-state : (w : World D) → (checkpoint d w).1.state ≡ w.state
  unfolding checkpoint
  checkpoint-state w = stored (d.persist w.state w.outside).0 (d.persist w.state w.outside).1
    where
      stored : (x : Result Failure (Unit {0})) (o : D) → (stored_if x o w).1.state ≡ w.state
      stored (ok u) o = refl
      stored (err e) o = refl

  abbrev finish : String → IdempotencyRecord → Json → Action D Json
  finish key entry v = modify (store_record r d key entry) >>= λ _. checkpoint d >>= λ _. pure v

  finish-ok :
      (key : String) (entry : IdempotencyRecord) (a v : Json) (w : World D)
      → (finish key entry a w).0 ≡ ok v
      → (a ≡ v) × ((finish key entry a w).1.state ≡ store_record r d key entry w.state)
  unfolding modify pure ◌>>=◌
  finish-ok key entry a v w h =
      stored (checkpoint d (record w { state = store_record r d key entry w.state })).0 h
    where
      w1 : World D
      w1 = record w { state = store_record r d key entry w.state }

      stored :
          (x : Result Failure (Unit {0}))
          → (after x (λ _. pure a) (checkpoint d w1).1).0 ≡ ok v
          → (a ≡ v)
            × ((after x (λ _. pure a) (checkpoint d w1).1).1.state
                ≡ store_record r d key entry w.state)
      stored (ok u) q = (ok-injective q, checkpoint-state w1)
      stored (err e) q = cc

  abbrev pub entry_of : String → String → Option String → StoredResponse → IdempotencyRecord
  entry_of path print owner x = record {
    fingerprint = print;
    response = x;
    path = some path;
    angel_id = owner;
  }

  -- What a mutation that succeeds has recorded.
  pub perform-stored :
      (key path print : String) (encrypted : Bool) (action : Action D Json) (owner : Option String)
      (w : World D) (v : Json)
      → (perform r d key path print encrypted action owner w).0 ≡ ok v
      → (stored : StoredResponse) × ((recorded r d encrypted (stringify r.quote v) (action w).1).0
          ≡ ok stored)
        × (u : ManagementState) × ((perform r d key path print encrypted action owner w).1.state
            ≡ store_record r d key (entry_of path print owner stored) u)
  unfolding perform
  perform-stored key path print encrypted action owner w v h =
      let (a, acted) = >>=-ok action rest w h in
      let first = >>=-eq action rest w acted in
      let text = stringify r.quote a in
      let h1 : (rest a (action w).1).0 ≡ ok v = ap (λ p. p.0) (sym first) ∙ h in
      let (stored, kept) =
        >>=-ok (recorded r d encrypted text) (λ x. finish key (entry x) a) (action w).1 h1 in
      let second =
        >>=-eq (recorded r d encrypted text) (λ x. finish key (entry x) a) (action w).1 kept in
      let w2 = (recorded r d encrypted text (action w).1).1 in
      let (same, state) = finish-ok key (entry stored) a v w2 (ap (λ p. p.0) (sym second) ∙ h1) in
      (
        stored,
        subst (λ x. (recorded r d encrypted (stringify r.quote x) (action w).1).0 ≡ ok stored) same
            kept,
        w2.state,
        ap (λ p. p.1.state) (first ∙ second) ∙ state,
      )
    where
      entry : StoredResponse → IdempotencyRecord
      entry x = entry_of path print owner x

      rest : Json → Action D Json
      rest a = recorded r d encrypted (stringify r.quote a) >>= λ x. finish key (entry x) a

  module _ (faithful : IsFaithful) where
    recorded-opened :
        (encrypted : Bool) (text : String) (stored : StoredResponse) (w : World D)
        → (recorded r d encrypted text w).0 ≡ ok stored
        → (v : World D)
        → ((opened r d stored v).0 ≡ ok text) × ((opened r d stored v).1.state ≡ v.state)
    unfolding call pure
    recorded-opened true text stored w h v =
        let (c, sealed) = >>=-ok (call (d.seal text)) (λ c. pure (ciphertext c)) w h in
        let same : ciphertext c ≡ stored = ok-injective (
          sym (
            ap (λ (p : Result Failure StoredResponse × World D). p.0)
              (>>=-eq (call (d.seal text)) (λ c. pure (ciphertext c)) w sealed))
          ∙ h) in
        subst (λ x. ((opened r d x v).0 ≡ ok text) × ((opened r d x v).1.state ≡ v.state)) same
          (faithful.opens text c w.outside sealed v.outside, refl)
    recorded-opened false text stored w h v =
        subst (λ x. ((opened r d x v).0 ≡ ok text) × ((opened r d x v).1.state ≡ v.state))
          (ok-injective h) (refl, refl)

    -- The entry that a mutation that succeeds leaves opens to its answer.
    abbrev pub Recorded : String → String → Json → ManagementState → Type 0
    Recorded key print v s =
        (entry : IdempotencyRecord) × (lookup key s.idempotency ≡ some entry)
        × (entry.fingerprint ≡ print)
        × ((u : World D)
            → ((opened r d entry.response u).0 ≡ ok (stringify r.quote v))
              × ((opened r d entry.response u).1.state ≡ u.state))

    pub perform-Recorded :
        (key path print : String) (encrypted : Bool) (action : Action D Json)
        (owner : Option String) (w : World D) (v : Json)
        → (perform r d key path print encrypted action owner w).0 ≡ ok v
        → Recorded key print v (perform r d key path print encrypted action owner w).1.state
    perform-Recorded key path print encrypted action owner w v h =
        let (stored, kept, u, final) = perform-stored key path print encrypted action owner w v h in
        subst (Recorded key print v) (sym final) (
          entry_of path print owner stored,
          rw (lookup-insert key key (entry_of path print owner stored) u.idempotency, eq_refl key),
          refl,
          recorded-opened encrypted (stringify r.quote v) stored (action w).1 kept,
        )
