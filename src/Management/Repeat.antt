-- ===== src/Management/Repeat.antt =====
-- A mutation that is sent again (ManagementControl.mutate in src/management.ts).
use angel_cloud.Prelude.{
  String, ◌≡◌, refl, sym, ap, subst, ◌∙◌, Bool, Option, none, some, eq_iff, Bool-cases, inl, inr,
  ok,
}
use angel_cloud.Prelude.Dict.{lookup}
use angel_cloud.Json.{Json, stringify}
use angel_cloud.Runtime.{Runtime}
use angel_cloud.Decision.Call.{is_inherited}
use angel_cloud.Management.State.{IdempotencyRecord, MutationIdentity}
use angel_cloud.Management.World.{
  Action, Dependencies, World, pure, throw, gets, lift, require, ◌>>=◌,
}
use angel_cloud.Management.Mutate.{
  identify, replay, opened, answer, mutate, canonicalize_legacy_replay,
}
use angel_cloud.Management.Replay.{IsFaithful, Recorded, perform-Recorded}

module _ (r : Runtime) {D : Type 0} (d : Dependencies D) where
  pub mutate-answer :
      (m : MutationIdentity) (encrypted : Bool) (action : Action D Json) (owner : Option String)
      (w : World D) {key path print : String}
      → identify r m ≡ ok (key, path, print)
      → mutate r d m encrypted action owner w
        ≡ answer r d key path print encrypted action owner (lookup key w.state.idempotency) w
  unfolding mutate lift gets ◌>>=◌
  mutate-answer m encrypted action owner w h = rw h

  module _ (faithful : IsFaithful r d) where
    replay-Recorded :
        (print : String) (v : Json) (entry : IdempotencyRecord) (u : World D)
        → r.parse (stringify r.quote v) ≡ some v
        → entry.fingerprint ≡ print
        → (opened r d entry.response u).0 ≡ ok (stringify r.quote v)
        → (opened r d entry.response u).1.state ≡ u.state
        → ((replay r d entry print u).0 ≡ ok (canonicalize_legacy_replay v))
          × ((replay r d entry print u).1.state ≡ u.state)
    unfolding replay require lift pure ◌>>=◌
    replay-Recorded print v entry u parses same text state =
        rw ((eq_iff entry.fingerprint print).1 same, text, parses) (refl, state)

    answer-none :
        (key path print : String) (encrypted : Bool) (action : Action D Json)
        (owner : Option String) (w : World D) (v : Json)
        → (answer r d key path print encrypted action owner none w).0 ≡ ok v
        → Recorded r d faithful key print v
            (answer r d key path print encrypted action owner none w).1.state
    unfolding throw
    answer-none key path print encrypted action owner w v h = elim (Bool-cases (is_inherited key)) [
      | inl e ↦ cc h
      | inr e ↦
          rw e (perform-Recorded r d faithful key path print encrypted action owner w v (rw e at h))
    ]

    -- A mutation under a new Idempotency-Key that succeeds with an answer is answered the same,
    -- but for retired spellings, when it is sent again at once, and the second call leaves the
    -- state alone whatever it was to do, as long as the vault opens what it sealed and JSON.parse
    -- reads the answer back.
    pub mutate-repeated :
        (m : MutationIdentity) (encrypted again : Bool) (action other : Action D Json)
        (owner holder : Option String) (w : World D) (v : Json) (key path print : String)
        → identify r m ≡ ok (key, path, print)
        → lookup key w.state.idempotency ≡ none
        → r.parse (stringify r.quote v) ≡ some v
        → (mutate r d m encrypted action owner w).0 ≡ ok v
        → ((mutate r d m again other holder (mutate r d m encrypted action owner w).1).0
            ≡ ok (canonicalize_legacy_replay v))
          × ((mutate r d m again other holder (mutate r d m encrypted action owner w).1).1.state
              ≡ (mutate r d m encrypted action owner w).1.state)
    mutate-repeated m encrypted again action other owner holder w v key path print h fresh parses
          done =
        let first : mutate r d m encrypted action owner w
            ≡ answer r d key path print encrypted action owner none w =
          mutate-answer m encrypted action owner w h ∙ rw fresh in
        let made =
          answer-none key path print encrypted action owner w v
            (ap (λ p. p.0) (sym first) ∙ done) in
        let (entry, found, same, opens) =
          subst (λ p. Recorded r d faithful key print v p.1.state) (sym first) made in
        let u = (mutate r d m encrypted action owner w).1 in
        let second : mutate r d m again other holder u ≡ replay r d entry print u =
          mutate-answer m again other holder u h ∙ rw found in
        subst (λ p. (p.0 ≡ ok (canonicalize_legacy_replay v)) × (p.1.state ≡ u.state)) (sym second)
          (replay-Recorded print v entry u parses same (opens u).0 (opens u).1)
