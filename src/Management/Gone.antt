-- ===== src/Management/Gone.antt =====
-- What is left when an Angel is deleted: deleteAngel of src/management.ts.
use angel_cloud.Prelude.{
  String, ◌≡◌, refl, ap, subst, ◌∙◌, Bool, true, false, Option, none, some, List, [], ◌∷◌, ◌==◌,
  not, Bool-cases, inl, inr, select, Result, ok,
}
use angel_cloud.Prelude.Dict.{Dict}
use angel_cloud.Json.{Json}
use angel_cloud.Runtime.{Runtime}
use angel_cloud.Gate.State.{HostedEnvironment, preview, production}
use angel_cloud.Management.State.{
  Failure, AgentKey, ManagementEnvironment, ManagementAngel, IdempotencyRecord, StoredResponse,
  ciphertext, response_json, ManagementState,
}
use angel_cloud.Management.World.{Dependencies, World, call}
use angel_cloud.Management.Lookup.{write_first}
use angel_cloud.Management.Keys.{is_active, with_keys, read_environment}
use angel_cloud.Management.Delete.{
  purge_test, purge_records, revoke_each, revoke_all, close_gates, drop_angel, drop_record,
  response_text, tear_down,
}
use angel_cloud.Management.Writes.{write_to-id}
use angel_cloud.Management.Leads.{
  Left, Leads, pure-Leads, gets-Leads, ask-Leads, if-Leads, call-Leads, reads-Leads, modify-Leads,
  checkpoint-Leads, >>=-Leads,
}

abbrev pub others : String → List ManagementAngel → List ManagementAngel
others id angels = select (λ x. not (x.id == id)) angels

-- A write to an Angel is not seen among the others.
others-write_first :
    (id : String) (env : HostedEnvironment) (f : ManagementEnvironment → ManagementEnvironment)
    (angels : List ManagementAngel)
    → others id (write_first id env f angels) ≡ others id angels
unfolding write_first
others-write_first id env f [] = refl
others-write_first id env f (a ∷ angels) = elim (Bool-cases (a.id == id)) [
  | inl e ↦ rw (e, write_to-id env f a, e)
  | inr e ↦ rw (e, e) (ap (◌∷◌ a) (others-write_first id env f angels))
]

module _ (r : Runtime) {D : Type 0} (d : Dependencies D) (s : ManagementState)
    (a : ManagementAngel) where
  -- But for the keys of the Angel, the records are those of `s`.
  pub record IsApart (t : ManagementState) : Type 0 where
    pub angels : others a.id t.angels ≡ others a.id s.angels
    pub versions : t.versions ≡ s.versions
    pub deployments : t.deployments ≡ s.deployments
    pub connections : t.connections ≡ s.connections

  -- The Angel is gone with its Versions and deployments, and nothing else is.
  pub record IsGone (t : ManagementState) : Type 0 where
    pub angels : t.angels ≡ others a.id s.angels
    pub versions : t.versions ≡ select (λ v. not (v.angel_id == a.id)) s.versions
    pub deployments : t.deployments ≡ select (λ x. not (x.angel_id == a.id)) s.deployments
    pub connections : t.connections ≡ s.connections

  revoke_each-Leads : (ks : List AgentKey) → Leads IsApart (revoke_each r d ks) (λ _. IsApart)
  unfolding revoke_each
  revoke_each-Leads [] = pure-Leads _ (λ t h. h)
  revoke_each-Leads (k ∷ ks) =
      >>=-Leads {Q = λ _. IsApart}
        (if-Leads (is_active k) _ _
          (>>=-Leads (ask-Leads {Q = λ _. IsApart} _ (λ time t h. h))
            (λ time. pure-Leads _ (λ t h. h)))
          (pure-Leads k (λ t h. h)))
        (λ here. >>=-Leads (revoke_each-Leads ks) (λ rest. pure-Leads _ (λ t h. h)))

  read_environment-Leads :
      (env : HostedEnvironment) → Leads IsApart (read_environment r d a.id env) (λ _. IsApart)
  unfolding read_environment
  read_environment-Leads env =
      >>=-Leads (reads-Leads {Q = λ _. IsApart} _ (λ t x e h. h)) (λ x. pure-Leads _ (λ t h. h))

  revoke_all-Leads : (env : HostedEnvironment) → Leads IsApart (revoke_all r d a env) (λ _. IsApart)
  unfolding revoke_all
  revoke_all-Leads env = >>=-Leads (read_environment-Leads env) (λ e.
      >>=-Leads (revoke_each-Leads e.keys) (λ keys. modify-Leads _ (λ t h. record {
        angels = others-write_first a.id env (with_keys keys) t.angels ∙ h.angels;
        versions = h.versions;
        deployments = h.deployments;
        connections = h.connections;
      })))

  called : {A : Type 0} (f : D → Result Failure A × D) → Leads IsApart (call f) (λ _. IsApart)
  called f = call-Leads f (λ x t h. h)

  close_gates-Leads : Leads IsApart (close_gates r d a) (λ _. IsApart)
  unfolding close_gates
  close_gates-Leads = >>=-Leads (called _) (λ _. >>=-Leads (called _) (λ _.
      >>=-Leads (called _) (λ _. >>=-Leads (called _) (λ _. >>=-Leads (called _) (λ _. called _)))))

  drop_angel-IsGone : (t : ManagementState) → IsApart t → IsGone (drop_angel a.id t)
  unfolding drop_angel
  drop_angel-IsGone t h = record {
    angels = h.angels;
    versions = rw h.versions;
    deployments = rw h.deployments;
    connections = h.connections;
  }

  drop_record-IsGone :
      (key : String) (dead : Bool) (t : ManagementState)
      → IsGone t
      → IsGone (drop_record r d key dead t)
  drop_record-IsGone key false t h = h
  drop_record-IsGone key true t h = record {
    angels = h.angels;
    versions = h.versions;
    deployments = h.deployments;
    connections = h.connections;
  }

  response_text-Leads : (x : StoredResponse) → Leads IsGone (response_text r d x) (λ _. IsGone)
  response_text-Leads (ciphertext text) = ask-Leads _ (λ x t h. h)
  response_text-Leads (response_json text) = pure-Leads _ (λ t h. h)

  purge_test-Leads :
      (coordinate : String) (rec : IdempotencyRecord) (path : Option String)
      → Leads IsGone (purge_test r d coordinate a.id rec path) (λ _. IsGone)
  purge_test-Leads coordinate rec (some path) = pure-Leads _ (λ t h. h)
  purge_test-Leads coordinate rec none =
      >>=-Leads (response_text-Leads rec.response) (λ text. pure-Leads _ (λ t h. h))

  purge_records-Leads :
      (coordinate : String) (records : Dict IdempotencyRecord)
      → Leads IsGone (purge_records r d coordinate a.id records) (λ _. IsGone)
  unfolding purge_records
  purge_records-Leads coordinate [] = pure-Leads tt (λ t h. h)
  purge_records-Leads coordinate ((key, rec) ∷ more) =
      >>=-Leads (purge_test-Leads coordinate rec rec.path) (λ dead.
        >>=-Leads (modify-Leads {Q = IsGone} _ (drop_record-IsGone key dead))
          (λ _. purge_records-Leads coordinate more))

  tear_down-Leads : (account_id : String) → Leads IsApart (tear_down r d account_id a) (λ _. IsGone)
  unfolding tear_down
  tear_down-Leads account_id = >>=-Leads (revoke_all-Leads preview) (λ _.
      >>=-Leads (revoke_all-Leads production) (λ _. >>=-Leads (checkpoint-Leads d) (λ _.
        >>=-Leads close_gates-Leads (λ _.
          >>=-Leads (modify-Leads {Q = IsGone} _ drop_angel-IsGone) (λ _.
            >>=-Leads (gets-Leads {Q = λ _. IsGone} _ (λ t h. h)) (λ records.
              >>=-Leads (purge_records-Leads _ records) (λ _. pure-Leads _ (λ t h. h))))))))

module _ (r : Runtime) {D : Type 0} (d : Dependencies D) where
  -- A deletion that succeeds leaves the other Angels as they were, drops the Versions and the
  -- deployments of the Angel and no others, and leaves the Connections alone.
  pub tear_down-IsGone :
      (account_id : String) (a : ManagementAngel) (w : World D) (answer : Json)
      → (tear_down r d account_id a w).0 ≡ ok answer
      → IsGone r d w.state a (tear_down r d account_id a w).1.state
  tear_down-IsGone account_id a w answer done =
      subst (λ x. Left (λ _. IsGone r d w.state a) x (tear_down r d account_id a w).1) done
        ((tear_down-Leads r d w.state a account_id).run w
          (record { angels = refl; versions = refl; deployments = refl; connections = refl }))
