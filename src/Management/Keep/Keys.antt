-- ===== src/Management/Keep/Keys.antt =====
-- The operations on keys keep every environment sound (src/management.ts).
use angel_cloud.Prelude.{
  String, ◌≡◌, refl, sym, subst, true, false, Option, none, some, List, ok, find,
}
use angel_cloud.Runtime.{Runtime}
use angel_cloud.Gate.State.{HostedEnvironment}
use angel_cloud.Management.State.{
  AgentKey, ManagementEnvironment, ManagementAngel, environment_of, MutationIdentity,
}
use angel_cloud.Management.World.{Dependencies}
use angel_cloud.Management.Keys.{
  is_active, mint_key, reconcile_keys, create_key_in, create_key, rotate_key_in, rotate_key,
  revoke_key_in, revoke_key, added, rotated, revoked_in, revocable, sync_legacy_key, sync_with,
  append, with_keys, revoke_first,
}
use angel_cloud.Management.KeyRule.{KeyRule}
use angel_cloud.Management.Phase.{IsOrderly, IsOrderly-stable}
use angel_cloud.Management.Writes.{Every, Every-At, write_first-Every}
use angel_cloud.Management.Runs.{Condition, Runs, pure-Runs, >>=-Runs}
use angel_cloud.Management.Steps.{
  ask_then, call_then, lift_then, reads_any, modify_then, environment_then,
}
use angel_cloud.Management.Keep.Mutations.{mutate-Runs}

-- An environment is in one of its phases, and its keys have a property.
abbrev pub Sound : (ManagementEnvironment → Type 0) → ManagementEnvironment → Type 0
Sound K e = IsOrderly e × K e

-- What only concerns the keys leaves the phase.
sync-IsOrderly :
    (e : ManagementEnvironment) (keys : List AgentKey)
    → IsOrderly e
    → IsOrderly (sync_legacy_key (with_keys keys e))
unfolding sync_legacy_key
sync-IsOrderly e keys h = synced (find is_active keys)
  where
    synced : (o : Option AgentKey) → IsOrderly (sync_with o (with_keys keys e))
    synced none = IsOrderly-stable e _ refl refl refl h
    synced (some k) = IsOrderly-stable e _ refl refl refl h

added-IsOrderly : (k : AgentKey) (e : ManagementEnvironment) → IsOrderly e → IsOrderly (added k e)
unfolding added
added-IsOrderly k e h = IsOrderly-stable e _ refl refl refl h

rotated-IsOrderly :
    (id time : String) (k : AgentKey) (e : ManagementEnvironment)
    → IsOrderly e
    → IsOrderly (rotated id time k e)
unfolding rotated added
rotated-IsOrderly id time k e h = sync-IsOrderly e (append (revoke_first id time e.keys) k) h

revoked_in-IsOrderly :
    (id time : String) (e : ManagementEnvironment) → IsOrderly e → IsOrderly (revoked_in id time e)
unfolding revoked_in
revoked_in-IsOrderly id time e h = sync-IsOrderly e (revoke_first id time e.keys) h

module _ (r : Runtime) {D : Type 0} (d : Dependencies D) where
  pub mint_key-Runs :
      {I P : Condition} (env : HostedEnvironment) (name : String)
      → Runs I P (mint_key r d env name) (λ p s. P s × (is_active p.1 ≡ true))
  unfolding mint_key
  mint_key-Runs env name =
      ask_then _ _
        (λ plaintext. ask_then _ _ (λ id. ask_then _ _ (λ time. pure-Runs _ (λ s p. (p, refl)))))

  reconcile_keys-Runs :
      {I P : Condition} (a : ManagementAngel) (env : HostedEnvironment)
      → Runs I P (reconcile_keys r d a env) (λ _. P)
  unfolding reconcile_keys
  reconcile_keys-Runs a env =
      environment_then r d a.id env _
        (λ e. lift_then _ _ (λ hashes _. call_then _ _ (λ _. pure-Runs tt (λ s p. p.0))))

  module _ {K : ManagementEnvironment → Type 0} (rule : KeyRule K) where
    abbrev I : Condition
    I = Every (Sound K)

    create_key_in-Runs :
        (a : ManagementAngel) (env : HostedEnvironment) (name : String)
        → Runs I I (create_key_in r d a env name) (λ _. I)
    unfolding create_key_in
    create_key_in-Runs a env name = >>=-Runs (mint_key-Runs env name) (λ p.
        modify_then _ _ I
          (λ s h. write_first-Every (Sound K) env (added p.1) a.id s.angels h.0 (λ b e.
            let before = Every-At (Sound K) a.id env s.angels h.0 b e in
            (added-IsOrderly p.1 _ before.0, rule.after_added p.1 (environment_of env b) before.1)))
          (>>=-Runs (reconcile_keys-Runs a env) (λ _. pure-Runs _ (λ s h. h))))

    pub create_key-Runs :
        (angel_id : String) (env : HostedEnvironment) (name : String) (m : MutationIdentity)
        → Runs I I (create_key r d angel_id env name m) (λ _. I)
    unfolding create_key
    create_key-Runs angel_id env name m = reads_any _ _ (λ a.
        lift_then _ _ (λ checked _. mutate-Runs r d m true _ _ (create_key_in-Runs a env checked)))

    rotate_key_in-Runs :
        (a : ManagementAngel) (env : HostedEnvironment) (id : String)
        → Runs I I (rotate_key_in r d a env id) (λ _. I)
    unfolding rotate_key_in
    rotate_key_in-Runs a env id = environment_then r d a.id env _ (λ e. lift_then _ _ (λ previous _.
        >>=-Runs (mint_key-Runs env previous.name) (λ p. ask_then _ _ (λ time.
          modify_then _ _ I
            (λ s h.
              write_first-Every (Sound K) env (rotated id time p.1) a.id s.angels h.0.0 (λ b q. (
                rotated-IsOrderly id time p.1 _ (Every-At (Sound K) a.id env s.angels h.0.0 b q).0,
                rule.after_rotated id time p.1 (environment_of env b) h.1,
              )))
            (>>=-Runs (reconcile_keys-Runs a env) (λ _. pure-Runs _ (λ s h. h)))))))

    pub rotate_key-Runs :
        (angel_id : String) (env : HostedEnvironment) (id : String) (m : MutationIdentity)
        → Runs I I (rotate_key r d angel_id env id m) (λ _. I)
    unfolding rotate_key
    rotate_key-Runs angel_id env id m =
        reads_any _ _ (λ a. mutate-Runs r d m true _ _ (rotate_key_in-Runs a env id))

    revoke_key_in-Runs :
        (a : ManagementAngel) (env : HostedEnvironment) (id : String)
        → Runs I I (revoke_key_in r d a env id) (λ _. I)
    unfolding revoke_key_in
    revoke_key_in-Runs a env id = environment_then r d a.id env _ (λ e.
        lift_then _ _ (λ target found. ask_then _ _ (λ time.
          modify_then _ _ I
            (λ s h. write_first-Every (Sound K) env (revoked_in id time) a.id s.angels h.0 (λ b q. (
              revoked_in-IsOrderly id time _ (Every-At (Sound K) a.id env s.angels h.0 b q).0,
              rule.after_revoked id time target (environment_of env b)
                  (subst (λ x. revocable id x ≡ ok target) (sym (h.1 b q)) found),
            )))
            (>>=-Runs (reconcile_keys-Runs a env) (λ _. pure-Runs _ (λ s h. h))))))

    pub revoke_key-Runs :
        (angel_id : String) (env : HostedEnvironment) (id : String) (m : MutationIdentity)
        → Runs I I (revoke_key r d angel_id env id m) (λ _. I)
    unfolding revoke_key
    revoke_key-Runs angel_id env id m =
        reads_any _ _ (λ a. mutate-Runs r d m false _ _ (revoke_key_in-Runs a env id))
