-- ===== src/Management/Keep/Angels.antt =====
-- Creating an Angel, publishing a Version and deleting an Angel keep every environment sound
-- (src/management.ts).
use angel_cloud.Prelude.{
  String, ◌≡◌, refl, Bool, true, false, Option, none, some, List, [], ◌∷◌, select, Bool-cases, inl,
  inr, All, All-append,
}
use angel_cloud.Prelude.Dict.{Dict}
use angel_cloud.Runtime.{Runtime}
use angel_cloud.Adapters.Scopes.{DerivedAdapter}
use angel_cloud.Adapters.Validate.{AdapterError}
use angel_cloud.Gate.State.{HostedEnvironment, preview, production}
use angel_cloud.Management.State.{
  AgentKey, ManagementEnvironment, ManagementAngel, environment_of, IdempotencyRecord,
  StoredResponse, ciphertext, response_json, ManagementState, PublishVersionRequest,
  PublishedAngelVersion, MutationIdentity,
}
use angel_cloud.Management.World.{Dependencies}
use angel_cloud.Management.Lookup.{stamped}
use angel_cloud.Management.Keys.{is_active, environment_key, with_keys}
use angel_cloud.Management.Ensure.{create_angel, ensure_with, ensure_angel, push_angel}
use angel_cloud.Management.Publish.{push_version}
use angel_cloud.Management.PublishVersion.{stamp, publish_with, publish, publish_version}
use angel_cloud.Management.Delete.{
  purge_test, purge_records, revoke_each, revoke_all, close_gates, drop_angel, tear_down, delete_in,
  delete_angel, drop_record, response_text,
}
use angel_cloud.Management.KeyRule.{KeyRule}
use angel_cloud.Management.Phase.{IsOrderly-stable}
use angel_cloud.Management.Writes.{Every, Both, Every-At, write_first-Every}
use angel_cloud.Management.Runs.{
  Condition, Runs, pure-Runs, ask-Runs, call-Runs, modify-Runs, if-Runs, >>=-Runs, strengthen-Runs,
}
use angel_cloud.Management.Steps.{
  ask_then, call_then, gets_then, lift_then, reads_any, modify_then, aside_then, checkpoint_then,
  environment_then,
}
use angel_cloud.Management.Keep.Mutations.{mutate-Runs}
use angel_cloud.Management.Keep.Keys.{Sound, mint_key-Runs}

All-select :
    {A : Type 0} (P : A → Type 0) (p : A → Bool) (xs : List A) → All P xs → All P (select p xs)
All-select P p [] h = tt
All-select P p (x ∷ xs) h = elim (Bool-cases (p x)) [
  | inl e ↦ rw e (h.0, All-select P p xs h.1)
  | inr e ↦ rw e (All-select P p xs h.1)
]

module _ (r : Runtime) {D : Type 0} (d : Dependencies D) where
  drop_record-angels :
      (key : String) (dead : Bool) (s : ManagementState)
      → (drop_record r d key dead s).angels ≡ s.angels
  drop_record-angels key false s = refl
  drop_record-angels key true s = refl

module _ (r : Runtime) {D : Type 0} (d : Dependencies D) {K : ManagementEnvironment → Type 0}
    (rule : KeyRule K) where
  abbrev I : Condition
  I = Every (Sound K)

  environment_key-Runs :
      (env : HostedEnvironment) (P : Condition)
      → Runs I P (environment_key r d env) (λ p s. P s × Sound K p.1)
  unfolding environment_key
  environment_key-Runs env P = >>=-Runs (mint_key-Runs r d env "Default key") (λ p.
      pure-Runs _ (λ s h. (
        h.0,
        (inl (record { repair = refl; deployment = refl; change = refl }), rule.fresh p.1 h.1),
      )))

  create_angel-Runs :
      (account_id slug : String) → Runs I I (create_angel r d account_id slug) (λ _. I)
  unfolding create_angel push_angel
  create_angel-Runs account_id slug = >>=-Runs (environment_key-Runs preview I) (λ p.
      >>=-Runs (environment_key-Runs production (λ s. I s × Sound K p.1)) (λ q. ask_then _ _ (λ id.
        modify_then _ _ I (λ s h. All-append (Both (Sound K)) s.angels _ h.0.0 ((h.0.1, h.1), tt))
          (reads_any _ _ (λ view. pure-Runs _ (λ s h. h))))))

  ensure_with-Runs :
      (account_id slug : String) (existing : Option ManagementAngel)
      → Runs I I (ensure_with r d account_id slug existing) (λ _. I)
  ensure_with-Runs account_id slug none = create_angel-Runs account_id slug
  ensure_with-Runs account_id slug (some existing) = reads_any _ _ (λ view. pure-Runs _ (λ s h. h))

  pub ensure_angel-Runs :
      (account_id slug : String) (m : MutationIdentity)
      → Runs I I (ensure_angel r d account_id slug m) (λ _. I)
  unfolding ensure_angel
  ensure_angel-Runs account_id slug m = reads_any _ _ (λ _. lift_then _ _ (λ _ _.
      mutate-Runs r d m true _ _ (gets_then _ _ (λ found. ensure_with-Runs account_id slug found))))

  module _ (registry : Dict DerivedAdapter) (message : AdapterError → String) where
    publish_with-Runs :
        (angel_id : String) (input : PublishVersionRequest)
        (existing : Option PublishedAngelVersion)
        → Runs I I (publish_with r registry message d angel_id input existing) (λ _. I)
    unfolding push_version stamp stamped
    publish_with-Runs angel_id input (some existing) = pure-Runs _ (λ s h. h)
    publish_with-Runs angel_id input none = ask_then _ _ (λ id. gets_then _ _ (λ v.
        aside_then _ _ (λ s. refl)
          (>>=-Runs (ask_then _ _ (λ time. modify-Runs _ (λ s h. h)))
            (λ _. pure-Runs _ (λ s h. h)))))

    pub publish_version-Runs :
        (angel_id : String) (input : PublishVersionRequest) (m : MutationIdentity)
        → Runs I I (publish_version r registry message d angel_id input m) (λ _. I)
    unfolding publish_version publish
    publish_version-Runs angel_id input m = reads_any _ _ (λ a. mutate-Runs r d m false _ _ (
        >>=-Runs
          (lift_then _ _ (λ _ _. gets_then _ _ (λ existing. publish_with-Runs a.id input existing)))
          (λ v. pure-Runs _ (λ s h. h))))

  -- Deletion revokes every key, so that the property has to hold of any keys.
  module _
      (any_keys : (keys : List AgentKey) (e : ManagementEnvironment) → K (with_keys keys e)) where
    revoke_each-Runs : (ks : List AgentKey) → Runs I I (revoke_each r d ks) (λ _. I)
    unfolding revoke_each
    revoke_each-Runs [] = pure-Runs _ (λ s h. h)
    revoke_each-Runs (k ∷ ks) =
        >>=-Runs
          (if-Runs (is_active k) _ _ (ask_then _ _ (λ time. pure-Runs _ (λ s h. h)))
            (pure-Runs k (λ s h. h)))
          (λ here. >>=-Runs (revoke_each-Runs ks) (λ rest. pure-Runs _ (λ s h. h)))

    revoke_all-Runs :
        (a : ManagementAngel) (env : HostedEnvironment) → Runs I I (revoke_all r d a env) (λ _. I)
    unfolding revoke_all
    revoke_all-Runs a env = environment_then r d a.id env _ (λ e.
        >>=-Runs (strengthen-Runs (λ s h. h.0) (revoke_each-Runs e.keys)) (λ keys.
          modify-Runs _ (λ s h.
            write_first-Every (Sound K) env (with_keys keys) a.id s.angels h (λ b q. (
              IsOrderly-stable (environment_of env b) _ refl refl refl
                  (Every-At (Sound K) a.id env s.angels h b q).0,
              any_keys keys (environment_of env b),
            )))))

    close_gates-Runs : (a : ManagementAngel) → Runs I I (close_gates r d a) (λ _. I)
    unfolding close_gates
    close_gates-Runs a = call_then _ _ (λ _. call_then _ _ (λ _.
        call_then _ _ (λ _. call_then _ _ (λ _. call_then _ _ (λ _. call-Runs _ (λ _ s h. h))))))

    response_text-Runs : (x : StoredResponse) → Runs I I (response_text r d x) (λ _. I)
    response_text-Runs (ciphertext text) = ask-Runs _ (λ _ s h. h)
    response_text-Runs (response_json text) = pure-Runs _ (λ s h. h)

    purge_test-Runs :
        (coordinate angel_id : String) (rec : IdempotencyRecord) (path : Option String)
        → Runs I I (purge_test r d coordinate angel_id rec path) (λ _. I)
    purge_test-Runs coordinate angel_id rec (some path) = pure-Runs _ (λ s h. h)
    purge_test-Runs coordinate angel_id rec none =
        >>=-Runs (response_text-Runs rec.response) (λ text. pure-Runs _ (λ s h. h))

    purge_records-Runs :
        (coordinate angel_id : String) (records : Dict IdempotencyRecord)
        → Runs I I (purge_records r d coordinate angel_id records) (λ _. I)
    unfolding purge_records
    purge_records-Runs coordinate angel_id [] = pure-Runs tt (λ s h. h)
    purge_records-Runs coordinate angel_id ((key, rec) ∷ more) =
        >>=-Runs (purge_test-Runs coordinate angel_id rec rec.path) (λ dead.
          aside_then _ _ (λ s. drop_record-angels r d key dead s)
            (purge_records-Runs coordinate angel_id more))

    tear_down-Runs :
        (account_id : String) (a : ManagementAngel) → Runs I I (tear_down r d account_id a) (λ _. I)
    unfolding tear_down drop_angel
    tear_down-Runs account_id a = >>=-Runs (revoke_all-Runs a preview) (λ _.
        >>=-Runs (revoke_all-Runs a production) (λ _.
          checkpoint_then _ d (λ s h. h)
            (>>=-Runs (close_gates-Runs a) (λ _.
              modify_then _ _ I (λ s h. All-select (Both (Sound K)) _ s.angels h)
                (gets_then _ _ (λ records.
                  >>=-Runs (purge_records-Runs _ a.id records) (λ _. pure-Runs _ (λ s h. h))))))))

    pub delete_angel-Runs :
        (account_id slug : String) (confirm : Option String) (m : MutationIdentity)
        → Runs I I (delete_angel r d account_id slug confirm m) (λ _. I)
    unfolding delete_angel delete_in
    delete_angel-Runs account_id slug confirm m = reads_any _ _ (λ _. lift_then _ _ (λ _ _.
        mutate-Runs r d m false _ _ (
          gets_then _ _
            (λ found. lift_then _ _ (λ a _. lift_then _ _ (λ _ _. tear_down-Runs account_id a))))))
