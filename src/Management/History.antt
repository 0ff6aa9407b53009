-- ===== src/Management/History.antt =====
-- The environments over a history of commands (src/management.ts).
use angel_cloud.Prelude.{
  String, ◌≡◌, refl, subst, Bool, true, false, List, [], ◌∷◌, not, ◌==◌, any, inl, inr, All, Result,
  ok, err, ok-injective, Bool-cases, ||-eq-false,
}
use angel_cloud.Prelude.Dict.{Dict}
use angel_cloud.Runtime.{Runtime}
use angel_cloud.Adapters.Scopes.{DerivedAdapter}
use angel_cloud.Adapters.Validate.{AdapterError}
use angel_cloud.Management.State.{
  Failure, ManagementEnvironment, ManagementAngel, ManagementState, StoredManagementConnection,
  AgentKey,
}
use angel_cloud.Management.World.{Action, Dependencies, World}
use angel_cloud.Management.Keys.{with_keys}
use angel_cloud.Management.Load.{load}
use angel_cloud.Management.Commands
use angel_cloud.Management.Commands.{
  ManagementCommand, ManagementEvent, commanded, reported, execute, dispatch, on_restored, sync,
  replace_connections, reconcile_connections, event, run_events,
}
use angel_cloud.Management.KeyRule.{KeyRule, always-KeyRule, IsKeyed, IsKeyed-KeyRule}
use angel_cloud.Management.Phase.{IsOrderly}
use angel_cloud.Management.Writes.{Every}
use angel_cloud.Management.Runs.{Condition, Ends, Runs, reads-Runs}
use angel_cloud.Management.Steps.{reads_then, modify_then}
use angel_cloud.Management.Runs.{checkpoint-Runs}
use angel_cloud.Management.Keep.Keys.{Sound, create_key-Runs, rotate_key-Runs, revoke_key-Runs}
use angel_cloud.Management.Keep.Changes.{
  deploy_preview-Runs, deploy_production-Runs, promote_production-Runs, change_availability-Runs,
}
use angel_cloud.Management.Keep.Angels.{ensure_angel-Runs, publish_version-Runs, delete_angel-Runs}
use angel_cloud.Management.Keep.Loading.{load-Every}

-- The events that delete an Angel.
abbrev pub is_deletion : ManagementEvent → Bool
is_deletion (commanded (Commands.delete_angel account_id slug confirm m)) = true
is_deletion (commanded _) = false
is_deletion (reported connections) = false

module _ (r : Runtime) {K : ManagementEnvironment → Type 0} (rule : KeyRule K) where
  abbrev I : Condition
  I = Every (Sound K)

  module _ (registry : Dict DerivedAdapter) (message : AdapterError → String) {D : Type 0}
      (d : Dependencies D) where
    -- Where an event may delete, the property holds of any keys.
    abbrev Allowed : ManagementEvent → Type 0
    Allowed e =
        is_deletion e ≡ true
        → (keys : List AgentKey) (x : ManagementEnvironment) → K (with_keys keys x)

    execute-Runs :
        (c : ManagementCommand)
        → Allowed (commanded c)
        → Runs I I (execute r registry message d c) (λ _. I)
    unfolding execute
    execute-Runs (Commands.ensure_angel account_id slug m) h =
        ensure_angel-Runs r d rule account_id slug m
    execute-Runs (Commands.delete_angel account_id slug confirm m) h =
        delete_angel-Runs r d rule (h refl) account_id slug confirm m
    execute-Runs (Commands.get_angel_by_slug account_id slug) h = reads-Runs _ (λ s a e p. p)
    execute-Runs (Commands.get_angel id) h = reads-Runs _ (λ s a e p. p)
    execute-Runs (Commands.get_version id version_id) h = reads-Runs _ (λ s a e p. p)
    execute-Runs (Commands.list_connections account_id) h = reads-Runs _ (λ s a e p. p)
    execute-Runs (Commands.publish_version id input m) h =
        publish_version-Runs r d rule registry message id input m
    execute-Runs (Commands.deploy_preview id input m) h =
        deploy_preview-Runs r d rule registry id input m
    execute-Runs (Commands.deploy_production id input m) h =
        deploy_production-Runs r d rule registry id input m
    execute-Runs (Commands.get_environment id env) h = reads-Runs _ (λ s a e p. p)
    execute-Runs (Commands.change_availability id env input m) h =
        change_availability-Runs r d rule id env input m
    execute-Runs (Commands.promote_production id input m) h =
        promote_production-Runs r d rule registry id input m
    execute-Runs (Commands.create_key id env name m) h = create_key-Runs r d rule id env name m
    execute-Runs (Commands.rotate_key id env key_id m) h = rotate_key-Runs r d rule id env key_id m
    execute-Runs (Commands.revoke_key id env key_id m) h = revoke_key-Runs r d rule id env key_id m

    ends-saved :
        {A : Type 0} (x : Result Failure A) (w : World D) → Ends I (λ _. I) x w → I w.saved.angels
    ends-saved (ok a) w h = h.0
    ends-saved (err e) w h = h

    on_restored-saved :
        {A : Type 0} (action : Action D A) (w : World D) (loaded : Result Failure ManagementState)
        → load r w.saved ≡ loaded
        → Runs I I action (λ _. I)
        → I w.saved.angels
        → I (on_restored r registry message d action w loaded).1.saved.angels
    on_restored-saved action w (err e) q h i = i
    on_restored-saved action w (ok s) q h i =
        ends-saved (action (record w { state = s })).0 _
          (h.run (record w { state = s }) i (load-Every r rule w.saved s q i))

    replace-Runs :
        (connections : List StoredManagementConnection)
        → Runs I I (replace_connections r registry message d connections) (λ _. I)
    unfolding reconcile_connections
    replace-Runs connections =
        reads_then _ _ (λ t s. I s × I t.angels) (λ s t e p. (p, replaced s t e p))
          (λ t. modify_then _ _ I (λ s p. p.1) (checkpoint-Runs d (λ s p. p)))
      where
        replaced :
            (s t : ManagementState)
            → reconcile_connections connections s ≡ ok t
            → I s.angels
            → I t.angels
        replaced s t e p =
            elim (Bool-cases (any (λ c. not (c.account_id == s.account.id)) connections)) [
              | inl q ↦ cc (rw q at e)
              | inr q ↦ subst (λ (x : ManagementState). I x.angels) (ok-injective (rw q at e)) p
            ]

    event-saved :
        (e : ManagementEvent) (w : World D)
        → Allowed e
        → I w.saved.angels
        → I (event r registry message d e w).saved.angels
    unfolding dispatch sync
    event-saved (commanded c) w h i =
        on_restored-saved (execute r registry message d c) w (load r w.saved) refl
          (execute-Runs c h) i
    event-saved (reported connections) w h i =
        on_restored-saved (replace_connections r registry message d connections) w (load r w.saved)
          refl (replace-Runs connections) i

    pub run_events-Every :
        (es : List ManagementEvent) (w : World D)
        → All Allowed es
        → I w.saved.angels
        → I (run_events r registry message d es w).saved.angels
    unfolding run_events
    run_events-Every [] w h i = i
    run_events-Every (e ∷ es) w h i =
        run_events-Every es (event r registry message d e w) h.1 (event-saved e w h.0 i)

Every-map :
    (F G : ManagementEnvironment → Type 0)
    → ((e : ManagementEnvironment) → F e → G e)
    → (angels : List ManagementAngel) → Every F angels
    → Every G angels
Every-map F G h [] k = tt
Every-map F G h (a ∷ angels) k =
    ((h a.preview k.0.0, h a.production k.0.1), Every-map F G h angels k.1)

All-allowed :
    {P : ManagementEvent → Type 0} (es : List ManagementEvent)
    → ((e : ManagementEvent) → any is_deletion (e ∷ []) ≡ false → P e)
    → any is_deletion es ≡ false
    → All P es
All-allowed [] h k = tt
All-allowed (e ∷ es) h k =
    let (here, later) = ||-eq-false (is_deletion e) (any is_deletion es) k in
    (h e (rw here), All-allowed es h later)

module _ (r : Runtime) (registry : Dict DerivedAdapter) (message : AdapterError → String)
    {D : Type 0} (d : Dependencies D) where
  -- After any history of commands and of reports by the Broker, each run on the stored state and
  -- whatever the store, the clock and the gates answer, every stored environment is in one phase:
  -- nothing is pending and no gate is marked, or a deployment is pending and a gate is marked, or
  -- a change of availability is pending and a gate is marked, if every stored one was to begin
  -- with.
  pub run_events-IsOrderly :
      (es : List ManagementEvent) (w : World D)
      → Every IsOrderly w.saved.angels
      → Every IsOrderly (run_events r registry message d es w).saved.angels
  run_events-IsOrderly es w h =
      Every-map (Sound (λ _. Unit)) IsOrderly (λ e k. k.0) _
        (run_events-Every r always-KeyRule registry message d es w (allow es)
          (Every-map IsOrderly (Sound (λ _. Unit)) (λ e k. (k, tt)) w.saved.angels h))
    where
      allow :
          (es : List ManagementEvent)
          → All
              (λ e.
                is_deletion e ≡ true
                → (keys : List AgentKey) (x : ManagementEnvironment) → Unit {0})
              es
      allow [] = tt
      allow (e ∷ es) = (λ q keys x. tt, allow es)

  -- After any history without deletions, whatever the store, the clock and the gates answer,
  -- every stored environment is in one of its phases and has an active key, and its single hash
  -- and fingerprint are those of the first active key, if every stored one was so to begin with.
  pub run_events-IsKeyed :
      (es : List ManagementEvent) (w : World D)
      → any is_deletion es ≡ false
      → Every (λ e. IsOrderly e × IsKeyed e) w.saved.angels
      → Every (λ e. IsOrderly e × IsKeyed e) (run_events r registry message d es w).saved.angels
  run_events-IsKeyed es w none_deletes h =
      run_events-Every r IsKeyed-KeyRule registry message d es w
        (All-allowed es (λ e q deletes. cc) none_deletes) h
