-- ===== src/Management/Keep/Changes.antt =====
-- Deploying, promoting and changing the availability keep every environment sound
-- (src/management.ts).
use angel_cloud.Prelude.{String, ◌≡◌, refl, true, false, Option, none, some, List, inr, inl}
use angel_cloud.Prelude.Dict.{Dict}
use angel_cloud.Runtime.{Runtime}
use angel_cloud.Adapters.Scopes.{DerivedAdapter}
use angel_cloud.Gate.State.{GateKind, gateway, broker, HostedEnvironment, preview, production}
use angel_cloud.Management.State.{
  ManagementEnvironment, ManagementAngel, environment_of, promotion, direct,
  ManagementAvailabilityChange, PendingAvailability, DeployRequest, PromoteProductionRequest,
  MutationIdentity,
}
use angel_cloud.Management.World.{Dependencies}
use angel_cloud.Management.Lookup.{angel_by_id, write_first}
use angel_cloud.Management.Target.{is_none, mark}
use angel_cloud.Management.Promote.{
  deploy_preview_in, deploy_preview, deploy_production_in, deploy_production, promote_in,
  promote_production,
}
use angel_cloud.Management.ChangeAvailability.{
  start_changing, finish_changing, changed_at, reconcile_availability_gate, target_change,
  converge_change, change_in, change_availability,
}
use angel_cloud.Management.KeyRule.{KeyRule}
use angel_cloud.Management.Phase.{
  IsOrderly-stable, IsChanging, start_changing-IsChanging, mark-Phase, finish_changing-IsSettled,
  IsChanging-of_pending,
}
use angel_cloud.Management.Writes.{Every, At, Every-At, write_first-Every, write_first-At}
use angel_cloud.Management.Runs.{
  Condition, Runs, pure-Runs, reads-Runs, require-Runs, if-Runs, >>=-Runs, strengthen-Runs,
}
use angel_cloud.Management.Steps.{
  ask_then, call_then, lift_then, reads_any, modify_then, require_then, checkpoint_then,
  environment_then,
}
use angel_cloud.Management.Keep.Mutations.{mutate-Runs}
use angel_cloud.Management.Keep.Keys.{Sound}
use angel_cloud.Management.Keep.Deployments.{deploy-Runs}

module _ (r : Runtime) {D : Type 0} (d : Dependencies D) {K : ManagementEnvironment → Type 0}
    (rule : KeyRule K) where
  abbrev I : Condition
  I = Every (Sound K)

  module _ (registry : Dict DerivedAdapter) where
    pub deploy_preview-Runs :
        (angel_id : String) (input : DeployRequest) (m : MutationIdentity)
        → Runs I I (deploy_preview r registry d angel_id input m) (λ _. I)
    unfolding deploy_preview deploy_preview_in
    deploy_preview-Runs angel_id input m = reads_any _ _ (λ _. mutate-Runs r d m false _ _ (
        reads_any _ _ (λ v. require_then _ _ (λ _.
          require_then _ _
            (λ _. deploy-Runs r registry d rule angel_id preview v input.bindings none)))))

    pub deploy_production-Runs :
        (angel_id : String) (input : DeployRequest) (m : MutationIdentity)
        → Runs I I (deploy_production r registry d angel_id input m) (λ _. I)
    unfolding deploy_production deploy_production_in
    deploy_production-Runs angel_id input m = reads_any _ _ (λ _. mutate-Runs r d m false _ _ (
        reads_any _ _ (λ v.
          require_then _ _ (λ _.
            deploy-Runs r registry d rule angel_id production v input.bindings (some direct)))))

    pub promote_production-Runs :
        (angel_id : String) (input : PromoteProductionRequest) (m : MutationIdentity)
        → Runs I I (promote_production r registry d angel_id input m) (λ _. I)
    unfolding promote_production promote_in
    promote_production-Runs angel_id input m = reads_any _ _ (λ a. mutate-Runs r d m false _ _ (
        environment_then r d angel_id preview _ (λ e. require_then _ _ (λ _.
          reads_any _ _ (λ staged. require_then _ _ (λ _. reads_any _ _ (λ v.
            strengthen-Runs (λ s h. h.0)
              (deploy-Runs r registry d rule angel_id production v input.bindings
                (some promotion)))))))))

  reconcile-Runs :
      {P : Condition} (a : ManagementAngel) (gate : GateKind) (env : HostedEnvironment)
      (p : PendingAvailability)
      → Runs I P (reconcile_availability_gate r d a gate env p) (λ _. P)
  unfolding reconcile_availability_gate
  reconcile-Runs a gate env p = call_then _ _ (λ snapshot.
      if-Runs _ _ _ (pure-Runs tt (λ s q. q))
        (require_then _ _ (λ _. call_then _ _ (λ changed. require-Runs _ _ (λ _ s q. q)))))

  -- Sound, with a change pending where it is made.
  abbrev Changing : String → HostedEnvironment → Condition
  Changing id env s = I s × At IsChanging id env s

  write_changing :
      (id : String) (env : HostedEnvironment) (f : ManagementEnvironment → ManagementEnvironment)
      (s : List ManagementAngel)
      → I s
      → ((a : ManagementAngel)
          → angel_by_id id s ≡ some a
          → IsChanging (f (environment_of env a)) × K (f (environment_of env a)))
      → Changing id env (write_first id env f s)
  write_changing id env f s h k = (
    write_first-Every (Sound K) env f id s h (λ a e. (inr (inr (k a e).0), (k a e).1)),
    write_first-At IsChanging id env f s (λ a e. (k a e).0),
  )

  target_change-Runs :
      (a : ManagementAngel) (env : HostedEnvironment) (new : PendingAvailability)
      (pending : Option PendingAvailability)
      → Runs I
          (λ s.
            I s
            × At
                (λ e. (is_none e.pending_deployment_id ≡ true) × (e.pending_availability ≡ pending))
                a.id
                env
                s)
          (target_change r d a env new pending)
          (λ _. Changing a.id env)
  target_change-Runs a env new none =
      modify_then _ _ (Changing a.id env)
        (λ s h. write_changing a.id env (start_changing new) s.angels h.0 (λ b e. (
          start_changing-IsChanging new (environment_of env b) (h.1 b e).0,
          rule.stable (environment_of env b) _ refl refl refl
              (Every-At (Sound K) a.id env s.angels h.0 b e).1,
        )))
        (checkpoint_then _ d (λ s h. h.0) (pure-Runs _ (λ s h. h)))
  target_change-Runs a env new (some p) = require_then _ _ (λ _. pure-Runs p (λ s h. (
    h.0,
    λ b e.
        IsChanging-of_pending (environment_of env b) (Every-At (Sound K) a.id env s h.0 b e).0
          (rw (h.1 b e).1),
  )))

  converge_change-Runs :
      (a : ManagementAngel) (env : HostedEnvironment) (p : PendingAvailability)
      → Runs I (Changing a.id env) (converge_change r d a env p) (λ _. I)
  unfolding converge_change
  converge_change-Runs a env p = >>=-Runs (reconcile-Runs a broker env p) (λ _.
      modify_then _ _ (Changing a.id env)
        (λ s h. write_changing a.id env (mark gateway) s.angels h.0 (λ b e. (
          mark-Phase gateway (environment_of env b) (h.1 b e),
          rule.stable (environment_of env b) _ refl refl refl
              (Every-At (Sound K) a.id env s.angels h.0 b e).1,
        )))
        (checkpoint_then _ d (λ s h. h.0)
          (>>=-Runs (reconcile-Runs a gateway env p) (λ _.
            modify_then _ _ I
              (λ s h. write_first-Every (Sound K) env (finish_changing p) a.id s.angels h.0 (λ b q.
                (
                  inl (finish_changing-IsSettled p (environment_of env b) (h.1 b q)),
                  rule.stable (environment_of env b) _ refl refl refl
                      (Every-At (Sound K) a.id env s.angels h.0 b q).1,
                )))
              (ask_then _ _ (λ time.
                modify_then _ _ I
                  (λ s h. write_first-Every (Sound K) env (changed_at time) a.id s.angels h (λ b q.
                    let before = Every-At (Sound K) a.id env s.angels h b q in
                    (
                      IsOrderly-stable (environment_of env b) _ refl refl refl before.0,
                      rule.stable (environment_of env b) _ refl refl refl before.1,
                    )))
                  (checkpoint_then _ d (λ s h. h) (reads-Runs _ (λ s v e h. h)))))))))

  pub change_availability-Runs :
      (angel_id : String) (env : HostedEnvironment) (input : ManagementAvailabilityChange)
      (m : MutationIdentity)
      → Runs I I (change_availability r d angel_id env input m) (λ _. I)
  unfolding change_availability change_in
  change_availability-Runs angel_id env input m = reads_any _ _ (λ a. mutate-Runs r d m false _ _ (
      environment_then r d a.id env _ (λ e. lift_then _ _ (λ active_id _. require_then _ _ (λ idle.
        reads_any _ _ (λ dep. lift_then _ _ (λ command _.
          >>=-Runs
            (strengthen-Runs (λ s h. (h.0, λ b q. (rw (h.1 b q) idle, rw (h.1 b q) refl)))
              (target_change-Runs a env _ e.pending_availability))
            (λ p. converge_change-Runs a env p))))))))
