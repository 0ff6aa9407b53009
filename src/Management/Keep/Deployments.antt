-- ===== src/Management/Keep/Deployments.antt =====
-- A deployment keeps every environment sound, wherever it stops (src/management.ts).
use angel_cloud.Prelude.{String, ◌≡◌, refl, true, Option, none, some, List, [], ◌∷◌, ap, inr, inl}
use angel_cloud.Prelude.Dict.{Dict}
use angel_cloud.Runtime.{Runtime}
use angel_cloud.Adapters.Scopes.{DerivedAdapter}
use angel_cloud.Gate.State.{
  GateKind, gateway, broker, HostedEnvironment, ProviderBindingRequirement,
}
use angel_cloud.Management.State.{
  ManagementEnvironment, ManagementAngel, environment_of, ManagementDeployment, Provenance,
  PublishedAngelVersion,
}
use angel_cloud.Management.World.{Dependencies}
use angel_cloud.Management.Lookup.{angel_by_id, write_first, stamped}
use angel_cloud.Management.Refs.{ref_for, bind_connections, bind_requirements, runtime_bindings}
use angel_cloud.Management.Deploy.{
  install_at, reconcile_gate, record_deployment, target_deployment, converge, deploy,
}
use angel_cloud.Management.Target.{
  is_none, start_deploying, mark, finish_deploying, push_deployment,
}
use angel_cloud.Management.KeyRule.{KeyRule}
use angel_cloud.Management.Phase.{
  IsDeploying, start_deploying-IsDeploying, mark-Phase, finish_deploying-IsSettled,
  IsDeploying-of_pending,
}
use angel_cloud.Management.Writes.{
  Every, At, Every-At, write_first-Every, write_first-At, angel-own,
}
use angel_cloud.Management.Runs.{
  Condition, Runs, pure-Runs, require-Runs, if-Runs, >>=-Runs, strengthen-Runs,
}
use angel_cloud.Management.Steps.{
  ask_then, call_then, gets_then, lift_then, reads_then, reads_any, modify_then, aside_then,
  require_then, checkpoint_then, environment_then, found_same,
}
use angel_cloud.Management.Keep.Keys.{Sound}

module _ (r : Runtime) (registry : Dict DerivedAdapter) {D : Type 0} (d : Dependencies D) where
  -- The bindings of a deployment are made without a write to the Angels.
  module _ {I P : Condition} where
    ref_for-Runs :
        (id : String) (refs : Dict String) (known : Option String)
        → Runs I P (ref_for r d id refs known) (λ _. P)
    ref_for-Runs id refs (some ref) = pure-Runs _ (λ s p. p)
    ref_for-Runs id refs none = ask_then _ _ (λ ref. pure-Runs _ (λ s p. p))

    bind_connections-Runs :
        (q : ProviderBindingRequirement) (ids : List String) (refs : Dict String)
        → Runs I P (bind_connections r d q ids refs) (λ _. P)
    unfolding bind_connections
    bind_connections-Runs q [] refs = pure-Runs _ (λ s p. p)
    bind_connections-Runs q (id ∷ ids) refs = gets_then _ _ (λ found. lift_then _ _ (λ c _.
        >>=-Runs (ref_for-Runs id refs _)
          (λ t. >>=-Runs (bind_connections-Runs q ids t.1) (λ u. pure-Runs _ (λ s p. p)))))

    bind_requirements-Runs :
        (bindings : Dict (List String)) (qs : List ProviderBindingRequirement) (refs : Dict String)
        → Runs I P (bind_requirements r d bindings qs refs) (λ _. P)
    unfolding bind_requirements
    bind_requirements-Runs bindings [] refs = pure-Runs _ (λ s p. p)
    bind_requirements-Runs bindings (q ∷ qs) refs =
        >>=-Runs (bind_connections-Runs q _ refs)
          (λ t. >>=-Runs (bind_requirements-Runs bindings qs t.1) (λ u. pure-Runs _ (λ s p. p)))

    pub runtime_bindings-Runs :
        (v : PublishedAngelVersion) (bindings : Dict (List String))
        → Runs I P (runtime_bindings r d v bindings) (λ _. P)
    unfolding runtime_bindings
    runtime_bindings-Runs v bindings =
        >>=-Runs (bind_requirements-Runs bindings _ []) (λ bs. pure-Runs _ (λ s p. p))

    install_at-Runs :
        (gate : GateKind) (a : ManagementAngel) (dep : ManagementDeployment)
        → Runs I P (install_at r registry d gate a dep) (λ _. P)
    unfolding install_at
    install_at-Runs gate a dep = reads_any _ _ (λ v.
        environment_then r d a.id dep.environment _
          (λ e. call_then _ _ (λ installed. require-Runs _ _ (λ _ s p. p.0))))

    reconcile_gate-Runs :
        (gate : GateKind) (a : ManagementAngel) (dep : ManagementDeployment)
        → Runs I P (reconcile_gate r registry d gate a dep) (λ _. P)
    unfolding reconcile_gate
    reconcile_gate-Runs gate a dep =
        call_then _ _
          (λ snapshot. if-Runs _ _ _ (pure-Runs tt (λ s p. p)) (install_at-Runs gate a dep))

  module _ {K : ManagementEnvironment → Type 0} (rule : KeyRule K) where
    abbrev I : Condition
    I = Every (Sound K)

    -- Sound, with a deployment pending where it is made.
    abbrev Deploying : String → HostedEnvironment → Condition
    Deploying id env s = I s × At IsDeploying id env s

    write_deploying :
        (id : String) (env : HostedEnvironment) (f : ManagementEnvironment → ManagementEnvironment)
        (s : List ManagementAngel)
        → I s
        → ((a : ManagementAngel)
            → angel_by_id id s ≡ some a
            → IsDeploying (f (environment_of env a)) × K (f (environment_of env a)))
        → Deploying id env (write_first id env f s)
    write_deploying id env f s h k = (
      write_first-Every (Sound K) env f id s h (λ a e. (inr (inl (k a e).0), (k a e).1)),
      write_first-At IsDeploying id env f s (λ a e. (k a e).0),
    )

    record_deployment-Runs :
        (a : ManagementAngel) (env : HostedEnvironment) (v : PublishedAngelVersion)
        (bindings : Dict (List String)) (provenance : Option Provenance)
        → Runs I
            (λ s. I s × At (λ e. is_none e.pending_availability ≡ true) a.id env s)
            (record_deployment r registry d a env v bindings provenance)
            (λ _. Deploying a.id env)
    unfolding record_deployment push_deployment
    record_deployment-Runs a env v bindings provenance = ask_then _ _ (λ id.
        >>=-Runs (runtime_bindings-Runs v bindings) (λ runtime.
          aside_then _ _ (λ s. refl)
            (modify_then _ _ (Deploying a.id env)
              (λ s h. write_deploying a.id env (start_deploying id) s.angels h.0 (λ b e. (
                start_deploying-IsDeploying id (environment_of env b) (h.1 b e),
                rule.stable (environment_of env b) _ refl refl refl
                    (Every-At (Sound K) a.id env s.angels h.0 b e).1,
              )))
              (checkpoint_then _ d (λ s h. h.0) (pure-Runs _ (λ s h. h))))))

    target_deployment-Runs :
        (a : ManagementAngel) (env : HostedEnvironment) (v : PublishedAngelVersion)
        (bindings : Dict (List String)) (provenance : Option Provenance) (pending : Option String)
        → Runs I
            (λ s.
              I s
              × At
                  (λ e.
                    (is_none e.pending_availability ≡ true) × (e.pending_deployment_id ≡ pending))
                  a.id
                  env
                  s)
            (target_deployment r registry d a env v bindings provenance pending)
            (λ _. Deploying a.id env)
    target_deployment-Runs a env v bindings provenance none =
        strengthen-Runs (λ s h. (h.0, λ b e. (h.1 b e).0))
          (record_deployment-Runs a env v bindings provenance)
    target_deployment-Runs a env v bindings provenance (some id) = reads_any _ _ (λ dep.
        require_then _ _ (λ _. pure-Runs dep (λ s h. (
          h.0,
          λ b e.
              IsDeploying-of_pending (environment_of env b)
                (Every-At (Sound K) a.id env s h.0 b e).0 (rw (h.1 b e).1),
        ))))

    converge-Runs :
        (a : ManagementAngel) (env : HostedEnvironment) (v : PublishedAngelVersion)
        (dep : ManagementDeployment)
        → Runs I (Deploying a.id env) (converge r registry d a env v dep) (λ _. I)
    unfolding converge stamped
    converge-Runs a env v dep = >>=-Runs (reconcile_gate-Runs broker a dep) (λ _.
        modify_then _ _ (Deploying a.id env)
          (λ s h. write_deploying a.id env (mark gateway) s.angels h.0 (λ b e. (
            mark-Phase gateway (environment_of env b) (h.1 b e),
            rule.stable (environment_of env b) _ refl refl refl
                (Every-At (Sound K) a.id env s.angels h.0 b e).1,
          )))
          (checkpoint_then _ d (λ s h. h.0)
            (>>=-Runs (reconcile_gate-Runs gateway a dep) (λ _. ask_then _ _ (λ time.
              aside_then _ _ (λ s. refl)
                (environment_then r d a.id env _ (λ e. reads_any _ _ (λ availability.
                  modify_then _ _ I
                    (λ s h.
                      write_first-Every (Sound K) env (finish_deploying dep.id availability) a.id
                        s.angels h.0.0
                        (λ b q. (
                          inl (
                              finish_deploying-IsSettled dep.id availability (environment_of env b)
                                (h.0.1 b q)),
                          rule.stable (environment_of env b) _ refl refl refl
                              (Every-At (Sound K) a.id env s.angels h.0.0 b q).1,
                        )))
                    (checkpoint_then _ d (λ s h. h) (pure-Runs _ (λ s h. h)))))))))))

    pub deploy-Runs :
        (angel_id : String) (env : HostedEnvironment) (v : PublishedAngelVersion)
        (bindings : Dict (List String)) (provenance : Option Provenance)
        → Runs I I (deploy r registry d angel_id env v bindings provenance) (λ _. I)
    unfolding deploy
    deploy-Runs angel_id env v bindings provenance =
        reads_then _ _ (λ a s. I s × At (λ x. x ≡ environment_of env a) a.id env s)
          (λ s a e h. (h, λ b q. ap (environment_of env) (found_same q (angel-own s angel_id e))))
          (λ a. require_then _ _ (λ settled. reads_any _ _ (λ normalized.
            >>=-Runs
              (strengthen-Runs (λ s h. (h.0, λ b q. (rw (h.1 b q) settled, rw (h.1 b q) refl)))
                (target_deployment-Runs a env v normalized provenance
                  (environment_of env a).pending_deployment_id))
              (λ dep. converge-Runs a env v dep))))
