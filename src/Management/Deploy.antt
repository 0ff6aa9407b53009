-- ===== src/Management/Deploy.antt =====
-- ManagementControl.deploy and reconcileGate (src/management.ts): a deployment is recorded, then
-- installed at the Broker and at the Gateway, and then made the active one.
use Prim.Native.String.{◌++◌}
use angel_cloud.Prelude.{String, Option, none, some, List, if◌then◌else◌}
use angel_cloud.Prelude.Dict.{Dict}
use angel_cloud.Json.{Json}
use angel_cloud.Runtime.{Runtime}
use angel_cloud.Adapters.Scopes.{DerivedAdapter}
use angel_cloud.Gate.State.{GateKind, gateway, broker, HostedEnvironment, GateToolBinding}
use angel_cloud.Gate.Encode.{gate_text}
use angel_cloud.Management.State.{
  thrown, ManagementAngel, environment_of, ManagementDeployment, Provenance, PublishedAngelVersion,
}
use angel_cloud.Management.World.{
  Action, Dependencies, pure, reads, call, ask, modify, require, checkpoint, ◌>>=◌, ◌>>◌,
}
use angel_cloud.Management.Lookup.{
  angel, version, deployment, write_environment, write_first, stamped,
}
use angel_cloud.Management.Encode.{deployment_view}
use angel_cloud.Management.Keys.{active_key_hashes, read_environment}
use angel_cloud.Management.Bindings.{validate_bindings}
use angel_cloud.Management.Refs.{runtime_bindings}
use angel_cloud.Management.Target.{
  installation_matches, is_none, push_deployment, start_deploying, mark, finish_deploying,
  pending_change_error, pending_deployment_error, same_target, carried_from, carried_availability,
  install_command,
}

module _ (r : Runtime) where
  module _ (registry : Dict DerivedAdapter) {D : Type 0} (d : Dependencies D) where
    unfoldable pub install_at :
        GateKind → ManagementAngel → ManagementDeployment → Action D (Unit {0})
    unfolding version read_environment active_key_hashes installation_matches
    install_at gate a dep = do
      v ← reads (λ s. version s a.id dep.version_id)
      e ← read_environment r d a.id dep.environment
      installed ← call (d.install a.id a.slug gate (install_command r gate a dep v e))
      require (installation_matches (some installed) dep)
          (thrown (gate_text gate ++ " did not install the recorded deployment target"))

    unfoldable pub reconcile_gate :
        GateKind → ManagementAngel → ManagementDeployment → Action D (Unit {0})
    unfolding install_at installation_matches
    reconcile_gate gate a dep = do
      snapshot ← call (d.snapshot a.id a.slug gate dep.environment)
      if installation_matches snapshot.installation dep then pure tt else install_at gate a dep

    abbrev pub new_deployment :
        String
        → ManagementAngel
        → HostedEnvironment
        → PublishedAngelVersion
        → Dict (List String)
        → List GateToolBinding
        → Option Provenance
        → ManagementDeployment
    new_deployment id a env v bindings runtime provenance = record {
      id = id;
      angel_id = a.id;
      environment = env;
      version_id = v.id;
      version = v.number;
      digest = v.digest;
      bindings = bindings;
      runtime_bindings = runtime;
      provenance = provenance;
    }

    unfoldable pub record_deployment :
        ManagementAngel
        → HostedEnvironment
        → PublishedAngelVersion
        → Dict (List String)
        → Option Provenance
        → Action D ManagementDeployment
    unfolding runtime_bindings push_deployment write_first
    record_deployment a env v bindings provenance = do
      id ← ask (d.random_id "dep")
      runtime ← runtime_bindings r d v bindings
      let dep = new_deployment id a env v bindings runtime provenance
      modify (push_deployment dep)
      modify (write_environment a.id env (start_deploying id))
      checkpoint d
      pure dep

    -- The pending deployment is taken up again, or a new one is recorded.
    abbrev pub target_deployment :
        ManagementAngel
        → HostedEnvironment
        → PublishedAngelVersion
        → Dict (List String)
        → Option Provenance
        → Option String
        → Action D ManagementDeployment
    target_deployment a env v bindings provenance none =
        record_deployment a env v bindings provenance
    target_deployment a env v bindings provenance (some id) = do
      dep ← reads (λ s. deployment s a.id id)
      require (same_target r env v bindings provenance dep) (pending_deployment_error env)
      pure dep

    unfoldable pub converge :
        ManagementAngel
        → HostedEnvironment
        → PublishedAngelVersion
        → ManagementDeployment
        → Action D Json
    unfolding reconcile_gate write_first stamped carried_from read_environment deployment_view
    converge a env v dep = do
      reconcile_gate broker a dep
      modify (write_environment a.id env (mark gateway))
      checkpoint d
      reconcile_gate gateway a dep
      time ← ask d.now
      modify (stamped dep.id time)
      e ← read_environment r d a.id env
      availability ← reads (λ s. carried_availability r s e v dep)
      modify (write_environment a.id env (finish_deploying dep.id availability))
      checkpoint d
      pure (deployment_view r dep)

    unfoldable pub deploy :
        String
        → HostedEnvironment
        → PublishedAngelVersion
        → Dict (List String)
        → Option Provenance
        → Action D Json
    unfolding angel validate_bindings record_deployment same_target converge deployment
    deploy angel_id env v bindings provenance = do
      a ← reads (λ s. angel s angel_id)
      let e = environment_of env a
      require (is_none e.pending_availability) (pending_change_error env)
      normalized ← reads (λ s. validate_bindings registry s v bindings)
      dep ← target_deployment a env v normalized provenance e.pending_deployment_id
      converge a env v dep
