-- ===== src/Management/Target.antt =====
-- What a deployment is to be, against what is recorded and installed (src/management.ts): the tests and
-- values of ManagementControl.deploy and reconcileGate.
use Prim.Native.String.{◌++◌}
use angel_cloud.Prelude.{
  String, Bool, true, false, ◌&&◌, Option, none, some, List, ◌==◌, nat_eq, if◌then◌else◌, Result,
  ok, err, or_throw,
}
use angel_cloud.Prelude.Dict.{Dict}
use angel_cloud.Json.{canonical_json}
use angel_cloud.Runtime.{Runtime}
use angel_cloud.Gate.State.{
  GateKind, gateway, broker, HostedEnvironment, preview, production, GateInstallation,
  GateInstallCommand, GateAvailability, GateError,
}
use angel_cloud.Gate.Encode.{hosted_text}
use angel_cloud.Gate.Migrate.{migrate_installed_availability}
use angel_cloud.Management.State.{
  Failure, refused, gate_failure, ManagementEnvironment, ManagementAngel, ManagementDeployment,
  Provenance, promotion, direct, PublishedAngelVersion, ManagementState,
}
use angel_cloud.Management.Lookup.{not_found, deployment_by_id}
use angel_cloud.Management.Encode.{bindings_map}
use angel_cloud.Management.Keys.{append, active_key_hashes}

unfoldable pub installation_matches : Option GateInstallation → ManagementDeployment → Bool
installation_matches none dep = false
installation_matches (some i) dep =
    i.deployment_id == dep.id && (nat_eq i.version dep.version && i.policy_digest == dep.digest)

abbrev pub same_environment : HostedEnvironment → HostedEnvironment → Bool
same_environment preview preview = true
same_environment production production = true
same_environment _ _ = false

-- (recorded ?? asked) === asked
abbrev pub same_provenance : Option Provenance → Option Provenance → Bool
same_provenance none asked = true
same_provenance (some promotion) (some promotion) = true
same_provenance (some direct) (some direct) = true
same_provenance (some p) _ = false

abbrev pub is_none {ℓ} : {A : Type ℓ} → Option A → Bool
is_none none = true
is_none (some a) = false

unfoldable pub push_deployment : ManagementDeployment → ManagementState → ManagementState
push_deployment dep s = record s { deployments = append s.deployments dep }

abbrev pub start_deploying : String → ManagementEnvironment → ManagementEnvironment
start_deploying id e = record e { pending_deployment_id = some id; repair = some broker }

abbrev pub mark : GateKind → ManagementEnvironment → ManagementEnvironment
mark gate e = record e { repair = some gate }

abbrev pub finish_deploying :
    String → GateAvailability → ManagementEnvironment → ManagementEnvironment
finish_deploying id availability e = record e {
  availability = availability;
  active_deployment_id = some id;
  pending_deployment_id = none;
  repair = none;
}

abbrev pub pending_change_error : HostedEnvironment → Failure
pending_change_error env =
    refused 409 ("repair the pending " ++ (hosted_text env ++ " availability change first"))

abbrev pub pending_deployment_error : HostedEnvironment → Failure
pending_deployment_error env =
    refused 409 ("repair the pending " ++ (hosted_text env ++ " deployment first"))

abbrev pub or_gate_failure {ℓ} : {A : Type ℓ} → Result GateError A → Result Failure A
or_gate_failure (ok a) = ok a
or_gate_failure (err e) = err (gate_failure e)

module _ (r : Runtime) where
  -- The recorded pending deployment is what is asked for.
  unfoldable pub same_target :
      HostedEnvironment
      → PublishedAngelVersion
      → Dict (List String)
      → Option Provenance
      → ManagementDeployment
      → Bool
  unfolding canonical_json
  same_target env v bindings provenance dep =
      same_environment dep.environment env
      && (dep.version_id == v.id
          && (dep.digest == v.digest
              && (canonical_json r.quote (bindings_map dep.bindings)
                    == canonical_json r.quote (bindings_map bindings)
                  && same_provenance dep.provenance provenance)))

  abbrev migrated_from :
      GateAvailability
      → PublishedAngelVersion
      → ManagementDeployment
      → Result Failure ManagementDeployment
      → Result Failure GateAvailability
  migrated_from a v dep (err e) = err e
  migrated_from a v dep (ok previous) = or_gate_failure (
      migrate_installed_availability r a v.artifact.tools previous.runtime_bindings
        dep.runtime_bindings)

  -- The availability that outlives the deployment before, which is looked up among `ds`.
  unfoldable pub carried_from :
      List ManagementDeployment
      → Option String
      → GateAvailability
      → PublishedAngelVersion
      → ManagementDeployment
      → Result Failure GateAvailability
  unfolding migrate_installed_availability
  carried_from ds none a v dep = ok a
  carried_from ds (some id) a v dep =
      if id == dep.id
      then ok a
      else migrated_from a v dep (or_throw not_found (deployment_by_id dep.angel_id id ds))

  abbrev pub carried_availability :
      ManagementState
      → ManagementEnvironment
      → PublishedAngelVersion
      → ManagementDeployment
      → Result Failure GateAvailability
  carried_availability s e v dep =
      carried_from s.deployments e.active_deployment_id e.availability v dep

  abbrev pub hashes_at : GateKind → List String → Option (List String)
  hashes_at gateway hashes = some hashes
  hashes_at broker hashes = none

  abbrev pub install_command :
      GateKind
      → ManagementAngel
      → ManagementDeployment
      → PublishedAngelVersion
      → ManagementEnvironment
      → GateInstallCommand
  install_command gate a dep v e = record {
    account_id = a.account_id;
    angel_id = a.slug;
    environment = dep.environment;
    deployment_id = dep.id;
    version = dep.version;
    artifact = v.artifact;
    bindings = dep.runtime_bindings;
    gateway_key_hash = none;
    gateway_key_hashes = hashes_at gate (active_key_hashes e);
  }
