-- ===== src/Management/Load.antt =====
-- What the constructor of ManagementControl makes of a state that it is given (src/management.ts).
use Prim.Native.String.{◌++◌}
use angel_cloud.Prelude.{
  ℕ, String, Bool, Option, none, some, List, [], ◌∷◌, ◌==◌, map, find, contains, if◌then◌else◌,
  nat_eq, Result, ok, ◌>>=◌, ◌>>◌, guard, or_throw,
}
use angel_cloud.Prelude.Dict.{Dict}
use angel_cloud.Text.{first_units}
use angel_cloud.Runtime.{Runtime}
use angel_cloud.Gate.State.{
  GateKind, HostedEnvironment, preview, RecordedEnvironment, hosted, staging, HostedTool,
  GateToolBinding, GateAvailability,
}
use angel_cloud.Gate.Availability.{or_default}
use angel_cloud.Gate.Migrate.{migrate_installed_availability}
use angel_cloud.Management.State.{
  Failure, thrown, active, AgentKey, PendingAvailability, ManagementEnvironment, ManagementAngel,
  ManagementDeployment, Provenance, PublishedAngelVersion, StoredManagementConnection,
  IdempotencyRecord, ManagementAccount, ManagementState, default_availability,
}
use angel_cloud.Management.Views.{is_id}
use angel_cloud.Management.Target.{or_gate_failure}

-- The records as an earlier release may have stored them.
pub record StoredEnvironment : Type 0 where
  pub active_deployment_id : Option String
  pub pending_deployment_id : Option String
  pub key_hash : String
  pub key_fingerprint : String
  pub keys : Option (List AgentKey)
  pub repair : Option GateKind
  pub availability : Option GateAvailability
  pub availability_changed_at : Option String
  pub pending_availability : Option PendingAvailability

pub record StoredAngel : Type 0 where
  pub id : String
  pub account_id : String
  pub slug : String
  pub preview : Option StoredEnvironment
  pub staging : Option StoredEnvironment
  pub production : StoredEnvironment

pub record StoredDeployment : Type 0 where
  pub id : String
  pub angel_id : String
  pub environment : RecordedEnvironment
  pub version_id : String
  pub version : ℕ
  pub digest : String
  pub bindings : Dict (List String)
  pub runtime_bindings : List GateToolBinding
  pub provenance : Option Provenance

pub record StoredState : Type 0 where
  pub schema_version : ℕ
  pub account : ManagementAccount
  pub connections : List StoredManagementConnection
  pub angels : List StoredAngel
  pub versions : List PublishedAngelVersion
  pub deployments : List StoredDeployment
  pub idempotency : Dict IdempotencyRecord
  pub timestamps : Option (Dict String)

-- The single key of an environment from before named keys.
unfoldable pub default_key : (hash fingerprint : String) → AgentKey
unfolding first_units
default_key hash fingerprint = record {
  id = "key_" ++ first_units 24 hash;
  name = "Default key";
  fingerprint = fingerprint;
  hash = hash;
  status = active;
  created_at = none;
  revoked_at = none;
}

unfoldable pub upgrade_environment : StoredEnvironment → ManagementEnvironment
unfolding default_key
upgrade_environment e = record {
  active_deployment_id = e.active_deployment_id;
  pending_deployment_id = e.pending_deployment_id;
  key_hash = e.key_hash;
  key_fingerprint = e.key_fingerprint;
  keys = or_default e.keys (default_key e.key_hash e.key_fingerprint ∷ []);
  repair = e.repair;
  availability = or_default e.availability default_availability;
  availability_changed_at = e.availability_changed_at;
  pending_availability = e.pending_availability;
}

-- environments.preview, or the environment under the retired name
abbrev pub present_preview : StoredAngel → Option StoredEnvironment
present_preview a = elim a.preview [ some e ↦ some e | none ↦ a.staging ]

unfoldable pub upgrade_angel : StoredAngel → Result Failure ManagementAngel
unfolding upgrade_environment
upgrade_angel a = do
  e ← or_throw (thrown "TypeError") (present_preview a)
  ok (record {
    id = a.id;
    account_id = a.account_id;
    slug = a.slug;
    preview = upgrade_environment e;
    production = upgrade_environment a.production;
  })

abbrev pub present_environment : RecordedEnvironment → HostedEnvironment
present_environment (hosted e) = e
present_environment staging = preview

unfoldable pub upgrade_deployment : StoredDeployment → ManagementDeployment
upgrade_deployment x = record {
  id = x.id;
  angel_id = x.angel_id;
  environment = present_environment x.environment;
  version_id = x.version_id;
  version = x.version;
  digest = x.digest;
  bindings = x.bindings;
  runtime_bindings = x.runtime_bindings;
  provenance = x.provenance;
}

module _ {A B : Type 0} (f : A → Result Failure B) where
  unfoldable pub for_each : List A → Result Failure (List B)
  for_each [] = ok []
  for_each (a ∷ more) = f a >>= λ b. for_each more >>= λ bs. ok (b ∷ bs)

unfoldable pub upgrade : StoredState → Result Failure ManagementState
unfolding for_each upgrade_angel upgrade_deployment
upgrade s = do
  guard (nat_eq s.schema_version 1) (thrown "unsupported management state schema")
  angels ← for_each upgrade_angel s.angels
  ok (record {
    account = s.account;
    connections = s.connections;
    angels = angels;
    versions = s.versions;
    deployments = map upgrade_deployment s.deployments;
    idempotency = s.idempotency;
    timestamps = or_default s.timestamps [];
  })

-- A tool of which only the name is known, and only the name is read.
abbrev named_tool : String → HostedTool
named_tool name = record {
  name = name;
  provider = "";
  operation = "";
  arg_guards = [];
  request = record {
    method = "";
    path_template = "";
    path_params = [];
    path_defaults = [];
    query_params = [];
    has_body = Bool.false;
  };
}

-- [...new Set(names)]
abbrev distinct : List String → List String → List String
distinct seen [] = []
distinct seen (s ∷ ss) =
    let fresh = s ∷ distinct (s ∷ seen) ss in
    let rest = distinct seen ss in if contains s seen then rest else fresh

unfoldable pub served_tools : ManagementState → ManagementDeployment → List HostedTool
served_tools s dep = elim (find (λ v. v.id == dep.version_id) s.versions) [
  | some v ↦ v.artifact.tools
  | none ↦ map named_tool (distinct [] (map (λ b. b.tool) dep.runtime_bindings))
]

module _ (r : Runtime) where
  -- Overrides of a deployment that is no longer active are dropped.
  unfoldable pub repair_availability :
      ManagementState
      → Option ManagementDeployment
      → GateAvailability
      → Result Failure GateAvailability
  unfolding served_tools migrate_installed_availability
  repair_availability s none a = ok (record a { connection_overrides = [] })
  repair_availability s (some dep) a = or_gate_failure (
      migrate_installed_availability r a (served_tools s dep) dep.runtime_bindings
        dep.runtime_bindings)

  unfoldable pub repair_pending :
      ManagementState
      → Option ManagementDeployment
      → Option PendingAvailability
      → Result Failure (Option PendingAvailability)
  unfolding repair_availability
  repair_pending s dep none = ok none
  repair_pending s dep (some p) =
      repair_availability s dep p.target >>= λ target. ok (some (record p { target = target }))

  unfoldable pub repair_environment :
      ManagementState → ManagementEnvironment → Result Failure ManagementEnvironment
  unfolding repair_availability repair_pending
  repair_environment s e = do
    let dep = find (λ x. is_id x.id e.active_deployment_id) s.deployments
    a ← repair_availability s dep e.availability
    p ← repair_pending s dep e.pending_availability
    ok (record e { availability = a; pending_availability = p })

  unfoldable pub repair_angel : ManagementState → ManagementAngel → Result Failure ManagementAngel
  unfolding repair_environment
  repair_angel s a = do
    first ← repair_environment s a.preview
    second ← repair_environment s a.production
    ok (record a { preview = first; production = second })

  -- The constructor, on a state of the present shape, and on any.
  unfoldable pub load : ManagementState → Result Failure ManagementState
  unfolding for_each repair_angel
  load s = for_each (repair_angel s) s.angels >>= λ angels. ok (record s { angels = angels })

  unfoldable pub restore : StoredState → Result Failure ManagementState
  unfolding upgrade load
  restore stored = upgrade stored >>= load
