-- ===== src/Management/State.antt =====
-- The records that the control plane keeps: src/management-internal.ts and
-- packages/core/src/management-contract.ts.
use angel_cloud.Prelude.{ℕ, String, Bool, Option, List, []}
use angel_cloud.Prelude.Dict.{Dict}
use angel_cloud.Json.{Json}
use angel_cloud.Gate.State.{
  GateKind, HostedEnvironment, preview, production, CredentialKind, HostedVersionArtifact,
  GateToolBinding, GateAvailability, GateAvailabilityCommand, GateError,
}

-- What the operations throw: a ManagementError with its status, another Error, or a gate's own.
pub data Failure : Type 0 where
  refused : (status : ℕ) (message : String) → Failure
  thrown : (message : String) → Failure
  gate_failure : GateError → Failure

pub data KeyStatus : Type 0 where
  active revoked : KeyStatus

pub record AgentKey : Type 0 where
  pub id : String
  pub name : String
  pub fingerprint : String
  pub hash : String
  pub status : KeyStatus
  pub created_at : Option String
  pub revoked_at : Option String

pub record AgentKeyView : Type 0 where
  pub id : String
  pub name : String
  pub fingerprint : String
  pub status : KeyStatus
  pub created_at : Option String
  pub revoked_at : Option String

-- Each change carries `enabled` last.
pub data ManagementAvailabilityChange : Type 0 where
  all_tools : Bool → ManagementAvailabilityChange
  one_tool : (tool : String) → Bool → ManagementAvailabilityChange
  one_connection : (tool connection_id : String) → Bool → ManagementAvailabilityChange

pub record PendingAvailability : Type 0 where
  pub change : ManagementAvailabilityChange
  pub command : GateAvailabilityCommand
  pub target : GateAvailability

-- The optional fields that the constructor fills in are there.
pub record ManagementEnvironment : Type 0 where
  pub active_deployment_id : Option String
  pub pending_deployment_id : Option String
  pub key_hash : String
  pub key_fingerprint : String
  pub keys : List AgentKey
  pub repair : Option GateKind
  pub availability : GateAvailability
  pub availability_changed_at : Option String
  pub pending_availability : Option PendingAvailability

pub record ManagementAngel : Type 0 where
  pub id : String
  pub account_id : String
  pub slug : String
  pub preview : ManagementEnvironment
  pub production : ManagementEnvironment

-- angel.environments[environment]
abbrev pub environment_of : HostedEnvironment → ManagementAngel → ManagementEnvironment
environment_of preview a = a.preview
environment_of production a = a.production

pub data Provenance : Type 0 where
  promotion direct : Provenance

pub record ManagementDeployment : Type 0 where
  pub id : String
  pub angel_id : String
  pub environment : HostedEnvironment
  pub version_id : String
  pub version : ℕ
  pub digest : String
  pub bindings : Dict (List String)
  pub runtime_bindings : List GateToolBinding
  pub provenance : Option Provenance

pub record PublishedAngelVersion : Type 0 where
  pub id : String
  pub angel_id : String
  pub number : ℕ
  pub digest : String
  pub artifact : HostedVersionArtifact

pub data Health : Type 0 where
  healthy error : Health

pub record StoredManagementConnection : Type 0 where
  pub id : String
  pub account_id : String
  pub nickname : String
  pub identity_label : String
  pub credential : CredentialKind
  pub providers : List String
  pub health : Health
  pub granted_scopes : Option (List String)

pub data StoredResponse : Type 0 where
  ciphertext response_json : String → StoredResponse

pub record IdempotencyRecord : Type 0 where
  pub fingerprint : String
  pub response : StoredResponse
  pub path : Option String
  pub angel_id : Option String

pub record ManagementAccount : Type 0 where
  pub id : String
  pub name : String
  pub handle : Option String

pub record ManagementState : Type 0 where
  pub account : ManagementAccount
  pub connections : List StoredManagementConnection
  pub angels : List ManagementAngel
  pub versions : List PublishedAngelVersion
  pub deployments : List ManagementDeployment
  pub idempotency : Dict IdempotencyRecord
  pub timestamps : Dict String

pub record MutationIdentity : Type 0 where
  pub method : String
  pub path : String
  pub idempotency_key : String
  pub body : Json

pub record DeployRequest : Type 0 where
  pub version_id : String
  pub expected_digest : String
  pub bindings : Dict (List String)

pub record PromoteProductionRequest : Type 0 where
  pub staged_deployment_id : String
  pub expected_digest : String
  pub bindings : Dict (List String)

pub record PublishVersionRequest : Type 0 where
  pub artifact : HostedVersionArtifact
  pub expected_digest : String

unfoldable pub create_management_state :
    ManagementAccount → List StoredManagementConnection → ManagementState
create_management_state account connections = record {
  account = account;
  connections = connections;
  angels = [];
  versions = [];
  deployments = [];
  idempotency = [];
  timestamps = [];
}

abbrev pub default_availability : GateAvailability
default_availability = record {
  default_enabled = Bool.true;
  overrides = [];
  connection_overrides = [];
  revision = 0;
}
