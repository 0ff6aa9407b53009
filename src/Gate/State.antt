-- ===== src/Gate/State.antt =====
-- The records of src/gate.ts, src/environments.ts and packages/core/src/domain.ts that a gate keeps.
use angel_cloud.Prelude.{ℕ, String, Bool, true, Option, none, List, []}
use angel_cloud.Prelude.Dict.{Dict}
use angel_cloud.Json.{Json}
use angel_cloud.Decision.Guard.{ArgGuard}

pub data GateKind : Type 0 where
  gateway broker : GateKind

pub data HostedEnvironment : Type 0 where
  preview production : HostedEnvironment

-- A record written before the rename may still say `staging`.
pub data RecordedEnvironment : Type 0 where
  hosted : HostedEnvironment → RecordedEnvironment
  staging : RecordedEnvironment

pub data CredentialKind : Type 0 where
  google_oauth service_token bot_token bridge_token : CredentialKind

pub record HttpRequestTemplate : Type 0 where
  pub method : String
  pub path_template : String
  pub path_params : List String
  pub path_defaults : Dict String
  pub query_params : List String
  pub has_body : Bool

pub record HostedTool : Type 0 where
  pub name : String
  pub provider : String
  pub operation : String
  pub arg_guards : List ArgGuard
  pub request : HttpRequestTemplate

pub record HostedProvider : Type 0 where
  pub adapter : String
  pub origin : String
  pub source_digest : String

pub record AngelVersionChild : Type 0 where
  pub name : String
  pub digest : String

pub record ProviderBindingRequirement : Type 0 where
  pub id : String
  pub source : String
  pub provider : String
  pub credential : CredentialKind
  pub required_scopes : List String
  pub tools : List String

pub record HostedVersionArtifact : Type 0 where
  pub format : String
  pub name : String
  pub charter : String
  pub children : List AngelVersionChild
  pub providers : Dict HostedProvider
  pub binding_requirements : List ProviderBindingRequirement
  pub tools : List HostedTool
  pub canonical_source : String
  pub digest : String

pub record GateToolBinding : Type 0 where
  pub tool : String
  pub connection_ref : String
  pub connection_id : String
  pub provider : String
  pub identity_label : String

pub record GateAvailability : Type 0 where
  pub default_enabled : Bool
  pub overrides : Dict Bool
  pub connection_overrides : Dict (Dict Bool)
  pub revision : ℕ

pub record GateIdentity : Type 0 where
  pub account_id : String
  pub angel_id : String
  pub environment : RecordedEnvironment

pub record GateInstallation : Type 0 where
  pub identity : GateIdentity
  pub gate : GateKind
  pub deployment_id : String
  pub version : ℕ
  pub policy_digest : String
  pub bindings_digest : String
  pub artifact : HostedVersionArtifact
  pub bindings : List GateToolBinding

pub data Verdict : Type 0 where
  allow deny : Verdict

-- A receipt without its two hashes.
pub record ReceiptBody : Type 0 where
  pub sequence : ℕ
  pub gate : GateKind
  pub identity : GateIdentity
  pub deployment_id : String
  pub version : ℕ
  pub policy_digest : String
  pub bindings_digest : String
  pub availability_digest : String
  pub request_id : String
  pub tool : String
  pub provider : Option String
  pub operation : Option String
  pub connection_id : Option String
  pub connection_ref : Option String
  pub connection_identity_label : Option String
  pub arguments_digest : String
  pub decision : Verdict
  pub detail : String

pub record GateReceipt : Type 0 where
  pub body : ReceiptBody
  pub previous_hash : String
  pub hash : String

pub record PolicyGateState : Type 0 where
  pub schema_version : ℕ
  pub gate : GateKind
  pub identity : Option GateIdentity
  pub installation : Option GateInstallation
  pub gateway_key_hash : Option String
  pub gateway_key_hashes : Option (List String)
  pub availability : GateAvailability
  pub deployment_fingerprints : Dict String
  pub receipts : List GateReceipt
  pub checkpoint : String

pub record GateInstallCommand : Type 0 where
  pub account_id : String
  pub angel_id : String
  pub environment : HostedEnvironment
  pub deployment_id : String
  pub version : ℕ
  pub artifact : HostedVersionArtifact
  pub bindings : List GateToolBinding
  pub gateway_key_hash : Option String
  pub gateway_key_hashes : Option (List String)

-- Each command carries `enabled`, then `expectedRevision`.
pub data GateAvailabilityCommand : Type 0 where
  change_all : Bool → ℕ → GateAvailabilityCommand
  change_tool : String → Bool → ℕ → GateAvailabilityCommand
  change_tool_connection : (tool ref : String) → Bool → ℕ → GateAvailabilityCommand

pub record GateEvaluationInput : Type 0 where
  pub request_id : String
  pub presented_key : Option String
  pub tool : String
  pub arguments : Dict Json
  pub connection_ref : Option String

pub data DenyReason : Type 0 where
  unauthorized unknown_tool tool_paused connection_required : DenyReason
  connection_paused connection_unavailable guard_denied : DenyReason

pub data GateEvaluation : Type 0 where
  passed :
      (effective_arguments : Dict Json) (origin : String) (request : HttpRequestTemplate)
      → GateReceipt
      → GateEvaluation
  refused : DenyReason → GateReceipt → GateEvaluation

-- What the operations of a gate throw.
pub data GateError : Type 0 where
  unsupported_schema malformed_checkpoint unsupported_format not_json : GateError
  content_mismatch digest_mismatch name_mismatch identity_mismatch : GateError
  empty_text bad_version unknown_binding_tool provider_mismatch : GateError
  duplicate_binding ref_collision uncovered_tool : GateError
  broker_key bad_key_hash no_key unstable_key : GateError
  reused_deployment no_installation revision_mismatch kind_mismatch : GateError
  unknown_tool unknown_connection conflicting_override no_provider rule_collision : GateError

abbrev pub zero_hash : String
zero_hash = "0000000000000000000000000000000000000000000000000000000000000000"

unfoldable pub create_policy_gate_state : GateKind → PolicyGateState
create_policy_gate_state gate = record {
  schema_version = 1;
  gate = gate;
  identity = none;
  installation = none;
  gateway_key_hash = none;
  gateway_key_hashes = Option.some [];
  availability = record {
    default_enabled = true;
    overrides = [];
    connection_overrides = [];
    revision = 0;
  };
  deployment_fingerprints = [];
  receipts = [];
  checkpoint = zero_hash;
}
