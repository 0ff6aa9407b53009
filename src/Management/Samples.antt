-- ===== src/Management/Samples.antt =====
-- An Account with one Angel to run the tests of the control plane on, and dependencies that answer.
use Prim.Native.String.{◌++◌}
use angel_cloud.Prelude.{ℕ, zero, suc, String, none, some, [], ◌∷◌, ok}
use angel_cloud.Prelude.Dict.{Dict}
use angel_cloud.Json.{Json, obj, str, field, end}
use angel_cloud.Adapters.Scopes.{DerivedAdapter, DerivedOperation}
use angel_cloud.Adapters.Validate.{AdapterError}
use angel_cloud.Gate.State.{
  HostedVersionArtifact, ProviderBindingRequirement, GateInstallation, GateInstallCommand, broker,
  preview, google_oauth, zero_hash, GateKind,
}
use angel_cloud.Gate.Install.{command_identity}
use angel_cloud.Fixtures.{send_request, fresh_gate, demo_artifact}
use angel_cloud.Management.State.{
  AgentKey, active, ManagementEnvironment, ManagementAngel, ManagementDeployment,
  PublishedAngelVersion, StoredManagementConnection, healthy, ManagementAccount, ManagementState,
  MutationIdentity, default_availability,
}
use angel_cloud.Management.World.{Dependencies, World}

abbrev ticks : ℕ → String
ticks zero = ""
ticks (suc n) = "i" ++ ticks n

abbrev installed_as : GateKind → GateInstallCommand → GateInstallation
installed_as gate c = record {
  identity = command_identity c;
  gate = gate;
  deployment_id = c.deployment_id;
  version = c.version;
  policy_digest = c.artifact.digest;
  bindings_digest = zero_hash;
  artifact = c.artifact;
  bindings = c.bindings;
}

-- A number is all the state that there is outside: the next id.
abbrev pub toy_dependencies : Dependencies ℕ
toy_dependencies = record {
  persist = λ s n. (ok tt, n);
  random_id = λ prefix n. (prefix ++ ("_" ++ ticks n), suc n);
  now = λ n. ("2026-08-01T00:00:00.000Z", n);
  seal = λ text n. (ok text, n);
  unseal = λ text n. (ok text, n);
  snapshot = λ id slug gate env n. (ok fresh_gate, n);
  install = λ id slug gate c n. (ok (installed_as gate c), n);
  change = λ id slug gate env c n. (ok default_availability, n);
  reconcile_keys = λ id slug gate env hashes n. (ok hashes, n);
  reset = λ id slug gate env n. (ok tt, n);
}

abbrev pub account : ManagementAccount
account = record { id = "acct_1"; name = "Ops"; handle = none }

abbrev pub chat_operation : DerivedOperation
chat_operation = record { request = send_request; scopes = "write" ∷ "admin" ∷ [] }

abbrev pub chat_registry : Dict DerivedAdapter
chat_registry =
    (
      "chat",
      record {
        provider = "chat";
        adapter = "chat";
        credential = google_oauth;
        origin = "https://chat.test";
        source = "https://chat.test/spec";
        source_digest = zero_hash;
        scope_ranking = "write" ∷ "admin" ∷ [];
        operations = ("SEND", chat_operation) ∷ [];
      },
    )
    ∷ []

abbrev pub chat_requirement : ProviderBindingRequirement
chat_requirement = record {
  id = "chat";
  source = "demo";
  provider = "chat";
  credential = google_oauth;
  required_scopes = "write" ∷ [];
  tools = "SEND" ∷ [];
}

abbrev pub bound_artifact : HostedVersionArtifact
bound_artifact = record demo_artifact { binding_requirements = chat_requirement ∷ [] }

abbrev pub version_1 : PublishedAngelVersion
version_1 = record {
  id = "ver_1";
  angel_id = "ang_1";
  number = 1;
  digest = bound_artifact.digest;
  artifact = bound_artifact;
}

abbrev pub connection_1 : StoredManagementConnection
connection_1 = record {
  id = "conn_1";
  account_id = "acct_1";
  nickname = "ops";
  identity_label = "ops@chat.test";
  credential = google_oauth;
  providers = "chat" ∷ [];
  health = healthy;
  granted_scopes = some ("admin" ∷ []);
}

abbrev pub key_1 : AgentKey
key_1 = record {
  id = "key_1";
  name = "Default key";
  fingerprint = "aa";
  hash = zero_hash;
  status = active;
  created_at = none;
  revoked_at = none;
}

-- An environment in which nothing is pending.
abbrev pub idle : ManagementEnvironment
idle = record {
  active_deployment_id = none;
  pending_deployment_id = none;
  key_hash = zero_hash;
  key_fingerprint = "aa";
  keys = key_1 ∷ [];
  repair = none;
  availability = default_availability;
  availability_changed_at = none;
  pending_availability = none;
}

abbrev pub deployment_1 : ManagementDeployment
deployment_1 = record {
  id = "dep_1";
  angel_id = "ang_1";
  environment = preview;
  version_id = "ver_1";
  version = 1;
  digest = bound_artifact.digest;
  bindings = ("chat", "conn_1" ∷ []) ∷ [];
  runtime_bindings = [];
  provenance = none;
}

-- The Broker was to install the first deployment of the preview when the deployment stopped.
abbrev pub angel_1 : ManagementAngel
angel_1 = record {
  id = "ang_1";
  account_id = "acct_1";
  slug = "demo";
  preview = record idle { pending_deployment_id = some "dep_1"; repair = some broker };
  production = idle;
}

abbrev pub stopped : ManagementState
stopped = record {
  account = account;
  connections = connection_1 ∷ [];
  angels = angel_1 ∷ [];
  versions = version_1 ∷ [];
  deployments = deployment_1 ∷ [];
  idempotency = [];
  timestamps = [];
}

abbrev pub stopped_world : World ℕ
stopped_world = record { state = stopped; saved = stopped; outside = 0 }

abbrev pub toy_message : AdapterError → String
toy_message e = "bad artifact"

-- The answer that the tests record, and the mutation that it answers.
abbrev pub recorded_answer : Json
recorded_answer = obj (field "channel" (str "ops") end)

abbrev pub mutation_1 : MutationIdentity
mutation_1 = record {
  method = "POST";
  path = "/v1/angels/ang_1/keys/";
  idempotency_key = " once ";
  body = str "x";
}
