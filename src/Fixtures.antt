-- ===== src/Fixtures.antt =====
-- A runtime and an installed gate to run the tests on: folding is the identity, a digest is the first
-- 32 code points of the text, and `parse` knows the two texts that the tests read.
use Prim.Native.Nat.{◌%◌}
use Prim.Native.String.{◌++◌}
use angel_cloud.Prelude.{
  ℕ, zero, suc, ◌≡◌, refl, String, true, Option, none, some, List, [], ◌∷◌, ◌==◌, length,
  if◌then◌else◌, All, arith, value_or,
}
use angel_cloud.Text.{codes, code_unit_le}
use angel_cloud.Json.{Json, str, obj, end, field}
use angel_cloud.Runtime.{Runtime}
use angel_cloud.Crypto.{hex}
use angel_cloud.Crypto.Digest.{IsByte, Sha256Digests}
use angel_cloud.Decision.Guard.{pin, forbid}
use angel_cloud.Gate.State.{
  HostedTool, HostedProvider, HttpRequestTemplate, HostedVersionArtifact, GateToolBinding,
  GateInstallCommand, GateEvaluationInput, GateInstallation, production, gateway, PolicyGateState,
  create_policy_gate_state, zero_hash,
}
use angel_cloud.Gate.Encode.{structured}
use angel_cloud.Gate.Install.{install, new_installation}

abbrev padded : ℕ → List ℕ → List ℕ
padded zero cs = []
padded (suc n) [] = 0 ∷ padded n []
padded (suc n) (c ∷ cs) = c % 256 ∷ padded n cs

padded_lem : (n : ℕ) (cs : List ℕ) → (length (padded n cs) ≡ n) × All IsByte (padded n cs)
padded_lem zero cs = (refl, tt)
padded_lem (suc n) [] = let (l, b) = padded_lem n [] in (omega (arith, l), (omega arith, b))
padded_lem (suc n) (c ∷ cs) = let (l, b) = padded_lem n cs in (omega (arith, l), (omega arith, b))

abbrev pub send_request : HttpRequestTemplate
send_request = record {
  method = "POST";
  path_template = "/send";
  path_params = [];
  path_defaults = [];
  query_params = [];
  has_body = true;
}

abbrev pub send_tool : HostedTool
send_tool = record {
  name = "SEND";
  provider = "chat";
  operation = "send";
  arg_guards = pin "channel" "ops" ∷ forbid "bcc" ∷ [];
  request = send_request;
}

abbrev pub chat_provider : HostedProvider
chat_provider = record { adapter = "chat"; origin = "https://chat.test"; source_digest = zero_hash }

abbrev pub demo_artifact : HostedVersionArtifact
demo_artifact = record {
  format = "angel.version.v2";
  name = "demo";
  charter = "";
  children = [];
  providers = ("chat", chat_provider) ∷ [];
  binding_requirements = [];
  tools = send_tool ∷ [];
  canonical_source = "artifact";
  digest = hex (padded 32 (codes "artifact"));
}

abbrev toy_parse : String → Option Json
toy_parse text =
    if text == "{\"channel\":\"ops\"}"
    then some (obj (field "channel" (str "ops") end))
    else if text == "artifact"
    then some (structured demo_artifact)
    else none

abbrev pub toy : Runtime
toy = record {
  to_upper = λ s. s;
  to_lower = λ s. s;
  normalize_nfc = λ s. s;
  locale_le = code_unit_le;
  sha256 = λ t. padded 32 (codes t);
  quote = λ s. "\"" ++ (s ++ "\"");
  parse = toy_parse;
  decimal = λ n. "1";
  decode_uri_component = λ s. some s;
}

pub toy-Sha256Digests : Sha256Digests toy
toy-Sha256Digests t = padded_lem 32 (codes t)

abbrev pub send_binding : GateToolBinding
send_binding = record {
  tool = "SEND";
  connection_ref = "ops-chat";
  connection_id = "conn_1";
  provider = "chat";
  identity_label = "ops";
}

abbrev pub demo_command : GateInstallCommand
demo_command = record {
  account_id = "acct_1";
  angel_id = "demo";
  environment = production;
  deployment_id = "dep_1";
  version = 1;
  artifact = demo_artifact;
  bindings = send_binding ∷ [];
  gateway_key_hash = none;
  gateway_key_hashes = some (hex (padded 32 (codes "key")) ∷ []);
}

abbrev pub fresh_gate : PolicyGateState
fresh_gate = create_policy_gate_state gateway

abbrev pub demo_installation : GateInstallation
demo_installation = new_installation toy fresh_gate demo_command

abbrev pub installed_gate : PolicyGateState
installed_gate = (value_or (fresh_gate, demo_installation) (install toy fresh_gate demo_command)).0

abbrev pub demo_call : GateEvaluationInput
demo_call = record {
  request_id = "req_1";
  presented_key = some "key";
  tool = "SEND";
  arguments = ("channel", str "ops") ∷ [];
  connection_ref = none;
}
