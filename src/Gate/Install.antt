-- ===== src/Gate/Install.antt =====
-- PolicyGate.install, and the constructor of PolicyGate (src/gate.ts).
use angel_cloud.Prelude.{
  ℕ, String, Bool, true, ◌&&◌, Option, none, some, List, [], ◌==◌, leb, nat_eq, Result, ok, err,
  ◌>>=◌, ◌>>◌, guard,
}
use angel_cloud.Prelude.Dict.{lookup, insert}
use angel_cloud.Text.{is_sha256_hex}
use angel_cloud.Json.{canonical_json}
use angel_cloud.Crypto.{sha256_hex}
use angel_cloud.Runtime.{Runtime}
use angel_cloud.Gate.State.{
  hosted, HostedVersionArtifact, GateToolBinding, GateAvailability, GateIdentity, GateInstallation,
  PolicyGateState, GateInstallCommand, GateError, unsupported_schema, malformed_checkpoint,
  unsupported_format, not_json, content_mismatch, digest_mismatch, name_mismatch, identity_mismatch,
  bad_version, reused_deployment,
}
use angel_cloud.Gate.Encode.{
  structured, bindings_json, digest_json, fingerprint_json, environment_text,
}
use angel_cloud.Gate.Keys.{seeded, validated_gateway_keys, first_hash}
use angel_cloud.Gate.Bindings.{required_text, assert_bindings, canonical_bindings}
use angel_cloud.Gate.Migrate.{migrate_installed_availability}

-- The constructor: a state from before named keys has its set seeded.
unfoldable pub policy_gate : PolicyGateState → Result GateError PolicyGateState
policy_gate s = do
  guard (nat_eq s.schema_version 1) unsupported_schema
  guard (is_sha256_hex s.checkpoint) malformed_checkpoint
  ok (record s { gateway_key_hashes = some (seeded s.gateway_key_hashes s.gateway_key_hash) })

unfoldable pub assert_supported_artifact_format :
    HostedVersionArtifact → Result GateError (Unit {0})
assert_supported_artifact_format a = guard (a.format == "angel.version.v2") unsupported_format

abbrev pub identity_matches : Option GateIdentity → GateIdentity → Bool
identity_matches none command = true
identity_matches (some i) command =
    i.account_id == command.account_id
    && (i.angel_id == command.angel_id
        && environment_text i.environment == environment_text command.environment)

-- Number.MAX_SAFE_INTEGER
abbrev pub max_safe_integer : ℕ
max_safe_integer = 9_007_199_254_740_991

abbrev pub previous_bindings : PolicyGateState → List GateToolBinding
previous_bindings s = elim s.installation [ none ↦ [] | some i ↦ i.bindings ]

-- The fingerprint that is stored for a deployment, if any, is this one.
abbrev pub same_fingerprint : Option String → String → Bool
same_fingerprint none print = true
same_fingerprint (some stored) print = stored == print

abbrev pub command_identity : GateInstallCommand → GateIdentity
command_identity c = record {
  account_id = c.account_id;
  angel_id = c.angel_id;
  environment = hosted c.environment;
}

module _ (r : Runtime) where
  unfoldable pub assert_artifact_content : HostedVersionArtifact → Result GateError (Unit {0})
  unfolding structured
  assert_artifact_content a = elim (r.parse a.canonical_source) [
    | none ↦ err not_json
    | some parsed ↦
        guard (canonical_json r.quote parsed == canonical_json r.quote (structured a))
          content_mismatch
  ]

  unfoldable pub new_installation : PolicyGateState → GateInstallCommand → GateInstallation
  unfolding canonical_bindings
  new_installation s c = record {
    identity = command_identity c;
    gate = s.gate;
    deployment_id = c.deployment_id;
    version = c.version;
    policy_digest = c.artifact.digest;
    bindings_digest = digest_json r (bindings_json (canonical_bindings r c.bindings));
    artifact = c.artifact;
    bindings = canonical_bindings r c.bindings;
  }

  unfoldable pub fingerprint : GateInstallation → String
  fingerprint i = digest_json r (fingerprint_json r i)

  -- What install checks of the command before it builds the installation.
  unfoldable pub check_command :
      PolicyGateState → GateInstallCommand → Result GateError (List String)
  unfolding assert_supported_artifact_format assert_artifact_content
  check_command s c = do
    assert_supported_artifact_format c.artifact
    assert_artifact_content c.artifact
    guard (sha256_hex r c.artifact.canonical_source == c.artifact.digest) digest_mismatch
    guard (c.artifact.name == c.angel_id) name_mismatch
    guard (identity_matches s.identity (command_identity c)) identity_mismatch
    assert_bindings r c.artifact c.bindings
    required_text c.deployment_id
    guard (leb 1 c.version && leb c.version max_safe_integer) bad_version
    validated_gateway_keys s c

  unfoldable pub installed_state :
      PolicyGateState
      → GateInstallCommand
      → List String
      → GateAvailability
      → GateInstallation
      → PolicyGateState
  installed_state s c keys a i = record s {
    availability = a;
    identity = some (command_identity c);
    gateway_key_hashes = some keys;
    gateway_key_hash = first_hash keys;
    deployment_fingerprints = insert i.deployment_id (fingerprint i) s.deployment_fingerprints;
    installation = some i;
  }

  -- The deployment's fingerprint is compared before anything is changed.
  unfoldable pub install_new :
      PolicyGateState
      → GateInstallCommand
      → List String
      → GateInstallation
      → Result GateError (PolicyGateState × GateInstallation)
  unfolding installed_state fingerprint
  install_new s c keys i = do
    guard (same_fingerprint (lookup i.deployment_id s.deployment_fingerprints) (fingerprint i))
        reused_deployment
    a ←
        migrate_installed_availability r s.availability i.artifact.tools (previous_bindings s)
          i.bindings
    ok (installed_state s c keys a i, i)

  unfoldable pub install :
      PolicyGateState → GateInstallCommand → Result GateError (PolicyGateState × GateInstallation)
  unfolding check_command new_installation install_new
  install s c = check_command s c >>= λ keys. install_new s c keys (new_installation s c)
