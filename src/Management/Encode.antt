-- ===== src/Management/Encode.antt =====
-- The values that the control plane answers with, as JSON (src/management.ts and the records of
-- packages/core/src/management-contract.ts).
use angel_cloud.Prelude.{String, Option, none, some, List, [], ◌∷◌, ◌++◌}
use angel_cloud.Prelude.Dict.{Dict}
use angel_cloud.Json.{Json, null, bool, str, obj, fields, entries}
use angel_cloud.Runtime.{Runtime}
use angel_cloud.Gate.State.{GateKind, HostedVersionArtifact, GateAvailability}
use angel_cloud.Gate.Encode.{
  record_of, list_of, dict_of, nullable, gate_text, hosted_text, structured, natural,
}
use angel_cloud.Management.State.{
  KeyStatus, active, revoked, AgentKey, AgentKeyView, ManagementAvailabilityChange, all_tools,
  one_tool, one_connection, ManagementDeployment, PublishedAngelVersion,
}

abbrev pub bindings_map : Dict (List String) → Json
bindings_map d = dict_of (list_of str) d

abbrev pub repair_json : Option GateKind → Json
repair_json none = null
repair_json (some gate) = str (gate_text gate)

abbrev status_text : KeyStatus → String
status_text active = "active"
status_text revoked = "revoked"

-- keyView: everything but the hash
unfoldable pub key_view : AgentKey → AgentKeyView
key_view k = record {
  id = k.id;
  name = k.name;
  fingerprint = k.fingerprint;
  status = k.status;
  created_at = k.created_at;
  revoked_at = k.revoked_at;
}

unfoldable pub key_json : AgentKeyView → Json
key_json k = record_of (
    ("id", str k.id)
    ∷ ("name", str k.name)
    ∷ ("fingerprint", str k.fingerprint)
    ∷ ("status", str (status_text k.status))
    ∷ ("createdAt", nullable k.created_at)
    ∷ ("revokedAt", nullable k.revoked_at)
    ∷ [])

unfoldable pub change_json : ManagementAvailabilityChange → Json
change_json (all_tools enabled) = record_of (("kind", str "all") ∷ ("enabled", bool enabled) ∷ [])
change_json (one_tool tool enabled) =
    record_of (("kind", str "tool") ∷ ("tool", str tool) ∷ ("enabled", bool enabled) ∷ [])
change_json (one_connection tool id enabled) = record_of (
    ("kind", str "tool_connection")
    ∷ ("tool", str tool)
    ∷ ("connectionId", str id)
    ∷ ("enabled", bool enabled)
    ∷ [])

abbrev with_fields : Json → Dict Json → Json
with_fields (obj fs) more = obj (fields (entries fs ++ more))
with_fields v more = v

unfoldable pub artifact_json : HostedVersionArtifact → Json
unfolding structured
artifact_json a =
    with_fields (structured a)
      (("canonicalSource", str a.canonical_source) ∷ ("digest", str a.digest) ∷ [])

module _ (r : Runtime) where
  unfoldable pub version_json : PublishedAngelVersion → Json
  unfolding artifact_json
  version_json v = record_of (
      ("id", str v.id)
      ∷ ("angelId", str v.angel_id)
      ∷ ("number", natural r v.number)
      ∷ ("digest", str v.digest)
      ∷ ("artifact", artifact_json v.artifact)
      ∷ [])

  -- deploymentView: everything but the runtime bindings and the provenance
  unfoldable pub deployment_view : ManagementDeployment → Json
  deployment_view d = record_of (
      ("id", str d.id)
      ∷ ("angelId", str d.angel_id)
      ∷ ("environment", str (hosted_text d.environment))
      ∷ ("versionId", str d.version_id)
      ∷ ("version", natural r d.version)
      ∷ ("digest", str d.digest)
      ∷ ("bindings", bindings_map d.bindings)
      ∷ [])

  -- What canonicalJson is given of an availability.
  unfoldable pub gate_availability_json : GateAvailability → Json
  gate_availability_json a = record_of (
      ("defaultEnabled", bool a.default_enabled)
      ∷ ("overrides", dict_of bool a.overrides)
      ∷ ("connectionOverrides", dict_of (dict_of bool) a.connection_overrides)
      ∷ ("revision", natural r a.revision)
      ∷ [])
