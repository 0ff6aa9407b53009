-- ===== src/Management/Views.antt =====
-- What the control plane shows of its state: the reading operations of src/management.ts.
use angel_cloud.Prelude.{
  String, Bool, Option, none, some, List, [], ◌∷◌, ◌==◌, map, if◌then◌else◌, Result, ok, ◌>>=◌,
  ◌>>◌, or_throw,
}
use angel_cloud.Prelude.Dict.{Dict, lookup, insert, from_entries}
use angel_cloud.Json.{Json, null, bool, str}
use angel_cloud.Runtime.{Runtime}
use angel_cloud.Gate.State.{
  HostedEnvironment, preview, production, GateToolBinding, GateAvailability,
}
use angel_cloud.Gate.Encode.{record_of, list_of, dict_of, hosted_text, natural, credential_text}
use angel_cloud.Management.State.{
  Failure, thrown, AgentKeyView, Health, healthy, error, ManagementAngel, environment_of,
  ManagementDeployment, PendingAvailability, StoredManagementConnection, ManagementState,
}
use angel_cloud.Management.Lookup.{
  assert_account, angel, angel_by_slug, version, deployment, not_found,
}
use angel_cloud.Management.Encode.{bindings_map, repair_json, key_view, change_json, version_json}

abbrev pub is_id : String → Option String → Bool
is_id id none = Bool.false
is_id id (some other) = id == other

-- refs.set(binding.connectionRef, binding.connectionId)
unfoldable pub set_refs : Dict String → List GateToolBinding → Dict String
unfolding insert
set_refs refs [] = refs
set_refs refs (b ∷ bs) = set_refs (insert b.connection_ref b.connection_id refs) bs

-- The Connections by the refs of the active deployment.
unfoldable pub active_refs : Option String → Dict String → List ManagementDeployment → Dict String
unfolding set_refs
active_refs active_id refs [] = refs
active_refs active_id refs (d ∷ ds) =
    active_refs active_id (if is_id d.id active_id then set_refs refs d.runtime_bindings else refs)
      ds

unfoldable pub rename_refs : Dict String → Dict Bool → Result Failure (Dict Bool)
rename_refs refs [] = ok []
rename_refs refs ((ref, enabled) ∷ more) =
    or_throw (thrown "availability references an inactive Connection ref") (lookup ref refs)
    >>= λ id. rename_refs refs more >>= λ rest. ok ((id, enabled) ∷ rest)

unfoldable pub rename_overrides : Dict String → Dict (Dict Bool) → Result Failure (Dict (Dict Bool))
unfolding rename_refs from_entries
rename_overrides refs [] = ok []
rename_overrides refs ((tool, overrides) ∷ more) = rename_refs refs overrides >>= λ renamed.
    rename_overrides refs more >>= λ rest. ok ((tool, from_entries renamed) ∷ rest)

abbrev summary_json : ManagementDeployment → Json
summary_json d = record_of (
    ("id", str d.id)
    ∷ ("versionId", str d.version_id)
    ∷ ("digest", str d.digest)
    ∷ ("bindings", bindings_map d.bindings)
    ∷ [])

unfoldable pub deployment_summary : ManagementState → String → Option String → Result Failure Json
deployment_summary s angel_id none = ok null
deployment_summary s angel_id (some id) = deployment s angel_id id >>= λ d. ok (summary_json d)

abbrev pending_change : Option PendingAvailability → Json
pending_change none = null
pending_change (some p) = change_json p.change

abbrev health_text : Health → String
health_text healthy = "healthy"
health_text error = "error"

-- A Connection without its granted scopes.
unfoldable pub connection_json : StoredManagementConnection → Json
connection_json c = record_of (
    ("id", str c.id)
    ∷ ("accountId", str c.account_id)
    ∷ ("nickname", str c.nickname)
    ∷ ("identityLabel", str c.identity_label)
    ∷ ("credential", str (credential_text c.credential))
    ∷ ("providers", list_of str c.providers)
    ∷ ("health", str (health_text c.health))
    ∷ [])

unfoldable pub list_connections : ManagementState → String → Result Failure Json
unfolding assert_account connection_json
list_connections s account_id =
    assert_account s account_id >> ok (list_of connection_json s.connections)

unfoldable pub list_keys :
    ManagementState → String → HostedEnvironment → Result Failure (List AgentKeyView)
unfolding angel key_view
list_keys s angel_id env = angel s angel_id >>= λ a. ok (map key_view (environment_of env a).keys)

module _ (r : Runtime) where
  abbrev view_json : GateAvailability → Dict (Dict Bool) → Json
  view_json a renamed = record_of (
      ("defaultEnabled", bool a.default_enabled)
      ∷ ("toolOverrides", dict_of bool a.overrides)
      ∷ ("connectionOverrides", dict_of (dict_of bool) renamed)
      ∷ ("revision", natural r a.revision)
      ∷ [])

  unfoldable pub availability_view :
      ManagementState → String → HostedEnvironment → GateAvailability → Result Failure Json
  unfolding angel active_refs rename_overrides from_entries
  availability_view s angel_id env a = do
    found ← angel s angel_id
    let refs = active_refs (environment_of env found).active_deployment_id [] s.deployments
    renamed ← rename_overrides refs a.connection_overrides
    ok (view_json a (from_entries renamed))

  unfoldable pub get_environment :
      ManagementState → String → HostedEnvironment → Result Failure Json
  unfolding angel deployment_summary availability_view
  get_environment s angel_id env = do
    found ← angel s angel_id
    let e = environment_of env found
    current ← deployment_summary s angel_id e.active_deployment_id
    pending ← deployment_summary s angel_id e.pending_deployment_id
    availability ← availability_view s angel_id env e.availability
    ok (
        record_of (
          ("environment", str (hosted_text env))
          ∷ ("keyFingerprint", str e.key_fingerprint)
          ∷ ("activeDeployment", current)
          ∷ ("pendingDeployment", pending)
          ∷ ("repair", repair_json e.repair)
          ∷ ("availability", availability)
          ∷ ("pendingAvailability", pending_change e.pending_availability)
          ∷ []))

  unfoldable pub angel_view : ManagementState → ManagementAngel → Result Failure Json
  unfolding get_environment
  angel_view s a = do
    first ← get_environment s a.id preview
    second ← get_environment s a.id production
    ok (
        record_of (
          ("id", str a.id)
          ∷ ("accountId", str a.account_id)
          ∷ ("slug", str a.slug)
          ∷ ("environments", record_of (("preview", first) ∷ ("production", second) ∷ []))
          ∷ []))

  unfoldable pub get_angel : ManagementState → String → Result Failure Json
  unfolding angel angel_view
  get_angel s angel_id = angel s angel_id >>= angel_view s

  unfoldable pub get_angel_by_slug : ManagementState → String → String → Result Failure Json
  unfolding assert_account angel_view
  get_angel_by_slug s account_id slug =
      assert_account s account_id
      >> (or_throw not_found (angel_by_slug slug s.angels) >>= angel_view s)

  unfoldable pub list_angels_from :
      ManagementState → List ManagementAngel → Result Failure (List Json)
  unfolding angel_view
  list_angels_from s [] = ok []
  list_angels_from s (a ∷ angels) =
      angel_view s a >>= λ v. list_angels_from s angels >>= λ vs. ok (v ∷ vs)

  unfoldable pub list_angels : ManagementState → Result Failure (List Json)
  unfolding list_angels_from
  list_angels s = list_angels_from s s.angels

  unfoldable pub get_version : ManagementState → String → String → Result Failure Json
  unfolding angel version version_json
  get_version s angel_id version_id =
      angel s angel_id >>= λ _. version s angel_id version_id >>= λ v. ok (version_json r v)
