-- ===== src/Gate/Availability.antt =====
-- Which tools and Connections of a gate are switched on (src/gate.ts).
use angel_cloud.Prelude.{
  ℕ, suc, String, Bool, true, false, not, ◌&&◌, Option, none, some, [], ◌∷◌, ◌==◌, nat_eq,
  if◌then◌else◌, find, Result, ok, err, ◌>>=◌, ◌>>◌, guard,
}
use angel_cloud.Prelude.Dict.{Dict, lookup, insert, erase, from_entries}
use angel_cloud.Prelude.Sort.{sort}
use angel_cloud.Runtime.{Runtime}
use angel_cloud.Gate.State.{
  HostedTool, HostedVersionArtifact, GateToolBinding, GateAvailability, GateInstallation,
  PolicyGateState, GateAvailabilityCommand, change_all, change_tool, change_tool_connection,
  GateError, no_installation, revision_mismatch, unknown_connection,
}

abbrev pub or_default {ℓ} : {A : Type ℓ} → Option A → A → A
or_default none d = d
or_default (some a) d = a

abbrev pub bool_eq : Bool → Bool → Bool
bool_eq true b = b
bool_eq false b = not b

unfoldable pub is_tool_enabled : GateAvailability → String → Bool
is_tool_enabled a tool = or_default (lookup tool a.overrides) a.default_enabled

-- connectionOverrides[tool] ?? {}
abbrev pub overrides_of : GateAvailability → String → Dict Bool
overrides_of a tool = or_default (lookup tool a.connection_overrides) []

unfoldable pub is_tool_connection_enabled : GateAvailability → String → String → Bool
unfolding is_tool_enabled
is_tool_connection_enabled a tool ref =
    or_default (lookup ref (overrides_of a tool)) (is_tool_enabled a tool)

module _ (r : Runtime) where
  unfoldable pub same_tool : String → String → Bool
  same_tool a b = r.to_upper a == r.to_upper b

  unfoldable pub find_tool : HostedVersionArtifact → String → Option HostedTool
  unfolding same_tool
  find_tool artifact name = find (λ t. same_tool t.name name) artifact.tools

  -- Object.fromEntries(Object.entries(d).sort(by localeCompare of the keys))
  unfoldable pub sort_entries {ℓ} : {V : Type ℓ} → Dict V → Dict V
  unfolding from_entries sort
  sort_entries d = from_entries (sort (λ e f. r.locale_le e.0 f.0) d)

  -- An entry that says what holds anyway is deleted.
  unfoldable pub override : String → Bool → Bool → Dict Bool → Dict Bool
  unfolding insert erase
  override key enabled base d = if bool_eq enabled base then erase key d else insert key enabled d

  unfoldable pub pause_all : GateAvailability → Bool → GateAvailability
  pause_all a enabled = record a {
    default_enabled = enabled;
    overrides = [];
    connection_overrides = [];
  }

  unfoldable pub switch_tool : GateAvailability → String → Bool → GateAvailability
  unfolding sort_entries override
  switch_tool a tool enabled = record a {
    overrides = sort_entries (override tool enabled a.default_enabled a.overrides);
    connection_overrides = erase tool a.connection_overrides;
  }

  abbrev pub store_overrides : String → Dict Bool → Dict (Dict Bool) → Dict (Dict Bool)
  store_overrides tool [] all = erase tool all
  store_overrides tool (e ∷ d) all = insert tool (sort_entries (e ∷ d)) all

  unfoldable pub switch_connection : GateAvailability → String → String → Bool → GateAvailability
  unfolding sort_entries override is_tool_enabled
  switch_connection a tool ref enabled = record a {
    connection_overrides = sort_entries (
        store_overrides tool (override ref enabled (is_tool_enabled a tool) (overrides_of a tool))
          a.connection_overrides);
  }

  abbrev pub expected_revision : GateAvailabilityCommand → ℕ
  expected_revision (change_all enabled rev) = rev
  expected_revision (change_tool tool enabled rev) = rev
  expected_revision (change_tool_connection tool ref enabled rev) = rev

  unfoldable pub find_binding : GateInstallation → HostedTool → String → Option GateToolBinding
  unfolding same_tool
  find_binding i tool ref =
      find (λ b. same_tool b.tool tool.name && b.connection_ref == ref) i.bindings

  unfoldable pub apply_change :
      GateInstallation
      → GateAvailability
      → GateAvailabilityCommand
      → Result GateError GateAvailability
  unfolding pause_all switch_tool switch_connection find_tool find_binding
  apply_change i a (change_all enabled rev) = ok (pause_all a enabled)
  apply_change i a (change_tool name enabled rev) = elim (find_tool i.artifact name) [
    | none ↦ err GateError.unknown_tool
    | some tool ↦ ok (switch_tool a tool.name enabled)
  ]
  apply_change i a (change_tool_connection name ref enabled rev) =
      elim (find_tool i.artifact name) [
        | none ↦ err GateError.unknown_tool
        | some tool ↦ elim (find_binding i tool ref) [
          | none ↦ err unknown_connection
          | some binding ↦ ok (switch_connection a tool.name binding.connection_ref enabled)
        ]
      ]

  abbrev pub installation_of : Option GateInstallation → Result GateError GateInstallation
  installation_of none = err no_installation
  installation_of (some i) = ok i

  abbrev pub require_installation : PolicyGateState → Result GateError GateInstallation
  require_installation s = installation_of s.installation

  unfoldable pub revised : PolicyGateState → GateAvailability → PolicyGateState × GateAvailability
  revised s a =
      let next : GateAvailability = record a { revision = suc a.revision } in
      (record s { availability = next }, next)

  unfoldable pub change_installed :
      PolicyGateState
      → GateAvailabilityCommand
      → GateInstallation
      → Result GateError (PolicyGateState × GateAvailability)
  unfolding apply_change revised
  change_installed s command i = do
    guard (nat_eq (expected_revision command) s.availability.revision) revision_mismatch
    a ← apply_change i s.availability command
    ok (revised s a)

  unfoldable pub change_availability :
      PolicyGateState
      → GateAvailabilityCommand
      → Result GateError (PolicyGateState × GateAvailability)
  unfolding change_installed
  change_availability s command = require_installation s >>= change_installed s command
