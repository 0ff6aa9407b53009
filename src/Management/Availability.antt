-- ===== src/Management/Availability.antt =====
-- availabilityCommand and applyAvailability of src/management.ts: what a change asks the gates for,
-- and what it makes of the recorded availability.
use angel_cloud.Prelude.{
  ℕ, suc, String, Bool, ◌&&◌, Option, none, some, List, [], ◌∷◌, ◌==◌, find, if◌then◌else◌, Result,
  ok, err,
}
use angel_cloud.Prelude.Dict.{Dict, lookup, insert, erase}
use angel_cloud.Runtime.{Runtime}
use angel_cloud.Gate.State.{
  GateToolBinding, GateAvailability, GateAvailabilityCommand, change_all, change_tool,
  change_tool_connection,
}
use angel_cloud.Gate.Availability.{bool_eq, overrides_of, is_tool_enabled}
use angel_cloud.Management.State.{
  Failure, ManagementAvailabilityChange, all_tools, one_tool, one_connection, ManagementDeployment,
}
use angel_cloud.Management.Lookup.{not_found}

-- An entry that says what holds anyway is deleted.
unfoldable pub set_override : String → Bool → Bool → Dict Bool → Dict Bool
unfolding insert erase
set_override key enabled base d = if bool_eq enabled base then erase key d else insert key enabled d

abbrev pub keep_overrides : String → Dict Bool → Dict (Dict Bool) → Dict (Dict Bool)
keep_overrides tool [] all = erase tool all
keep_overrides tool (e ∷ d) all = insert tool (e ∷ d) all

unfoldable pub apply_availability : GateAvailability → GateAvailabilityCommand → GateAvailability
unfolding set_override is_tool_enabled insert erase lookup
apply_availability a (change_all enabled rev) = record {
  default_enabled = enabled;
  overrides = [];
  connection_overrides = [];
  revision = suc a.revision;
}
apply_availability a (change_tool tool enabled rev) = record a {
  overrides = set_override tool enabled a.default_enabled a.overrides;
  connection_overrides = erase tool a.connection_overrides;
  revision = suc a.revision;
}
apply_availability a (change_tool_connection tool ref enabled rev) = record a {
  connection_overrides =
      keep_overrides tool (set_override ref enabled (is_tool_enabled a tool) (overrides_of a tool))
        a.connection_overrides;
  revision = suc a.revision;
}

abbrev tool_command : Bool → ℕ → Option GateToolBinding → Result Failure GateAvailabilityCommand
tool_command enabled rev none = err not_found
tool_command enabled rev (some b) = ok (change_tool b.tool enabled rev)

abbrev connection_command :
    Bool → ℕ → Option GateToolBinding → Result Failure GateAvailabilityCommand
connection_command enabled rev none = err not_found
connection_command enabled rev (some b) =
    ok (change_tool_connection b.tool b.connection_ref enabled rev)

module _ (r : Runtime) where
  abbrev pub bound_tool : String → List GateToolBinding → Option GateToolBinding
  bound_tool tool bs = find (λ b. r.to_upper b.tool == r.to_upper tool) bs

  abbrev pub bound_connection : String → String → List GateToolBinding → Option GateToolBinding
  bound_connection tool id bs = find (λ b. b.tool == tool && b.connection_id == id) bs

  unfoldable pub availability_command :
      ManagementAvailabilityChange
      → ManagementDeployment
      → GateAvailability
      → Result Failure GateAvailabilityCommand
  availability_command (all_tools enabled) dep a = ok (change_all enabled a.revision)
  availability_command (one_tool tool enabled) dep a =
      tool_command enabled a.revision (bound_tool tool dep.runtime_bindings)
  availability_command (one_connection tool id enabled) dep a =
      elim (bound_tool tool dep.runtime_bindings) [
        | none ↦ err not_found
        | some b ↦
            connection_command enabled a.revision (bound_connection b.tool id dep.runtime_bindings)
      ]
