-- ===== src/Gate/Migrate.antt =====
-- migrateInstalledAvailability of src/gate.ts: availability is carried across an install.
use angel_cloud.Prelude.{
  String, Bool, Option, none, some, List, [], ◌∷◌, ◌==◌, map, if◌then◌else◌, find, any, select,
  Result, ok, err, ◌>>=◌,
}
use angel_cloud.Prelude.Dict.{Dict, lookup, insert, from_entries}
use angel_cloud.Runtime.{Runtime}
use angel_cloud.Gate.State.{
  HostedTool, GateToolBinding, GateAvailability, GateError, conflicting_override,
}
use angel_cloud.Gate.Availability.{bool_eq, sort_entries}

-- The refs that a Connection has among the bindings, in their order.
unfoldable pub refs_of_connection : String → List GateToolBinding → List String
refs_of_connection id bs = map (λ b. b.connection_ref) (select (λ b. b.connection_id == id) bs)

unfoldable pub bound : String → List GateToolBinding → Bool
bound ref bs = any (λ b. b.connection_ref == ref) bs

-- The refs that an override of `ref` goes to.
unfoldable pub targets : String → List GateToolBinding → List GateToolBinding → List String
unfolding refs_of_connection bound
targets ref previous next =
    if bound ref next then ref ∷ [] else elim (find (λ b. b.connection_ref == ref) previous) [
      | none ↦ []
      | some b ↦ refs_of_connection b.connection_id next
    ]

abbrev pub no_conflict : Option Bool → Bool → Bool
no_conflict none enabled = Bool.true
no_conflict (some before) enabled = bool_eq before enabled

unfoldable pub set_targets : Bool → List String → Dict Bool → Result GateError (Dict Bool)
set_targets enabled [] migrated = ok migrated
set_targets enabled (ref ∷ refs) migrated =
    let rest = set_targets enabled refs (insert ref enabled migrated) in
    if no_conflict (lookup ref migrated) enabled then rest else err conflicting_override

-- The loop over the overrides of one tool.
unfoldable pub migrate_refs :
    List GateToolBinding
    → List GateToolBinding
    → Dict Bool
    → Dict Bool
    → Result GateError (Dict Bool)
unfolding targets set_targets
migrate_refs previous next migrated [] = ok migrated
migrate_refs previous next migrated ((ref, enabled) ∷ refs) =
    set_targets enabled (targets ref previous next) migrated >>= λ more.
    migrate_refs previous next more refs

module _ (r : Runtime) where
  -- new Map(tools.map((tool) => [tool.name.toUpperCase(), tool.name]))
  unfoldable pub active_names : List HostedTool → Dict String
  unfolding from_entries
  active_names tools = from_entries (map (λ t. (r.to_upper t.name, t.name)) tools)

  abbrev renamed : Option String → Bool → Dict Bool → Dict Bool
  renamed none enabled rest = rest
  renamed (some name) enabled rest = (name, enabled) ∷ rest

  unfoldable pub migrate_tools : Dict String → Dict Bool → Dict Bool
  unfolding lookup
  migrate_tools active [] = []
  migrate_tools active ((tool, enabled) ∷ rest) =
      renamed (lookup (r.to_upper tool) active) enabled (migrate_tools active rest)

  abbrev pub for_tool : String → List GateToolBinding → List GateToolBinding
  for_tool tool bs = select (λ b. r.to_upper b.tool == r.to_upper tool) bs

  abbrev surviving : String → Dict Bool → Dict (Dict Bool) → Dict (Dict Bool)
  surviving tool [] rest = rest
  surviving tool (e ∷ d) rest = (tool, sort_entries r (e ∷ d)) ∷ rest

  unfoldable pub migrate_connections :
      Dict String
      → List GateToolBinding
      → List GateToolBinding
      → Dict (Dict Bool)
      → Result GateError (Dict (Dict Bool))
  unfolding migrate_refs lookup sort_entries
  migrate_connections active previous next [] = ok []
  migrate_connections active previous next ((name, overrides) ∷ more) =
      elim (lookup (r.to_upper name) active) [
        | none ↦ migrate_connections active previous next more
        | some tool ↦
            migrate_refs (for_tool tool previous) (for_tool tool next) [] overrides >>= λ d.
            migrate_connections active previous next more >>= λ rest. ok (surviving tool d rest)
      ]

  unfoldable pub migrate_installed_availability :
      GateAvailability
      → List HostedTool
      → List GateToolBinding
      → List GateToolBinding
      → Result GateError GateAvailability
  unfolding active_names migrate_tools migrate_connections sort_entries
  migrate_installed_availability a tools previous next =
      migrate_connections (active_names tools) previous next a.connection_overrides >>= λ kept.
      ok (record a {
        overrides = sort_entries r (migrate_tools (active_names tools) a.overrides);
        connection_overrides = sort_entries r kept;
      })
