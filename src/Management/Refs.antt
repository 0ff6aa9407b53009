-- ===== src/Management/Refs.antt =====
-- ManagementControl.runtimeBindings (src/management.ts): a deployment's own names of Connections.
use angel_cloud.Prelude.{String, Bool, Option, none, some, List, [], ◌∷◌, ◌++◌, map, or_throw}
use angel_cloud.Prelude.Dict.{Dict, lookup, insert}
use angel_cloud.Prelude.Sort.{sort}
use angel_cloud.Json.{canonical_json}
use angel_cloud.Runtime.{Runtime}
use angel_cloud.Gate.State.{GateToolBinding, ProviderBindingRequirement}
use angel_cloud.Gate.Encode.{binding_json}
use angel_cloud.Management.State.{StoredManagementConnection, PublishedAngelVersion}
use angel_cloud.Management.World.{Action, Dependencies, pure, gets, lift, ask, ◌>>=◌}
use angel_cloud.Management.Bindings.{find_connection, connection_error, or_none}

abbrev pub tool_binding :
    ProviderBindingRequirement → StoredManagementConnection → String → String → GateToolBinding
tool_binding q c ref tool = record {
  tool = tool;
  connection_ref = ref;
  connection_id = c.id;
  provider = q.provider;
  identity_label = c.identity_label;
}

module _ (r : Runtime) {D : Type 0} (d : Dependencies D) where
  -- The ref of a Connection is minted where it is met first.
  abbrev pub ref_for : String → Dict String → Option String → Action D (String × Dict String)
  ref_for id refs (some ref) = pure (ref, refs)
  ref_for id refs none = ask (d.random_id "arc") >>= λ ref. pure (ref, insert id ref refs)

  -- The loop over the Connections of one requirement.
  unfoldable pub bind_connections :
      ProviderBindingRequirement
      → List String
      → Dict String
      → Action D (List GateToolBinding × Dict String)
  unfolding lookup insert
  bind_connections q [] refs = pure ([], refs)
  bind_connections q (id ∷ ids) refs = do
    found ← gets (find_connection id)
    c ← lift (or_throw (connection_error q.id) found)
    (ref, more) ← ref_for id refs (lookup id refs)
    (rest, last) ← bind_connections q ids more
    pure (map (tool_binding q c ref) q.tools ++ rest, last)

  -- The loop over the requirements.
  unfoldable pub bind_requirements :
      Dict (List String)
      → List ProviderBindingRequirement
      → Dict String
      → Action D (List GateToolBinding)
  unfolding bind_connections lookup
  bind_requirements bindings [] refs = pure []
  bind_requirements bindings (q ∷ qs) refs = do
    (here, more) ← bind_connections q (or_none (lookup q.id bindings)) refs
    later ← bind_requirements bindings qs more
    pure (here ++ later)

  abbrev pub binding_le : GateToolBinding → GateToolBinding → Bool
  binding_le b c =
      r.locale_le (canonical_json r.quote (binding_json b))
        (canonical_json r.quote (binding_json c))

  unfoldable pub runtime_bindings :
      PublishedAngelVersion → Dict (List String) → Action D (List GateToolBinding)
  unfolding bind_requirements sort canonical_json
  runtime_bindings v bindings =
      bind_requirements bindings v.artifact.binding_requirements [] >>= λ bs.
      pure (sort binding_le bs)
