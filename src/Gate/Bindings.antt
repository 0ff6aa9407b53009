-- ===== src/Gate/Bindings.antt =====
-- The tool bindings of an installation, and the one that a call goes through (src/gate.ts).
use Prim.Native.String.{◌++◌}
use mathlib.Core.List.{◌++◌ as append}
use angel_cloud.Prelude.{
  String, Bool, true, not, ◌&&◌, Option, none, some, List, [], ◌∷◌, ◌==◌, map, if◌then◌else◌, find,
  any, all, select, contains, Result, ok, err, ◌>>=◌, ◌>>◌, guard,
}
use angel_cloud.Prelude.Dict.{Dict, lookup, insert, erase}
use angel_cloud.Prelude.Sort.{sort}
use angel_cloud.Text.{is_blank}
use angel_cloud.Json.{Json, str}
use angel_cloud.Runtime.{Runtime}
use angel_cloud.Gate.State.{
  GateKind, gateway, broker, HostedTool, HostedVersionArtifact, GateToolBinding, GateAvailability,
  GateInstallation, PolicyGateState, GateEvaluationInput, DenyReason, tool_paused,
  connection_required, connection_paused, connection_unavailable, GateError, empty_text,
  unknown_binding_tool, provider_mismatch, duplicate_binding, ref_collision, uncovered_tool,
}
use angel_cloud.Gate.Availability.{is_tool_connection_enabled, same_tool, find_tool}

-- `refs` holds the Connection and the identity label of each ref.
pub record Seen : Type 0 where
  pub supplied : List String
  pub tuples : List String
  pub refs : Dict (String × String)

pub data BindingSelection : Type 0 where
  selected : GateToolBinding → Dict Json → BindingSelection
  unselected : DenyReason → String → BindingSelection

-- What the Gateway shows of a Connection that a tool can be called through.
pub record RuntimeConnectionChoice : Type 0 where
  pub ref : String
  pub provider : String
  pub identity : String

pub record AvailableRuntimeTool : Type 0 where
  pub tool : HostedTool
  pub connections : List RuntimeConnectionChoice

abbrev pub required_text : String → Result GateError (Unit {0})
required_text s = guard (not (is_blank s)) empty_text

-- A ref that was seen names the same Connection, under the same label.
abbrev pub agrees : Option (String × String) → GateToolBinding → Bool
agrees none b = true
agrees (some (id, label)) b = id == b.connection_id && label == b.identity_label

module _ (r : Runtime) where
  abbrev pub tuple_of : HostedTool → GateToolBinding → String
  tuple_of tool b = r.to_upper tool.name ++ ("\0" ++ b.connection_ref)

  -- The body of the loop of assertBindings.
  unfoldable pub check_binding :
      HostedVersionArtifact → Seen → GateToolBinding → Result GateError Seen
  unfolding find_tool
  check_binding artifact seen b = do
    required_text b.tool
    required_text b.connection_ref
    required_text b.connection_id
    required_text b.provider
    required_text b.identity_label
    tool ← elim (find_tool r artifact b.tool) [ none ↦ err unknown_binding_tool | some t ↦ ok t ]
    guard (b.provider == tool.provider) provider_mismatch
    guard (not (contains (tuple_of tool b) seen.tuples)) duplicate_binding
    guard (agrees (lookup b.connection_ref seen.refs) b) ref_collision
    ok (record {
      supplied = r.to_upper tool.name ∷ seen.supplied;
      tuples = tuple_of tool b ∷ seen.tuples;
      refs = insert b.connection_ref (b.connection_id, b.identity_label) seen.refs;
    })

  unfoldable pub check_bindings :
      HostedVersionArtifact → Seen → List GateToolBinding → Result GateError Seen
  unfolding check_binding
  check_bindings artifact seen [] = ok seen
  check_bindings artifact seen (b ∷ bs) =
      check_binding artifact seen b >>= λ next. check_bindings artifact next bs

  abbrev pub nothing_seen : Seen
  nothing_seen = record { supplied = []; tuples = []; refs = [] }

  unfoldable pub assert_bindings :
      HostedVersionArtifact → List GateToolBinding → Result GateError (Unit {0})
  unfolding check_bindings
  assert_bindings artifact bindings = do
    seen ← check_bindings artifact nothing_seen bindings
    guard (all (λ t. contains (r.to_upper t.name) seen.supplied) artifact.tools) uncovered_tool

  -- By tool, then by ref.
  abbrev binding_le : GateToolBinding → GateToolBinding → Bool
  binding_le a b =
      if r.locale_le a.tool b.tool && r.locale_le b.tool a.tool
      then r.locale_le a.connection_ref b.connection_ref
      else r.locale_le a.tool b.tool

  unfoldable pub canonical_bindings : List GateToolBinding → List GateToolBinding
  unfolding sort
  canonical_bindings bs = sort binding_le bs

  unfoldable pub tool_bindings : GateInstallation → HostedTool → List GateToolBinding
  unfolding same_tool
  tool_bindings i tool = select (λ b. same_tool r b.tool tool.name) i.bindings

  unfoldable pub active_bindings :
      GateInstallation → GateAvailability → HostedTool → List GateToolBinding
  unfolding tool_bindings is_tool_connection_enabled
  active_bindings i a tool =
      select (λ b. is_tool_connection_enabled a tool.name b.connection_ref) (tool_bindings i tool)

  abbrev pub only_active : List GateToolBinding → Dict Json → BindingSelection
  only_active [] args = unselected tool_paused "tool has no active Connections"
  only_active (b ∷ []) args = selected b args
  only_active (b ∷ c ∷ bs) args =
      unselected connection_required
        "angel_connection is required when more than one Connection is available"

  abbrev pub unavailable : BindingSelection
  unavailable = unselected connection_unavailable "angel_connection is not an available Connection"

  unfoldable pub named_binding :
      GateInstallation → GateAvailability → HostedTool → String → Dict Json → BindingSelection
  unfolding tool_bindings is_tool_connection_enabled
  named_binding i a tool ref args =
      if ref == ""
      then unavailable
      else elim (find (λ b. b.connection_ref == ref) (tool_bindings i tool)) [
        | none ↦ unavailable
        | some b ↦
            if is_tool_connection_enabled a tool.name b.connection_ref
            then selected b args
            else unselected connection_paused "angel_connection is paused for this tool"
      ]

  -- The selector is in the arguments at the Gateway, and beside them at the Broker.
  abbrev pub selector : GateKind → GateEvaluationInput → Option Json
  selector gateway input = lookup "angel_connection" input.arguments
  selector broker input = elim input.connection_ref [ none ↦ none | some ref ↦ some (str ref) ]

  abbrev pub select_by :
      GateInstallation → GateAvailability → HostedTool → Option Json → Dict Json → BindingSelection
  select_by i a tool none args = only_active (active_bindings i a tool) args
  select_by i a tool (some (str ref)) args = named_binding i a tool ref args
  select_by i a tool (some _) args = unavailable

  unfoldable pub select_binding :
      GateKind
      → GateInstallation
      → GateAvailability
      → HostedTool
      → GateEvaluationInput
      → BindingSelection
  unfolding active_bindings named_binding lookup erase
  select_binding kind i a tool input =
      select_by i a tool (selector kind input) (erase "angel_connection" input.arguments)

  unfoldable pub available_tools : PolicyGateState → List HostedTool
  unfolding same_tool is_tool_connection_enabled
  available_tools s = elim s.installation [
    | none ↦ []
    | some i ↦
        select
          (λ t.
            any
              (λ b.
                same_tool r b.tool t.name
                && is_tool_connection_enabled s.availability t.name b.connection_ref)
              i.bindings)
          i.artifact.tools
  ]

  abbrev pub choice_of : GateToolBinding → RuntimeConnectionChoice
  choice_of b = record {
    ref = b.connection_ref;
    provider = b.provider;
    identity = b.identity_label;
  }

  unfoldable pub choices :
      GateInstallation → GateAvailability → HostedTool → List RuntimeConnectionChoice
  unfolding active_bindings sort
  choices i a tool =
      sort (λ c d. r.locale_le c.ref d.ref) (map choice_of (active_bindings i a tool))

  abbrev pub offered : HostedTool → List RuntimeConnectionChoice → List AvailableRuntimeTool
  offered tool [] = []
  offered tool (c ∷ cs) = record { tool = tool; connections = c ∷ cs } ∷ []

  unfoldable pub runtime_tools :
      GateInstallation → GateAvailability → List HostedTool → List AvailableRuntimeTool
  unfolding choices
  runtime_tools i a [] = []
  runtime_tools i a (t ∷ ts) = append (offered t (choices i a t)) (runtime_tools i a ts)

  unfoldable pub available_runtime_tools : PolicyGateState → List AvailableRuntimeTool
  unfolding runtime_tools
  available_runtime_tools s = elim s.installation [
    | none ↦ []
    | some i ↦ runtime_tools i s.availability i.artifact.tools
  ]
