-- ===== src/Gate/ViewTests.antt =====
-- Keys, availability and bindings of a small gate.
use angel_cloud.Prelude.{
  ◌≡◌, ◌↔◌, refl, String, true, false, ◌&&◌, ◌==◌, none, some, [], ◌∷◌, Memᴰ, if◌then◌else◌,
}
use angel_cloud.Prelude.Dict.{lookup, erase}
use angel_cloud.Crypto.{sha256_hex}
use angel_cloud.Gate.State.{
  gateway, GateToolBinding, GateAvailability, PolicyGateState, tool_paused,
}
use angel_cloud.Gate.Keys.{active_key_hashes, authenticated}
use angel_cloud.Gate.Access.{authenticated_iff}
use angel_cloud.Gate.Availability.{is_tool_connection_enabled, switch_tool, switch_connection}
use angel_cloud.Gate.Bindings.{
  unselected, select_by, selector, selected, select_binding, available_tools,
}
use angel_cloud.Gate.Effects.{IsTidy, switch_tool_lem, switch_connection_lem}
use angel_cloud.Gate.Selection.{IsActive, IsSelected, select_binding-IsSelected}
use angel_cloud.Gate.Install.{new_installation}
use angel_cloud.Gate.Encode.{environment_text}
use angel_cloud.Gate.Environment.{
  canonical_environment, renamed_environment, canonical_environment_iff,
}
use angel_cloud.Gate.State.{preview, RecordedEnvironment}
use angel_cloud.Gate.Shown.{available_tools_iff, paused_iff}
use angel_cloud.Fixtures.{
  toy, toy-Sha256Digests, fresh_gate, demo_installation, demo_call, send_tool, send_binding,
}

abbrev keyed_gate : PolicyGateState
keyed_gate = record fresh_gate {
  installation = some demo_installation;
  gateway_key_hashes = some (sha256_hex toy "key" ∷ []);
}

authenticated_iff_example : (authenticated toy keyed_gate (some "key") ≡ true) ↔ (
    (key : String) × (some "key" ≡ some key)
    × ((h : String) × Memᴰ h (active_key_hashes keyed_gate)
        × (sha256_hex toy (sha256_hex toy key) ≡ sha256_hex toy h)))
authenticated_iff_example = authenticated_iff toy toy-Sha256Digests keyed_gate (some "key")

-- The tool is off, but one of its Connections is on.
abbrev mixed : GateAvailability
mixed = record {
  default_enabled = true;
  overrides = ("SEND", false) ∷ [];
  connection_overrides = ("SEND", ("ops-chat", true) ∷ []) ∷ [];
  revision = 3;
}

mixed-IsTidy : IsTidy mixed
unfolding lookup
mixed-IsTidy = record { tools = (refl, tt); connections = (refl, tt); inner = ((refl, tt), tt) }

switch_tool_lem_example :
    is_tool_connection_enabled (switch_tool toy mixed "SEND" false) "SEND" "ops-chat"
    ≡ (if "SEND" == "SEND" then false else is_tool_connection_enabled mixed "SEND" "ops-chat")
switch_tool_lem_example = switch_tool_lem toy mixed "SEND" "SEND" "ops-chat" false mixed-IsTidy

switch_connection_lem_example :
    is_tool_connection_enabled
      (switch_connection toy mixed "SEND" "ops-chat" false)
      "SEND"
      "dev-chat"
    ≡ (if "SEND" == "SEND" && "ops-chat" == "dev-chat"
        then false
        else is_tool_connection_enabled mixed "SEND" "dev-chat")
switch_connection_lem_example =
    switch_connection_lem toy mixed "SEND" "ops-chat" "SEND" "dev-chat" false mixed-IsTidy

selection_run :
    select_binding toy gateway demo_installation mixed send_tool demo_call
    ≡ selected send_binding (erase "angel_connection" demo_call.arguments)
unfolding select_binding new_installation
selection_run = refl

select_binding-IsSelected_example :
    IsSelected toy demo_installation mixed send_tool (selector toy gateway demo_call) send_binding
    × (erase "angel_connection" demo_call.arguments ≡ erase "angel_connection" demo_call.arguments)
select_binding-IsSelected_example =
    select_binding-IsSelected toy demo_installation mixed send_tool gateway demo_call send_binding
      (erase "angel_connection" demo_call.arguments) selection_run

available_tools_iff_example : Memᴰ send_tool (available_tools toy keyed_gate) ↔ (
    Memᴰ send_tool demo_installation.artifact.tools
    × ((b : GateToolBinding) × IsActive toy demo_installation keyed_gate.availability send_tool b))
available_tools_iff_example = available_tools_iff toy keyed_gate demo_installation send_tool refl

send_listed : Memᴰ send_tool demo_installation.artifact.tools
unfolding new_installation
send_listed = Memᴰ.head refl

paused_iff_example :
    ((detail : String) × (select_by toy demo_installation keyed_gate.availability send_tool none []
        ≡ unselected tool_paused detail))
    ↔ (¬ Memᴰ send_tool (available_tools toy keyed_gate))
paused_iff_example = paused_iff toy keyed_gate demo_installation send_tool [] refl send_listed

canonical_environment_iff_example : (canonical_environment "staging" ≡ some preview) ↔ (
    (e : RecordedEnvironment) × (environment_text e ≡ "staging")
    × (renamed_environment e ≡ preview))
canonical_environment_iff_example = canonical_environment_iff "staging" preview
