-- ===== src/Gate/Evaluate.antt =====
-- PolicyGate.evaluate (src/gate.ts).
use angel_cloud.Prelude.{
  String, Bool, true, Option, none, some, List, [], ◌∷◌, if◌then◌else◌, Result, ok, err,
}
use angel_cloud.Prelude.Dict.{Dict, lookup, insert_all, from_entries}
use angel_cloud.Text.{is_blank}
use angel_cloud.Json.{Json, obj, fields, canonical_json}
use angel_cloud.Crypto.{sha256_hex}
use angel_cloud.Runtime.{Runtime}
use angel_cloud.Decision.Guard.{ArgGuard, pin}
use angel_cloud.Decision.Call.{
  AngelTool, Decision, allowed, denied, compile_rules, evaluate_tool_call,
}
use angel_cloud.Gate.State.{
  GateKind, gateway, broker, HostedTool, HostedProvider, HttpRequestTemplate, GateReceipt,
  GateToolBinding, GateInstallation, allow, deny, PolicyGateState, GateEvaluationInput, DenyReason,
  unauthorized, guard_denied, GateEvaluation, passed, refused, GateError, empty_text,
  no_installation, no_provider, rule_collision,
}
use angel_cloud.Gate.Encode.{digest_json}
use angel_cloud.Gate.Availability.{find_tool}
use angel_cloud.Gate.Bindings.{BindingSelection, selected, unselected, select_binding}
use angel_cloud.Gate.Keys.{authenticated}
use angel_cloud.Gate.Receipts.{receipt_body, append_receipt}
use angel_cloud.Gate.Install.{assert_supported_artifact_format}

-- The state that a call leaves in memory, and its answer; a call that throws may have changed it.
abbrev pub Outcome : Type 0
Outcome = PolicyGateState × Result GateError GateEvaluation

abbrev pub pin_entries : List ArgGuard → Dict String
pin_entries [] = []
pin_entries (pin name text ∷ gs) = (name, text) ∷ pin_entries gs
pin_entries (_ ∷ gs) = pin_entries gs

unfoldable pub pin_defaults : List ArgGuard → Dict String
unfolding from_entries
pin_defaults guards = from_entries (pin_entries guards)

-- { ...tool.request.pathDefaults, ...pinDefaults(tool.argGuards) }
unfoldable pub call_defaults : HostedTool → Dict String
unfolding pin_defaults insert_all
call_defaults tool =
    insert_all (insert_all [] tool.request.path_defaults) (pin_defaults tool.arg_guards)

abbrev pub rule_of : HostedTool → AngelTool
rule_of tool = record { tool = tool.name; arg_guards = some tool.arg_guards }

module _ (r : Runtime) where
  abbrev pub deny_call :
      PolicyGateState
      → GateInstallation
      → GateEvaluationInput
      → Option HostedTool
      → Option GateToolBinding
      → String
      → DenyReason
      → String
      → Outcome
  deny_call s i input tool source digest reason detail =
      let (next, receipt) =
        append_receipt r s (receipt_body r s i input tool source digest deny detail) in
      (next, ok (refused reason receipt))

  abbrev pub answer_allowed :
      PolicyGateState
      → HttpRequestTemplate
      → Dict Json
      → GateReceipt
      → Option HostedProvider
      → Outcome
  answer_allowed next request args receipt none = (next, err no_provider)
  answer_allowed next request args receipt (some provider) =
      (next, ok (passed args provider.origin request receipt))

  -- The allow receipt is appended before the provider is looked up.
  abbrev pub allow_call :
      PolicyGateState
      → GateInstallation
      → GateEvaluationInput
      → HostedTool
      → GateToolBinding
      → Dict Json
      → Outcome
  allow_call s i input tool source args =
      let (next, receipt) = append_receipt r s (
        receipt_body r s i input (some tool) (some source) (digest_json r (obj (fields args))) allow
          "exact policy allowed") in
      answer_allowed next tool.request args receipt (lookup tool.provider i.artifact.providers)

  unfoldable pub decide : HostedTool → Dict Json → Result GateError Decision
  unfolding compile_rules evaluate_tool_call call_defaults
  decide tool args = elim (compile_rules r (rule_of tool ∷ [])) [
    | err e ↦ err rule_collision
    | ok rules ↦ ok (
        evaluate_tool_call r rules tool.name (canonical_json r.quote (obj (fields args)))
          (some (call_defaults tool)))
  ]

  abbrev pub conclude :
      PolicyGateState
      → GateInstallation
      → GateEvaluationInput
      → HostedTool
      → GateToolBinding
      → String
      → Result GateError Decision
      → Outcome
  conclude s i input tool source digest (err e) = (s, err e)
  conclude s i input tool source digest (ok (denied message)) =
      deny_call s i input (some tool) (some source) digest guard_denied message
  conclude s i input tool source digest (ok (allowed rule args)) =
      allow_call s i input tool source args

  abbrev pub run_selection :
      PolicyGateState
      → GateInstallation
      → GateEvaluationInput
      → HostedTool
      → String
      → BindingSelection
      → Outcome
  run_selection s i input tool digest (unselected reason detail) =
      deny_call s i input (some tool) none digest reason detail
  run_selection s i input tool digest (selected source args) =
      conclude s i input tool source digest (decide tool args)

  unfoldable pub evaluate_tool :
      PolicyGateState
      → GateInstallation
      → GateEvaluationInput
      → String
      → Option HostedTool
      → Outcome
  evaluate_tool s i input digest none =
      deny_call s i input none none digest DenyReason.unknown_tool "not allowlisted"
  evaluate_tool s i input digest (some tool) =
      run_selection s i input tool digest (select_binding r s.gate i s.availability tool input)

  -- A Broker asks for no key.
  abbrev pub admitted : GateKind → PolicyGateState → GateEvaluationInput → Bool
  admitted broker s input = true
  admitted gateway s input = authenticated r s input.presented_key

  unfoldable pub evaluate_installed :
      PolicyGateState → GateInstallation → GateEvaluationInput → Outcome
  unfolding evaluate_tool assert_supported_artifact_format
  evaluate_installed s i input =
      if admitted s.gate s input
      then elim (assert_supported_artifact_format i.artifact) [
        | err e ↦ (s, err e)
        | ok _ ↦
            evaluate_tool s i input (digest_json r (obj (fields input.arguments)))
              (find_tool r i.artifact input.tool)
      ]
      else deny_call s i input none none (sha256_hex r "arguments withheld before authentication")
          unauthorized "invalid Angel key"

  unfoldable pub evaluate_with :
      PolicyGateState → GateEvaluationInput → Option GateInstallation → Outcome
  unfolding evaluate_installed
  evaluate_with s input none = (s, err no_installation)
  evaluate_with s input (some i) =
      if is_blank input.request_id
      then (s, err empty_text)
      else if is_blank input.tool
      then (s, err empty_text)
      else evaluate_installed s i input

  unfoldable pub evaluate : PolicyGateState → GateEvaluationInput → Outcome
  unfolding evaluate_with
  evaluate s input = evaluate_with s input s.installation
