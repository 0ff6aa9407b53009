-- ===== src/Gate/Grant.antt =====
-- What a gate has established when it lets a call through (src/gate.ts).
use angel_cloud.Prelude.{
  String, ◌≡◌, refl, sym, ap, ◌∙◌, subst, true, Option, none, some, ◌==◌, eq_iff, Memᴰ, All, ok,
  Bool-cases, Option-cases, find-eq-some, inl, inr,
}
use angel_cloud.Prelude.Dict.{Dict, lookup, erase}
use angel_cloud.Text.{is_blank}
use angel_cloud.Json.{Json, obj, fields}
use angel_cloud.Runtime.{Runtime}
use angel_cloud.Decision.Call.{AngelTool, allowed}
use angel_cloud.Decision.Meaning.{Admits}
use angel_cloud.Gate.State.{
  HostedTool, HostedProvider, HttpRequestTemplate, GateToolBinding, GateInstallation, GateReceipt,
  PolicyGateState, GateEvaluationInput, passed,
}
use angel_cloud.Gate.Availability.{find_tool, same_tool}
use angel_cloud.Gate.Bindings.{BindingSelection, selected, unselected, selector, select_binding}
use angel_cloud.Gate.Receipts.{append_receipt}
use angel_cloud.Gate.Install.{assert_supported_artifact_format}
use angel_cloud.Gate.Selection.{IsSelected, select_binding-IsSelected}
use angel_cloud.Gate.Evaluate.{
  rule_of, decide, run_selection, evaluate_tool, admitted, evaluate_installed, evaluate_with,
  evaluate,
}
use angel_cloud.Gate.Concluded.{allow_body, decide-permits, IsConcluded, conclude-IsConcluded}

module _ (r : Runtime) where
  -- The call was let through with these effective arguments, to this origin with this request.
  pub record IsGranted (s : PolicyGateState) (input : GateEvaluationInput) (t : PolicyGateState)
      (args : Dict Json) (origin : String) (request : HttpRequestTemplate) (receipt : GateReceipt)
      : Type 0 where
    pub installed : GateInstallation
    pub active : s.installation ≡ some installed
    pub admits : admitted r s.gate s input ≡ true
    pub format : installed.artifact.format ≡ "angel.version.v2"
    pub tool : HostedTool
    pub listed : Memᴰ tool installed.artifact.tools
    pub asked : r.to_upper tool.name ≡ r.to_upper input.tool
    pub binding : GateToolBinding
    pub bound : IsSelected r installed s.availability tool (selector r s.gate input) binding
    pub decided :
        decide r tool (erase "angel_connection" input.arguments) ≡ ok (allowed (rule_of tool) args)
    pub guarded : All (λ g. Admits r g (obj (fields args))) tool.arg_guards
    pub provider : HostedProvider
    pub provided : lookup tool.provider installed.artifact.providers ≡ some provider
    pub pinned : origin ≡ provider.origin
    pub sealed : request ≡ tool.request
    pub recorded : t ≡ (append_receipt r s (allow_body r s installed input tool binding args)).0
    pub receipted :
        receipt ≡ (append_receipt r s (allow_body r s installed input tool binding args)).1

  module _ (s t : PolicyGateState) (i : GateInstallation) (input : GateEvaluationInput)
      (args : Dict Json) (origin : String) (request : HttpRequestTemplate)
      (receipt : GateReceipt) where
    -- A tool that lets the call through, found in the artifact.
    record IsPassed (tool : HostedTool) : Type 0 where
      binding : GateToolBinding
      bound : IsSelected r i s.availability tool (selector r s.gate input) binding
      concluded :
          IsConcluded r s t i input args origin request receipt tool binding
            (decide r tool (erase "angel_connection" input.arguments))

    run_selection-IsPassed :
        (tool : HostedTool) (digest : String) (c : BindingSelection)
        → select_binding r s.gate i s.availability tool input ≡ c
        → run_selection r s i input tool digest c ≡ (t, ok (passed args origin request receipt))
        → IsPassed tool
    run_selection-IsPassed tool digest (unselected reason detail) e h = cc
    run_selection-IsPassed tool digest (selected b sent) e h =
        let (bound, same) =
          select_binding-IsSelected r i s.availability tool s.gate input b sent e in
        record {
          binding = b;
          bound = bound;
          concluded =
              subst
                (λ (z : Dict Json).
                  IsConcluded r s t i input args origin request receipt tool b (decide r tool z))
                same
                (conclude-IsConcluded r s t i input args origin request receipt tool b digest
                  (decide r tool sent) h);
        }

    evaluate_tool-IsPassed :
        (digest : String) (o : Option HostedTool)
        → evaluate_tool r s i input digest o ≡ (t, ok (passed args origin request receipt))
        → (tool : HostedTool) × (o ≡ some tool) × IsPassed tool
    unfolding evaluate_tool
    evaluate_tool-IsPassed digest none h = cc
    evaluate_tool-IsPassed digest (some tool) h =
        (tool, refl, run_selection-IsPassed tool digest _ refl h)

    tool-IsGranted :
        s.installation ≡ some i
        → admitted r s.gate s input ≡ true
        → i.artifact.format ≡ "angel.version.v2"
        → (digest : String)
        → evaluate_tool r s i input digest (find_tool r i.artifact input.tool)
          ≡ (t, ok (passed args origin request receipt))
        → IsGranted s input t args origin request receipt
    unfolding find_tool same_tool
    tool-IsGranted active admits format digest h =
        let (tool, found, v) =
          evaluate_tool-IsPassed digest (find_tool r i.artifact input.tool) h in
        let (listed, same) =
          find-eq-some (λ x. same_tool r x.name input.tool) i.artifact.tools found in
        let c = v.concluded in
        let (own, guarded) = decide-permits r tool _ args c.rule c.decided in
        record {
          installed = i;
          active = active;
          admits = admits;
          format = format;
          tool = tool;
          listed = listed;
          asked = (eq_iff _ _).0 same;
          binding = v.binding;
          bound = v.bound;
          decided = c.decided ∙ ap (λ (q : AngelTool). ok (allowed q args)) (sym own);
          guarded = guarded;
          provider = c.provider;
          provided = c.provided;
          pinned = c.pinned;
          sealed = c.sealed;
          recorded = c.recorded;
          receipted = c.receipted;
        }

    evaluate_installed-IsGranted :
        s.installation ≡ some i
        → evaluate_installed r s i input ≡ (t, ok (passed args origin request receipt))
        → IsGranted s input t args origin request receipt
    unfolding evaluate_installed assert_supported_artifact_format
    evaluate_installed-IsGranted e h = elim (Bool-cases (admitted r s.gate s input)) [
      | inl a ↦ elim (Bool-cases (i.artifact.format == "angel.version.v2")) [
        | inl f ↦
            tool-IsGranted e a ((eq_iff _ _).0 f) _
              (rw (a, f, evaluate_installed, assert_supported_artifact_format) at h)
        | inr f ↦ cc (rw (a, f, evaluate_installed, assert_supported_artifact_format) at h)
      ]
      | inr a ↦ cc (rw (a, evaluate_installed) at h)
    ]

    evaluate_with-IsGranted :
        s.installation ≡ some i
        → evaluate_with r s input (some i) ≡ (t, ok (passed args origin request receipt))
        → IsGranted s input t args origin request receipt
    unfolding evaluate_with
    evaluate_with-IsGranted e h = elim (Bool-cases (is_blank input.request_id)) [
      | inl b ↦ cc (rw (b, evaluate_with) at h)
      | inr b ↦ elim (Bool-cases (is_blank input.tool)) [
        | inl c ↦ cc (rw (b, c, evaluate_with) at h)
        | inr c ↦ evaluate_installed-IsGranted e (rw (b, c, evaluate_with) at h)
      ]
    ]

  -- A call that is let through is admitted, names a listed tool of the installed artifact, goes
  -- through a binding of it that is selected and switched on, and satisfies every guard of the
  -- tool with the arguments that go on; the origin and the request are the artifact's own, and
  -- the state is the old one with the call's receipt appended.
  pub evaluate-IsGranted :
      (s t : PolicyGateState) (input : GateEvaluationInput) (args : Dict Json) (origin : String)
      (request : HttpRequestTemplate) (receipt : GateReceipt)
      → evaluate r s input ≡ (t, ok (passed args origin request receipt))
      → IsGranted s input t args origin request receipt
  unfolding evaluate
  evaluate-IsGranted s t input args origin request receipt h = elim (Option-cases s.installation) [
    | inl e ↦ cc (
        subst
          (λ (o : Option GateInstallation).
            evaluate_with r s input o ≡ (t, ok (passed args origin request receipt)))
          e h)
    | inr (i, e) ↦ evaluate_with-IsGranted s t i input args origin request receipt e (
        subst
          (λ (o : Option GateInstallation).
            evaluate_with r s input o ≡ (t, ok (passed args origin request receipt)))
          e h)
  ]
