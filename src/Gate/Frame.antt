-- ===== src/Gate/Frame.antt =====
-- What one evaluation does to a gate: it appends at most one receipt, and changes nothing else.
use angel_cloud.Prelude.{
  ◌≡◌, refl, inl, inr, Option, none, some, Bool-cases, Result, ok, err, ℕ, suc, String, ◌==◌,
}
use angel_cloud.Prelude.Dict.{Dict}
use angel_cloud.Runtime.{Runtime}
use angel_cloud.Text.{is_blank}
use angel_cloud.Gate.State.{
  PolicyGateState, GateInstallation, GateEvaluationInput, GateEvaluation, passed, refused,
  GateReceipt, HostedTool, HostedProvider, HttpRequestTemplate, GateToolBinding, GateError,
  no_provider, ReceiptBody,
}
use angel_cloud.Json.{Json}
use angel_cloud.Decision.Call.{Decision, allowed, denied}
use angel_cloud.Gate.Receipts.{append_receipt, verify_chain, intact}
use angel_cloud.Gate.Chain.{verify_chain-append_receipt}
use angel_cloud.Gate.Availability.{find_tool}
use angel_cloud.Gate.Bindings.{BindingSelection, selected, unselected, select_binding}
use angel_cloud.Gate.Evaluate.{
  Outcome, evaluate, evaluate_with, evaluate_installed, evaluate_tool, run_selection, conclude,
  answer_allowed, decide, admitted,
}

-- The receipt that an answer carries.
abbrev pub receipt_of : GateEvaluation → GateReceipt
receipt_of (passed args origin request receipt) = receipt
receipt_of (refused reason receipt) = receipt

module _ (r : Runtime) where
  -- The state is as before and the call threw; or one receipt was appended, and is the answer's
  -- unless the call threw for want of a provider.
  pub data Framed (s : PolicyGateState) : Outcome → Type 0 where
    untouched : (e : GateError) → Framed s (s, err e)
    answered :
        (body : ReceiptBody) (answer : GateEvaluation)
        → receipt_of answer ≡ (append_receipt r s body).1
        → Framed s ((append_receipt r s body).0, ok answer)
    providerless : (body : ReceiptBody) → Framed s ((append_receipt r s body).0, err no_provider)

  module _ (s : PolicyGateState) (i : GateInstallation) (input : GateEvaluationInput) where
    answer_allowed-Framed :
        (body : ReceiptBody) (q : HttpRequestTemplate) (args : Dict Json)
        (o : Option HostedProvider)
        → Framed s
            (answer_allowed r (append_receipt r s body).0 q args (append_receipt r s body).1 o)
    answer_allowed-Framed body q args none = providerless body
    answer_allowed-Framed body q args (some p) = answered body _ refl

    conclude-Framed :
        (t : HostedTool) (b : GateToolBinding) (d : String) (o : Result GateError Decision)
        → Framed s (conclude r s i input t b d o)
    unfolding append_receipt
    conclude-Framed t b d (err e) = untouched e
    conclude-Framed t b d (ok (denied message)) = answered _ _ refl
    conclude-Framed t b d (ok (allowed rule args)) = answer_allowed-Framed _ t.request args _

    run_selection-Framed :
        (t : HostedTool) (d : String) (o : BindingSelection)
        → Framed s (run_selection r s i input t d o)
    unfolding append_receipt
    run_selection-Framed t d (unselected reason detail) = answered _ _ refl
    run_selection-Framed t d (selected b args) = conclude-Framed t b d (decide r t args)

    evaluate_tool-Framed :
        (d : String) (o : Option HostedTool) → Framed s (evaluate_tool r s i input d o)
    unfolding evaluate_tool append_receipt
    evaluate_tool-Framed d none = answered _ _ refl
    evaluate_tool-Framed d (some t) =
        run_selection-Framed t d (select_binding r s.gate i s.availability t input)

    evaluate_installed-Framed : Framed s (evaluate_installed r s i input)
    unfolding evaluate_installed append_receipt
    evaluate_installed-Framed = elim (Bool-cases (admitted r s.gate s input)) [
      | inr e ↦ rw e (answered _ _ refl)
      | inl e ↦ elim (Bool-cases (i.artifact.format == "angel.version.v2")) [
        | inr f ↦ rw (e, f, evaluate_installed) (untouched _)
        | inl f ↦
            rw (e, f, evaluate_installed)
              (evaluate_tool-Framed _ (find_tool r i.artifact input.tool))
      ]
    ]

  evaluate_with-Framed :
      (s : PolicyGateState) (input : GateEvaluationInput) (o : Option GateInstallation)
      → Framed s (evaluate_with r s input o)
  unfolding evaluate_with
  evaluate_with-Framed s input none = untouched _
  evaluate_with-Framed s input (some i) = elim (Bool-cases (is_blank input.request_id)) [
    | inl f ↦ rw (f, evaluate_with) (untouched _)
    | inr f ↦ elim (Bool-cases (is_blank input.tool)) [
      | inl g ↦ rw (f, g, evaluate_with) (untouched _)
      | inr g ↦ rw (f, g, evaluate_with) (evaluate_installed-Framed s i input)
    ]
  ]

  -- An evaluation throws and leaves the gate alone, or appends one receipt and changes nothing
  -- else. The receipt is the one that the answer carries, unless the call throws for want of a
  -- provider.
  pub evaluate-Framed :
      (s : PolicyGateState) (input : GateEvaluationInput) → Framed s (evaluate r s input)
  unfolding evaluate
  evaluate-Framed s input = evaluate_with-Framed s input s.installation

  pub Framed-intact :
      {s : PolicyGateState} {o : Outcome} {n : ℕ}
      → Framed s o
      → verify_chain r s ≡ intact n
      → (m : ℕ) × (verify_chain r o.0 ≡ intact m)
  Framed-intact {s} {n = n} (untouched e) h = (n, h)
  Framed-intact {s} {n = n} (answered body answer e) h =
      (suc n, verify_chain-append_receipt r s body n h)
  Framed-intact {s} {n = n} (providerless body) h =
      (suc n, verify_chain-append_receipt r s body n h)
