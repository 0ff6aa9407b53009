-- ===== src/Gate/Concluded.antt =====
-- What is known of a call that is concluded once its tool and its binding are (src/gate.ts).
use angel_cloud.Prelude.{
  String, ◌≡◌, refl, sym, ap, ◌∙◌, subst, Option, none, some, [], ◌∷◌, eq_refl, arith, All, Result,
  ok, err, ok-injective,
}
use angel_cloud.Prelude.Dict.{Dict, lookup, insert}
use angel_cloud.Json.{Json, obj, fields, canonical_json}
use angel_cloud.Runtime.{Runtime}
use angel_cloud.Decision.Call.{
  AngelTool, Decision, allowed, denied, compile_rules, compile_from, evaluate_tool_call, or_empty,
}
use angel_cloud.Decision.Meaning.{Admits}
use angel_cloud.Decision.Verdict.{evaluate_tool_call_iff}
use angel_cloud.Gate.State.{
  HostedTool, HostedProvider, HttpRequestTemplate, GateToolBinding, GateInstallation, allow,
  ReceiptBody, GateReceipt, PolicyGateState, GateEvaluationInput, passed, GateError,
}
use angel_cloud.Gate.Encode.{digest_json}
use angel_cloud.Gate.Receipts.{receipt_body, append_receipt}
use angel_cloud.Gate.Evaluate.{rule_of, call_defaults, answer_allowed, decide, conclude}

module _ (r : Runtime) where
  -- The receipt of a call that is let through, with the digest of its effective arguments.
  abbrev pub allow_body :
      PolicyGateState
      → GateInstallation
      → GateEvaluationInput
      → HostedTool
      → GateToolBinding
      → Dict Json
      → ReceiptBody
  allow_body s i input tool b args =
      receipt_body r s i input (some tool) (some b) (digest_json r (obj (fields args))) allow
        "exact policy allowed"

  -- A table of one rule never collides.
  decide_lem :
      (tool : HostedTool) (sent : Dict Json)
      → decide r tool sent
        ≡ ok (
            evaluate_tool_call r
              ((r.to_upper tool.name, rule_of tool) ∷ [])
              tool.name
              (canonical_json r.quote (obj (fields sent)))
              (some (call_defaults tool)))
  unfolding decide compile_rules compile_from lookup insert
  decide_lem tool sent = refl

  pub decide-permits :
      (tool : HostedTool) (sent args : Dict Json) (rule : AngelTool)
      → decide r tool sent ≡ ok (allowed rule args)
      → (rule_of tool ≡ rule) × All (λ g. Admits r g (obj (fields args))) tool.arg_guards
  decide-permits tool sent args rule h =
      let call = ok-injective (sym (decide_lem tool sent) ∙ h) in
      let p = (evaluate_tool_call_iff r _ _ _ _ rule args).0 call in
      let same : rule_of tool ≡ rule = own p.listed in
      (
        same,
        subst (λ (q : AngelTool). All (λ g. Admits r g (obj (fields args))) (or_empty q.arg_guards))
            (sym same) p.guarded,
      )
    where
      own :
          lookup (r.to_upper tool.name) ((r.to_upper tool.name, rule_of tool) ∷ []) ≡ some rule
          → rule_of tool ≡ rule
      own e = unfold lookup in ground (arith, eq_refl (r.to_upper tool.name))

  answer_allowed-inv :
      (next t : PolicyGateState) (q request : HttpRequestTemplate) (sent args : Dict Json)
      (made receipt : GateReceipt) (origin : String) (o : Option HostedProvider)
      → answer_allowed r next q sent made o ≡ (t, ok (passed args origin request receipt))
      → (p : HostedProvider) × (o ≡ some p)
        × (origin ≡ p.origin)
        × (request ≡ q)
        × (sent ≡ args)
        × (t ≡ next)
        × (receipt ≡ made)
  answer_allowed-inv next t q request sent args made receipt origin none h = cc
  answer_allowed-inv next t q request sent args made receipt origin (some p) h =
      (p, refl, cc, cc, cc, cc, cc)

  module _ (s t : PolicyGateState) (i : GateInstallation) (input : GateEvaluationInput)
      (args : Dict Json) (origin : String) (request : HttpRequestTemplate)
      (receipt : GateReceipt) where
    -- What remains to be known once the tool and the binding are.
    pub record IsConcluded (tool : HostedTool) (b : GateToolBinding) (d : Result GateError Decision)
        : Type 0 where
      pub rule : AngelTool
      pub decided : d ≡ ok (allowed rule args)
      pub provider : HostedProvider
      pub provided : lookup tool.provider i.artifact.providers ≡ some provider
      pub pinned : origin ≡ provider.origin
      pub sealed : request ≡ tool.request
      pub recorded : t ≡ (append_receipt r s (allow_body s i input tool b args)).0
      pub receipted : receipt ≡ (append_receipt r s (allow_body s i input tool b args)).1

    pub conclude-IsConcluded :
        (tool : HostedTool) (b : GateToolBinding) (digest : String) (d : Result GateError Decision)
        → conclude r s i input tool b digest d ≡ (t, ok (passed args origin request receipt))
        → IsConcluded tool b d
    conclude-IsConcluded tool b digest (err e) h = cc
    conclude-IsConcluded tool b digest (ok (denied message)) h = cc
    conclude-IsConcluded tool b digest (ok (allowed rule out)) h =
        let (p, provided, pinned, sealed, same, recorded, receipted) =
          answer_allowed-inv _ t tool.request request out args _ receipt origin _ h in
        record {
          rule = rule;
          decided = ap (λ (z : Dict Json). ok (allowed rule z)) same;
          provider = p;
          provided = provided;
          pinned = pinned;
          sealed = sealed;
          recorded =
              recorded
              ∙ ap (λ (z : Dict Json). (append_receipt r s (allow_body s i input tool b z)).0) same;
          receipted =
              receipted
              ∙ ap (λ (z : Dict Json). (append_receipt r s (allow_body s i input tool b z)).1) same;
        }
