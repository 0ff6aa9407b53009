-- ===== src/Gate/Tests.antt =====
-- Runs of the gate on a small installation, and the hypotheses of its theorems at one.
use angel_cloud.Prelude.{◌≡◌, refl, Bool, true, false, some, [], ◌∷◌, Result, ok, err}
use angel_cloud.Prelude.Dict.{lookup}
use angel_cloud.Json.{str, canonical_json}
use angel_cloud.Gate.State.{
  PolicyGateState, GateEvaluation, passed, refused, GateReceipt, create_policy_gate_state,
}
use angel_cloud.Gate.Install.{install, new_installation}
use angel_cloud.Text.{code_unit_le, is_blank, is_sha256_hex}
use angel_cloud.Crypto.{sha256_hex, timing_safe_equal_text}
use angel_cloud.Gate.Keys.{validated_gateway_keys, authenticated}
use angel_cloud.Gate.Bindings.{assert_bindings, select_binding}
use angel_cloud.Gate.Migrate.{migrate_installed_availability}
use angel_cloud.Gate.Evaluate.{evaluate, decide}
use angel_cloud.Gate.Concluded.{allow_body}
use angel_cloud.Gate.Grant.{IsGranted, evaluate-IsGranted}
use angel_cloud.Gate.Receipts.{append_receipt}
use angel_cloud.Fixtures.{
  toy, fresh_gate, demo_command, demo_installation, installed_gate, demo_call, send_request,
  send_tool, send_binding,
}

abbrev is_ok {ℓ κ} : {E : Type ℓ} {A : Type κ} → Result E A → Bool
is_ok (ok a) = true
is_ok (err e) = false

install_test : is_ok (install toy fresh_gate demo_command) ≡ true
unfolding install canonical_json code_unit_le sha256_hex create_policy_gate_state assert_bindings
    is_blank lookup validated_gateway_keys is_sha256_hex migrate_installed_availability
install_test = refl

abbrev given {ℓ κ} : {E : Type ℓ} {A : Type κ} → (A → Bool) → Result E A → Bool
given p (ok a) = p a
given p (err e) = false

abbrev passes : GateEvaluation → Bool
passes (passed args origin request receipt) = true
passes (refused reason receipt) = false

passes_test : given passes (evaluate toy installed_gate demo_call).1 ≡ true
unfolding evaluate install canonical_json code_unit_le sha256_hex create_policy_gate_state
    assert_bindings is_blank lookup validated_gateway_keys is_sha256_hex
    migrate_installed_availability authenticated timing_safe_equal_text select_binding decide
passes_test = refl

unkeyed_test :
    given passes (evaluate toy installed_gate (record demo_call { presented_key = some "yek" })).1
    ≡ false
unfolding evaluate install canonical_json code_unit_le sha256_hex create_policy_gate_state
    assert_bindings is_blank lookup validated_gateway_keys is_sha256_hex
    migrate_installed_availability authenticated timing_safe_equal_text
unkeyed_test = refl

guarded_test :
    given passes
      (evaluate toy installed_gate (record demo_call { arguments = ("bcc", str "x") ∷ [] })).1
    ≡ false
unfolding evaluate install canonical_json code_unit_le sha256_hex create_policy_gate_state
    assert_bindings is_blank lookup validated_gateway_keys is_sha256_hex
    migrate_installed_availability authenticated timing_safe_equal_text select_binding decide
guarded_test = refl

-- The receipt of the demonstration call, and the state after it.
abbrev demo_receipt : GateReceipt
demo_receipt =
    (append_receipt toy installed_gate (
      allow_body toy installed_gate demo_installation demo_call send_tool send_binding
        demo_call.arguments)).1

abbrev demo_after : PolicyGateState
demo_after =
    (append_receipt toy installed_gate (
      allow_body toy installed_gate demo_installation demo_call send_tool send_binding
        demo_call.arguments)).0

demo_run :
    evaluate toy installed_gate demo_call
    ≡ (demo_after, ok (passed demo_call.arguments "https://chat.test" send_request demo_receipt))
unfolding evaluate install canonical_json code_unit_le sha256_hex create_policy_gate_state
    assert_bindings is_blank lookup validated_gateway_keys is_sha256_hex
    migrate_installed_availability authenticated timing_safe_equal_text select_binding decide
    append_receipt new_installation
demo_run = refl

evaluate-IsGranted_example :
    IsGranted toy installed_gate demo_call demo_after demo_call.arguments "https://chat.test"
      send_request demo_receipt
evaluate-IsGranted_example =
    evaluate-IsGranted toy installed_gate demo_after demo_call demo_call.arguments
      "https://chat.test" send_request demo_receipt demo_run
