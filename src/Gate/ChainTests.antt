-- ===== src/Gate/ChainTests.antt =====
-- Chains of receipts, and histories of a gate, on small inputs.
use mathlib.Core.Path.{ap₂}
use Prim.Native.Char.{Char}
use Prim.Native.String.{◌++◌}
use text.Mathlib.TextLemmas.{
  nil-append, cons-append, append_assoc, append_cancel_left, head-eq_of_cons-eq, tail-eq_of_cons-eq,
}
use angel_cloud.Runtime.{Runtime}
use angel_cloud.Gate.ReceiptText.{JsonTexts, first_code, first_code-append}
use angel_cloud.Prelude.{
  String, zero, suc, arith, sym, ap, ◌∙◌, inl, inr, some, map, ◌≡◌, ◌⊎◌, refl, ℕ, false, none, List,
  [], ◌∷◌, ok,
}
use angel_cloud.Gate.State.{
  deny, gateway, ReceiptBody, PolicyGateState, create_policy_gate_state, change_all,
}
use angel_cloud.Gate.Receipts.{receipt_body, append_receipt, verify_chain, intact}
use angel_cloud.Gate.Chain.{Collision, verify_chain-append_receipt, verify_chain-commits}
use angel_cloud.Gate.Evaluate.{evaluate}
use angel_cloud.Gate.Frame.{Framed, evaluate-Framed}
use angel_cloud.Gate.Object.{
  Operation, Call, on_gate, installs, evaluates, changes, run_object, verify_object,
}
use angel_cloud.Gate.Reach.{verify_object-run_object}
use angel_cloud.Gate.Stable.{Extends, state_of, run_object-Extends}
use angel_cloud.Fixtures.{
  toy, toy-Sha256Digests, fresh_gate, demo_command, demo_installation, installed_gate, demo_call,
}

abbrev demo_body : ReceiptBody
demo_body =
    receipt_body toy fresh_gate demo_installation demo_call none none "" deny "not allowlisted"

-- A runtime whose texts are marked in JSON: a stroke before every character, and numbers in unary.
abbrev marked : String → String
marked String.[] = "\""
marked (String.◌∷◌ c s) = String.◌∷◌ "-" (String.◌∷◌ c (marked s))

abbrev unary : ℕ → String
unary zero = ""
unary (suc n) = String.◌∷◌ "1" (unary n)

abbrev exact : Runtime
exact = record toy { quote = λ s. "\"" ++ marked s; decimal = unary }

marked_step :
    (c : Char) (s x : String)
    → marked (String.◌∷◌ c s) ++ x ≡ String.◌∷◌ "-" (String.◌∷◌ c (marked s ++ x))
marked_step c s x =
    cons-append "-" (String.◌∷◌ c (marked s)) x
    ∙ ap (λ (u : String). String.◌∷◌ "-" u) (cons-append c (marked s) x)

ends_apart : (d : Char) (t x y : String) → "\"" ++ x ≡ marked (String.◌∷◌ d t) ++ y → ⊥
ends_apart d t x y h =
    let same : first_code "\"" ≡ 45 =
      sym (first_code-append "\"" x refl) ∙ ap first_code (h ∙ marked_step d t y) in
    omega (arith, same)

marked_ends : (s t x y : String) → marked s ++ x ≡ marked t ++ y → (s ≡ t) × (x ≡ y)
marked_ends String.[] String.[] x y h = (refl, append_cancel_left "\"" x y h)
marked_ends String.[] (String.◌∷◌ d t) x y h = absurd (ends_apart d t x y h)
marked_ends (String.◌∷◌ c s) String.[] x y h = absurd (ends_apart c s y x (sym h))
marked_ends (String.◌∷◌ c s) (String.◌∷◌ d t) x y h =
    let inner = tail-eq_of_cons-eq (sym (marked_step c s x) ∙ h ∙ marked_step d t y) in
    let (same, rest) = marked_ends s t x y (tail-eq_of_cons-eq inner) in
    (ap₂ String.◌∷◌ (head-eq_of_cons-eq inner) same, rest)

end_apart : (n : ℕ) (e x z : String) → (e ≡ ",") ⊎ (e ≡ "}") → e ++ x ≡ unary (suc n) ++ z → ⊥
end_apart n e x z k h =
    let later : first_code (unary (suc n) ++ z) ≡ 49 = first_code-append (unary (suc n)) z refl in
    elim k [
      | inl q ↦
          let same : first_code "," ≡ 49 =
            sym (first_code-append "," x refl)
            ∙ ap (λ u. first_code (u ++ x)) (sym q)
            ∙ ap first_code h
            ∙ later in
          omega (arith, same)
      | inr q ↦
          let same : first_code "}" ≡ 49 =
            sym (first_code-append "}" x refl)
            ∙ ap (λ u. first_code (u ++ x)) (sym q)
            ∙ ap first_code h
            ∙ later in
          omega (arith, same)
    ]

unary_ends :
    (m n : ℕ) (e x y : String)
    → (e ≡ ",") ⊎ (e ≡ "}")
    → unary m ++ (e ++ x) ≡ unary n ++ (e ++ y)
    → (m ≡ n) × (x ≡ y)
unary_ends zero zero e x y k h =
    (refl, append_cancel_left e x y (append_cancel_left "" (e ++ x) (e ++ y) h))
unary_ends zero (suc n) e x y k h =
    absurd (end_apart n e x (e ++ y) k (sym (nil-append (e ++ x)) ∙ h))
unary_ends (suc m) zero e x y k h =
    absurd (end_apart m e y (e ++ x) k (sym (h ∙ nil-append (e ++ y))))
unary_ends (suc m) (suc n) e x y k h =
    let (same, rest) = unary_ends m n e x y k (
      tail-eq_of_cons-eq
        (sym (cons-append "1" (unary m) (e ++ x)) ∙ h ∙ cons-append "1" (unary n) (e ++ y))) in
    (ap suc same, rest)

exact-JsonTexts : JsonTexts exact
exact-JsonTexts = record {
  quote_opens = λ s. (marked s, refl);
  quote_ends = λ s t x y h. marked_ends s t x y (
      append_cancel_left "\"" (marked s ++ x) (marked t ++ y)
        (sym (append_assoc "\"" (marked s) x) ∙ h ∙ append_assoc "\"" (marked t) y));
  decimal_ends = unary_ends;
}

exact_intact : verify_chain exact fresh_gate ≡ intact 0
unfolding verify_chain create_policy_gate_state
exact_intact = refl

abbrev one_receipt : PolicyGateState
one_receipt = (append_receipt exact fresh_gate demo_body).0

one_intact : verify_chain exact one_receipt ≡ intact 1
one_intact = verify_chain-append_receipt exact fresh_gate demo_body 0 exact_intact

verify_chain-commits_example :
    (one_receipt.receipts ≡ one_receipt.receipts)
    ⊎ Collision exact one_receipt.receipts one_receipt.receipts
verify_chain-commits_example =
    verify_chain-commits exact exact-JsonTexts one_receipt one_receipt 1 one_intact one_intact refl

evaluate-Framed_example : Framed toy installed_gate (evaluate toy installed_gate demo_call)
evaluate-Framed_example = evaluate-Framed toy installed_gate demo_call

abbrev demo_history : List Call
demo_history =
    on_gate (installs demo_command)
    ∷ on_gate (evaluates demo_call)
    ∷ on_gate (changes (change_all false 0))
    ∷ on_gate (evaluates demo_call)
    ∷ []

verify_object-run_object_example :
    (n : ℕ) × (verify_object toy gateway (run_object toy gateway none demo_history) ≡ ok (intact n))
verify_object-run_object_example =
    verify_object-run_object toy gateway demo_history toy-Sha256Digests

abbrev demo_operations : List Operation
demo_operations =
    installs demo_command
    ∷ evaluates demo_call
    ∷ changes (change_all false 0)
    ∷ installs demo_command
    ∷ []

run_object-Extends_example : Extends (state_of toy gateway (some installed_gate)) (
    state_of toy gateway
      (run_object toy gateway (some installed_gate) (map on_gate demo_operations)))
run_object-Extends_example = run_object-Extends toy gateway (some installed_gate) demo_operations
