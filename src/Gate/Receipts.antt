-- ===== src/Gate/Receipts.antt =====
-- The hash chain of receipts of a gate (src/gate.ts).
use angel_cloud.Prelude.{
  ℕ, suc, String, Option, none, some, List, [], ◌∷◌, ◌++◌, ◌==◌, length, if◌then◌else◌,
}
use angel_cloud.Runtime.{Runtime}
use angel_cloud.Gate.State.{
  HostedTool, GateToolBinding, GateInstallation, Verdict, ReceiptBody, GateReceipt, PolicyGateState,
  GateEvaluationInput, zero_hash,
}
use angel_cloud.Gate.Encode.{digest_json, availability_json, receipt_json}

-- What verifyChain answers: each failure names the receipt at which it stops.
pub data GateChainVerification : Type 0 where
  intact : ℕ → GateChainVerification
  broken_link broken_hash broken_checkpoint : ℕ → GateChainVerification

abbrev map_option {ℓ κ} : {A : Type ℓ} {B : Type κ} → (A → B) → Option A → Option B
map_option f none = none
map_option f (some a) = some (f a)

abbrev tool_name : Option HostedTool → String → String
tool_name none name = name
tool_name (some t) name = t.name

module _ (r : Runtime) where
  unfoldable pub receipt_hash : ReceiptBody → String → String
  receipt_hash body previous = digest_json r (receipt_json r body previous)

  unfoldable pub receipt_body :
      PolicyGateState
      → GateInstallation
      → GateEvaluationInput
      → Option HostedTool
      → Option GateToolBinding
      → String
      → Verdict
      → String
      → ReceiptBody
  receipt_body s i input tool source arguments_digest decision detail = record {
    sequence = length s.receipts;
    gate = s.gate;
    identity = i.identity;
    deployment_id = i.deployment_id;
    version = i.version;
    policy_digest = i.policy_digest;
    bindings_digest = i.bindings_digest;
    availability_digest = digest_json r (availability_json r i.policy_digest s.availability);
    request_id = input.request_id;
    tool = tool_name tool input.tool;
    provider = map_option (λ b. b.provider) source;
    operation = map_option (λ t. t.operation) tool;
    connection_id = map_option (λ b. b.connection_id) source;
    connection_ref = map_option (λ b. b.connection_ref) source;
    connection_identity_label = map_option (λ b. b.identity_label) source;
    arguments_digest = arguments_digest;
    decision = decision;
    detail = detail;
  }

  -- The receipt that follows the checkpoint.
  unfoldable pub chained : PolicyGateState → ReceiptBody → GateReceipt
  unfolding receipt_hash
  chained s body = record {
    body = body;
    previous_hash = s.checkpoint;
    hash = receipt_hash body s.checkpoint;
  }

  unfoldable pub push_receipt : PolicyGateState → GateReceipt → PolicyGateState
  push_receipt s receipt = record s {
    receipts = s.receipts ++ receipt ∷ [];
    checkpoint = receipt.hash;
  }

  unfoldable pub append_receipt : PolicyGateState → ReceiptBody → PolicyGateState × GateReceipt
  unfolding chained push_receipt
  append_receipt s body = (push_receipt s (chained s body), chained s body)

  -- The loop of verifyChain from the receipt at `index`, after one with hash `previous`.
  unfoldable pub verify_from : ℕ → String → String → List GateReceipt → GateChainVerification
  unfolding receipt_hash
  verify_from index previous checkpoint [] =
      if checkpoint == previous then intact index else broken_checkpoint index
  verify_from index previous checkpoint (x ∷ xs) =
      let rest = verify_from (suc index) x.hash checkpoint xs in
      if x.previous_hash == previous
      then if receipt_hash x.body x.previous_hash == x.hash then rest else broken_hash index
      else broken_link index

  unfoldable pub verify_chain : PolicyGateState → GateChainVerification
  unfolding verify_from
  verify_chain s = verify_from 0 zero_hash s.checkpoint s.receipts
