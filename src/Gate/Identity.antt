-- ===== src/Gate/Identity.antt =====
-- gateReceiptIdentity and gateReceiptMismatch of src/gate.ts.
use angel_cloud.Prelude.{
  ℕ, String, Bool, true, false, Option, none, some, List, [], ◌∷◌, ◌==◌, nat_eq, if◌then◌else◌,
}
use angel_cloud.Gate.State.{GateReceipt}

pub data ReceiptField : Type 0 where
  of_deployment_id of_version of_policy_digest of_bindings_digest : ReceiptField
  of_availability_digest of_tool of_connection_ref : ReceiptField

pub record GateReceiptIdentity : Type 0 where
  pub deployment_id : String
  pub version : ℕ
  pub policy_digest : String
  pub bindings_digest : String
  pub availability_digest : String
  pub tool : String
  pub connection_ref : Option String

-- string | number | null
pub data FieldValue : Type 0 where
  text : String → FieldValue
  number : ℕ → FieldValue
  null : FieldValue

pub record GateReceiptMismatch : Type 0 where
  pub field : ReceiptField
  pub expected : FieldValue
  pub actual : FieldValue

unfoldable pub gate_receipt_identity : GateReceipt → GateReceiptIdentity
gate_receipt_identity receipt = record {
  deployment_id = receipt.body.deployment_id;
  version = receipt.body.version;
  policy_digest = receipt.body.policy_digest;
  bindings_digest = receipt.body.bindings_digest;
  availability_digest = receipt.body.availability_digest;
  tool = receipt.body.tool;
  connection_ref = receipt.body.connection_ref;
}

abbrev pub optional_text : Option String → FieldValue
optional_text none = null
optional_text (some s) = text s

-- value[field]
abbrev pub field_of : GateReceiptIdentity → ReceiptField → FieldValue
field_of i of_deployment_id = text i.deployment_id
field_of i of_version = number i.version
field_of i of_policy_digest = text i.policy_digest
field_of i of_bindings_digest = text i.bindings_digest
field_of i of_availability_digest = text i.availability_digest
field_of i of_tool = text i.tool
field_of i of_connection_ref = optional_text i.connection_ref

-- expected === actual
abbrev pub same_value : FieldValue → FieldValue → Bool
same_value (text s) (text t) = s == t
same_value (number m) (number n) = nat_eq m n
same_value null null = true
same_value _ _ = false

abbrev pub gate_receipt_identity_fields : List ReceiptField
gate_receipt_identity_fields =
    of_deployment_id ∷ of_version ∷ of_policy_digest ∷ of_bindings_digest ∷ of_availability_digest
    ∷ of_tool ∷ of_connection_ref ∷ []

unfoldable pub first_mismatch :
    GateReceiptIdentity → GateReceiptIdentity → List ReceiptField → Option GateReceiptMismatch
first_mismatch expected actual [] = none
first_mismatch expected actual (f ∷ fs) =
    if same_value (field_of expected f) (field_of actual f)
    then first_mismatch expected actual fs
    else some (record { field = f; expected = field_of expected f; actual = field_of actual f })

unfoldable pub gate_receipt_mismatch :
    GateReceiptIdentity → GateReceipt → Option GateReceiptMismatch
unfolding first_mismatch gate_receipt_identity
gate_receipt_mismatch expected actual =
    first_mismatch expected (gate_receipt_identity actual) gate_receipt_identity_fields
