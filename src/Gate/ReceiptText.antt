-- ===== src/Gate/ReceiptText.antt =====
-- The text that a receipt is hashed as (receiptHash of src/gate.ts, canonicalJson of
-- packages/core/src/canonical-json.ts).
use Prim.Native.Char.{code}
use Prim.Native.String.{◌++◌}
use text.Mathlib.TextLemmas.{cons-append, append_assoc, append_cancel_left}
use angel_cloud.Prelude.{
  ℕ, arith, String, ◌≡◌, ◌⊎◌, inl, inr, refl, sym, ap, ◌∙◌, false, Option, none, some, List, [],
  ◌∷◌, nat_eq,
}
use angel_cloud.Prelude.Sort.{sort}
use angel_cloud.Text.{code_unit_le}
use angel_cloud.Json.{Json, str, canonical_json, join}
use angel_cloud.Runtime.{Runtime}
use angel_cloud.Gate.State.{
  GateKind, gateway, broker, RecordedEnvironment, hosted, preview, production, staging, Verdict,
  allow, deny, ReceiptBody,
}
use angel_cloud.Gate.Encode.{
  nullable, natural, gate_text, environment_text, verdict_text, receipt_json,
}

-- What is documented of JSON: the literal of a text begins with a quotation mark, and where it ends
-- can be told; a number in decimal ends before a comma and before a brace.
pub record JsonTexts (r : Runtime) : Type 0 where
  pub quote_opens : (s : String) → (t : String) × (r.quote s ≡ "\"" ++ t)
  pub quote_ends : (s t x y : String) → r.quote s ++ x ≡ r.quote t ++ y → (s ≡ t) × (x ≡ y)
  pub decimal_ends :
      (m n : ℕ) (e x y : String)
      → (e ≡ ",") ⊎ (e ≡ "}")
      → r.decimal m ++ (e ++ x) ≡ r.decimal n ++ (e ++ y)
      → (m ≡ n) × (x ≡ y)

abbrev pub first_code : String → ℕ
first_code String.[] = 0
first_code (String.◌∷◌ c s) = code c

pub first_code-append :
    (s t : String) → nat_eq (first_code s) 0 ≡ false → first_code (s ++ t) ≡ first_code s
first_code-append String.[] t h = cc
first_code-append (String.◌∷◌ c s) t h = rw cons-append refl

regrouped : (a b c z : String) → (a ++ (b ++ c)) ++ z ≡ a ++ (b ++ (c ++ z))
regrouped a b c z = append_assoc a (b ++ c) z ∙ ap (λ q. a ++ q) (append_assoc b c z)

-- The kinds of values in a receipt, and the fields of one with the kinds of their values.
data ValueKind : Type 0 where
  of_text of_number of_optional : ValueKind

abbrev Value : ValueKind → Type 0
Value of_text = String
Value of_number = ℕ
Value of_optional = Option String

abbrev Values : List (String × ValueKind) → Type 0
Values [] = Unit
Values ((key, kind) ∷ cs) = Value kind × Values cs

-- In the order of the keys.
abbrev receipt_fields : List (String × ValueKind)
receipt_fields =
    ("accountId", of_text)
    ∷ ("angelId", of_text)
    ∷ ("argumentsDigest", of_text)
    ∷ ("availabilityDigest", of_text)
    ∷ ("bindingsDigest", of_text)
    ∷ ("connectionId", of_optional)
    ∷ ("connectionIdentityLabel", of_optional)
    ∷ ("connectionRef", of_optional)
    ∷ ("decision", of_text)
    ∷ ("deploymentId", of_text)
    ∷ ("detail", of_text)
    ∷ ("environment", of_text)
    ∷ ("gate", of_text)
    ∷ ("operation", of_optional)
    ∷ ("policyDigest", of_text)
    ∷ ("previousHash", of_text)
    ∷ ("provider", of_optional)
    ∷ ("requestId", of_text)
    ∷ ("sequence", of_number)
    ∷ ("tool", of_text)
    ∷ ("version", of_number)
    ∷ []

abbrev receipt_values : ReceiptBody → String → Values receipt_fields
receipt_values b previous = (
  b.identity.account_id,
  (
    b.identity.angel_id,
    (
      b.arguments_digest,
      (
        b.availability_digest,
        (
          b.bindings_digest,
          (
            b.connection_id,
            (
              b.connection_identity_label,
              (
                b.connection_ref,
                (
                  verdict_text b.decision,
                  (
                    b.deployment_id,
                    (
                      b.detail,
                      (
                        environment_text b.identity.environment,
                        (
                          gate_text b.gate,
                          (
                            b.operation,
                            (
                              b.policy_digest,
                              (
                                previous,
                                (
                                  b.provider,
                                  (b.request_id, (b.sequence, (b.tool, (b.version, tt)))),
                                ),
                              ),
                            ),
                          ),
                        ),
                      ),
                    ),
                  ),
                ),
              ),
            ),
          ),
        ),
      ),
    ),
  ),
)

gate_text-injective : (k l : GateKind) → gate_text k ≡ gate_text l → k ≡ l
gate_text-injective gateway gateway h = refl
gate_text-injective broker broker h = refl
gate_text-injective gateway broker h = cc
gate_text-injective broker gateway h = cc

verdict_text-injective : (k l : Verdict) → verdict_text k ≡ verdict_text l → k ≡ l
verdict_text-injective allow allow h = refl
verdict_text-injective deny deny h = refl
verdict_text-injective allow deny h = cc
verdict_text-injective deny allow h = cc

-- Texts that begin differently.
apart : {s t : String} → s ≡ t → (first_code s ≡ first_code t → ⊥) → ⊥
apart h k = k (ap first_code h)

environment_text-injective :
    (k l : RecordedEnvironment) → environment_text k ≡ environment_text l → k ≡ l
environment_text-injective (hosted preview) (hosted preview) h = refl
environment_text-injective (hosted production) (hosted production) h = refl
environment_text-injective staging staging h = refl
environment_text-injective (hosted preview) (hosted production) h = cc
environment_text-injective (hosted production) (hosted preview) h = cc
environment_text-injective (hosted preview) staging h = absurd (apart h (λ e. omega (arith, e)))
environment_text-injective (hosted production) staging h = absurd (apart h (λ e. omega (arith, e)))
environment_text-injective staging (hosted preview) h = absurd (apart h (λ e. omega (arith, e)))
environment_text-injective staging (hosted production) h = absurd (apart h (λ e. omega (arith, e)))

module _ (r : Runtime) where
  -- The text that a receipt's hash is the digest of.
  unfoldable pub receipt_text : ReceiptBody → String → String
  unfolding receipt_json canonical_json
  receipt_text b previous = canonical_json r.quote (receipt_json r b previous)

  abbrev value_json : (kind : ValueKind) → Value kind → Json
  value_json of_text s = str s
  value_json of_number n = natural r n
  value_json of_optional o = nullable o

  abbrev field_text : String → (kind : ValueKind) → Value kind → String
  field_text key kind v = r.quote key ++ (":" ++ canonical_json r.quote (value_json kind v))

  abbrev field_texts : (cs : List (String × ValueKind)) → Values cs → List String
  field_texts [] vs = []
  field_texts ((key, kind) ∷ cs) vs = field_text key kind vs.0 ∷ field_texts cs vs.1

  receipt_text-eq :
      (b : ReceiptBody) (previous : String)
      → receipt_text b previous
        ≡ "{" ++ (join "," (field_texts receipt_fields (receipt_values b previous)) ++ "}")
  unfolding receipt_text receipt_json canonical_json sort code_unit_le
  receipt_text-eq b previous = refl

  module _ (texts : JsonTexts r) where
    null-quote : (x s y : String) → "null" ++ x ≡ r.quote s ++ y → ⊥
    null-quote x s y h =
        let (t, opens) = texts.quote_opens s in
        let same : "null" ++ x ≡ "\"" ++ (t ++ y) =
          h ∙ ap (λ q. q ++ y) opens ∙ append_assoc "\"" t y in
        let firsts : first_code "null" ≡ first_code "\"" =
          sym (first_code-append "null" x refl)
          ∙ ap first_code same
          ∙ first_code-append "\"" (t ++ y) refl in
        omega (arith, firsts)

    -- A value is known from its text, and so is what follows it.
    literal_cut :
        (kind : ValueKind) (v w : Value kind) (e x y : String)
        → (e ≡ ",") ⊎ (e ≡ "}")
        → canonical_json r.quote (value_json kind v) ++ (e ++ x)
          ≡ canonical_json r.quote (value_json kind w) ++ (e ++ y)
        → (v ≡ w) × (x ≡ y)
    unfolding canonical_json
    literal_cut of_text v w e x y k h =
        let (same, rest) = texts.quote_ends v w (e ++ x) (e ++ y) h in
        (same, append_cancel_left e x y rest)
    literal_cut of_number v w e x y k h = texts.decimal_ends v w e x y k h
    literal_cut of_optional none none e x y k h =
        (refl, append_cancel_left e x y (append_cancel_left "null" (e ++ x) (e ++ y) h))
    literal_cut of_optional (some s) (some t) e x y k h =
        let (same, rest) = texts.quote_ends s t (e ++ x) (e ++ y) h in
        (ap some same, append_cancel_left e x y rest)
    literal_cut of_optional none (some t) e x y k h = absurd (null-quote (e ++ x) t (e ++ y) h)
    literal_cut of_optional (some s) none e x y k h =
        absurd (null-quote (e ++ y) s (e ++ x) (sym h))

    field_cut :
        (key : String) (kind : ValueKind) (v w : Value kind) (e x y : String)
        → (e ≡ ",") ⊎ (e ≡ "}")
        → field_text key kind v ++ (e ++ x) ≡ field_text key kind w ++ (e ++ y)
        → (v ≡ w) × (x ≡ y)
    field_cut key kind v w e x y k h =
        let key_text = r.quote key in
        let left = canonical_json r.quote (value_json kind v) in
        let right = canonical_json r.quote (value_json kind w) in
        literal_cut kind v w e x y k (
          append_cancel_left ":" _ _ (
            append_cancel_left key_text _ _ (
              sym (regrouped key_text ":" left (e ++ x))
              ∙ h
              ∙ regrouped key_text ":" right (e ++ y))))

    fields_cut :
        (cs : List (String × ValueKind)) (vs ws : Values cs)
        → join "," (field_texts cs vs) ++ "}" ≡ join "," (field_texts cs ws) ++ "}"
        → vs ≡ ws
    fields_cut [] vs ws h = refl
    fields_cut ((key, kind) ∷ []) (v, vs) (w, ws) h =
        let (same, _) = field_cut key kind v w "}" "" "" (inr refl) h in λ i. (same i, tt)
    fields_cut ((key, kind) ∷ c ∷ cs) (v, vs) (w, ws) h =
        let left = join "," (field_texts (c ∷ cs) vs) in
        let right = join "," (field_texts (c ∷ cs) ws) in
        let (same, rest) = field_cut key kind v w "," (left ++ "}") (right ++ "}") (inl refl) (
          sym (regrouped (field_text key kind v) "," left "}")
          ∙ h
          ∙ regrouped (field_text key kind w) "," right "}") in
        let later = fields_cut (c ∷ cs) vs ws rest in λ i. (same i, later i)

    pub receipt_text-injective :
        (a b : ReceiptBody) (p q : String) → receipt_text a p ≡ receipt_text b q → (a ≡ b) × (p ≡ q)
    receipt_text-injective a b p q h =
        let e =
          fields_cut receipt_fields (receipt_values a p) (receipt_values b q)
            (append_cancel_left "{" _ _ (sym (receipt_text-eq a p) ∙ h ∙ receipt_text-eq b q)) in
        let gates = gate_text-injective a.gate b.gate (λ i. (e i).1.1.1.1.1.1.1.1.1.1.1.1.0) in
        let environments =
          environment_text-injective a.identity.environment b.identity.environment
            (λ i. (e i).1.1.1.1.1.1.1.1.1.1.1.0) in
        let decisions =
          verdict_text-injective a.decision b.decision (λ i. (e i).1.1.1.1.1.1.1.1.0) in
        (
          λ i. record {
            identity = record {
              account_id = (e i).0;
              angel_id = (e i).1.0;
              environment = environments i;
            };
            gate = gates i;
            decision = decisions i;
            sequence = (e i).1.1.1.1.1.1.1.1.1.1.1.1.1.1.1.1.1.1.0;
            deployment_id = (e i).1.1.1.1.1.1.1.1.1.0;
            version = (e i).1.1.1.1.1.1.1.1.1.1.1.1.1.1.1.1.1.1.1.1.0;
            policy_digest = (e i).1.1.1.1.1.1.1.1.1.1.1.1.1.1.0;
            bindings_digest = (e i).1.1.1.1.0;
            availability_digest = (e i).1.1.1.0;
            request_id = (e i).1.1.1.1.1.1.1.1.1.1.1.1.1.1.1.1.1.0;
            tool = (e i).1.1.1.1.1.1.1.1.1.1.1.1.1.1.1.1.1.1.1.0;
            provider = (e i).1.1.1.1.1.1.1.1.1.1.1.1.1.1.1.1.0;
            operation = (e i).1.1.1.1.1.1.1.1.1.1.1.1.1.0;
            connection_id = (e i).1.1.1.1.1.0;
            connection_ref = (e i).1.1.1.1.1.1.1.0;
            connection_identity_label = (e i).1.1.1.1.1.1.0;
            arguments_digest = (e i).1.1.0;
            detail = (e i).1.1.1.1.1.1.1.1.1.1.0;
          },
          λ i. (e i).1.1.1.1.1.1.1.1.1.1.1.1.1.1.1.0,
        )
