-- ===== src/Gate/Environment.antt =====
-- canonicalEnvironment of src/environments.ts.
use angel_cloud.Prelude.{
  String, ◌≡◌, ◌↔◌, sym, ap, subst, Option, none, some, ◌==◌, eq_iff, Bool-cases, inl, inr,
  if◌then◌else◌,
}
use angel_cloud.Gate.State.{
  HostedEnvironment, preview, production, RecordedEnvironment, hosted, staging,
}
use angel_cloud.Gate.Encode.{environment_text}

unfoldable pub canonical_environment : String → Option HostedEnvironment
canonical_environment value =
    if value == "staging"
    then some preview
    else if value == "preview"
    then some preview
    else if value == "production"
    then some production
    else none

-- What a recorded environment is called now.
abbrev pub renamed_environment : RecordedEnvironment → HostedEnvironment
renamed_environment (hosted e) = e
renamed_environment staging = preview

written :
    (value : String) (h : HostedEnvironment) (e : RecordedEnvironment)
    → environment_text e ≡ value
    → renamed_environment e ≡ h
    → canonical_environment value ≡ some h
unfolding canonical_environment
written value h (hosted preview) e q = subst (λ v. canonical_environment v ≡ some h) e (ap some q)
written value h (hosted production) e q =
    subst (λ v. canonical_environment v ≡ some h) e (ap some q)
written value h staging e q = subst (λ v. canonical_environment v ≡ some h) e (ap some q)

same_environment : {e h : HostedEnvironment} → some e ≡ some h → e ≡ h
same_environment k = cc

read :
    (value : String) (h : HostedEnvironment)
    → canonical_environment value ≡ some h
    → (e : RecordedEnvironment) × (environment_text e ≡ value) × (renamed_environment e ≡ h)
unfolding canonical_environment
read value h k = elim (Bool-cases (value == "staging")) [
  | inl a ↦ (staging, sym ((eq_iff _ _).0 a), same_environment (rw (a, canonical_environment) at k))
  | inr a ↦ elim (Bool-cases (value == "preview")) [
    | inl b ↦ (
      hosted preview,
      sym ((eq_iff _ _).0 b),
      same_environment (rw (a, b, canonical_environment) at k),
    )
    | inr b ↦ elim (Bool-cases (value == "production")) [
      | inl c ↦ (
        hosted production,
        sym ((eq_iff _ _).0 c),
        same_environment (rw (a, b, c, canonical_environment) at k),
      )
      | inr c ↦ cc (rw (a, b, c, canonical_environment) at k)
    ]
  ]
]

-- A text names an environment exactly when it is what a recorded environment is written as and
-- the environment is that one under its present name.
pub canonical_environment_iff :
    (value : String) (h : HostedEnvironment)
    → (canonical_environment value ≡ some h)
      ↔ ((e : RecordedEnvironment) × (environment_text e ≡ value) × (renamed_environment e ≡ h))
canonical_environment_iff value h = (read value h, λ (e, t, q). written value h e t q)
