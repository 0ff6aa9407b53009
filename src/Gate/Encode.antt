-- ===== src/Gate/Encode.antt =====
-- The records of a gate as JSON values: what canonicalJson is given in src/gate.ts.
use angel_cloud.Prelude.{ℕ, String, true, Option, none, some, List, [], ◌∷◌, map}
use angel_cloud.Prelude.Dict.{Dict}
use angel_cloud.Json.{Json, null, bool, num, str, arr, obj, items, fields, canonical_json}
use angel_cloud.Crypto.{sha256_hex}
use angel_cloud.Runtime.{Runtime}
use angel_cloud.Decision.Guard.{ArgGuard, forbidden_values, forbid, pin}
use angel_cloud.Gate.State.{
  GateKind, gateway, broker, HostedEnvironment, preview, production, RecordedEnvironment, hosted,
  staging, CredentialKind, google_oauth, service_token, bot_token, bridge_token,
  HttpRequestTemplate, HostedTool, HostedProvider, AngelVersionChild, ProviderBindingRequirement,
  HostedVersionArtifact, GateToolBinding, GateAvailability, GateInstallation, Verdict, allow, deny,
  ReceiptBody,
}

abbrev pub record_of : Dict Json → Json
record_of d = obj (fields d)

abbrev pub list_of {ℓ} : {A : Type ℓ} → (A → Json) → List A → Json
list_of f xs = arr (items (map f xs))

abbrev pub dict_of {ℓ} : {A : Type ℓ} → (A → Json) → Dict A → Json
dict_of f d = record_of (map (λ e. (e.0, f e.1)) d)

abbrev pub nullable : Option String → Json
nullable none = null
nullable (some s) = str s

abbrev pub gate_text : GateKind → String
gate_text gateway = "gateway"
gate_text broker = "broker"

abbrev pub hosted_text : HostedEnvironment → String
hosted_text preview = "preview"
hosted_text production = "production"

abbrev pub environment_text : RecordedEnvironment → String
environment_text (hosted e) = hosted_text e
environment_text staging = "staging"

abbrev pub credential_text : CredentialKind → String
credential_text google_oauth = "google_oauth"
credential_text service_token = "service_token"
credential_text bot_token = "bot_token"
credential_text bridge_token = "bridge_token"

abbrev pub verdict_text : Verdict → String
verdict_text allow = "allow"
verdict_text deny = "deny"

abbrev guard_json : ArgGuard → Json
guard_json (forbidden_values name xs) =
    record_of (("field", str name) ∷ ("forbiddenValues", list_of str xs) ∷ [])
guard_json (forbid name) = record_of (("field", str name) ∷ ("forbid", bool true) ∷ [])
guard_json (pin name text) = record_of (("field", str name) ∷ ("pin", str text) ∷ [])

abbrev pub request_json : HttpRequestTemplate → Json
request_json q = record_of (
    ("kind", str "http")
    ∷ ("method", str q.method)
    ∷ ("pathTemplate", str q.path_template)
    ∷ ("pathParams", list_of str q.path_params)
    ∷ ("pathDefaults", dict_of str q.path_defaults)
    ∷ ("queryParams", list_of str q.query_params)
    ∷ ("hasBody", bool q.has_body)
    ∷ [])

abbrev tool_json : HostedTool → Json
tool_json t = record_of (
    ("name", str t.name)
    ∷ ("provider", str t.provider)
    ∷ ("operation", str t.operation)
    ∷ ("argGuards", list_of guard_json t.arg_guards)
    ∷ ("request", request_json t.request)
    ∷ [])

abbrev provider_json : HostedProvider → Json
provider_json p = record_of (
    ("adapter", str p.adapter)
    ∷ ("origin", str p.origin)
    ∷ ("sourceDigest", str p.source_digest)
    ∷ [])

abbrev child_json : AngelVersionChild → Json
child_json c = record_of (("name", str c.name) ∷ ("digest", str c.digest) ∷ [])

abbrev requirement_json : ProviderBindingRequirement → Json
requirement_json q = record_of (
    ("id", str q.id)
    ∷ ("source", str q.source)
    ∷ ("provider", str q.provider)
    ∷ ("credential", str (credential_text q.credential))
    ∷ ("requiredScopes", list_of str q.required_scopes)
    ∷ ("tools", list_of str q.tools)
    ∷ [])

-- The object that assertArtifactContent compares with the parsed source.
unfoldable pub structured : HostedVersionArtifact → Json
structured a = record_of (
    ("format", str a.format)
    ∷ ("name", str a.name)
    ∷ ("charter", str a.charter)
    ∷ ("children", list_of child_json a.children)
    ∷ ("providers", dict_of provider_json a.providers)
    ∷ ("bindingRequirements", list_of requirement_json a.binding_requirements)
    ∷ ("tools", list_of tool_json a.tools)
    ∷ [])

abbrev pub binding_json : GateToolBinding → Json
binding_json b = record_of (
    ("tool", str b.tool)
    ∷ ("connectionRef", str b.connection_ref)
    ∷ ("connectionId", str b.connection_id)
    ∷ ("provider", str b.provider)
    ∷ ("identityLabel", str b.identity_label)
    ∷ [])

unfoldable pub bindings_json : List GateToolBinding → Json
bindings_json bs = list_of binding_json bs

module _ (r : Runtime) where
  abbrev pub natural : ℕ → Json
  natural n = num (r.decimal n)

  -- sha256Hex(canonicalJson(value))
  unfoldable pub digest_json : Json → String
  digest_json v = sha256_hex r (canonical_json r.quote v)

  unfoldable pub fingerprint_json : GateInstallation → Json
  fingerprint_json i = record_of (
      ("accountId", str i.identity.account_id)
      ∷ ("angelId", str i.identity.angel_id)
      ∷ ("environment", str (environment_text i.identity.environment))
      ∷ ("deploymentId", str i.deployment_id)
      ∷ ("version", natural i.version)
      ∷ ("policyDigest", str i.policy_digest)
      ∷ ("bindingsDigest", str i.bindings_digest)
      ∷ [])

  -- { policyDigest, ...availability }
  unfoldable pub availability_json : String → GateAvailability → Json
  availability_json policy a = record_of (
      ("policyDigest", str policy)
      ∷ ("defaultEnabled", bool a.default_enabled)
      ∷ ("overrides", dict_of bool a.overrides)
      ∷ ("connectionOverrides", dict_of (dict_of bool) a.connection_overrides)
      ∷ ("revision", natural a.revision)
      ∷ [])

  -- { ...receipt, previousHash }
  unfoldable pub receipt_json : ReceiptBody → String → Json
  receipt_json b previous = record_of (
      ("sequence", natural b.sequence)
      ∷ ("gate", str (gate_text b.gate))
      ∷ ("accountId", str b.identity.account_id)
      ∷ ("angelId", str b.identity.angel_id)
      ∷ ("environment", str (environment_text b.identity.environment))
      ∷ ("deploymentId", str b.deployment_id)
      ∷ ("version", natural b.version)
      ∷ ("policyDigest", str b.policy_digest)
      ∷ ("bindingsDigest", str b.bindings_digest)
      ∷ ("availabilityDigest", str b.availability_digest)
      ∷ ("requestId", str b.request_id)
      ∷ ("tool", str b.tool)
      ∷ ("provider", nullable b.provider)
      ∷ ("operation", nullable b.operation)
      ∷ ("connectionId", nullable b.connection_id)
      ∷ ("connectionRef", nullable b.connection_ref)
      ∷ ("connectionIdentityLabel", nullable b.connection_identity_label)
      ∷ ("argumentsDigest", str b.arguments_digest)
      ∷ ("decision", str (verdict_text b.decision))
      ∷ ("detail", str b.detail)
      ∷ ("previousHash", str previous)
      ∷ [])
