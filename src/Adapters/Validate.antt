-- ===== src/Adapters/Validate.antt =====
-- validateArtifactAdapters of packages/core/src/artifact-validate.ts, on an artifact of the right
-- shape: the tests by `typeof` and `Array.isArray` are what the types say.
use Prim.Native.Char.{code}
use angel_cloud.Prelude.{
  String, Bool, true, false, not, Option, none, some, List, [], ◌∷◌, ◌==◌, ◌&&◌, map, contains,
  if◌then◌else◌, Result, ok, err, ◌>>=◌, ◌>>◌, guard, or_throw, each, nat_eq,
}
use angel_cloud.Prelude.Dict.{Dict, lookup, from_entries}
use angel_cloud.Json.{canonical_json}
use angel_cloud.Runtime.{Runtime}
use angel_cloud.Gate.State.{
  HostedTool, HostedProvider, HostedVersionArtifact, ProviderBindingRequirement, CredentialKind,
  google_oauth, service_token, bot_token, bridge_token,
}
use angel_cloud.Gate.Encode.{request_json}
use angel_cloud.Adapters.Scopes.{DerivedAdapter, ScopeError, select_required_scopes}

pub data AdapterError : Type 0 where
  unsupported_format wrong_namespace unknown_provider unused_provider : AdapterError
  wrong_adapter wrong_origin wrong_source no_providers_entry : AdapterError
  wrong_name duplicate_tool unknown_operation wrong_request : AdapterError
  empty_id duplicate_id wrong_credential no_tools claimed_twice foreign_tool : AdapterError
  scopes : ScopeError → AdapterError
  wrong_scopes unclaimed_tool : AdapterError

-- operation.split(".", 1)[0]
abbrev pub namespace_of : String → String
namespace_of String.[] = ""
namespace_of (String.◌∷◌ c s) =
    let rest = namespace_of s in if nat_eq (code c) 46 then "" else String.◌∷◌ c rest

abbrev pub same_credential : CredentialKind → CredentialKind → Bool
same_credential google_oauth google_oauth = true
same_credential service_token service_token = true
same_credential bot_token bot_token = true
same_credential bridge_token bridge_token = true
same_credential _ _ = false

-- JSON.stringify(left) === JSON.stringify(right), on lists of texts
abbrev pub same_texts : List String → List String → Bool
same_texts [] [] = true
same_texts [] (t ∷ ts) = false
same_texts (s ∷ ss) [] = false
same_texts (s ∷ ss) (t ∷ ts) = s == t && same_texts ss ts

abbrev pub is_some {ℓ} : {A : Type ℓ} → Option A → Bool
is_some none = false
is_some (some a) = true

abbrev pub is_nonempty {ℓ} : {A : Type ℓ} → List A → Bool
is_nonempty [] = false
is_nonempty (x ∷ xs) = true

abbrev pub scoped {ℓ} : {A : Type ℓ} → Result ScopeError A → Result AdapterError A
scoped (ok a) = ok a
scoped (err e) = err (scopes e)

module _ (r : Runtime) (registry : Dict DerivedAdapter) where
  unfoldable pub registry_adapter : String → Result AdapterError DerivedAdapter
  registry_adapter provider = or_throw unknown_provider (lookup provider registry)

  abbrev pub used_providers : List HostedTool → List String
  used_providers tools = map (λ t. t.provider) tools

  -- The loop over the entries of `providers`.
  unfoldable pub check_pinned :
      List HostedTool → String × HostedProvider → Result AdapterError (Unit {0})
  unfolding registry_adapter
  check_pinned tools (provider, pinned) = do
    a ← registry_adapter provider
    guard (contains provider (used_providers tools)) unused_provider
    guard (pinned.adapter == a.adapter) wrong_adapter
    guard (pinned.origin == a.origin) wrong_origin
    guard (pinned.source_digest == a.source_digest) wrong_source

  -- The loop over the providers in use.
  unfoldable pub check_used : Dict HostedProvider → HostedTool → Result AdapterError (Unit {0})
  unfolding registry_adapter
  check_used providers t = registry_adapter t.provider >>= λ _.
      guard (is_some (lookup t.provider providers)) no_providers_entry

  unfoldable pub check_request : HostedTool → Result AdapterError (Unit {0})
  unfolding registry_adapter
  check_request t = do
    a ← registry_adapter t.provider
    op ← or_throw unknown_operation (lookup t.operation a.operations)
    guard
        (canonical_json r.quote (request_json t.request)
          == canonical_json r.quote (request_json op.request))
        wrong_request

  -- The loop over the tools, with the folded names that were seen.
  unfoldable pub check_tools : List String → List HostedTool → Result AdapterError (Unit {0})
  unfolding check_request
  check_tools seen [] = ok tt
  check_tools seen (t ∷ ts) = do
    guard (t.name == t.operation) wrong_name
    guard (not (contains (r.to_upper t.name) seen)) duplicate_tool
    check_request t
    check_tools (r.to_upper t.name ∷ seen) ts

  -- new Map(tools.map((tool) => [tool.name, tool.provider]))
  abbrev pub artifact_tools : List HostedTool → Dict String
  artifact_tools tools = from_entries (map (λ t. (t.name, t.provider)) tools)

  abbrev pub is_at : String → Option String → Bool
  is_at provider none = false
  is_at provider (some p) = p == provider

  -- The loop over the tools of a requirement, with the names that were claimed.
  unfoldable pub claim_tools :
      Dict String → String → List String → List String → Result AdapterError (List String)
  claim_tools known provider claimed [] = ok claimed
  claim_tools known provider claimed (t ∷ ts) = do
    guard (not (contains t claimed)) claimed_twice
    guard (is_at provider (lookup t known)) foreign_tool
    claim_tools known provider (t ∷ claimed) ts

  -- The body of the loop over the requirements.
  unfoldable pub check_requirement :
      Dict String
      → List String
      → List String
      → ProviderBindingRequirement
      → Result AdapterError (List String)
  unfolding registry_adapter claim_tools select_required_scopes
  check_requirement known ids claimed q = do
    guard (not (q.id == "")) empty_id
    guard (not (contains q.id ids)) duplicate_id
    a ← registry_adapter q.provider
    guard (same_credential q.credential a.credential) wrong_credential
    guard (is_nonempty q.tools) no_tools
    more ← claim_tools known q.provider claimed q.tools
    expected ← scoped (select_required_scopes a q.tools)
    guard (same_texts q.required_scopes expected) wrong_scopes
    ok more

  unfoldable pub check_requirements :
      Dict String
      → List String
      → List String
      → List ProviderBindingRequirement
      → Result AdapterError (List String)
  unfolding check_requirement
  check_requirements known ids claimed [] = ok claimed
  check_requirements known ids claimed (q ∷ qs) = check_requirement known ids claimed q >>= λ more.
      check_requirements known (q.id ∷ ids) more qs

  unfoldable pub validate_artifact_adapters : HostedVersionArtifact → Result AdapterError (Unit {0})
  unfolding check_pinned check_used check_tools check_requirements from_entries
  validate_artifact_adapters c = do
    guard (c.format == "angel.version.v2") unsupported_format
    each (λ t. guard (namespace_of t.operation == t.provider) wrong_namespace) c.tools
    each (check_pinned c.tools) c.providers
    each (check_used c.providers) c.tools
    check_tools [] c.tools
    claimed ← check_requirements (artifact_tools c.tools) [] [] c.binding_requirements
    each (λ t. guard (contains t.name claimed) unclaimed_tool) c.tools
