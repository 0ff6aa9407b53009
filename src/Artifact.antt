-- ===== src/Artifact.antt =====
-- How packages/core/src/domain.ts composes an artifact of the artifacts of its children, and which
-- providers and requirements it derives from the tools.
use angel_cloud.Prelude.{
  ℕ, String, Bool, true, false, not, ◌&&◌, Option, none, some, List, [], ◌∷◌, ◌++◌, ◌==◌, nat_eq,
  length, map, select, contains, if◌then◌else◌, Result, ok, err, ◌>>=◌, ◌>>◌, guard, or_throw,
}
use Prim.Native.String.{◌++◌ as cat}
use angel_cloud.Prelude.Dict.{Dict, lookup, insert}
use angel_cloud.Prelude.Sort.{sort}
use angel_cloud.Text.{code_unit_le}
use angel_cloud.Runtime.{Runtime}
use angel_cloud.Gate.State.{
  HostedTool, HostedProvider, HostedVersionArtifact, ProviderBindingRequirement,
}
use angel_cloud.Adapters.Scopes.{DerivedAdapter, ScopeError, select_required_scopes}
pub mod Compose
pub mod Flatten
mod Tests

pub data ComposeError : Type 0 where
  tool_collision requirement_collision missing_adapter : ComposeError
  required : ScopeError → ComposeError

abbrev pub by_name : HostedTool → HostedTool → Bool
by_name a b = code_unit_le a.name b.name

abbrev pub compare_requirement : ProviderBindingRequirement → ProviderBindingRequirement → Bool
compare_requirement a b = code_unit_le a.id b.id

-- `if (prior)`: a name that was seen and is not empty
abbrev pub is_prior : Option String → Bool
is_prior none = false
is_prior (some name) = not (name == "")

abbrev pub all_tools : List HostedVersionArtifact → List HostedTool
all_tools [] = []
all_tools (c ∷ cs) = c.tools ++ all_tools cs

module _ (r : Runtime) where
  -- The loop over the tools, with the name that was seen under each folded one.
  unfoldable pub check_collisions : Dict String → List HostedTool → Result ComposeError (Unit {0})
  check_collisions seen [] = ok tt
  check_collisions seen (t ∷ ts) =
      guard (not (is_prior (lookup (r.to_upper t.name) seen))) tool_collision
      >> check_collisions (insert (r.to_upper t.name) t.name seen) ts

  unfoldable pub flatten_tools : List HostedVersionArtifact → Result ComposeError (List HostedTool)
  unfolding check_collisions sort
  flatten_tools children =
      check_collisions [] (all_tools children) >> ok (sort by_name (all_tools children))

-- [...new Set(tools.map((tool) => tool.provider))]
abbrev pub distinct_texts : List String → List String → List String
distinct_texts seen [] = seen
distinct_texts seen (x ∷ xs) = distinct_texts (if contains x seen then seen else seen ++ x ∷ []) xs

module _ (registry : Dict DerivedAdapter) where
  abbrev pub pin_of : DerivedAdapter → HostedProvider
  pin_of a = record { adapter = a.adapter; origin = a.origin; source_digest = a.source_digest }

  unfoldable pub pin_providers : List String → Result ComposeError (Dict HostedProvider)
  pin_providers [] = ok []
  pin_providers (p ∷ ps) = or_throw missing_adapter (lookup p registry) >>= λ a.
      pin_providers ps >>= λ rest. ok ((p, pin_of a) ∷ rest)

  unfoldable pub providers_for : List HostedTool → Result ComposeError (Dict HostedProvider)
  unfolding pin_providers sort
  providers_for tools =
      pin_providers (sort code_unit_le (distinct_texts [] (map (λ t. t.provider) tools)))

-- The requirement of one provider, over its tools.
module _ (registry : Dict DerivedAdapter) (source : String) (tools : List HostedTool) where
  abbrev pub names_of_provider : String → List String
  names_of_provider p = sort code_unit_le (map (λ t. t.name) (select (λ t. t.provider == p) tools))

  abbrev pub lifted : Result ScopeError (List String) → Result ComposeError (List String)
  lifted (ok scopes) = ok scopes
  lifted (err e) = err (required e)

  unfoldable pub requirement_of : String → Result ComposeError ProviderBindingRequirement
  unfolding select_required_scopes sort
  requirement_of p = or_throw missing_adapter (lookup p registry) >>= λ a.
      lifted (select_required_scopes a (names_of_provider p)) >>= λ scopes. ok (record {
        id = p;
        source = source;
        provider = p;
        credential = a.credential;
        required_scopes = scopes;
        tools = names_of_provider p;
      })

  unfoldable pub requirements_of :
      List String → Result ComposeError (List ProviderBindingRequirement)
  unfolding requirement_of
  requirements_of [] = ok []
  requirements_of (p ∷ ps) = requirement_of p >>= λ q. requirements_of ps >>= λ rest. ok (q ∷ rest)

  unfoldable pub requirements_for : Result ComposeError (List ProviderBindingRequirement)
  unfolding requirements_of
  requirements_for = requirements_of (distinct_texts [] (map (λ t. t.provider) tools)) >>= λ qs.
      ok (sort compare_requirement qs)

-- The providers that the requirements of one source have.
abbrev pub providers_of_source :
    String → List String → List ProviderBindingRequirement → List String
providers_of_source source seen [] = seen
providers_of_source source seen (q ∷ qs) =
    providers_of_source source
      (if q.source == source && not (contains q.provider seen)
        then seen ++ q.provider ∷ []
        else seen)
      qs

abbrev pub rebased_id : List ProviderBindingRequirement → ProviderBindingRequirement → String
rebased_id all q =
    if nat_eq (length (providers_of_source q.source [] all)) 1
    then q.source
    else cat q.source (cat ":" q.provider)

-- The loop over the requirements, with the ids that were given.
unfoldable pub rebase_from :
    List ProviderBindingRequirement
    → List String
    → List ProviderBindingRequirement
    → Result ComposeError (List ProviderBindingRequirement)
rebase_from all seen [] = ok []
rebase_from all seen (q ∷ qs) =
    guard (not (contains (rebased_id all q) seen)) requirement_collision
    >> (rebase_from all (rebased_id all q ∷ seen) qs >>= λ rest.
        ok (record q { id = rebased_id all q } ∷ rest))

unfoldable pub rebase_composed_requirements :
    List ProviderBindingRequirement → Result ComposeError (List ProviderBindingRequirement)
unfolding rebase_from sort
rebase_composed_requirements qs = rebase_from qs [] qs >>= λ out. ok (sort compare_requirement out)
