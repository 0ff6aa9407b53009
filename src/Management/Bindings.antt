-- ===== src/Management/Bindings.antt =====
-- The Connections that a deployment is given: bindingOperationGaps, validateBindings and
-- runtimeBindings of src/management.ts.
use Prim.Native.String.{◌++◌}
use angel_cloud.Prelude.{
  String, Bool, true, false, ◌&&◌, Option, none, some, List, [], ◌∷◌, ◌==◌, map, find, any, not,
  contains, if◌then◌else◌, Result, ok, err, ◌>>=◌, ◌>>◌, guard, or_throw, each,
}
use angel_cloud.Prelude.Dict.{Dict, lookup, from_entries}
use angel_cloud.Prelude.Sort.{sort}
use angel_cloud.Text.{code_unit_le}
use angel_cloud.Json.{join}
use angel_cloud.Gate.State.{ProviderBindingRequirement}
use angel_cloud.Adapters.Scopes.{DerivedAdapter, DerivedOperation}
use angel_cloud.Adapters.Validate.{same_texts, same_credential, is_nonempty}
use angel_cloud.Management.State.{
  Failure, refused, healthy, error, Health, StoredManagementConnection, PublishedAngelVersion,
  ManagementState,
}
use angel_cloud.Management.Publish.{has_duplicate}

pub record Gaps : Type 0 where
  pub unknown : List String
  pub uncovered : List (String × List String)

abbrev pub or_none {ℓ} : {A : Type ℓ} → Option (List A) → List A
or_none none = []
or_none (some xs) = xs

abbrev pub operations_of : Option DerivedAdapter → Dict DerivedOperation
operations_of none = []
operations_of (some a) = a.operations

abbrev pub gap_of : String → Option DerivedOperation → List String → Gaps → Gaps
gap_of tool none granted g = record g { unknown = tool ∷ g.unknown }
gap_of tool (some op) granted g =
    if any (λ scope. contains scope granted) op.scopes
    then g
    else record g { uncovered = (tool, op.scopes) ∷ g.uncovered }

-- The loop over the tools: what is found of a tool stands before what is found of the later ones.
unfoldable pub gaps_among : Dict DerivedOperation → List String → List String → Gaps
unfolding lookup
gaps_among operations granted [] = record { unknown = []; uncovered = [] }
gaps_among operations granted (t ∷ ts) =
    gap_of t (lookup t operations) granted (gaps_among operations granted ts)

abbrev pub find_connection : String → ManagementState → Option StoredManagementConnection
find_connection id s = find (λ c. c.id == id) s.connections

abbrev pub is_healthy : Health → Bool
is_healthy healthy = true
is_healthy error = false

abbrev pub connection_error : String → Failure
connection_error id = refused 404 ("Connection for binding " ++ (id ++ " not found"))

abbrev uncovered_text : String × List String → String
uncovered_text (tool, accepted) = tool ++ (" (needs one of: " ++ (join ", " accepted ++ ")"))

abbrev pub is_empty {ℓ} : {A : Type ℓ} → List A → Bool
is_empty xs = not (is_nonempty xs)

module _ (registry : Dict DerivedAdapter) where
  unfoldable pub binding_operation_gaps : String → List String → List String → Gaps
  unfolding gaps_among lookup
  binding_operation_gaps provider tools granted =
      gaps_among (operations_of (lookup provider registry)) granted tools

  -- The tests of one Connection for a requirement.
  unfoldable pub check_connection :
      ManagementState → ProviderBindingRequirement → String → Result Failure (Unit {0})
  unfolding binding_operation_gaps
  check_connection s q connection_id = do
    c ← or_throw (connection_error q.id) (find_connection connection_id s)
    guard (is_healthy c.health)
        (refused 409 ("Connection for binding " ++ (q.id ++ " is not healthy")))
    guard (c.account_id == s.account.id && same_credential c.credential q.credential)
        (connection_error q.id)
    let gaps = binding_operation_gaps q.provider q.tools (or_none c.granted_scopes)
    guard (is_empty gaps.unknown) (
        refused 409 (
          "binding "
          ++ (q.id
              ++ (" names operations absent from the deployed adapter registry: "
                  ++ (join ", " gaps.unknown
                      ++ " — republish the Version against the current registry")))))
    guard (is_empty gaps.uncovered) (
        refused 409 (
          "Connection for binding "
          ++ (q.id
              ++ (" is missing a scope for: " ++ join "; " (map uncovered_text gaps.uncovered)))))

  abbrev pub supplied : String → Option (List String) → Result Failure (List String)
  supplied id (some (c ∷ cs)) = ok (c ∷ cs)
  supplied id _ =
      err (refused 400 ("binding " ++ (id ++ " must contain at least one Connection ID")))

  -- The body of the loop over the required ids; `find(...)!` is there for each of them.
  unfoldable pub validate_binding :
      ManagementState
      → Dict (List String)
      → List ProviderBindingRequirement
      → String
      → Result Failure (String × List String)
  unfolding lookup check_connection
  validate_binding s bindings requirements id = do
    q ← or_throw (connection_error id) (find (λ q. q.id == id) requirements)
    ids ← supplied id (lookup id bindings)
    guard (not (has_duplicate ids))
        (refused 400 ("binding " ++ (id ++ " must contain unique Connection IDs")))
    each (check_connection s q) ids
    ok (id, ids)

  unfoldable pub validate_each :
      ManagementState
      → Dict (List String)
      → List ProviderBindingRequirement
      → List String
      → Result Failure (Dict (List String))
  unfolding validate_binding
  validate_each s bindings requirements [] = ok []
  validate_each s bindings requirements (id ∷ ids) =
      validate_binding s bindings requirements id >>= λ e.
      validate_each s bindings requirements ids >>= λ es. ok (e ∷ es)

  unfoldable pub validate_bindings :
      ManagementState
      → PublishedAngelVersion
      → Dict (List String)
      → Result Failure (Dict (List String))
  unfolding validate_each sort from_entries
  validate_bindings s v bindings = do
    guard (v.artifact.format == "angel.version.v2") (
        refused 400 (
          "unsupported artifact format: "
          ++ (v.artifact.format ++ " — republish from unchanged sources")))
    let required = sort code_unit_le (map (λ q. q.id) v.artifact.binding_requirements)
    let given = sort code_unit_le (map (λ e. e.0) bindings)
    guard (same_texts required given)
        (refused 400 "bindings must exactly cover the Version requirements")
    es ← validate_each s bindings v.artifact.binding_requirements required
    ok (from_entries es)
