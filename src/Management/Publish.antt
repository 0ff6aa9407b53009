-- ===== src/Management/Publish.antt =====
-- ManagementControl.publishVersion and assertArtifact (src/management.ts).
use angel_cloud.Prelude.{
  suc, String, Bool, false, ◌&&◌, ◌||◌, Option, List, [], ◌∷◌, ◌++◌, ◌==◌, map, find, select, any,
  length, not, contains, Result, ok, err, ◌>>=◌, ◌>>◌, guard, or_throw,
}
use angel_cloud.Prelude.Dict.{Dict}
use angel_cloud.Text.{is_blank}
use angel_cloud.Json.{canonical_json}
use angel_cloud.Crypto.{sha256_hex}
use angel_cloud.Runtime.{Runtime}
use angel_cloud.Gate.State.{HostedVersionArtifact}
use angel_cloud.Gate.Encode.{structured}
use angel_cloud.Adapters.Scopes.{DerivedAdapter}
use angel_cloud.Adapters.Validate.{AdapterError, is_nonempty, validate_artifact_adapters}
use angel_cloud.Management.State.{Failure, refused, PublishedAngelVersion, ManagementState}

-- new Set(ids).size !== ids.length
abbrev pub has_duplicate : List String → Bool
has_duplicate [] = false
has_duplicate (s ∷ ss) = contains s ss || has_duplicate ss

abbrev pub versions_of : String → ManagementState → List PublishedAngelVersion
versions_of angel_id s = select (λ v. v.angel_id == angel_id) s.versions

abbrev pub same_content : String → String → ManagementState → Option PublishedAngelVersion
same_content angel_id digest s = find (λ v. v.angel_id == angel_id && v.digest == digest) s.versions

abbrev pub new_version :
    String → String → HostedVersionArtifact → ManagementState → PublishedAngelVersion
new_version id angel_id a s = record {
  id = id;
  angel_id = angel_id;
  number = suc (length (versions_of angel_id s));
  digest = a.digest;
  artifact = a;
}

unfoldable pub push_version : PublishedAngelVersion → ManagementState → ManagementState
push_version v s = record s { versions = s.versions ++ v ∷ [] }

-- What the answer to a bad artifact says of its adapters is left open: `message` gives the text.
module _ (r : Runtime) (registry : Dict DerivedAdapter) (message : AdapterError → String) where
  abbrev pub reviewed : Result AdapterError (Unit {0}) → Result Failure (Unit {0})
  reviewed (ok u) = ok tt
  reviewed (err e) = err (refused 400 (message e))

  abbrev requirement_ids : HostedVersionArtifact → List String
  requirement_ids a = map (λ q. q.id) a.binding_requirements

  unfoldable pub assert_artifact :
      HostedVersionArtifact → String → String → Result Failure (Unit {0})
  unfolding sha256_hex canonical_json structured validate_artifact_adapters
  assert_artifact a expected_digest slug = do
    guard (a.name == slug) (refused 400 "artifact name does not match Angel slug")
    let actual = sha256_hex r a.canonical_source
    guard (a.digest == actual && expected_digest == actual) (refused 400 "artifact digest mismatch")
    parsed ←
        or_throw (refused 400 "artifact canonical source must be valid JSON")
          (r.parse a.canonical_source)
    guard (canonical_json r.quote parsed == canonical_json r.quote (structured a))
        (refused 400 "artifact content does not match canonical source")
    guard (is_nonempty a.tools) (refused 400 "artifact must contain at least one tool")
    reviewed (validate_artifact_adapters r registry a)
    guard (not (any is_blank (requirement_ids a) || has_duplicate (requirement_ids a)))
        (refused 400 "artifact binding requirement IDs must be unique and non-empty")
