-- ===== src/Management/PublishVersion.antt =====
-- ManagementControl.publishVersion (src/management.ts).
use angel_cloud.Prelude.{String, false, Option, none, some}
use angel_cloud.Prelude.Dict.{Dict}
use angel_cloud.Json.{Json}
use angel_cloud.Runtime.{Runtime}
use angel_cloud.Adapters.Scopes.{DerivedAdapter}
use angel_cloud.Adapters.Validate.{AdapterError}
use angel_cloud.Management.State.{
  ManagementAngel, PublishedAngelVersion, MutationIdentity, PublishVersionRequest,
}
use angel_cloud.Management.World.{
  Action, Dependencies, pure, gets, lift, reads, ask, modify, ◌>>=◌, ◌>>◌,
}
use angel_cloud.Management.Lookup.{angel, stamped}
use angel_cloud.Management.Encode.{version_json}
use angel_cloud.Management.Mutate.{mutate}
use angel_cloud.Management.Publish.{assert_artifact, same_content, new_version, push_version}

module _ (r : Runtime) (registry : Dict DerivedAdapter) (message : AdapterError → String)
    {D : Type 0} (d : Dependencies D) where
  -- this.stamp(id)
  unfoldable pub stamp : String → Action D (Unit {0})
  unfolding stamped
  stamp id = ask d.now >>= λ time. modify (stamped id time)

  abbrev pub publish_with :
      String → PublishVersionRequest → Option PublishedAngelVersion → Action D PublishedAngelVersion
  publish_with angel_id input (some existing) = pure existing
  publish_with angel_id input none = do
    id ← ask (d.random_id "ver")
    v ← gets (new_version id angel_id input.artifact)
    modify (push_version v)
    stamp v.id
    pure v

  -- The Version of an accepted artifact: one that is there with its content, or a new one.
  unfoldable pub publish : ManagementAngel → PublishVersionRequest → Action D PublishedAngelVersion
  unfolding assert_artifact push_version stamp
  publish a input = do
    lift (assert_artifact r registry message input.artifact input.expected_digest a.slug)
    existing ← gets (same_content a.id input.artifact.digest)
    publish_with a.id input existing

  unfoldable pub publish_version : String → PublishVersionRequest → MutationIdentity → Action D Json
  unfolding angel publish version_json mutate
  publish_version angel_id input m = do
    a ← reads (λ s. angel s angel_id)
    mutate r d m false (publish a input >>= λ v. pure (version_json r v)) (some angel_id)
