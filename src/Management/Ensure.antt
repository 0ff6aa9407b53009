-- ===== src/Management/Ensure.antt =====
-- ManagementControl.ensureAngel (src/management.ts).
use angel_cloud.Prelude.{String, true, Option, none, some, [], ◌∷◌, ◌++◌}
use angel_cloud.Json.{Json, str}
use angel_cloud.Runtime.{Runtime}
use angel_cloud.Gate.State.{preview, production}
use angel_cloud.Gate.Encode.{record_of}
use angel_cloud.Management.State.{
  ManagementEnvironment, ManagementAngel, ManagementState, MutationIdentity,
}
use angel_cloud.Management.World.{
  Action, Dependencies, pure, gets, lift, reads, ask, modify, ◌>>=◌, ◌>>◌,
}
use angel_cloud.Management.Paths.{required_slug}
use angel_cloud.Management.Lookup.{assert_account, angel_by_slug}
use angel_cloud.Management.Views.{angel_view}
use angel_cloud.Management.Mutate.{mutate}
use angel_cloud.Management.Keys.{environment_key}

abbrev pub new_angel :
    (id account_id slug : String) → ManagementEnvironment → ManagementEnvironment → ManagementAngel
new_angel id account_id slug first second = record {
  id = id;
  account_id = account_id;
  slug = slug;
  preview = first;
  production = second;
}

unfoldable pub push_angel : ManagementAngel → ManagementState → ManagementState
push_angel a s = record s { angels = s.angels ++ a ∷ [] }

module _ (r : Runtime) {D : Type 0} (d : Dependencies D) where
  unfoldable pub create_angel : String → String → Action D Json
  unfolding environment_key push_angel angel_view
  create_angel account_id slug = do
    (preview_key, first) ← environment_key r d preview
    (production_key, second) ← environment_key r d production
    id ← ask (d.random_id "ang")
    let a = new_angel id account_id slug first second
    modify (push_angel a)
    view ← reads (λ s. angel_view r s a)
    pure (
        record_of (
          ("angel", view)
          ∷ (
            "keys",
            record_of (("preview", str preview_key) ∷ ("production", str production_key) ∷ []),
          )
          ∷ []))

  abbrev pub ensure_with : String → String → Option ManagementAngel → Action D Json
  ensure_with account_id slug none = create_angel account_id slug
  ensure_with account_id slug (some existing) =
      reads (λ s. angel_view r s existing) >>= λ view. pure (record_of (("angel", view) ∷ []))

  unfoldable pub ensure_angel : String → String → MutationIdentity → Action D Json
  unfolding assert_account required_slug create_angel angel_view mutate
  ensure_angel account_id slug m = do
    reads (λ s. assert_account s account_id)
    lift (required_slug slug)
    mutate r d m true (gets (λ s. angel_by_slug slug s.angels) >>= ensure_with account_id slug) none
