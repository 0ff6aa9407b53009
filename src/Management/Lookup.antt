-- ===== src/Management/Lookup.antt =====
-- Finding the parts of the state, and writing to an environment of an Angel (src/management.ts).
use angel_cloud.Prelude.{
  String, ◌&&◌, Option, List, [], ◌∷◌, ◌==◌, if◌then◌else◌, find, Result, ok, ◌>>=◌, ◌>>◌, guard,
  or_throw,
}
use angel_cloud.Prelude.Dict.{insert}
use angel_cloud.Gate.State.{HostedEnvironment, preview, production}
use angel_cloud.Management.State.{
  Failure, refused, ManagementEnvironment, ManagementAngel, ManagementDeployment,
  PublishedAngelVersion, ManagementState,
}

abbrev pub not_found : Failure
not_found = refused 404 "not found"

unfoldable pub assert_account : ManagementState → String → Result Failure (Unit {0})
assert_account s account_id = guard (account_id == s.account.id) not_found

abbrev pub angel_by_id : String → List ManagementAngel → Option ManagementAngel
angel_by_id id angels = find (λ a. a.id == id) angels

abbrev pub angel_by_slug : String → List ManagementAngel → Option ManagementAngel
angel_by_slug slug angels = find (λ a. a.slug == slug) angels

unfoldable pub angel : ManagementState → String → Result Failure ManagementAngel
angel s id = do
  a ← or_throw not_found (angel_by_id id s.angels)
  guard (a.account_id == s.account.id) not_found
  ok a

abbrev pub version_by_id :
    String → String → List PublishedAngelVersion → Option PublishedAngelVersion
version_by_id angel_id id versions = find (λ v. v.id == id && v.angel_id == angel_id) versions

unfoldable pub version : ManagementState → String → String → Result Failure PublishedAngelVersion
version s angel_id id = or_throw not_found (version_by_id angel_id id s.versions)

abbrev pub deployment_by_id :
    String → String → List ManagementDeployment → Option ManagementDeployment
deployment_by_id angel_id id deployments =
    find (λ d. d.id == id && d.angel_id == angel_id) deployments

unfoldable pub deployment : ManagementState → String → String → Result Failure ManagementDeployment
deployment s angel_id id = or_throw not_found (deployment_by_id angel_id id s.deployments)

abbrev pub write_to :
    HostedEnvironment
    → (ManagementEnvironment → ManagementEnvironment)
    → ManagementAngel
    → ManagementAngel
write_to preview f a = record a { preview = f a.preview }
write_to production f a = record a { production = f a.production }

unfoldable pub write_first :
    String
    → HostedEnvironment
    → (ManagementEnvironment → ManagementEnvironment)
    → List ManagementAngel
    → List ManagementAngel
write_first id env f [] = []
write_first id env f (a ∷ angels) =
    if a.id == id then write_to env f a ∷ angels else a ∷ write_first id env f angels

-- A write to the environment that `angel.environments[environment]` refers to, where `angel` is the
-- one that is found under the id.
abbrev pub write_environment :
    String
    → HostedEnvironment
    → (ManagementEnvironment → ManagementEnvironment)
    → ManagementState
    → ManagementState
write_environment id env f s = record s { angels = write_first id env f s.angels }

-- this.stamp(id), at the time that `now` gives
unfoldable pub stamped : String → String → ManagementState → ManagementState
unfolding insert
stamped id time s = record s { timestamps = insert id time s.timestamps }
