-- ===== src/Management/Delete.antt =====
-- ManagementControl.deleteAngel (src/management.ts).
use Prim.Native.String.{◌++◌}
use angel_cloud.Prelude.{
  String, Bool, true, false, ◌&&◌, ◌||◌, Option, none, some, List, [], ◌∷◌, ◌==◌, map, select, not,
  if◌then◌else◌, Result, ok, err, or_throw,
}
use angel_cloud.Prelude.Dict.{Dict, lookup, erase}
use angel_cloud.Text.{starts_with, includes}
use angel_cloud.Json.{Json, obj, bool, str, entries}
use angel_cloud.Runtime.{Runtime}
use angel_cloud.Gate.State.{gateway, broker, HostedEnvironment, preview, production}
use angel_cloud.Gate.Encode.{record_of}
use angel_cloud.Management.State.{
  Failure, refused, ManagementEnvironment, ManagementAngel, AgentKey, IdempotencyRecord,
  StoredResponse, ciphertext, response_json, ManagementState, MutationIdentity,
}
use angel_cloud.Management.World.{
  Action, Dependencies, pure, gets, lift, reads, call, ask, modify, checkpoint, ◌>>=◌, ◌>>◌,
}
use angel_cloud.Management.Paths.{required_slug}
use angel_cloud.Management.Lookup.{
  assert_account, angel_by_slug, not_found, write_environment, write_first,
}
use angel_cloud.Management.Mutate.{mutate}
use angel_cloud.Management.Keys.{is_active, revoke_at, with_keys, read_environment}
use angel_cloud.Management.Target.{is_none}

-- The typed confirmation, where there is one, is the slug.
abbrev pub confirms : Option String → String → Bool
confirms none slug = false
confirms (some c) slug = c == slug

unfoldable pub check_confirmation :
    ManagementEnvironment → Option String → String → Result Failure (Unit {0})
check_confirmation e confirm slug =
    if not (is_none confirm) && not (confirms confirm slug)
    then err (refused 400 "confirm must equal the Angel slug")
    else if not (is_none e.active_deployment_id && is_none e.pending_deployment_id)
        && not (confirms confirm slug)
    then err (
        refused 409 (
          "deleting an Angel with a live production deployment requires confirm: \""
          ++ (slug ++ "\"")))
    else ok tt

abbrev join_lists : List String → List String → List String
join_lists [] ys = ys
join_lists (x ∷ xs) ys = x ∷ join_lists xs ys

-- What is dropped with the Angel.
abbrev pub dropped_ids : String → ManagementState → List String
dropped_ids id s =
    join_lists (map (λ v. v.id) (select (λ v. v.angel_id == id) s.versions))
      (map (λ x. x.id) (select (λ x. x.angel_id == id) s.deployments))

unfoldable pub erase_each {ℓ} : {V : Type ℓ} → List String → Dict V → Dict V
unfolding erase
erase_each [] d = d
erase_each (k ∷ ks) d = erase_each ks (erase k d)

unfoldable pub drop_angel : String → ManagementState → ManagementState
unfolding erase_each
drop_angel id s = record s {
  angels = select (λ a. not (a.id == id)) s.angels;
  versions = select (λ v. not (v.angel_id == id)) s.versions;
  deployments = select (λ x. not (x.angel_id == id)) s.deployments;
  timestamps = erase_each (dropped_ids id s) s.timestamps;
}

abbrev is_true : Option Json → Bool
is_true (some (bool true)) = true
is_true _ = false

abbrev reports_deletion : Option Json → Bool
reports_deletion (some (obj fs)) = is_true (lookup "deleted" (entries fs))
reports_deletion _ = false

abbrev pub is_text : String → Option String → Bool
is_text coordinate none = false
is_text coordinate (some path) = path == coordinate

abbrev to_option : Result Failure String → Option String
to_option (ok a) = some a
to_option (err e) = none

module _ (r : Runtime) where
  unfoldable pub is_delete_receipt : IdempotencyRecord → Bool
  unfolding lookup
  is_delete_receipt rec = elim rec.response [
    | ciphertext text ↦ false
    | response_json text ↦ reports_deletion (r.parse text)
  ]

  -- A record with a path is the dead Angel's by its path or by its owner.
  unfoldable pub purges : (coordinate angel_id path : String) → IdempotencyRecord → Bool
  unfolding is_delete_receipt starts_with
  purges coordinate angel_id path rec =
      (path == coordinate
        || (starts_with path ("/v1/angels/" ++ (angel_id ++ "/")) || is_text angel_id rec.angel_id))
      && not (is_delete_receipt rec)

  module _ {D : Type 0} (d : Dependencies D) where
    -- What the vault throws is caught, and is null.
    abbrev pub response_text : StoredResponse → Action D (Option String)
    response_text (ciphertext text) =
        ask (λ o. (to_option (d.unseal text o).0, (d.unseal text o).1))
    response_text (response_json text) = pure (some text)

    abbrev names_angel : String → Option String → Bool
    names_angel angel_id none = true
    names_angel angel_id (some text) = includes text angel_id

    abbrev pub purge_test :
        (coordinate angel_id : String) → IdempotencyRecord → Option String → Action D Bool
    purge_test coordinate angel_id rec (some path) = pure (purges coordinate angel_id path rec)
    purge_test coordinate angel_id rec none =
        response_text rec.response >>= λ text. pure (names_angel angel_id text)

    abbrev pub drop_record : String → Bool → ManagementState → ManagementState
    drop_record key false s = s
    drop_record key true s = record s { idempotency = erase key s.idempotency }

    -- The loop over the records that there are when it starts.
    unfoldable pub purge_records :
        (coordinate angel_id : String) → Dict IdempotencyRecord → Action D (Unit {0})
    unfolding purges includes erase
    purge_records coordinate angel_id [] = pure tt
    purge_records coordinate angel_id ((key, rec) ∷ more) = do
      dead ← purge_test coordinate angel_id rec rec.path
      modify (drop_record key dead)
      purge_records coordinate angel_id more

    -- The loop over the keys of an environment: each revocation has a time of its own.
    unfoldable pub revoke_each : List AgentKey → Action D (List AgentKey)
    revoke_each [] = pure []
    revoke_each (k ∷ ks) = do
      here ← if is_active k then (ask d.now >>= λ time. pure (revoke_at time k)) else pure k
      rest ← revoke_each ks
      pure (here ∷ rest)

    unfoldable pub revoke_all : ManagementAngel → HostedEnvironment → Action D (Unit {0})
    unfolding read_environment revoke_each write_first
    revoke_all a env = do
      e ← read_environment r d a.id env
      keys ← revoke_each e.keys
      modify (write_environment a.id env (with_keys keys))

    unfoldable pub close_gates : ManagementAngel → Action D (Unit {0})
    close_gates a = do
      call (d.reconcile_keys a.id a.slug gateway preview [])
      call (d.reconcile_keys a.id a.slug gateway production [])
      call (d.reset a.id a.slug broker preview)
      call (d.reset a.id a.slug broker production)
      call (d.reset a.id a.slug gateway preview)
      call (d.reset a.id a.slug gateway production)

    unfoldable pub tear_down : String → ManagementAngel → Action D Json
    unfolding revoke_all close_gates drop_angel purge_records
    tear_down account_id a = do
      revoke_all a preview
      revoke_all a production
      checkpoint d
      close_gates a
      modify (drop_angel a.id)
      records ← gets (λ s. s.idempotency)
      purge_records ("/v1/accounts/" ++ (account_id ++ ("/angels/" ++ a.slug))) a.id records
      pure (record_of (("id", str a.id) ∷ ("slug", str a.slug) ∷ ("deleted", bool true) ∷ []))

    unfoldable pub delete_in : String → String → Option String → Action D Json
    unfolding check_confirmation tear_down
    delete_in account_id slug confirm = do
      found ← gets (λ s. angel_by_slug slug s.angels)
      a ← lift (or_throw not_found found)
      lift (check_confirmation a.production confirm slug)
      tear_down account_id a

    unfoldable pub delete_angel : String → String → Option String → MutationIdentity → Action D Json
    unfolding assert_account required_slug delete_in mutate
    delete_angel account_id slug confirm m = do
      reads (λ s. assert_account s account_id)
      lift (required_slug slug)
      mutate r d m false (delete_in account_id slug confirm) none
