-- ===== src/Management/Keys.antt =====
-- The named keys of an environment, and their operations (src/management.ts).
use Prim.Native.String.{◌++◌}
use angel_cloud.Prelude.{
  ℕ, String, Bool, true, false, Option, none, some, List, [], ◌∷◌, ◌==◌, map, find, select, length,
  not, leb, if◌then◌else◌, Result, ok, err,
}
use angel_cloud.Text.{is_blank, first_units}
use angel_cloud.Json.{Json, str}
use angel_cloud.Crypto.{sha256_hex}
use angel_cloud.Runtime.{Runtime}
use angel_cloud.Gate.State.{gateway, HostedEnvironment}
use angel_cloud.Gate.Encode.{record_of, hosted_text}
use angel_cloud.Management.State.{
  Failure, refused, thrown, active, revoked, AgentKey, ManagementEnvironment, ManagementAngel,
  environment_of, MutationIdentity, default_availability,
}
use angel_cloud.Management.World.{
  Action, Dependencies, pure, lift, reads, call, ask, modify, ◌>>=◌, ◌>>◌,
}
use angel_cloud.Management.Lookup.{not_found, angel, write_environment, write_first}
use angel_cloud.Management.Encode.{key_view, key_json}
use angel_cloud.Management.Mutate.{mutate}

abbrev pub is_active : AgentKey → Bool
is_active k = elim k.status [ active ↦ true | revoked ↦ false ]

abbrev pub key_by_id : String → List AgentKey → Option AgentKey
key_by_id id keys = find (λ k. k.id == id) keys

unfoldable pub active_key_hashes : ManagementEnvironment → List String
active_key_hashes e = map (λ k. k.hash) (select is_active e.keys)

abbrev pub sync_with : Option AgentKey → ManagementEnvironment → ManagementEnvironment
sync_with none e = e
sync_with (some k) e = record e { key_hash = k.hash; key_fingerprint = k.fingerprint }

-- syncLegacyKey: the fields of the single key point at the first active key.
unfoldable pub sync_legacy_key : ManagementEnvironment → ManagementEnvironment
sync_legacy_key e = sync_with (find is_active e.keys) e

abbrev pub revoke_at : String → AgentKey → AgentKey
revoke_at time k = record k { status = revoked; revoked_at = some time }

-- The key that is found under the id is revoked.
unfoldable pub revoke_first : String → String → List AgentKey → List AgentKey
revoke_first id time [] = []
revoke_first id time (k ∷ ks) =
    if k.id == id then revoke_at time k ∷ ks else k ∷ revoke_first id time ks

abbrev pub with_keys : List AgentKey → ManagementEnvironment → ManagementEnvironment
with_keys keys e = record e { keys = keys }

-- xs.push(x)
abbrev pub append {ℓ} : {A : Type ℓ} → List A → A → List A
append [] x = x ∷ []
append (y ∷ ys) x = y ∷ append ys x

unfoldable pub added : AgentKey → ManagementEnvironment → ManagementEnvironment
added k e = record e { keys = append e.keys k }

unfoldable pub rotated : String → String → AgentKey → ManagementEnvironment → ManagementEnvironment
unfolding revoke_first sync_legacy_key added
rotated id time k e = sync_legacy_key (added k (with_keys (revoke_first id time e.keys) e))

unfoldable pub revoked_in : String → String → ManagementEnvironment → ManagementEnvironment
unfolding revoke_first sync_legacy_key
revoked_in id time e = sync_legacy_key (with_keys (revoke_first id time e.keys) e)

unfoldable pub required_key_name : String → Result Failure String
required_key_name name =
    if is_blank name then err (refused 400 "key name must be a non-empty string") else ok name

abbrev pub already_revoked : Failure
already_revoked = refused 409 "key is already revoked"

abbrev pub last_active : Failure
last_active = refused 409 "the last active key cannot be revoked"

-- What rotateKey and revokeKey check of the key that they are asked for.
abbrev pub rotatable_key : Option AgentKey → Result Failure AgentKey
rotatable_key none = err not_found
rotatable_key (some k) =
    if is_active k then ok k else err (refused 409 "a revoked key cannot be rotated")

unfoldable pub rotatable : String → ManagementEnvironment → Result Failure AgentKey
rotatable id e = rotatable_key (key_by_id id e.keys)

abbrev pub active_count : ManagementEnvironment → ℕ
active_count e = length (select is_active e.keys)

abbrev pub revocable_key : ℕ → Option AgentKey → Result Failure AgentKey
revocable_key n none = err not_found
revocable_key n (some k) =
    if not (is_active k) then err already_revoked else if leb n 1 then err last_active else ok k

unfoldable pub revocable : String → ManagementEnvironment → Result Failure AgentKey
revocable id e = revocable_key (active_count e) (key_by_id id e.keys)

abbrev pub some_hashes : List String → Result Failure (List String)
some_hashes [] = err (thrown "an environment must retain at least one active key")
some_hashes (h ∷ hs) = ok (h ∷ hs)

-- An environment that has one key and nothing else.
abbrev pub fresh_environment : AgentKey → ManagementEnvironment
fresh_environment k = record {
  active_deployment_id = none;
  pending_deployment_id = none;
  key_hash = k.hash;
  key_fingerprint = k.fingerprint;
  keys = k ∷ [];
  repair = none;
  availability = default_availability;
  availability_changed_at = none;
  pending_availability = none;
}

module _ (r : Runtime) {D : Type 0} (d : Dependencies D) where
  -- The plaintext of a new key, and the key.
  unfoldable pub mint_key : HostedEnvironment → String → Action D (String × AgentKey)
  unfolding first_units
  mint_key env name = do
    plaintext ← ask (d.random_id ("ak_" ++ hosted_text env))
    id ← ask (d.random_id "key")
    time ← ask d.now
    let hash = sha256_hex r plaintext
    pure (
      plaintext,
      record {
        id = id;
        name = name;
        fingerprint = first_units 12 hash;
        hash = hash;
        status = active;
        created_at = some time;
        revoked_at = none;
      },
    )

  -- The environment of an Angel as it is now.
  unfoldable pub read_environment : String → HostedEnvironment → Action D ManagementEnvironment
  unfolding angel
  read_environment angel_id env = reads (λ s. angel s angel_id) >>= λ a. pure (environment_of env a)

  unfoldable pub reconcile_keys : ManagementAngel → HostedEnvironment → Action D (Unit {0})
  unfolding active_key_hashes read_environment
  reconcile_keys a env = do
    e ← read_environment a.id env
    hashes ← lift (some_hashes (active_key_hashes e))
    call (d.reconcile_keys a.id a.slug gateway env hashes) >> pure tt

  unfoldable pub create_key_in : ManagementAngel → HostedEnvironment → String → Action D Json
  unfolding mint_key added reconcile_keys key_view key_json write_first
  create_key_in a env name = do
    (plaintext, k) ← mint_key env name
    modify (write_environment a.id env (added k))
    reconcile_keys a env
    pure (record_of (("key", key_json (key_view k)) ∷ ("plaintext", str plaintext) ∷ []))

  unfoldable pub create_key : String → HostedEnvironment → String → MutationIdentity → Action D Json
  unfolding angel required_key_name create_key_in mutate
  create_key angel_id env name m = do
    a ← reads (λ s. angel s angel_id)
    checked ← lift (required_key_name name)
    mutate r d m true (create_key_in a env checked) (some a.id)

  -- The old key is revoked and its replacement is active in one recorded moment.
  unfoldable pub rotate_key_in : ManagementAngel → HostedEnvironment → String → Action D Json
  unfolding read_environment rotatable mint_key rotated reconcile_keys key_view key_json write_first
  rotate_key_in a env id = do
    e ← read_environment a.id env
    previous ← lift (rotatable id e)
    (plaintext, k) ← mint_key env previous.name
    time ← ask d.now
    modify (write_environment a.id env (rotated id time k))
    reconcile_keys a env
    pure (
        record_of (
          ("key", key_json (key_view k))
          ∷ ("revokedKeyId", str previous.id)
          ∷ ("plaintext", str plaintext)
          ∷ []))

  unfoldable pub rotate_key : String → HostedEnvironment → String → MutationIdentity → Action D Json
  unfolding angel rotate_key_in mutate
  rotate_key angel_id env id m = do
    a ← reads (λ s. angel s angel_id)
    mutate r d m true (rotate_key_in a env id) (some a.id)

  unfoldable pub revoke_key_in : ManagementAngel → HostedEnvironment → String → Action D Json
  unfolding read_environment revocable revoked_in reconcile_keys key_view key_json write_first
  revoke_key_in a env id = do
    e ← read_environment a.id env
    target ← lift (revocable id e)
    time ← ask d.now
    modify (write_environment a.id env (revoked_in id time))
    reconcile_keys a env
    pure (record_of (("key", key_json (key_view (revoke_at time target))) ∷ []))

  unfoldable pub revoke_key : String → HostedEnvironment → String → MutationIdentity → Action D Json
  unfolding angel revoke_key_in mutate
  revoke_key angel_id env id m = do
    a ← reads (λ s. angel s angel_id)
    mutate r d m false (revoke_key_in a env id) (some a.id)

  -- environmentKey: a fresh environment, with the plaintext of its key.
  unfoldable pub environment_key : HostedEnvironment → Action D (String × ManagementEnvironment)
  unfolding mint_key
  environment_key env = do
    (plaintext, k) ← mint_key env "Default key"
    pure (plaintext, fresh_environment k)
