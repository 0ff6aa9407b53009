-- ===== src/Management/Mutate.antt =====
-- ManagementControl.mutate: a mutation that is repeated under its Idempotency-Key gets the recorded
-- answer (src/management.ts).
use angel_cloud.Prelude.{
  String, Bool, true, false, Option, none, some, [], ◌∷◌, ◌==◌, if◌then◌else◌, Result, ok, err,
  or_throw,
}
use angel_cloud.Prelude.Dict.{Dict, lookup, insert, erase}
use angel_cloud.Text.{trim}
use angel_cloud.Json.{Json, obj, str, stringify, entries}
use angel_cloud.Runtime.{Runtime}
use angel_cloud.Decision.Call.{is_inherited}
use angel_cloud.Gate.Encode.{record_of, digest_json}
use angel_cloud.Management.State.{
  Failure, refused, thrown, IdempotencyRecord, StoredResponse, ciphertext, response_json,
  MutationIdentity, ManagementState,
}
use angel_cloud.Management.World.{
  Action, Dependencies, pure, throw, gets, lift, call, modify, require, checkpoint, ◌>>=◌, ◌>>◌,
}
use angel_cloud.Management.Paths.{canonical_path}

-- A value whose "environment" is the retired spelling gets the present one.
abbrev is_staging : Option Json → Bool
is_staging (some (str s)) = s == "staging"
is_staging _ = false

unfoldable pub respelled : Dict Json → Dict Json
unfolding lookup insert
respelled d =
    if is_staging (lookup "environment" d) then insert "environment" (str "preview") d else d

abbrev respelled_view : Json → Json
respelled_view (obj fs) = record_of (respelled (entries fs))
respelled_view v = v

-- record.preview = record.staging, unless there is one
abbrev moved : Option Json → Option Json → Dict Json → Dict Json
moved none new d = d
moved (some old) (some new) d = d
moved (some old) none d = insert "preview" (respelled_view old) (erase "staging" d)

unfoldable pub rename_record_key : Dict Json → Dict Json
unfolding lookup insert erase respelled
rename_record_key d = moved (lookup "staging" d) (lookup "preview" d) d

-- An entry that is an object is changed; another stays.
abbrev on_object : (Dict Json → Dict Json) → String → Option Json → Dict Json → Dict Json
on_object f key (some (obj fs)) d = insert key (record_of (f (entries fs))) d
on_object f key _ d = d

abbrev within : (Dict Json → Dict Json) → String → Dict Json → Dict Json
within f key d = on_object f key (lookup key d) d

unfoldable pub canonicalize_legacy_replay : Json → Json
unfolding respelled rename_record_key lookup insert
canonicalize_legacy_replay (obj fs) =
    let first = respelled (entries fs) in
    let second = within (within rename_record_key "environments") "angel" first in
    record_of (within rename_record_key "keys" second)
canonicalize_legacy_replay v = v

abbrev key_error : Failure
key_error = refused 400 "Idempotency-Key must be non-empty"

abbrev pub reused_error : Failure
reused_error = refused 409 "Idempotency-Key was already used for different input"

module _ (r : Runtime) where
  unfoldable pub fingerprint_of : MutationIdentity → String → String
  unfolding digest_json
  fingerprint_of m path = digest_json r (
      record_of
        (("method", str (r.to_upper m.method)) ∷ ("path", str path) ∷ ("body", m.body) ∷ []))

  -- The key, the canonical path and the fingerprint of a mutation.
  unfoldable pub identify : MutationIdentity → Result Failure (String × String × String)
  unfolding trim canonical_path fingerprint_of
  identify m =
      let key = trim m.idempotency_key in
      if key == "" then err key_error else elim (canonical_path r m.path) [
        | err e ↦ err e
        | ok path ↦ ok (key, path, fingerprint_of m path)
      ]

  module _ {D : Type 0} (d : Dependencies D) where
    abbrev pub opened : StoredResponse → Action D String
    opened (ciphertext text) = call (d.unseal text)
    opened (response_json text) = pure text

    -- The recorded answer, if the mutation is the one that it was recorded for.
    unfoldable pub replay : IdempotencyRecord → String → Action D Json
    unfolding canonicalize_legacy_replay
    replay prior print = do
      require (prior.fingerprint == print) reused_error
      text ← opened prior.response
      v ← lift (or_throw (thrown "JSON.parse") (r.parse text))
      pure (canonicalize_legacy_replay v)

    abbrev pub recorded : Bool → String → Action D StoredResponse
    recorded true text = call (d.seal text) >>= λ c. pure (ciphertext c)
    recorded false text = pure (response_json text)

    abbrev pub store_record : String → IdempotencyRecord → ManagementState → ManagementState
    store_record key entry s = record s { idempotency = insert key entry s.idempotency }

    unfoldable pub perform :
        (key path print : String) → Bool → Action D Json → Option String → Action D Json
    unfolding stringify insert
    perform key path print encrypted action owner = do
      response ← action
      stored ← recorded encrypted (stringify r.quote response)
      modify (
          store_record key
            (record { fingerprint = print; response = stored; path = some path; angel_id = owner }))
      checkpoint d
      pure response

    -- Reading a name that every object inherits gives a value without a fingerprint.
    abbrev pub answer :
        (key path print : String)
        → Bool
        → Action D Json
        → Option String
        → Option IdempotencyRecord
        → Action D Json
    answer key path print encrypted action owner (some prior) = replay prior print
    answer key path print encrypted action owner none =
        if is_inherited key
        then throw reused_error
        else perform key path print encrypted action owner

    unfoldable pub mutate : MutationIdentity → Bool → Action D Json → Option String → Action D Json
    unfolding identify replay perform lookup is_inherited
    mutate m encrypted action owner = do
      (key, path, print) ← lift (identify m)
      prior ← gets (λ s. lookup key s.idempotency)
      answer key path print encrypted action owner prior
