-- ===== src/Gate/Keys.antt =====
-- The active gateway keys of a gate, and who may call it (src/gate.ts).
use angel_cloud.Prelude.{
  String, Bool, true, false, Option, none, some, List, [], ◌∷◌, ◌++◌, ◌==◌, contains, if◌then◌else◌,
  Result, ok, err, ◌>>=◌,
}
use angel_cloud.Prelude.Sort.{sort}
use angel_cloud.Text.{is_sha256_hex, code_unit_le}
use angel_cloud.Crypto.{sha256_hex, timing_safe_equal_text}
use angel_cloud.Runtime.{Runtime}
use angel_cloud.Gate.State.{
  GateKind, gateway, broker, PolicyGateState, GateInstallCommand, GateError, broker_key,
  bad_key_hash, no_key, unstable_key,
}

-- hashes ?? (hash === null ? [] : [hash])
abbrev pub seeded : Option (List String) → Option String → List String
seeded (some hashes) hash = hashes
seeded none none = []
seeded none (some hash) = hash ∷ []

unfoldable pub active_key_hashes : PolicyGateState → List String
active_key_hashes s = seeded s.gateway_key_hashes s.gateway_key_hash

-- The loop that collects the hashes into a set, in order of first appearance.
unfoldable pub unique_hashes : List String → List String → Result GateError (List String)
unique_hashes unique [] = ok unique
unique_hashes unique (h ∷ hs) =
    let rest = unique_hashes (if contains h unique then unique else unique ++ h ∷ []) hs in
    if is_sha256_hex h then rest else err bad_key_hash

unfoldable pub normalize_gateway_key_hashes : List String → Result GateError (List String)
unfolding unique_hashes sort
normalize_gateway_key_hashes [] = err no_key
normalize_gateway_key_hashes (h ∷ hs) = do
  unique ← unique_hashes [] (h ∷ hs)
  ok (sort code_unit_le unique)

-- A single hash may be installed first, or again.
abbrev pub stable_key : List String → String → Result GateError (List String)
stable_key [] hash = ok (hash ∷ [])
stable_key (current ∷ []) hash = if current == hash then ok (current ∷ []) else err unstable_key
stable_key (current ∷ other ∷ more) hash = err unstable_key

abbrev pub kept_keys : List String → Result GateError (List String)
kept_keys [] = err no_key
kept_keys (h ∷ hs) = ok (h ∷ hs)

abbrev pub gateway_keys :
    List String → Option String → Option (List String) → Result GateError (List String)
gateway_keys current hash (some hashes) = normalize_gateway_key_hashes hashes
gateway_keys current (some hash) none =
    if is_sha256_hex hash then stable_key current hash else err bad_key_hash
gateway_keys current none none = kept_keys current

abbrev pub broker_keys : Option String → Option (List String) → Result GateError (List String)
broker_keys none none = ok []
broker_keys none (some hashes) = err broker_key
broker_keys (some hash) hashes = err broker_key

abbrev pub keys_at :
    GateKind → List String → Option String → Option (List String) → Result GateError (List String)
keys_at broker current hash hashes = broker_keys hash hashes
keys_at gateway current hash hashes = gateway_keys current hash hashes

unfoldable pub validated_gateway_keys :
    PolicyGateState → GateInstallCommand → Result GateError (List String)
unfolding active_key_hashes normalize_gateway_key_hashes
validated_gateway_keys s command = elim s.gate [
  | broker ↦ broker_keys command.gateway_key_hash command.gateway_key_hashes
  | gateway ↦ gateway_keys (active_key_hashes s) command.gateway_key_hash command.gateway_key_hashes
]

-- normalized[0] ?? null
abbrev pub first_hash : List String → Option String
first_hash [] = none
first_hash (h ∷ hs) = some h

-- An empty set is a lockout.
abbrev pub reconciled : List String → Result GateError (List String)
reconciled [] = ok []
reconciled (h ∷ hs) = normalize_gateway_key_hashes (h ∷ hs)

abbrev pub with_keys : PolicyGateState → List String → PolicyGateState
with_keys s keys = record s { gateway_key_hashes = some keys; gateway_key_hash = first_hash keys }

abbrev pub reconcile_at :
    PolicyGateState → List String → GateKind → Result GateError (PolicyGateState × List String)
reconcile_at s hashes broker = err broker_key
reconcile_at s hashes gateway = reconciled hashes >>= λ keys. ok (with_keys s keys, keys)

unfoldable pub reconcile_gateway_keys :
    PolicyGateState → List String → Result GateError (PolicyGateState × List String)
unfolding normalize_gateway_key_hashes
reconcile_gateway_keys s hashes = reconcile_at s hashes s.gate

module _ (r : Runtime) where
  -- Every active hash is compared, with no early return.
  unfoldable pub matches_any : Bool → String → List String → Bool
  matches_any matched presented [] = matched
  matches_any matched presented (h ∷ hs) =
      matches_any (if timing_safe_equal_text r presented h then true else matched) presented hs

  unfoldable pub authenticated : PolicyGateState → Option String → Bool
  unfolding matches_any active_key_hashes
  authenticated s none = false
  authenticated s (some key) = matches_any false (sha256_hex r key) (active_key_hashes s)
