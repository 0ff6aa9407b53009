-- ===== src/Management/KeyRule.antt =====
-- The laws of a property of an environment's keys that every operation on keys keeps, and the
-- property that one key is active and the fields of the single key are its own (src/management.ts).
use angel_cloud.Prelude.{
  ℕ, suc, ◌≤◌, String, ◌≡◌, ◌≢◌, refl, sym, true, false, Option, none, some, List, [], ◌∷◌, arith,
  Option-cases, inl, inr, find, select, length, leb, ok, subst, ◌∙◌,
}
use angel_cloud.Management.State.{AgentKey, ManagementEnvironment}
use angel_cloud.Management.Keys.{
  is_active, key_by_id, append, sync_legacy_key, revoke_first, with_keys, added, rotated,
  revoked_in, active_count, revocable, revocable_key, fresh_environment,
}

pub record KeyRule (K : ManagementEnvironment → Type 0) : Type 0 where
  -- The property reads the keys and nothing else.
  pub stable :
      (e f : ManagementEnvironment)
      → e.keys ≡ f.keys
      → e.key_hash ≡ f.key_hash
      → e.key_fingerprint ≡ f.key_fingerprint
      → K e
      → K f
  pub fresh : (k : AgentKey) → is_active k ≡ true → K (fresh_environment k)
  pub after_added : (k : AgentKey) (e : ManagementEnvironment) → K e → K (added k e)
  pub after_rotated :
      (id time : String) (k : AgentKey) (e : ManagementEnvironment)
      → is_active k ≡ true
      → K (rotated id time k e)
  pub after_revoked :
      (id time : String) (target : AgentKey) (e : ManagementEnvironment)
      → revocable id e ≡ ok target
      → K (revoked_in id time e)

-- The property that holds always.
pub always-KeyRule : KeyRule (λ _. Unit)
always-KeyRule = record {
  stable = λ e f p q s k. tt;
  fresh = λ k h. tt;
  after_added = λ k e h. tt;
  after_rotated = λ id time k e h. tt;
  after_revoked = λ id time target e h. tt;
}

pub record IsKeyed (e : ManagementEnvironment) : Type 0 where
  pub key : AgentKey
  pub first : find is_active e.keys ≡ some key
  pub hash : e.key_hash ≡ key.hash
  pub fingerprint : e.key_fingerprint ≡ key.fingerprint

find-append :
    (k found : AgentKey) (ks : List AgentKey)
    → find is_active ks ≡ some found
    → find is_active (append ks k) ≡ some found
find-append k found [] h = cc
find-append k found (x ∷ xs) h = ground (arith, find-append k found xs)

find-append_active :
    (k : AgentKey) (ks : List AgentKey) → is_active k ≡ true → find is_active (append ks k) ≢ none
find-append_active k [] h e = ground arith
find-append_active k (x ∷ xs) h e = ground (arith, find-append_active k xs h)

sync-IsKeyed :
    (e : ManagementEnvironment) → find is_active e.keys ≢ none → IsKeyed (sync_legacy_key e)
unfolding sync_legacy_key
sync-IsKeyed e h = elim (Option-cases (find is_active e.keys)) [
  | inl q ↦ absurd (h q)
  | inr (k, q) ↦ rw q (record { key = k; first = q; hash = refl; fingerprint = refl })
]

find-none-select :
    (ks : List AgentKey) → find is_active ks ≡ none → length (select is_active ks) ≡ 0
find-none-select [] h = refl
find-none-select (k ∷ ks) h = ground (arith, find-none-select ks)

-- Revoking one key takes one active key away at most.
count-revoke_first :
    (id time : String) (ks : List AgentKey)
    → length (select is_active ks) ≤ suc (length (select is_active (revoke_first id time ks)))
unfolding revoke_first
count-revoke_first id time [] = omega arith
count-revoke_first id time (k ∷ ks) = ground (arith, count-revoke_first id time ks)

revocable-count :
    (id : String) (e : ManagementEnvironment) {k : AgentKey}
    → revocable id e ≡ ok k
    → leb (active_count e) 1 ≡ false
unfolding revocable
revocable-count id e h = counted (active_count e) (key_by_id id e.keys) h
  where
    counted :
        (n : ℕ) (o : Option AgentKey) {k : AgentKey} → revocable_key n o ≡ ok k → leb n 1 ≡ false
    counted n none q = cc
    counted n (some k) q = ground arith

pub IsKeyed-KeyRule : KeyRule IsKeyed
unfolding added rotated revoked_in
IsKeyed-KeyRule = record {
  stable = λ e f p q s k. record {
    key = k.key;
    first = subst (λ ks. find is_active ks ≡ some k.key) p k.first;
    hash = sym q ∙ k.hash;
    fingerprint = sym s ∙ k.fingerprint;
  };
  fresh = λ k h. record { key = k; first = rw h; hash = refl; fingerprint = refl };
  after_added = λ k e h. record {
    key = h.key;
    first = find-append k h.key e.keys h.first;
    hash = h.hash;
    fingerprint = h.fingerprint;
  };
  after_rotated = λ id time k e h.
      sync-IsKeyed (added k (with_keys (revoke_first id time e.keys) e))
        (find-append_active k (revoke_first id time e.keys) h);
  after_revoked = λ id time target e h.
      sync-IsKeyed (with_keys (revoke_first id time e.keys) e) (λ q. omega (
        arith,
        find-none-select (revoke_first id time e.keys) q,
        count-revoke_first id time e.keys,
        many e (revocable-count id e h),
      ));
}
  where
    many : (e : ManagementEnvironment) → leb (active_count e) 1 ≡ false → 2 ≤ active_count e
    many e q = ground arith
