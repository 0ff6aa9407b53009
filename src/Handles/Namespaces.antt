-- ===== src/Handles/Namespaces.antt =====
-- Names of Accounts, and their internal identifiers.
use angel_cloud.Prelude.{◌≡◌, ℕ, String, true, false, List, [], ◌∷◌, arith}
use angel_cloud.Text.{codes, is_prefix}
use angel_cloud.Handles.{matches_grammar, is_internal_account_id, invalid, classify_account_handle}

prefix_lem :
    (cs : List ℕ)
    → is_prefix (b'a' ∷ b'c' ∷ b'c' ∷ b't' ∷ b'_' ∷ []) cs ≡ true
    → matches_grammar cs ≡ false
prefix_lem [] h = cc
prefix_lem (a ∷ []) h = ground arith
prefix_lem (a ∷ b ∷ []) h = ground arith
prefix_lem (a ∷ b ∷ c ∷ []) h = ground arith
prefix_lem (a ∷ b ∷ c ∷ d ∷ []) h = ground arith
prefix_lem (a ∷ b ∷ c ∷ d ∷ e ∷ cs) h = ground arith

-- No internal identifier of an Account can be claimed as a name.
pub classify-internal :
    (id : String) → is_internal_account_id id ≡ true → classify_account_handle id ≡ invalid
unfolding is_internal_account_id classify_account_handle
classify-internal id h = rw (prefix_lem (codes id) h)
