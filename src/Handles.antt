-- ===== src/Handles.antt =====
-- src/handles.ts, and the handle directory of src/workers/account-registry.ts.
use angel_cloud.Prelude.{
  ℕ, String, Bool, true, false, not, ◌&&◌, ◌||◌, Option, none, some, List, [], ◌∷◌, ◌==◌, ltb, leb,
  length, nat_eq, all, contains, if◌then◌else◌, Result, ok, err, ◌>>=◌,
}
use angel_cloud.Prelude.Dict.{Dict, lookup, insert}
use angel_cloud.Text.{codes, utf16_length, is_prefix}
pub mod Namespaces
pub mod Directory
pub mod Steps
pub mod Permanence
mod Tests

abbrev pub is_lower : ℕ → Bool
is_lower c = leb b'a' c && leb c b'z'

-- [a-z0-9-]
abbrev pub is_handle_char : ℕ → Bool
is_handle_char c = is_lower c || (leb b'0' c && leb c b'9') || nat_eq c b'-'

-- ACCOUNT_HANDLE_GRAMMAR
abbrev pub matches_grammar : List ℕ → Bool
matches_grammar [] = false
matches_grammar (c ∷ cs) = is_lower c && all is_handle_char cs

abbrev pub account_handle_max_length : ℕ
account_handle_max_length = 32

-- ACCOUNT_HANDLE_PATTERN: a letter, and 3 to 31 more characters
abbrev pub matches_pattern : List ℕ → Bool
matches_pattern cs = matches_grammar cs && (leb 4 (length cs) && leb (length cs) 32)

unfoldable pub is_internal_account_id : String → Bool
is_internal_account_id id = is_prefix (codes "acct_") (codes id)

abbrev pub reserved_account_handles : List String
reserved_account_handles =
    "admin" ∷ "support" ∷ "help" ∷ "security" ∷ "official" ∷ "staff" ∷ "team" ∷ "billing" ∷ "angel"
    ∷ "angels" ∷ "angelmcp" ∷ "system" ∷ "root" ∷ "api" ∷ []

pub data HandleClassification : Type 0 where
  claimable invalid reserved_word too_short : HandleClassification

unfoldable pub classify_account_handle : String → HandleClassification
classify_account_handle handle =
    if not (matches_grammar (codes handle)) || ltb account_handle_max_length (utf16_length handle)
    then invalid
    else if contains handle reserved_account_handles
    then reserved_word
    else if not (matches_pattern (codes handle))
    then too_short
    else claimable

-- What a claim throws: an unclaimable name (400 or 403), a taken name or a second rename (409).
pub data HandleError : Type 0 where
  unclaimable : HandleClassification → HandleError
  taken renames_once : HandleError
  unknown_handle no_handle : HandleError

pub record HandleAccountRecord : Type 0 where
  pub handle : String
  pub retired_handle : Option String

pub record HandleClaim : Type 0 where
  pub account_id : String
  pub handle : String
  pub retired_handle : Option String

pub record HandleResolution : Type 0 where
  pub account_id : String
  pub canonical_handle : String
  pub retired : Bool

abbrev pub claim_of : String → HandleAccountRecord → HandleClaim
claim_of id r = record { account_id = id; handle = r.handle; retired_handle = r.retired_handle }

-- The tests on the two entries, in the source's order; the first component says what is stored.
abbrev pub first_claim :
    String → String → Option String → Result HandleError (HandleAccountRecord × Bool)
first_claim id handle none = ok (record { handle = handle; retired_handle = none }, true)
first_claim id handle (some owner) = if owner == id then err renames_once else err taken

abbrev pub later_claim :
    String
    → String
    → HandleAccountRecord
    → Option String
    → Option String
    → Result HandleError (HandleAccountRecord × Bool)
later_claim id handle r (some owner) retired = if owner == id then err renames_once else err taken
later_claim id handle r none (some old) = err renames_once
later_claim id handle r none none =
    ok (record { handle = handle; retired_handle = some r.handle }, true)

abbrev pub claim_with :
    String
    → String
    → Option String
    → Option HandleAccountRecord
    → Result HandleError (HandleAccountRecord × Bool)
claim_with id handle owner none = first_claim id handle owner
claim_with id handle owner (some r) =
    if r.handle == handle then ok (r, false) else later_claim id handle r owner r.retired_handle

abbrev pub check_class : HandleClassification → Result HandleError (Unit {0})
check_class claimable = ok tt
check_class c = err (unclaimable c)

unfoldable pub claim_account_handle :
    String
    → String
    → Option String
    → Option HandleAccountRecord
    → Result HandleError (HandleAccountRecord × Bool)
unfolding classify_account_handle
claim_account_handle id handle owner account =
    check_class (classify_account_handle handle) >>= λ _. claim_with id handle owner account

unfoldable pub resolve_account_handle :
    String → Option String → Option HandleAccountRecord → Option HandleResolution
resolve_account_handle handle none account = none
resolve_account_handle handle (some owner) none = none
resolve_account_handle handle (some owner) (some r) =
    some (record {
      account_id = owner;
      canonical_handle = r.handle;
      retired = not (r.handle == handle);
    })

-- The directory's storage: the keys `handle:<name>` and `account:<id>`.
pub record HandleDirectory : Type 0 where
  pub owners : Dict String
  pub accounts : Dict HandleAccountRecord

abbrev pub empty_directory : HandleDirectory
empty_directory = record { owners = []; accounts = [] }

abbrev pub store_claim : HandleDirectory → String → HandleAccountRecord → Bool → HandleDirectory
store_claim d id r false = d
store_claim d id r true = record {
  owners = insert r.handle id d.owners;
  accounts = insert id r d.accounts;
}

-- AccountRegistry.claimHandle: a claim that throws stores nothing.
unfoldable pub claim_handle :
    HandleDirectory → String → String → Result HandleError (HandleDirectory × HandleClaim)
unfolding claim_account_handle
claim_handle d id handle =
    claim_account_handle id handle (lookup handle d.owners) (lookup id d.accounts) >>= λ p.
    ok (store_claim d id p.0 p.1, claim_of id p.0)

abbrev pub found {ℓ} : {A : Type ℓ} → HandleError → Option A → Result HandleError A
found e none = err e
found e (some a) = ok a

abbrev pub account_of : HandleDirectory → Option String → Option HandleAccountRecord
account_of d none = none
account_of d (some owner) = lookup owner d.accounts

-- AccountRegistry.resolveHandle
unfoldable pub resolve_handle : HandleDirectory → String → Result HandleError HandleResolution
unfolding resolve_account_handle
resolve_handle d handle =
    if matches_pattern (codes handle)
    then found unknown_handle (
        resolve_account_handle handle (lookup handle d.owners)
          (account_of d (lookup handle d.owners)))
    else err unknown_handle

-- AccountRegistry.accountHandle
unfoldable pub account_handle : HandleDirectory → String → Result HandleError HandleClaim
account_handle d id = found no_handle (lookup id d.accounts) >>= λ r. ok (claim_of id r)

-- A history of claims, each of an Account and a name; the ones that throw change nothing.
abbrev pub after_claim :
    HandleDirectory → Result HandleError (HandleDirectory × HandleClaim) → HandleDirectory
after_claim d (err e) = d
after_claim d (ok (next, claim)) = next

unfoldable pub run_claims : HandleDirectory → List (String × String) → HandleDirectory
unfolding claim_handle
run_claims d [] = d
run_claims d ((id, handle) ∷ cs) = run_claims (after_claim d (claim_handle d id handle)) cs
