-- ===== src/Handles/Tests.antt =====
-- A directory of two Accounts.
use angel_cloud.Prelude.{◌≡◌, refl, String, true, none, some, List, [], ◌∷◌, ok}
use angel_cloud.Prelude.Dict.{lookup, insert}
use angel_cloud.Handles.{
  HandleDirectory, HandleAccountRecord, HandleResolution, empty_directory, claim_handle, run_claims,
  resolve_handle, is_internal_account_id, classify_account_handle, invalid, claim_of,
}
use angel_cloud.Handles.Namespaces.{classify-internal}
use angel_cloud.Handles.Directory.{IsConsistent}
use angel_cloud.Handles.Permanence.{
  run_claims-IsConsistent, run_claims-renamed, claim_handle-permanent,
}

internal_run : is_internal_account_id "acct_1" ≡ true
unfolding is_internal_account_id
internal_run = refl

classify-internal_example : classify_account_handle "acct_1" ≡ invalid
classify-internal_example = classify-internal "acct_1" internal_run

-- A claim, a rename, a claim of the retired name by another, and a second rename.
abbrev four_claims : List (String × String)
four_claims =
    ("acct_1", "alice") ∷ ("acct_1", "alicia") ∷ ("acct_2", "alice") ∷ ("acct_1", "alina") ∷ []

run_claims-IsConsistent_example : IsConsistent (run_claims empty_directory four_claims)
run_claims-IsConsistent_example = run_claims-IsConsistent four_claims

abbrev alice : HandleAccountRecord
alice = record { handle = "alice"; retired_handle = none }

abbrev with_alice : HandleDirectory
with_alice = record { owners = ("alice", "acct_1") ∷ []; accounts = ("acct_1", alice) ∷ [] }

abbrev alicia : HandleAccountRecord
alicia = record { handle = "alicia"; retired_handle = some "alice" }

abbrev with_alicia : HandleDirectory
with_alicia = record {
  owners = ("alice", "acct_1") ∷ ("alicia", "acct_1") ∷ [];
  accounts = ("acct_1", alicia) ∷ [];
}

claims_test : run_claims empty_directory four_claims ≡ with_alicia
unfolding run_claims lookup insert
claims_test = refl

alicia_at : lookup "acct_1" with_alicia.accounts ≡ some alicia
unfolding lookup
alicia_at = refl

run_claims-renamed_example :
    lookup "acct_1" (run_claims with_alicia four_claims).accounts ≡ some alicia
run_claims-renamed_example =
    run_claims-renamed with_alicia four_claims "acct_1" "alice" alicia alicia_at refl

claim_run : claim_handle empty_directory "acct_1" "alice" ≡ ok (with_alice, claim_of "acct_1" alice)
unfolding claim_handle lookup insert
claim_run = refl

empty_IsConsistent : IsConsistent empty_directory
empty_IsConsistent = unfold run_claims in run_claims-IsConsistent []

claim_handle-permanent_example :
    (res : HandleResolution) × (resolve_handle (run_claims with_alice four_claims) "alice" ≡ ok res)
    × (res.account_id ≡ "acct_1")
claim_handle-permanent_example =
    claim_handle-permanent empty_directory with_alice "acct_1" "alice" (claim_of "acct_1" alice)
      four_claims empty_IsConsistent claim_run
