-- ===== src/Handles/Permanence.antt =====
-- The handle directory over a history of claims: names are not released, and an Account renames once.
use angel_cloud.Prelude.{
  String, ◌≡◌, refl, sym, subst, Bool, true, false, Option, none, some, List, [], ◌∷◌, ◌==◌, eq_iff,
  inl, inr, not, contains, Bool-cases, if◌then◌else◌, ok, >>=-eq-ok,
}
use angel_cloud.Prelude.Dict.{lookup, lookup-insert}
use angel_cloud.Text.{codes}
use angel_cloud.Handles.{
  HandleAccountRecord, HandleClaim, HandleResolution, claim_with, claim_account_handle,
  HandleDirectory, empty_directory, store_claim, claim_handle, after_claim, run_claims, check_class,
  classify_account_handle, claim_of, matches_pattern, resolve_handle, resolve_account_handle,
  claimable, invalid, reserved_word, too_short, HandleClassification, reserved_account_handles,
}
use angel_cloud.Handles.Directory.{
  HadName, IsConsistent, claim_with-IsNewName, claim_with-unchanged,
}
use angel_cloud.Handles.Steps.{
  ClaimStep, same, entered, claim_ok, stored-ClaimStep, after_claim-ClaimStep,
  ClaimStep-IsConsistent, ClaimStep-owner,
}

step-ClaimStep :
    (d : HandleDirectory) (id handle : String)
    → ClaimStep d id handle (after_claim d (claim_handle d id handle))
step-ClaimStep d id handle = after_claim-ClaimStep d id handle (claim_handle d id handle) refl

run-IsConsistent :
    (d : HandleDirectory) (cs : List (String × String))
    → IsConsistent d
    → IsConsistent (run_claims d cs)
unfolding run_claims
run-IsConsistent d [] c = c
run-IsConsistent d ((id, handle) ∷ cs) c =
    run-IsConsistent (after_claim d (claim_handle d id handle)) cs
      (ClaimStep-IsConsistent d id handle _ (step-ClaimStep d id handle) c)

empty-IsConsistent : IsConsistent empty_directory
unfolding lookup
empty-IsConsistent h id = (λ e. cc, λ b. absurd b)

-- After any history of claims from an empty directory, a name belongs to an Account exactly when
-- the Account's record has it, as its current name or as its retired one.
pub run_claims-IsConsistent :
    (cs : List (String × String)) → IsConsistent (run_claims empty_directory cs)
run_claims-IsConsistent cs = run-IsConsistent empty_directory cs empty-IsConsistent

run_claims-owner :
    (d : HandleDirectory) (cs : List (String × String)) (h owner : String)
    → lookup h d.owners ≡ some owner
    → lookup h (run_claims d cs).owners ≡ some owner
unfolding run_claims
run_claims-owner d [] h owner e = e
run_claims-owner d ((id, handle) ∷ cs) h owner e =
    run_claims-owner (after_claim d (claim_handle d id handle)) cs h owner
      (ClaimStep-owner d id handle h owner _ (step-ClaimStep d id handle) e)

-- An Account that has renamed keeps its record.
ClaimStep-renamed :
    (d : HandleDirectory) (id handle account : String) (r : HandleAccountRecord) (old : String)
    (next : HandleDirectory)
    → ClaimStep d id handle next
    → lookup account d.accounts ≡ some r
    → r.retired_handle ≡ some old
    → lookup account next.accounts ≡ some r
ClaimStep-renamed d id handle account r old next same e q = e
ClaimStep-renamed d id handle account r old next (entered new n) e q =
    rw (lookup-insert id account new d.accounts) (elim (Bool-cases (id == account)) [
      | inl f ↦
          let at : lookup id d.accounts ≡ some r =
            subst (λ x. lookup x d.accounts ≡ some r) (sym ((eq_iff id account).0 f)) e in
          cc (n.unrenamed r at, q)
      | inr f ↦ rw f e
    ])

-- Once an Account has renamed, no later history of claims changes its record.
pub run_claims-renamed :
    (d : HandleDirectory) (cs : List (String × String)) (account old : String)
    (r : HandleAccountRecord)
    → lookup account d.accounts ≡ some r
    → r.retired_handle ≡ some old
    → lookup account (run_claims d cs).accounts ≡ some r
unfolding run_claims
run_claims-renamed d [] account old r e q = e
run_claims-renamed d ((id, handle) ∷ cs) account old r e q =
    run_claims-renamed (after_claim d (claim_handle d id handle)) cs account old r
      (ClaimStep-renamed d id handle account r old _ (step-ClaimStep d id handle) e q) q

stored_owner :
    (d : HandleDirectory) (id handle : String) (r : HandleAccountRecord) (changed : Bool)
    → IsConsistent d
    → claim_with id handle (lookup handle d.owners) (lookup id d.accounts) ≡ ok (r, changed)
    → lookup handle (store_claim d id r changed).owners ≡ some id
stored_owner d id handle r false c h =
    let (at, named) =
      claim_with-unchanged id handle (lookup handle d.owners) (lookup id d.accounts) r h in
    (c handle id).1 (subst (λ o. HadName o handle) (sym at) (inl named))
stored_owner d id handle r true c h =
    let n = claim_with-IsNewName id handle (lookup handle d.owners) (lookup id d.accounts) r h in
    rw (lookup-insert r.handle handle id d.owners, (eq_iff r.handle handle).1 n.named)

account_of_owner :
    (o : Option HandleAccountRecord) (h : String)
    → HadName o h
    → (r : HandleAccountRecord) × (o ≡ some r)
account_of_owner none h b = absurd b
account_of_owner (some r) h m = (r, refl)

resolve_owned :
    (d : HandleDirectory) (id handle : String)
    → IsConsistent d
    → matches_pattern (codes handle) ≡ true
    → lookup handle d.owners ≡ some id
    → (res : HandleResolution) × (resolve_handle d handle ≡ ok res) × (res.account_id ≡ id)
unfolding resolve_handle resolve_account_handle
resolve_owned d id handle c m e =
    let (r, at) = account_of_owner (lookup id d.accounts) handle ((c handle id).0 e) in
    (
      record { account_id = id; canonical_handle = r.handle; retired = not (r.handle == handle) },
      rw (m, e, at),
      refl,
    )

last_test :
    (a b c : Bool)
    → (if a then invalid else if b then reserved_word else if not c then too_short else claimable)
      ≡ claimable
    → c ≡ true
last_test true b c h = cc
last_test false true c h = cc
last_test false false true h = refl
last_test false false false h = cc

claimable-pattern :
    (h : String) → classify_account_handle h ≡ claimable → matches_pattern (codes h) ≡ true
unfolding classify_account_handle
claimable-pattern h e = last_test _ (contains h reserved_account_handles) _ e

claim_handle-claimable :
    (d : HandleDirectory) (id handle : String) (p : HandleDirectory × HandleClaim)
    → claim_handle d id handle ≡ ok p
    → classify_account_handle handle ≡ claimable
unfolding claim_handle claim_account_handle
claim_handle-claimable d id handle p h =
    let (_, h1, _) =
      >>=-eq-ok (claim_account_handle id handle (lookup handle d.owners) (lookup id d.accounts))
        (λ q. ok (store_claim d id q.0 q.1, claim_of id q.0)) h in
    let (_, h2, _) =
      >>=-eq-ok (check_class (classify_account_handle handle))
        (λ _. claim_with id handle (lookup handle d.owners) (lookup id d.accounts)) h1 in
    class (classify_account_handle handle) h2
  where
    class : (c : HandleClassification) {u : Unit {0}} → check_class c ≡ ok u → c ≡ claimable
    class claimable k = refl
    class invalid k = cc
    class reserved_word k = cc
    class too_short k = cc

-- A name that an Account has claimed, in a directory whose two kinds of entries agree, resolves
-- to that Account ever after, whatever is claimed later and by whom.
pub claim_handle-permanent :
    (d next : HandleDirectory) (id handle : String) (claim : HandleClaim)
    (cs : List (String × String))
    → IsConsistent d
    → claim_handle d id handle ≡ ok (next, claim)
    → (res : HandleResolution) × (resolve_handle (run_claims next cs) handle ≡ ok res)
      × (res.account_id ≡ id)
claim_handle-permanent d next id handle claim cs c h =
    let (r, changed, made, at, _) = claim_ok d id handle (next, claim) h in
    let owned =
      subst (λ (x : HandleDirectory). lookup handle x.owners ≡ some id) at
        (stored_owner d id handle r changed c made) in
    let kept =
      ClaimStep-IsConsistent d id handle next
        (subst (ClaimStep d id handle) at (stored-ClaimStep d id handle r changed made)) c in
    resolve_owned (run_claims next cs) id handle (run-IsConsistent next cs kept)
      (claimable-pattern handle (claim_handle-claimable d id handle (next, claim) h))
      (run_claims-owner next cs handle id owned)
