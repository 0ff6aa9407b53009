-- ===== src/Handles/Steps.antt =====
-- What one claim makes of the directory (src/handles.ts, src/workers/account-registry.ts).
use angel_cloud.Prelude.{
  String, ◌≡◌, sym, ap, subst, ◌∙◌, Bool, true, false, some, ◌==◌, eq_iff, inl, inr, Bool-cases,
  Result, ok, err, ok-injective, >>=-eq-ok,
}
use angel_cloud.Prelude.Dict.{lookup, lookup-insert}
use angel_cloud.Handles.{
  HandleAccountRecord, HandleClaim, HandleError, claim_with, claim_account_handle, HandleDirectory,
  store_claim, claim_handle, after_claim, check_class, classify_account_handle, claim_of,
}
use angel_cloud.Handles.Directory.{
  IsConsistent, IsNewName, claim_with-IsNewName, store_claim-IsConsistent,
}

pub claim_ok :
    (d : HandleDirectory) (id handle : String) (p : HandleDirectory × HandleClaim)
    → claim_handle d id handle ≡ ok p
    → (r : HandleAccountRecord) × (changed : Bool) × (claim_with id handle
          (lookup handle d.owners)
          (lookup id d.accounts)
        ≡ ok (r, changed))
      × (store_claim d id r changed ≡ p.0)
      × (p.1 ≡ claim_of id r)
unfolding claim_handle claim_account_handle
claim_ok d id handle p h =
    let ((r, changed), h1, h2) =
      >>=-eq-ok (claim_account_handle id handle (lookup handle d.owners) (lookup id d.accounts))
        (λ q. ok (store_claim d id q.0 q.1, claim_of id q.0)) h in
    let (_, _, h3) =
      >>=-eq-ok (check_class (classify_account_handle handle))
        (λ _. claim_with id handle (lookup handle d.owners) (lookup id d.accounts)) h1 in
    (
      r,
      changed,
      h3,
      ap (λ (q : HandleDirectory × HandleClaim). q.0) (ok-injective h2),
      sym (ap (λ (q : HandleDirectory × HandleClaim). q.1) (ok-injective h2)),
    )

-- What a claim makes of the directory.
pub data ClaimStep (d : HandleDirectory) (id handle : String) : HandleDirectory → Type 0 where
  same : ClaimStep d id handle d
  entered :
      (r : HandleAccountRecord)
      → IsNewName handle (lookup handle d.owners) (lookup id d.accounts) r
      → ClaimStep d id handle (store_claim d id r true)

pub stored-ClaimStep :
    (d : HandleDirectory) (id handle : String) (r : HandleAccountRecord) (changed : Bool)
    → claim_with id handle (lookup handle d.owners) (lookup id d.accounts) ≡ ok (r, changed)
    → ClaimStep d id handle (store_claim d id r changed)
stored-ClaimStep d id handle r false h = same
stored-ClaimStep d id handle r true h =
    entered r (claim_with-IsNewName id handle (lookup handle d.owners) (lookup id d.accounts) r h)

pub after_claim-ClaimStep :
    (d : HandleDirectory) (id handle : String)
    → (o : Result HandleError (HandleDirectory × HandleClaim)) → claim_handle d id handle ≡ o
    → ClaimStep d id handle (after_claim d o)
after_claim-ClaimStep d id handle (err e) h = same
after_claim-ClaimStep d id handle (ok (next, claim)) h =
    let (r, changed, made, at, _) = claim_ok d id handle (next, claim) h in
    subst (ClaimStep d id handle) at (stored-ClaimStep d id handle r changed made)

pub ClaimStep-IsConsistent :
    (d : HandleDirectory) (id handle : String) (next : HandleDirectory)
    → ClaimStep d id handle next
    → IsConsistent d
    → IsConsistent next
ClaimStep-IsConsistent d id handle next same c = c
ClaimStep-IsConsistent d id handle next (entered r n) c = store_claim-IsConsistent d id handle r c n

-- An owner stays the owner.
pub ClaimStep-owner :
    (d : HandleDirectory) (id handle h owner : String) (next : HandleDirectory)
    → ClaimStep d id handle next
    → lookup h d.owners ≡ some owner
    → lookup h next.owners ≡ some owner
ClaimStep-owner d id handle h owner next same e = e
ClaimStep-owner d id handle h owner next (entered r n) e =
    rw (lookup-insert r.handle h id d.owners) (elim (Bool-cases (r.handle == h)) [
      | inl f ↦ cc (
        n.free,
        subst (λ x. lookup x d.owners ≡ some owner) (sym (sym n.named ∙ (eq_iff _ _).0 f)) e,
      )
      | inr f ↦ rw f e
    ])
