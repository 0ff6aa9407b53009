-- ===== src/Handles/Directory.antt =====
-- The handle directory over a history of claims.
use angel_cloud.Prelude.{
  String, ◌≡◌, ◌≢◌, ◌↔◌, refl, sym, ap, subst, ◌∙◌, Bool, true, false, Option, none, some, ◌==◌,
  eq_iff, ◌⊎◌, inl, inr, arith, Bool-cases, if◌then◌else◌, ok, ok-injective,
}
use angel_cloud.Prelude.Dict.{lookup, lookup-insert}
use angel_cloud.Handles.{
  HandleAccountRecord, first_claim, later_claim, claim_with, HandleDirectory, store_claim,
}

-- The Account's name, or the one that it had before.
abbrev pub HasName : HandleAccountRecord → String → Type 0
HasName r h = (r.handle ≡ h) ⊎ (r.retired_handle ≡ some h)

abbrev pub HadName : Option HandleAccountRecord → String → Type 0
HadName none h = ⊥
HadName (some r) h = HasName r h

-- The two kinds of entries say the same.
abbrev pub IsConsistent : HandleDirectory → Type 0
IsConsistent d = (h id : String) → (lookup h d.owners ≡ some id) ↔ HadName (lookup id d.accounts) h

-- What a claim that stores something has established.
pub record IsNewName (handle : String) (owner : Option String) (old : Option HandleAccountRecord)
    (r : HandleAccountRecord) : Type 0 where
  pub free : owner ≡ none
  pub named : r.handle ≡ handle
  pub unrenamed : (x : HandleAccountRecord) → old ≡ some x → x.retired_handle ≡ none
  pub names : (h : String) → HasName r h ↔ ((handle ≡ h) ⊎ HadName old h)

first_claim-ok :
    (id handle : String) (owner : Option String) (r : HandleAccountRecord)
    → first_claim id handle owner ≡ ok (r, true)
    → (owner ≡ none) × (record { handle = handle; retired_handle = none } ≡ r)
first_claim-ok id handle none r h =
    (refl, ap (λ (p : HandleAccountRecord × Bool). p.0) (ok-injective h))
first_claim-ok id handle (some o) r h = ground arith

later_claim-ok :
    (id handle : String) (old : HandleAccountRecord) (owner retired : Option String)
    (r : HandleAccountRecord)
    → later_claim id handle old owner retired ≡ ok (r, true)
    → (owner ≡ none)
      × (retired ≡ none)
      × (record { handle = handle; retired_handle = some old.handle } ≡ r)
later_claim-ok id handle old none none r h =
    (refl, refl, ap (λ (p : HandleAccountRecord × Bool). p.0) (ok-injective h))
later_claim-ok id handle old none (some x) r h = cc
later_claim-ok id handle old (some o) retired r h = ground arith

pub some-injective : {s t : String} → some s ≡ some t → s ≡ t
some-injective e = cc

record_injective : {x y : HandleAccountRecord} → some x ≡ some y → x ≡ y
record_injective e = cc

pub claim_with-IsNewName :
    (id handle : String) (owner : Option String) (old : Option HandleAccountRecord)
    (r : HandleAccountRecord)
    → claim_with id handle owner old ≡ ok (r, true)
    → IsNewName handle owner old r
claim_with-IsNewName id handle owner none r h =
    let (free, same) = first_claim-ok id handle owner r h in
    subst (IsNewName handle owner none) same (record {
      free = free;
      named = refl;
      unrenamed = λ x q. cc;
      names = λ k. (
        λ m. elim m [ inl e ↦ inl e | inr e ↦ cc ],
        λ m. elim m [ inl e ↦ inl e | inr b ↦ absurd b ],
      );
    })
claim_with-IsNewName id handle owner (some old) r h = elim (Bool-cases (old.handle == handle)) [
  | inl e ↦ cc (rw e at h)
  | inr e ↦
      let (free, fresh, same) =
        later_claim-ok id handle old owner old.retired_handle r (rw e at h) in
      subst (IsNewName handle owner (some old)) same (record {
        free = free;
        named = refl;
        unrenamed = λ x q.
            subst (λ (y : HandleAccountRecord). y.retired_handle ≡ none) (record_injective q) fresh;
        names = λ k. (
          λ m. elim m [ inl q ↦ inl q | inr q ↦ inr (inl (some-injective q)) ],
          λ m. elim m [ inl q ↦ inl q | inr (inl q) ↦ inr (ap some q) | inr (inr q) ↦ cc ],
        );
      })
]

-- A claim that stores nothing answers the record that is there.
pub claim_with-unchanged :
    (id handle : String) (owner : Option String) (old : Option HandleAccountRecord)
    (r : HandleAccountRecord)
    → claim_with id handle owner old ≡ ok (r, false)
    → (old ≡ some r) × (r.handle ≡ handle)
claim_with-unchanged id handle none none r h = cc
claim_with-unchanged id handle (some o) none r h = ground arith
claim_with-unchanged id handle owner (some old) r h = elim (Bool-cases (old.handle == handle)) [
  | inl e ↦
      let same : old ≡ r =
        ap (λ (p : HandleAccountRecord × Bool). p.0) (ok-injective (rw e at h)) in
      (ap some same, subst (λ (x : HandleAccountRecord). x.handle ≡ handle) same ((eq_iff _ _).0 e))
  | inr e ↦ absurd (no_later owner old.retired_handle (rw e at h))
]
  where
    no_later : (o retired : Option String) → later_claim id handle old o retired ≢ ok (r, false)
    no_later none none k = cc
    no_later none (some x) k = cc
    no_later (some x) retired k = ground arith

-- A new name of an Account is entered under both keys.
pub store_claim-IsConsistent :
    (d : HandleDirectory) (id handle : String) (r : HandleAccountRecord)
    → IsConsistent d
    → IsNewName handle (lookup handle d.owners) (lookup id d.accounts) r
    → IsConsistent (store_claim d id r true)
store_claim-IsConsistent d id handle r c n k other =
    rw (lookup-insert r.handle k id d.owners, lookup-insert id other r d.accounts)
      (elim (Bool-cases (id == other)) [
        | inl e ↦ rw e (own ((eq_iff id other).0 e))
        | inr e ↦ rw e (foreign e)
      ])
  where
    held : r.handle ≡ k → lookup k d.owners ≡ none
    held q = subst (λ x. lookup x d.owners ≡ none) (sym n.named ∙ q) n.free

    own :
        id ≡ other
        → ((if r.handle == k then some id else lookup k d.owners) ≡ some other) ↔ HasName r k
    own same =
        let was : (lookup k d.owners ≡ some other) ↔ HadName (lookup id d.accounts) k =
          subst (λ x. (lookup k d.owners ≡ some other) ↔ HadName (lookup x d.accounts) k) (sym same)
            (c k other) in
        elim (Bool-cases (r.handle == k)) [
          | inl f ↦ rw f (λ _. inl ((eq_iff _ _).0 f), λ _. ap some same)
          | inr f ↦ rw f (
            λ q. (n.names k).1 (inr (was.0 q)),
            λ m. elim ((n.names k).0 m) [
              | inl q ↦ cc ((eq_iff r.handle k).1 (n.named ∙ q))
              | inr q ↦ was.1 q
            ],
          )
        ]

    foreign :
        (id == other) ≡ false
        → ((if r.handle == k then some id else lookup k d.owners) ≡ some other)
          ↔ HadName (lookup other d.accounts) k
    foreign e = elim (Bool-cases (r.handle == k)) [
      | inl f ↦ rw f (
        λ q. cc ((eq_iff id other).1 (some-injective q)),
        λ m. cc ((c k other).1 m, held ((eq_iff _ _).0 f)),
      )
      | inr f ↦ rw f (c k other)
    ]
