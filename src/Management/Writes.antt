-- ===== src/Management/Writes.antt =====
-- What a write to an environment of an Angel does to the Angels (src/management.ts).
use angel_cloud.Prelude.{
  String, ◌≡◌, refl, ap, subst, sym, true, Option, none, some, List, [], ◌∷◌, ◌==◌, eq_iff,
  find-eq-some, arith, Bool-cases, inl, inr, All, ok, >>=-eq-ok, or_throw-eq-ok, or_throw, guard,
  guard-eq-ok, ok-injective, ◌>>◌, ◌∙◌,
}
use angel_cloud.Gate.State.{HostedEnvironment, preview, production}
use angel_cloud.Management.State.{
  ManagementEnvironment, ManagementAngel, environment_of, ManagementState,
}
use angel_cloud.Management.Lookup.{angel, angel_by_id, not_found, write_to, write_first}
use angel_cloud.Management.Runs.{Condition}

module _ (F : ManagementEnvironment → Type 0) where
  abbrev pub Both : ManagementAngel → Type 0
  Both a = F a.preview × F a.production

  -- Every environment of every Angel.
  abbrev pub Every : Condition
  Every angels = All Both angels

  -- The environment that is written to under the id, if there is one.
  abbrev pub At : String → HostedEnvironment → Condition
  At id env angels =
      (a : ManagementAngel) → angel_by_id id angels ≡ some a → F (environment_of env a)

  pub Both-environment :
      (env : HostedEnvironment) (a : ManagementAngel) → Both a → F (environment_of env a)
  Both-environment preview a h = h.0
  Both-environment production a h = h.1

  pub Every-At :
      (id : String) (env : HostedEnvironment) (angels : List ManagementAngel)
      → Every angels
      → At id env angels
  Every-At id env [] h a e = cc
  Every-At id env (x ∷ xs) h a e = elim (Bool-cases (x.id == id)) [
    | inl t ↦
        let same : x ≡ a = ground arith in
        subst (λ y. F (environment_of env y)) same (Both-environment env x h.0)
    | inr t ↦ Every-At id env xs h.1 a (rw t at e)
  ]

  Both-write_to :
      (env : HostedEnvironment) (f : ManagementEnvironment → ManagementEnvironment)
      (a : ManagementAngel)
      → Both a
      → F (f (environment_of env a))
      → Both (write_to env f a)
  Both-write_to preview f a h k = (k, h.1)
  Both-write_to production f a h k = (h.0, k)

  module _ (env : HostedEnvironment) (f : ManagementEnvironment → ManagementEnvironment) where
    pub write_first-Every :
        (id : String) (angels : List ManagementAngel)
        → Every angels
        → ((a : ManagementAngel) → angel_by_id id angels ≡ some a → F (f (environment_of env a)))
        → Every (write_first id env f angels)
    unfolding write_first
    write_first-Every id [] h k = tt
    write_first-Every id (x ∷ xs) h k = elim (Bool-cases (x.id == id)) [
      | inl t ↦ rw t (Both-write_to env f x h.0 (k x (rw t)), h.1)
      | inr t ↦ rw t (h.0, write_first-Every id xs h.1 (λ a e. k a (rw t e)))
    ]

pub write_to-id :
    (env : HostedEnvironment) (f : ManagementEnvironment → ManagementEnvironment)
    (a : ManagementAngel)
    → (write_to env f a).id ≡ a.id
write_to-id preview f a = refl
write_to-id production f a = refl

pub environment_of-write_to :
    (env : HostedEnvironment) (f : ManagementEnvironment → ManagementEnvironment)
    (a : ManagementAngel)
    → environment_of env (write_to env f a) ≡ f (environment_of env a)
environment_of-write_to preview f a = refl
environment_of-write_to production f a = refl

abbrev written :
    HostedEnvironment
    → (ManagementEnvironment → ManagementEnvironment)
    → Option ManagementAngel
    → Option ManagementAngel
written env f none = none
written env f (some a) = some (write_to env f a)

pub angel_by_id-write_first :
    (id : String) (env : HostedEnvironment) (f : ManagementEnvironment → ManagementEnvironment)
    (angels : List ManagementAngel)
    → angel_by_id id (write_first id env f angels) ≡ written env f (angel_by_id id angels)
unfolding write_first
angel_by_id-write_first id env f [] = refl
angel_by_id-write_first id env f (x ∷ xs) = elim (Bool-cases (x.id == id)) [
  | inl t ↦ rw (t, write_to-id env f x, t)
  | inr t ↦ rw (t, t) (angel_by_id-write_first id env f xs)
]

pub write_first-At :
    (F : ManagementEnvironment → Type 0) (id : String) (env : HostedEnvironment)
    (f : ManagementEnvironment → ManagementEnvironment) (angels : List ManagementAngel)
    → ((a : ManagementAngel) → angel_by_id id angels ≡ some a → F (f (environment_of env a)))
    → At F id env (write_first id env f angels)
write_first-At F id env f angels h a e =
    found (angel_by_id id angels) h (sym (angel_by_id-write_first id env f angels) ∙ e)
  where
    found :
        (o : Option ManagementAngel)
        → ((b : ManagementAngel) → o ≡ some b → F (f (environment_of env b)))
        → written env f o ≡ some a
        → F (environment_of env a)
    found none k q = cc
    found (some b) k q =
        let same : write_to env f b ≡ a = cc in
        subst (λ y. F (environment_of env y)) same
          (subst F (sym (environment_of-write_to env f b)) (k b refl))

-- The Angel that an operation starts from is the one that its id finds.
pub angel-eq-ok :
    (s : ManagementState) (id : String) {a : ManagementAngel}
    → angel s id ≡ ok a
    → angel_by_id id s.angels ≡ some a
unfolding angel
angel-eq-ok s id h =
    let (b, found, rest) =
      >>=-eq-ok (or_throw not_found (angel_by_id id s.angels))
        (λ b. guard (b.account_id == s.account.id) not_found >> ok b) h in
    let (_, _, same) =
      >>=-eq-ok (guard (b.account_id == s.account.id) not_found) (λ _. ok b) rest in
    or_throw-eq-ok not_found (angel_by_id id s.angels) found ∙ ap some (ok-injective same)

-- It has that id, so that its own id finds it too.
pub angel-own :
    (s : ManagementState) (id : String) {a : ManagementAngel}
    → angel s id ≡ ok a
    → angel_by_id a.id s.angels ≡ some a
angel-own s id {a = a} h =
    let found = angel-eq-ok s id h in
    let (_, named) = find-eq-some (λ (x : ManagementAngel). x.id == id) s.angels found in
    subst (λ i. angel_by_id i s.angels ≡ some a) (sym ((eq_iff a.id id).0 named)) found

pub angel-owned :
    (s : ManagementState) (id : String) {a : ManagementAngel}
    → angel s id ≡ ok a
    → (a.account_id == s.account.id) ≡ true
unfolding angel
angel-owned s id {a = a} h =
    let (b, _, rest) =
      >>=-eq-ok (or_throw not_found (angel_by_id id s.angels))
        (λ b. guard (b.account_id == s.account.id) not_found >> ok b) h in
    let (_, owned, same) =
      >>=-eq-ok (guard (b.account_id == s.account.id) not_found) (λ _. ok b) rest in
    subst (λ (x : ManagementAngel). (x.account_id == s.account.id) ≡ true) (ok-injective same)
      (guard-eq-ok (b.account_id == s.account.id) not_found owned)
