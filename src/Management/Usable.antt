-- ===== src/Management/Usable.antt =====
-- What bindings that are accepted are sure to be: validateBindings of src/management.ts.
use angel_cloud.Prelude.{
  String, ◌≡◌, refl, sym, subst, Bool, true, false, ◌&&◌, not, Option, none, some, List, [], ◌∷◌,
  ◌==◌, eq_iff, Bool-cases, inl, inr, find, any, map, contains, mem_of_contains, any-eq-true, Memᴰ,
  All, All-mem, &&-eq-true, ok, ok-injective, guard-eq-ok, >>=-eq-ok, >>-eq-ok, or_throw,
  or_throw-eq-ok, each,
}
use angel_cloud.Prelude.Dict.{Dict, lookup}
use angel_cloud.Prelude.Sort.{sort, mem-sort}
use angel_cloud.Text.{code_unit_le}
use angel_cloud.Gate.State.{ProviderBindingRequirement}
use angel_cloud.Adapters.Scopes.{DerivedAdapter, DerivedOperation}
use angel_cloud.Adapters.Validate.{same_texts, same_credential}
use angel_cloud.Management.State.{
  StoredManagementConnection, PublishedAngelVersion, ManagementState,
}
use angel_cloud.Management.Publish.{has_duplicate}
use angel_cloud.Management.Bindings.{
  Gaps, or_none, operations_of, gap_of, gaps_among, find_connection, is_healthy, is_empty,
  connection_error, binding_operation_gaps, check_connection, supplied, validate_binding,
  validate_each, validate_bindings,
}

-- The grant has a scope that the operation accepts.
pub record IsCoveredBy (operations : Dict DerivedOperation) (granted : List String) (tool : String)
    : Type 0 where
  pub operation : DerivedOperation
  pub known : lookup tool operations ≡ some operation
  pub scope : String
  pub accepted : Memᴰ scope operation.scopes
  pub held : Memᴰ scope granted

gap_of-known :
    (t : String) (o : Option DerivedOperation) (granted : List String) (g : Gaps)
    → is_empty (gap_of t o granted g).unknown ≡ true
    → is_empty (gap_of t o granted g).uncovered ≡ true
    → (op : DerivedOperation) × (o ≡ some op)
      × (any (λ scope. contains scope granted) op.scopes ≡ true)
      × (gap_of t o granted g ≡ g)
gap_of-known t none granted g h k = cc
gap_of-known t (some op) granted g h k =
    elim (Bool-cases (any (λ scope. contains scope granted) op.scopes)) [
      | inl e ↦ (op, refl, e, rw e)
      | inr e ↦ cc (rw e at k)
    ]

gaps_among-All :
    (operations : Dict DerivedOperation) (granted tools : List String)
    → is_empty (gaps_among operations granted tools).unknown ≡ true
    → is_empty (gaps_among operations granted tools).uncovered ≡ true
    → All (IsCoveredBy operations granted) tools
unfolding gaps_among
gaps_among-All operations granted [] h k = tt
gaps_among-All operations granted (t ∷ ts) h k =
    let rest = gaps_among operations granted ts in
    let (op, known, covered, same) = gap_of-known t (lookup t operations) granted rest h k in
    let (scope, accepted, held) = any-eq-true (λ scope. contains scope granted) op.scopes covered in
    (
      record {
        operation = op;
        known = known;
        scope = scope;
        accepted = accepted;
        held = mem_of_contains scope granted held;
      },
      gaps_among-All operations granted ts (subst (λ (g : Gaps). is_empty g.unknown ≡ true) same h)
          (subst (λ (g : Gaps). is_empty g.uncovered ≡ true) same k),
    )

module _ (registry : Dict DerivedAdapter) where
  -- A Connection of the Account that can run every operation of the requirement.
  pub record IsUsable (s : ManagementState) (q : ProviderBindingRequirement) (id : String)
      : Type 0 where
    pub connection : StoredManagementConnection
    pub stored : find_connection id s ≡ some connection
    pub healthy : is_healthy connection.health ≡ true
    pub owned : connection.account_id ≡ s.account.id
    pub credential : same_credential connection.credential q.credential ≡ true
    pub covered :
        All
          (IsCoveredBy
            (operations_of (lookup q.provider registry))
            (or_none connection.granted_scopes))
          q.tools

  check_connection-IsUsable :
      (s : ManagementState) (q : ProviderBindingRequirement) (id : String) {u : Unit {0}}
      → check_connection registry s q id ≡ ok u
      → IsUsable s q id
  unfolding check_connection binding_operation_gaps
  check_connection-IsUsable s q id h =
      let (c, found, h1) =
        >>=-eq-ok (or_throw (connection_error q.id) (find_connection id s)) _ h in
      let gaps = binding_operation_gaps registry q.provider q.tools (or_none c.granted_scopes) in
      let (well, h2) = >>-eq-ok (is_healthy c.health) _ _ h1 in
      let (mine, h3) =
        >>-eq-ok (c.account_id == s.account.id && same_credential c.credential q.credential) _ _
          h2 in
      let (known, h4) = >>-eq-ok (is_empty gaps.unknown) _ _ h3 in
      let covered = guard-eq-ok (is_empty gaps.uncovered) _ h4 in
      let (owned, kind) = &&-eq-true (c.account_id == s.account.id) _ mine in
      record {
        connection = c;
        stored = or_throw-eq-ok _ (find_connection id s) found;
        healthy = well;
        owned = (eq_iff c.account_id s.account.id).0 owned;
        credential = kind;
        covered =
            gaps_among-All (operations_of (lookup q.provider registry)) (or_none c.granted_scopes)
              q.tools known covered;
      }

  each-IsUsable :
      (s : ManagementState) (q : ProviderBindingRequirement) (ids : List String) {u : Unit {0}}
      → each (check_connection registry s q) ids ≡ ok u
      → All (IsUsable s q) ids
  each-IsUsable s q [] h = tt
  each-IsUsable s q (id ∷ ids) h =
      let (_, here, later) =
        >>=-eq-ok (check_connection registry s q id) (λ _. each (check_connection registry s q) ids)
          h in
      (check_connection-IsUsable s q id here, each-IsUsable s q ids later)

  -- The requirement of the id is bound to distinct usable Connections, at least one.
  pub record IsBound (s : ManagementState) (bindings : Dict (List String))
      (requirements : List ProviderBindingRequirement) (id : String) : Type 0 where
    pub requirement : ProviderBindingRequirement
    pub required : find (λ q. q.id == id) requirements ≡ some requirement
    pub first : String
    pub more : List String
    pub given : lookup id bindings ≡ some (first ∷ more)
    pub distinct : has_duplicate (first ∷ more) ≡ false
    pub usable : All (IsUsable s requirement) (first ∷ more)

  supplied-some :
      (id : String) (o : Option (List String)) {ids : List String}
      → supplied registry id o ≡ ok ids
      → (c : String) × (cs : List String) × (o ≡ some (c ∷ cs)) × (ids ≡ c ∷ cs)
  supplied-some id none h = cc
  supplied-some id (some []) h = cc
  supplied-some id (some (c ∷ cs)) h = (c, cs, refl, sym (ok-injective h))

  validate_binding-IsBound :
      (s : ManagementState) (bindings : Dict (List String))
      (requirements : List ProviderBindingRequirement) (id : String) {e : String × List String}
      → validate_binding registry s bindings requirements id ≡ ok e
      → IsBound s bindings requirements id
  unfolding validate_binding
  validate_binding-IsBound s bindings requirements id h =
      let (q, found, h1) =
        >>=-eq-ok (or_throw (connection_error id) (find (λ q. q.id == id) requirements)) _ h in
      let (ids, given, h2) = >>=-eq-ok (supplied registry id (lookup id bindings)) _ h1 in
      let (fresh, h3) = >>-eq-ok (not (has_duplicate ids)) _ _ h2 in
      let (u, checked, _) = >>=-eq-ok (each (check_connection registry s q) ids) _ h3 in
      let (c, cs, there, same) = supplied-some id (lookup id bindings) given in
      record {
        requirement = q;
        required = or_throw-eq-ok _ (find (λ q. q.id == id) requirements) found;
        first = c;
        more = cs;
        given = there;
        distinct = subst (λ x. has_duplicate x ≡ false) same (not-eq (has_duplicate ids) fresh);
        usable = subst (All (IsUsable s q)) same (each-IsUsable s q ids checked);
      }
    where
      not-eq : (b : Bool) → not b ≡ true → b ≡ false
      not-eq true k = cc
      not-eq false k = refl

  validate_each-All :
      (s : ManagementState) (bindings : Dict (List String))
      (requirements : List ProviderBindingRequirement) (ids : List String) {es : Dict (List String)}
      → validate_each registry s bindings requirements ids ≡ ok es
      → All (IsBound s bindings requirements) ids
  unfolding validate_each
  validate_each-All s bindings requirements [] h = tt
  validate_each-All s bindings requirements (id ∷ ids) h =
      let (e, here, h1) = >>=-eq-ok (validate_binding registry s bindings requirements id) _ h in
      let (es, later, _) = >>=-eq-ok (validate_each registry s bindings requirements ids) _ h1 in
      (
        validate_binding-IsBound s bindings requirements id here,
        validate_each-All s bindings requirements ids later,
      )

  -- In bindings that are accepted, each required id is bound to one or more distinct Connections
  -- of the Account, each of them healthy, with the requirement's credential and a granted scope
  -- that the registry accepts for every tool of the requirement.
  pub validate_bindings-IsBound :
      (s : ManagementState) (v : PublishedAngelVersion) (bindings out : Dict (List String))
      (id : String)
      → validate_bindings registry s v bindings ≡ ok out
      → Memᴰ id (map (λ q. q.id) v.artifact.binding_requirements)
      → IsBound s bindings v.artifact.binding_requirements id
  unfolding validate_bindings
  validate_bindings-IsBound s v bindings out id h m =
      let ids = map (λ q. q.id) v.artifact.binding_requirements in
      let required = sort code_unit_le ids in
      let (_, h1) = >>-eq-ok (v.artifact.format == "angel.version.v2") _ _ h in
      let (_, h2) =
        >>-eq-ok (same_texts required (sort code_unit_le (map (λ e. e.0) bindings))) _ _ h1 in
      let (es, found, _) =
        >>=-eq-ok (validate_each registry s bindings v.artifact.binding_requirements required) _
          h2 in
      All-mem (IsBound s bindings v.artifact.binding_requirements) required
        (mem-sort code_unit_le ids m)
        (validate_each-All s bindings v.artifact.binding_requirements required found)
