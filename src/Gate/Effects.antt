-- ===== src/Gate/Effects.antt =====
-- What a change of availability does to the answer of isToolConnectionEnabled (src/gate.ts).
use angel_cloud.Prelude.{
  String, ◌≡◌, refl, sym, Bool, true, false, ◌&&◌, [], ◌∷◌, ◌==◌, eq_iff, arith, Bool-cases, inl,
  inr, if◌then◌else◌, All, subst,
}
use angel_cloud.Prelude.Dict.{
  Dict, lookup, IsObject, lookup-insert, lookup-erase, insert-IsObject, erase-IsObject,
  from_entries_of_IsObject,
}
use angel_cloud.Prelude.Sort.{sort, lookup-sort, sort-IsObject}
use angel_cloud.Runtime.{Runtime}
use angel_cloud.Gate.State.{GateAvailability}
use angel_cloud.Gate.Availability.{
  or_default, bool_eq, is_tool_enabled, overrides_of, is_tool_connection_enabled, sort_entries,
  override, switch_tool, store_overrides, switch_connection,
}

-- Every record of the availability is an object: no key occurs twice.
pub record IsTidy (a : GateAvailability) : Type 0 where
  pub tools : IsObject a.overrides
  pub connections : IsObject a.connection_overrides
  pub inner : All (λ e. IsObject e.1) a.connection_overrides

pub lookup-IsObject :
    (k : String) (d : Dict (Dict Bool))
    → All (λ e. IsObject e.1) d
    → IsObject (or_default (lookup k d) [])
unfolding lookup
lookup-IsObject k [] h = tt
lookup-IsObject k ((j, v) ∷ d) (here, later) = elim (Bool-cases (j == k)) [
  | inl e ↦ rw e here
  | inr e ↦ rw e (lookup-IsObject k d later)
]

bool_eq-eq : (a b : Bool) → bool_eq a b ≡ true → a ≡ b
bool_eq-eq true b h = sym h
bool_eq-eq false true h = cc
bool_eq-eq false false h = refl

module _ (r : Runtime) where
  module _ {ℓ} {V : Type ℓ} where
    lookup-sort_entries :
        (k : String) (d : Dict V) → IsObject d → lookup k (sort_entries r d) ≡ lookup k d
    unfolding sort_entries
    lookup-sort_entries k d h =
        rw (from_entries_of_IsObject (sort (λ e f. r.locale_le e.0 f.0) d) (sort-IsObject _ d h))
          (lookup-sort _ k d h)

  pub override-IsObject :
      (key : String) (enabled base : Bool) (d : Dict Bool)
      → IsObject d
      → IsObject (override r key enabled base d)
  unfolding override
  override-IsObject key enabled base d h = elim (Bool-cases (bool_eq enabled base)) [
    | inl e ↦ rw e (erase-IsObject key d h)
    | inr e ↦ rw e (insert-IsObject key enabled d h)
  ]

  pub override_lem :
      (key k : String) (enabled base : Bool) (d : Dict Bool)
      → or_default (lookup k (override r key enabled base d)) base
        ≡ (if key == k then enabled else or_default (lookup k d) base)
  unfolding override
  override_lem key k enabled base d =
      ground (arith, bool_eq-eq enabled base, lookup-erase key k d, lookup-insert key k enabled d)

  -- Switching a tool switches each of its Connections, and no other tool's, where the records of
  -- the availability are objects.
  pub switch_tool_lem :
      (a : GateAvailability) (tool name ref : String) (enabled : Bool)
      → IsTidy a
      → is_tool_connection_enabled (switch_tool r a tool enabled) name ref
        ≡ (if tool == name then enabled else is_tool_connection_enabled a name ref)
  unfolding is_tool_connection_enabled is_tool_enabled switch_tool lookup
  switch_tool_lem a tool name ref enabled h =
      let new = override r tool enabled a.default_enabled a.overrides in
      rw
        (
          lookup-sort_entries name new
              (override-IsObject tool enabled a.default_enabled a.overrides h.tools),
          override_lem tool name enabled a.default_enabled a.overrides,
          lookup-erase tool name a.connection_overrides,
        )
        (elim (Bool-cases (tool == name)) [ inl e ↦ rw e | inr e ↦ rw e ])

  pub store_overrides-IsObject :
      (tool : String) (d : Dict Bool) (all : Dict (Dict Bool))
      → IsObject all
      → IsObject (store_overrides r tool d all)
  store_overrides-IsObject tool [] all h = erase-IsObject tool all h
  store_overrides-IsObject tool (e ∷ d) all h = insert-IsObject tool (sort_entries r (e ∷ d)) all h

  store_overrides_lem :
      (tool name x : String) (d : Dict Bool) (all : Dict (Dict Bool))
      → IsObject d
      → lookup x (or_default (lookup name (store_overrides r tool d all)) [])
        ≡ (if tool == name then lookup x d else lookup x (or_default (lookup name all) []))
  unfolding lookup
  store_overrides_lem tool name x [] all h =
      rw (lookup-erase tool name all)
        (elim (Bool-cases (tool == name)) [ inl e ↦ rw e | inr e ↦ rw e ])
  store_overrides_lem tool name x (e ∷ d) all h =
      rw (lookup-insert tool name (sort_entries r (e ∷ d)) all) (elim (Bool-cases (tool == name)) [
        | inl q ↦ rw q (lookup-sort_entries x (e ∷ d) h)
        | inr q ↦ rw q
      ])

  -- Switching a Connection for a tool switches just that pair, where the records of the
  -- availability are objects.
  pub switch_connection_lem :
      (a : GateAvailability) (tool ref name other : String) (enabled : Bool)
      → IsTidy a
      → is_tool_connection_enabled (switch_connection r a tool ref enabled) name other ≡ (
          if tool == name && ref == other then enabled else is_tool_connection_enabled a name other)
  unfolding is_tool_connection_enabled is_tool_enabled switch_connection
  switch_connection_lem a tool ref name other enabled h =
      let base = is_tool_enabled a tool in
      let old = overrides_of a tool in
      let tidy = lookup-IsObject tool a.connection_overrides h.inner in
      let new = override r ref enabled base old in
      rw
        (
          lookup-sort_entries name (store_overrides r tool new a.connection_overrides)
              (store_overrides-IsObject tool new a.connection_overrides h.connections),
          store_overrides_lem tool name other new a.connection_overrides
              (override-IsObject ref enabled base old tidy),
        )
        (elim (Bool-cases (tool == name)) [
          | inl e ↦ rw e (
              subst
                (λ n.
                  or_default (lookup other new) (is_tool_enabled a n)
                  ≡ (if ref == other then enabled else is_tool_connection_enabled a n other))
                ((eq_iff tool name).0 e) (override_lem ref other enabled base old))
          | inr e ↦ rw e
        ])
