-- ===== src/Gate/Selection.antt =====
-- Which binding a call goes through, and which tools a gate shows.
use angel_cloud.Prelude.{
  String, ◌≡◌, ◌↔◌, refl, sym, ap, subst, true, ◌⊎◌, inl, inr, Option, none, some, List, [], ◌∷◌,
  ◌==◌, eq_iff, Memᴰ, Bool-cases, Option-cases, find, find-eq-some, mem-select, mem-select_of_mem,
}
use angel_cloud.Prelude.Dict.{Dict, erase}
use angel_cloud.Json.{Json, str}
use angel_cloud.Runtime.{Runtime}
use angel_cloud.Gate.State.{
  GateKind, HostedTool, GateToolBinding, GateAvailability, GateInstallation, GateEvaluationInput,
}
use angel_cloud.Gate.Availability.{is_tool_connection_enabled, same_tool}
use angel_cloud.Gate.Bindings.{
  selected, tool_bindings, active_bindings, only_active, named_binding, selector, select_by,
  select_binding,
}

module _ (r : Runtime) (i : GateInstallation) (a : GateAvailability) (tool : HostedTool) where
  -- An installed binding of the tool that is switched on.
  pub record IsActive (b : GateToolBinding) : Type 0 where
    pub listed : Memᴰ b i.bindings
    pub of_tool : r.to_upper b.tool ≡ r.to_upper tool.name
    pub enabled : is_tool_connection_enabled a tool.name b.connection_ref ≡ true

  tool_bindings-mem :
      (b : GateToolBinding)
      → Memᴰ b (tool_bindings r i tool)
      → Memᴰ b i.bindings × (r.to_upper b.tool ≡ r.to_upper tool.name)
  unfolding tool_bindings same_tool
  tool_bindings-mem b m =
      let (listed, same) = mem-select (λ b. same_tool r b.tool tool.name) i.bindings m in
      (listed, (eq_iff _ _).0 same)

  pub active_bindings_iff : (b : GateToolBinding) → Memᴰ b (active_bindings r i a tool) ↔ IsActive b
  unfolding active_bindings tool_bindings same_tool
  active_bindings_iff b = (
    λ m.
        let (inner, on) =
          mem-select (λ b. is_tool_connection_enabled a tool.name b.connection_ref)
            (tool_bindings r i tool) m in
        let (listed, same) = tool_bindings-mem b inner in
        record { listed = listed; of_tool = same; enabled = on },
    λ v.
        mem-select_of_mem (λ b. is_tool_connection_enabled a tool.name b.connection_ref)
          (tool_bindings r i tool)
          (mem-select_of_mem (λ b. same_tool r b.tool tool.name) i.bindings v.listed
            ((eq_iff _ _).1 v.of_tool))
          v.enabled,
  )

  only_active-selected :
      (bs : List GateToolBinding) (args sent : Dict Json) (b : GateToolBinding)
      → only_active r bs args ≡ selected b sent
      → (bs ≡ b ∷ []) × (sent ≡ args)
  only_active-selected [] args sent b h = cc
  only_active-selected (x ∷ []) args sent b h = (cc, cc)
  only_active-selected (x ∷ y ∷ bs) args sent b h = cc

  named_found :
      (ref : String) (args sent : Dict Json) (b : GateToolBinding)
      → named_binding r i a tool ref args ≡ selected b sent
      → IsActive b × (b.connection_ref ≡ ref) × (sent ≡ args)
  unfolding named_binding
  named_found ref args sent b h = elim (Bool-cases (ref == "")) [
    | inl e ↦ cc (rw (e, named_binding) at h)
    | inr e ↦ elim (Option-cases (find (λ b. b.connection_ref == ref) (tool_bindings r i tool))) [
      | inl f ↦ cc (rw (e, f, named_binding) at h)
      | inr (x, f) ↦ elim (Bool-cases (is_tool_connection_enabled a tool.name x.connection_ref)) [
        | inl g ↦ active x f g (rw (e, f, g, named_binding) at h)
        | inr g ↦ cc (rw (e, f, g, named_binding) at h)
      ]
    ]
  ]
    where
      active :
          (x : GateToolBinding)
          → find (λ b. b.connection_ref == ref) (tool_bindings r i tool) ≡ some x
          → is_tool_connection_enabled a tool.name x.connection_ref ≡ true
          → selected x args ≡ selected b sent
          → IsActive b × (b.connection_ref ≡ ref) × (sent ≡ args)
      active x f g k =
          let (inner, same) =
            find-eq-some (λ b. b.connection_ref == ref) (tool_bindings r i tool) f in
          let (listed, of_tool) = tool_bindings-mem x inner in
          let e : x ≡ b = cc in
          (
            subst IsActive e (record { listed = listed; of_tool = of_tool; enabled = g }),
            subst (λ (y : GateToolBinding). y.connection_ref ≡ ref) e ((eq_iff _ _).0 same),
            cc,
          )

  -- The binding that is selected, by the selector if there is one.
  pub record IsSelected (o : Option Json) (b : GateToolBinding) : Type 0 where
    pub active : IsActive b
    pub chosen :
        ((o ≡ none) × (active_bindings r i a tool ≡ b ∷ [])) ⊎ (o ≡ some (str b.connection_ref))

  single-IsActive : (b : GateToolBinding) → active_bindings r i a tool ≡ b ∷ [] → IsActive b
  single-IsActive b e = (active_bindings_iff b).0 (subst (Memᴰ b) (sym e) (Memᴰ.head refl))

  select_by-IsSelected :
      (o : Option Json) (args sent : Dict Json) (b : GateToolBinding)
      → select_by r i a tool o args ≡ selected b sent
      → IsSelected o b × (sent ≡ args)
  select_by-IsSelected none args sent b h =
      let (only, same) = only_active-selected (active_bindings r i a tool) args sent b h in
      (record { active = single-IsActive b only; chosen = inl (refl, only) }, same)
  select_by-IsSelected (some (str ref)) args sent b h =
      let (active, named, same) = named_found ref args sent b h in
      (record { active = active; chosen = inr (ap (λ t. some (str t)) (sym named)) }, same)
  select_by-IsSelected (some _) args sent b h = cc

  -- A selected binding is installed for the tool and switched on. It is the one that the selector
  -- names, or the only active one where there is no selector; the arguments that go on are the
  -- call's without the selector.
  pub select_binding-IsSelected :
      (kind : GateKind) (input : GateEvaluationInput) (b : GateToolBinding) (sent : Dict Json)
      → select_binding r kind i a tool input ≡ selected b sent
      → IsSelected (selector r kind input) b × (sent ≡ erase "angel_connection" input.arguments)
  unfolding select_binding
  select_binding-IsSelected kind input b sent h =
      select_by-IsSelected (selector r kind input) _ sent b h
