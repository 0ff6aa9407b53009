-- ===== src/Gate/Shown.antt =====
-- The tools that a gate shows are those that a call can get through to.
use angel_cloud.Prelude.{
  String, ◌≡◌, ◌↔◌, refl, ap, Bool, true, ◌&&◌, &&-eq-true, none, some, List, [], ◌∷◌, eq_iff, Memᴰ,
  any, any-eq-true, any_of_mem, mem-select, mem-select_of_mem,
}
use angel_cloud.Prelude.Dict.{Dict}
use angel_cloud.Json.{Json}
use angel_cloud.Runtime.{Runtime}
use angel_cloud.Gate.State.{
  HostedTool, GateToolBinding, GateInstallation, PolicyGateState, tool_paused,
}
use angel_cloud.Gate.Availability.{is_tool_connection_enabled, same_tool}
use angel_cloud.Gate.Bindings.{unselected, active_bindings, only_active, select_by, available_tools}
use angel_cloud.Gate.Selection.{IsActive, active_bindings_iff}

module _ (r : Runtime) (s : PolicyGateState) (i : GateInstallation) where
  abbrev serves : HostedTool → GateToolBinding → Bool
  serves t b =
      same_tool r b.tool t.name && is_tool_connection_enabled s.availability t.name b.connection_ref

  serves_iff :
      (t : HostedTool) (b : GateToolBinding)
      → Memᴰ b i.bindings
      → (serves t b ≡ true) ↔ IsActive r i s.availability t b
  unfolding same_tool
  serves_iff t b m = (
    λ h.
        let (same, on) = &&-eq-true _ _ h in
        record { listed = m; of_tool = (eq_iff _ _).0 same; enabled = on },
    λ v. rw ((eq_iff (r.to_upper b.tool) (r.to_upper t.name)).1 v.of_tool) v.enabled,
  )

  -- A tool is shown exactly when the installed Version has it and a binding of it is switched on.
  pub available_tools_iff :
      (t : HostedTool)
      → s.installation ≡ some i
      → Memᴰ t (available_tools r s)
        ↔ (Memᴰ t i.artifact.tools × ((b : GateToolBinding) × IsActive r i s.availability t b))
  unfolding available_tools
  available_tools_iff t e =
      rw (e, available_tools)
        (
          λ m.
              let (listed, some_on) =
                mem-select (λ t. any (serves t) i.bindings) i.artifact.tools m in
              let (b, at, on) = any-eq-true (serves t) i.bindings some_on in
              (listed, (b, (serves_iff t b at).0 on)),
          λ (listed, (b, v)).
              mem-select_of_mem (λ t. any (serves t) i.bindings) i.artifact.tools listed
                (any_of_mem (serves t) i.bindings v.listed ((serves_iff t b v.listed).1 v)),
        )

  only_active-paused :
      (bs : List GateToolBinding) (args : Dict Json) (detail : String)
      → only_active r bs args ≡ unselected tool_paused detail
      → bs ≡ []
  only_active-paused [] args detail h = refl
  only_active-paused (x ∷ []) args detail h = cc
  only_active-paused (x ∷ y ∷ bs) args detail h = cc

  empty_of_none : (bs : List GateToolBinding) → ((b : GateToolBinding) → ¬ Memᴰ b bs) → bs ≡ []
  empty_of_none [] h = refl
  empty_of_none (b ∷ bs) h = absurd (h b (Memᴰ.head refl))

  not-mem_of_empty : (bs : List GateToolBinding) (b : GateToolBinding) → bs ≡ [] → ¬ Memᴰ b bs
  not-mem_of_empty [] b e m = elim m [ ]
  not-mem_of_empty (x ∷ bs) b e m = cc

  -- A call of an installed tool that names no Connection is refused as paused exactly when the
  -- gate does not show the tool.
  pub paused_iff :
      (t : HostedTool) (args : Dict Json)
      → s.installation ≡ some i
      → Memᴰ t i.artifact.tools
      → ((detail : String) × (select_by r i s.availability t none args
            ≡ unselected tool_paused detail))
        ↔ (¬ Memᴰ t (available_tools r s))
  paused_iff t args e m = (
    λ (detail, h) shown.
        let (_, (b, v)) = (available_tools_iff t e).0 shown in
        not-mem_of_empty (active_bindings r i s.availability t) b
          (only_active-paused _ args detail h) ((active_bindings_iff r i s.availability t b).1 v),
    λ hidden.
        let none_active : active_bindings r i s.availability t ≡ [] = empty_of_none _ (λ b at.
          hidden (
            (available_tools_iff t e).1
              (m, (b, (active_bindings_iff r i s.availability t b).0 at)))) in
        ("tool has no active Connections", ap (λ bs. only_active r bs args) none_active),
  )
