-- ===== src/Management/Agree.antt =====
-- The recorded availability and the gates' own: applyAvailability of src/management.ts against
-- PolicyGate.changeAvailability of src/gate.ts.
use angel_cloud.Prelude.{
  suc, String, ◌≡◌, refl, sym, ap, subst, ◌∙◌, Bool, ◌&&◌, some, [], ◌∷◌, ◌==◌, eq_iff,
  if◌then◌else◌, Bool-cases, Option-cases, inl, inr, nat_eq, find-eq-some, ok, ok-injective, ◌>>=◌,
  >>=-eq-ok, >>-eq-ok, &&-eq-true,
}
use angel_cloud.Prelude.Dict.{Dict, lookup, lookup-insert, lookup-erase}
use angel_cloud.Runtime.{Runtime}
use angel_cloud.Gate.State.{
  HostedTool, GateToolBinding, GateAvailability, GateInstallation, PolicyGateState,
  GateAvailabilityCommand, change_all, change_tool, change_tool_connection,
}
use angel_cloud.Gate.Availability.{
  or_default, is_tool_enabled, overrides_of, is_tool_connection_enabled, override, pause_all,
  switch_tool, switch_connection, same_tool, find_tool, find_binding, apply_change, installation_of,
  expected_revision, revised, change_installed, change_availability,
}
use angel_cloud.Gate.Effects.{IsTidy, override_lem, switch_tool_lem, switch_connection_lem}
use angel_cloud.Management.Availability.{set_override, keep_overrides, apply_availability}

-- What a change does to the switches, whatever keeps them.
unfoldable pub switched :
    GateAvailabilityCommand → (String → String → Bool) → String → String → Bool
switched (change_all enabled rev) on name ref = enabled
switched (change_tool tool enabled rev) on name ref = if tool == name then enabled else on name ref
switched (change_tool_connection tool own enabled rev) on name ref =
    if tool == name && own == ref then enabled else on name ref

keep_overrides_lem :
    (tool name x : String) (d : Dict Bool) (all : Dict (Dict Bool))
    → lookup x (or_default (lookup name (keep_overrides tool d all)) [])
      ≡ (if tool == name then lookup x d else lookup x (or_default (lookup name all) []))
unfolding lookup
keep_overrides_lem tool name x [] all =
    rw (lookup-erase tool name all)
      (elim (Bool-cases (tool == name)) [ inl e ↦ rw e | inr e ↦ rw e ])
keep_overrides_lem tool name x (e ∷ d) all =
    rw (lookup-insert tool name (e ∷ d) all)
      (elim (Bool-cases (tool == name)) [ inl q ↦ rw q | inr q ↦ rw q ])

module _ (r : Runtime) where
  set_override_lem :
      (key k : String) (enabled base : Bool) (d : Dict Bool)
      → or_default (lookup k (set_override key enabled base d)) base
        ≡ (if key == k then enabled else or_default (lookup k d) base)
  unfolding set_override override
  set_override_lem key k enabled base d = override_lem r key k enabled base d

  -- The recorded availability is switched by a change.
  pub apply_availability-switched :
      (a : GateAvailability) (command : GateAvailabilityCommand) (name ref : String)
      → is_tool_connection_enabled (apply_availability a command) name ref
        ≡ switched command (is_tool_connection_enabled a) name ref
  unfolding apply_availability is_tool_connection_enabled is_tool_enabled switched lookup
  apply_availability-switched a (change_all enabled rev) name ref = refl
  apply_availability-switched a (change_tool tool enabled rev) name ref =
      rw
        (
          set_override_lem tool name enabled a.default_enabled a.overrides,
          lookup-erase tool name a.connection_overrides,
        )
        (elim (Bool-cases (tool == name)) [ inl e ↦ rw e | inr e ↦ rw e ])
  apply_availability-switched a (change_tool_connection tool own enabled rev) name ref =
      let base = is_tool_enabled a tool in
      let new = set_override own enabled base (overrides_of a tool) in
      rw (keep_overrides_lem tool name ref new a.connection_overrides)
        (elim (Bool-cases (tool == name)) [
          | inl e ↦ rw e (
              subst
                (λ n.
                  or_default (lookup ref new) (is_tool_enabled a n)
                  ≡ (if own == ref then enabled else is_tool_connection_enabled a n ref))
                ((eq_iff tool name).0 e)
                (set_override_lem own ref enabled base (overrides_of a tool)))
          | inr e ↦ rw e
        ])

  -- The gate finds the command's tool under the name that the command gives it.
  abbrev pub IsSpelled : GateInstallation → GateAvailabilityCommand → Type 0
  IsSpelled i (change_all enabled rev) = Unit
  IsSpelled i (change_tool tool enabled rev) =
      (t : HostedTool) → find_tool r i.artifact tool ≡ some t → t.name ≡ tool
  IsSpelled i (change_tool_connection tool ref enabled rev) =
      (t : HostedTool) → find_tool r i.artifact tool ≡ some t → t.name ≡ tool

  find_binding-ref :
      (i : GateInstallation) (t : HostedTool) (ref : String) {b : GateToolBinding}
      → find_binding r i t ref ≡ some b
      → b.connection_ref ≡ ref
  unfolding find_binding
  find_binding-ref i t ref {b = b} h =
      let (_, q) =
        find-eq-some (λ b. same_tool r b.tool t.name && b.connection_ref == ref) i.bindings h in
      (eq_iff b.connection_ref ref).0 (&&-eq-true (same_tool r b.tool t.name) _ q).1

  -- So is the gate's.
  pub apply_change-switched :
      (i : GateInstallation) (a b : GateAvailability) (command : GateAvailabilityCommand)
      (name ref : String)
      → IsTidy a
      → IsSpelled i command
      → apply_change r i a command ≡ ok b
      → is_tool_connection_enabled b name ref
        ≡ switched command (is_tool_connection_enabled a) name ref
  unfolding apply_change switched pause_all is_tool_connection_enabled is_tool_enabled lookup
  apply_change-switched i a b (change_all enabled rev) name ref tidy spelled h =
      ap (λ (x : GateAvailability). is_tool_connection_enabled x name ref) (sym (ok-injective h))
  apply_change-switched i a b (change_tool tool enabled rev) name ref tidy spelled h =
      elim (Option-cases (find_tool r i.artifact tool)) [
        | inl e ↦ cc (rw (e, apply_change) at h)
        | inr (t, e) ↦
            ap (λ (x : GateAvailability). is_tool_connection_enabled x name ref)
              (sym (ok-injective (rw (e, apply_change) at h)))
            ∙ switch_tool_lem r a t.name name ref enabled tidy
            ∙ ap (λ n. if n == name then enabled else is_tool_connection_enabled a name ref)
                (spelled t e)
      ]
  apply_change-switched i a b (change_tool_connection tool own enabled rev) name ref tidy spelled
        h =
      elim (Option-cases (find_tool r i.artifact tool)) [
        | inl e ↦ cc (rw (e, apply_change) at h)
        | inr (t, e) ↦ elim (Option-cases (find_binding r i t own)) [
          | inl q ↦ cc (rw (e, q, apply_change) at h)
          | inr (x, q) ↦
              ap (λ (y : GateAvailability). is_tool_connection_enabled y name ref)
                (sym (ok-injective (rw (e, q, apply_change) at h)))
              ∙ switch_connection_lem r a t.name x.connection_ref name ref enabled tidy
              ∙ rw (spelled t e, find_binding-ref i t own q)
        ]
      ]

  -- The same revision, and the same tools and Connections on.
  pub record Agrees (a b : GateAvailability) : Type 0 where
    pub revision : a.revision ≡ b.revision
    pub answers :
        (name ref : String)
        → is_tool_connection_enabled a name ref ≡ is_tool_connection_enabled b name ref

  switched-agrees :
      (command : GateAvailabilityCommand) (on off : String → String → Bool) (name ref : String)
      → ((n x : String) → on n x ≡ off n x)
      → switched command on name ref ≡ switched command off name ref
  unfolding switched
  switched-agrees (change_all enabled rev) on off name ref h = refl
  switched-agrees (change_tool tool enabled rev) on off name ref h = rw (h name ref)
  switched-agrees (change_tool_connection tool own enabled rev) on off name ref h = rw (h name ref)

  apply_availability-revision :
      (a : GateAvailability) (command : GateAvailabilityCommand)
      → (apply_availability a command).revision ≡ suc a.revision
  unfolding apply_availability
  apply_availability-revision a (change_all enabled rev) = refl
  apply_availability-revision a (change_tool tool enabled rev) = refl
  apply_availability-revision a (change_tool_connection tool ref enabled rev) = refl

  apply_change-revision :
      (i : GateInstallation) (a b : GateAvailability) (command : GateAvailabilityCommand)
      → apply_change r i a command ≡ ok b
      → b.revision ≡ a.revision
  unfolding apply_change pause_all switch_tool switch_connection
  apply_change-revision i a b (change_all enabled rev) h =
      ap (λ (x : GateAvailability). x.revision) (sym (ok-injective h))
  apply_change-revision i a b (change_tool tool enabled rev) h =
      elim (Option-cases (find_tool r i.artifact tool)) [
        | inl e ↦ cc (rw (e, apply_change) at h)
        | inr (t, e) ↦
            ap (λ (x : GateAvailability). x.revision)
              (sym (ok-injective (rw (e, apply_change) at h)))
      ]
  apply_change-revision i a b (change_tool_connection tool own enabled rev) h =
      elim (Option-cases (find_tool r i.artifact tool)) [
        | inl e ↦ cc (rw (e, apply_change) at h)
        | inr (t, e) ↦ elim (Option-cases (find_binding r i t own)) [
          | inl q ↦ cc (rw (e, q, apply_change) at h)
          | inr (x, q) ↦
              ap (λ (y : GateAvailability). y.revision)
                (sym (ok-injective (rw (e, q, apply_change) at h)))
        ]
      ]

  -- Where a gate has the recorded revision and answers for every tool and Connection as the
  -- recorded availability does, a change that the gate accepts brings it to the revision of the
  -- recorded target and to the target's answers for every tool and Connection, as long as its
  -- records are objects and it finds the tool under the name in the command.
  pub change_availability-Agrees :
      (s : PolicyGateState) (i : GateInstallation) (a : GateAvailability)
      (command : GateAvailabilityCommand) (out : PolicyGateState × GateAvailability)
      → s.installation ≡ some i
      → Agrees a s.availability
      → IsTidy s.availability
      → IsSpelled i command
      → change_availability r s command ≡ ok out
      → Agrees (apply_availability a command) out.1 × (out.0.availability ≡ out.1)
  unfolding change_availability change_installed revised is_tool_connection_enabled
      apply_availability
  change_availability-Agrees s i a command out installed agrees tidy spelled h =
      let run : change_installed r s command i ≡ ok out =
        sym (ap (λ o. installation_of r o >>= change_installed r s command) installed) ∙ h in
      let (_, applied) =
        >>-eq-ok (nat_eq (expected_revision r command) s.availability.revision) _
          (apply_change r i s.availability command >>= λ b. ok (revised r s b)) run in
      let (b, changed, same) =
        >>=-eq-ok (apply_change r i s.availability command) (λ b. ok (revised r s b)) applied in
      subst
        (λ (o : PolicyGateState × GateAvailability).
          Agrees (apply_availability a command) o.1 × (o.0.availability ≡ o.1))
        (ok-injective same)
        (
          record {
            revision =
                apply_availability-revision a command
                ∙ ap suc (
                    agrees.revision
                    ∙ sym (apply_change-revision i s.availability b command changed));
            answers = λ name ref.
                apply_availability-switched a command name ref
                ∙ switched-agrees command (is_tool_connection_enabled a)
                    (is_tool_connection_enabled s.availability) name ref agrees.answers
                ∙ sym (
                    apply_change-switched i s.availability b command name ref tidy spelled changed);
          },
          refl,
        )
