-- ===== src/Reconcile/Repair.antt =====
-- Rules 1 and 2 at one channel and one target: what they may change, and that rounds which were
-- all repaired did their work.
use discord_support_hub.Prelude.{
  ◌+◌, ◌≤◌, String, Bool, true, false, Option, none, some, List, [], ◌∷◌, ◌≡◌, refl, ◌⊎◌, inl,
  arith, has_key, lookup, eq_iff,
}
use discord_support_hub.Store.Db.{ok}
use discord_support_hub.Store.Members.{set_space_member_overwrite_applied, insert_audit_entry}
use discord_support_hub.Discord.{
  DiscordApi, PermissionOverwrite, set_collaborator_overwrite, delete_collaborator_overwrite,
  collaborator_overwrite,
}
use discord_support_hub.Discord.Laws.{IsDiscord}
use discord_support_hub.Effects.{Env, query, call}
use discord_support_hub.Worker.View.{
  view, view-query, view-delete_collaborator, view-set_collaborator,
}
use discord_support_hub.Reconcile.{
  Drift, repair_entry, revoke_one, revoke_all, reapply_one, reapply_all,
}

-- What was found and not repaired does not fall from `a` to `b`.
abbrev pub NoWorse : Drift → Drift → Type 0
NoWorse a b = a.found + b.repaired ≤ b.found + a.repaired

-- Every drift that was found from `a` to `b` was repaired.
abbrev pub AllRepaired : Drift → Drift → Type 0
AllRepaired a b = b.found + a.repaired ≡ a.found + b.repaired

-- Rule 1 may remove what is not desired, and nothing else.
abbrev pub MayRevoke :
    String
    → List (String × String)
    → String
    → String
    → Option PermissionOverwrite
    → Option PermissionOverwrite
    → Type 0
MayRevoke c desired c' t v v' = (v' ≡ v) ⊎ ((c' ≡ c) × (has_key t desired ≡ false) × (v' ≡ none))

-- Rule 2 may apply what is desired, and nothing else.
abbrev pub MayApply :
    String
    → List (String × String)
    → String
    → String
    → Option PermissionOverwrite
    → Option PermissionOverwrite
    → Type 0
MayApply c desired c' t v v' =
    (v' ≡ v) ⊎ ((c' ≡ c) × (has_key t desired ≡ true) × (v' ≡ some (collaborator_overwrite t)))

module _ {D L : Type 0} (api : DiscordApi D) (laws : IsDiscord api) (s c : String) where
  abbrev pub seen : String → String → Drift × Env D L → Option PermissionOverwrite
  seen c' t st = view api c' t st.1

  deleted :
      (d : String) (e : Env D L)
      → (call (delete_collaborator_overwrite api c d) e).0 ≡ ok tt
      → view api c d (call (delete_collaborator_overwrite api c d) e).1 ≡ none
  unfolding call delete_collaborator_overwrite
  deleted d e h = laws.delete_done c d e.discord h

  applied :
      (d : String) (e : Env D L)
      → (call (set_collaborator_overwrite api c d) e).0 ≡ ok tt
      → view api c d (call (set_collaborator_overwrite api c d) e).1
        ≡ some (collaborator_overwrite d)
  unfolding call set_collaborator_overwrite
  applied d e h = laws.set_done c d _ _ _ e.discord h

  module _ (desired : List (String × String)) where
    revoke_one-change :
        (c' t d : String) (st : Drift × Env D L)
        → MayRevoke c desired c' t (seen c' t st) (seen c' t (revoke_one api s c desired d st))
    unfolding revoke_one
    revoke_one-change c' t d (drift, e) =
        let e1 = (call (delete_collaborator_overwrite api c d) e).1 in
        ground (
          arith,
          view-delete_collaborator api laws c' t c d e,
          view-query api c' t (insert_audit_entry (repair_entry s "revoke_unbacked_overwrite" d))
              e1,
        )

    revoke_one-NoWorse :
        (d : String) (st : Drift × Env D L) → NoWorse st.0 (revoke_one api s c desired d st).0
    unfolding revoke_one
    revoke_one-NoWorse d (drift, e) = ground arith

    revoke_one-done :
        (d : String) (st : Drift × Env D L)
        → AllRepaired st.0 (revoke_one api s c desired d st).0
        → has_key d desired ≡ false
        → seen c d (revoke_one api s c desired d st) ≡ none
    unfolding revoke_one
    revoke_one-done d (drift, e) all free =
        let e1 = (call (delete_collaborator_overwrite api c d) e).1 in
        ground (
          arith,
          deleted d e,
          view-query api c d (insert_audit_entry (repair_entry s "revoke_unbacked_overwrite" d)) e1,
        )

    pub revoke_all-change :
        (c' t : String) (real : List (String × Bool)) (st : Drift × Env D L)
        → MayRevoke c desired c' t (seen c' t st) (seen c' t (revoke_all api s c desired real st))
    unfolding revoke_all
    revoke_all-change c' t [] st = inl refl
    revoke_all-change c' t ((d, b) ∷ real) st = ground (
      arith,
      revoke_one-change c' t d st,
      revoke_all-change c' t real (revoke_one api s c desired d st),
    )

    pub revoke_all-NoWorse :
        (real : List (String × Bool)) (st : Drift × Env D L)
        → NoWorse st.0 (revoke_all api s c desired real st).0
    unfolding revoke_all
    revoke_all-NoWorse [] st = omega arith
    revoke_all-NoWorse ((d, b) ∷ real) st =
        omega (
          arith,
          revoke_one-NoWorse d st,
          revoke_all-NoWorse real (revoke_one api s c desired d st),
        )

    pub revoke_all-done :
        (t : String) (real : List (String × Bool)) (st : Drift × Env D L)
        → AllRepaired st.0 (revoke_all api s c desired real st).0
        → has_key t real ≡ true
        → has_key t desired ≡ false
        → seen c t (revoke_all api s c desired real st) ≡ none
    unfolding revoke_all lookup
    revoke_all-done t [] st all listed free = ground arith
    revoke_all-done t ((d, b) ∷ real) st all listed free =
        let st1 = revoke_one api s c desired d st in
        let h1 : AllRepaired st.0 st1.0 =
          omega (arith, revoke_one-NoWorse d st, revoke_all-NoWorse real st1) in
        let h2 : AllRepaired st1.0 (revoke_all api s c desired real st1).0 =
          omega (arith, revoke_one-NoWorse d st, revoke_all-NoWorse real st1) in
        ground (
          arith,
          eq_iff d t,
          revoke_one-done d st h1,
          revoke_all-change c t real st1,
          revoke_all-done t real st1 h2,
        )

  module _ (real : List (String × Bool)) where
    reapply_one-change :
        (c' t d sm : String) (st : Drift × Env D L)
        → let v' = seen c' t (reapply_one api s c real d sm st) in
          (v' ≡ seen c' t st) ⊎ ((c' ≡ c) × (t ≡ d) × (v' ≡ some (collaborator_overwrite t)))
    unfolding reapply_one
    reapply_one-change c' t d sm (drift, e) =
        let e1 = (call (set_collaborator_overwrite api c d) e).1 in
        let e2 = (query (set_space_member_overwrite_applied sm) e1).1 in
        ground (
          arith,
          view-set_collaborator api laws c' t c d e,
          view-query api c' t (set_space_member_overwrite_applied sm) e1,
          view-query api c' t (insert_audit_entry (repair_entry s "reapply_missing_overwrite" d))
              e2,
        )

    reapply_one-NoWorse :
        (d sm : String) (st : Drift × Env D L) → NoWorse st.0 (reapply_one api s c real d sm st).0
    unfolding reapply_one
    reapply_one-NoWorse d sm (drift, e) = ground arith

    reapply_one-done :
        (d sm : String) (st : Drift × Env D L)
        → AllRepaired st.0 (reapply_one api s c real d sm st).0
        → has_key d real ≡ false
        → seen c d (reapply_one api s c real d sm st) ≡ some (collaborator_overwrite d)
    unfolding reapply_one
    reapply_one-done d sm (drift, e) all free =
        let e1 = (call (set_collaborator_overwrite api c d) e).1 in
        let e2 = (query (set_space_member_overwrite_applied sm) e1).1 in
        ground (
          arith,
          applied d e,
          view-query api c d (set_space_member_overwrite_applied sm) e1,
          view-query api c d (insert_audit_entry (repair_entry s "reapply_missing_overwrite" d)) e2,
        )

    pub reapply_all-change :
        (c' t : String) (wishes : List (String × String)) (st : Drift × Env D L)
        → MayApply c wishes c' t (seen c' t st) (seen c' t (reapply_all api s c real wishes st))
    unfolding reapply_all lookup
    reapply_all-change c' t [] st = inl refl
    reapply_all-change c' t ((d, sm) ∷ wishes) st = ground (
      arith,
      eq_iff d t,
      reapply_one-change c' t d sm st,
      reapply_all-change c' t wishes (reapply_one api s c real d sm st),
    )

    pub reapply_all-NoWorse :
        (wishes : List (String × String)) (st : Drift × Env D L)
        → NoWorse st.0 (reapply_all api s c real wishes st).0
    unfolding reapply_all
    reapply_all-NoWorse [] st = omega arith
    reapply_all-NoWorse ((d, sm) ∷ wishes) st = omega (
      arith,
      reapply_one-NoWorse d sm st,
      reapply_all-NoWorse wishes (reapply_one api s c real d sm st),
    )

    pub reapply_all-done :
        (t : String) (wishes : List (String × String)) (st : Drift × Env D L)
        → AllRepaired st.0 (reapply_all api s c real wishes st).0
        → has_key t wishes ≡ true
        → has_key t real ≡ false
        → seen c t (reapply_all api s c real wishes st) ≡ some (collaborator_overwrite t)
    unfolding reapply_all lookup
    reapply_all-done t [] st all listed free = ground arith
    reapply_all-done t ((d, sm) ∷ wishes) st all listed free =
        let st1 = reapply_one api s c real d sm st in
        let h1 : AllRepaired st.0 st1.0 =
          omega (arith, reapply_one-NoWorse d sm st, reapply_all-NoWorse wishes st1) in
        let h2 : AllRepaired st1.0 (reapply_all api s c real wishes st1).0 =
          omega (arith, reapply_one-NoWorse d sm st, reapply_all-NoWorse wishes st1) in
        ground (
          arith,
          eq_iff d t,
          reapply_one-done d sm st h1,
          reapply_all-change c t wishes st1,
          reapply_all-done t wishes st1 h2,
        )
