-- ===== src/Reconcile/Safe.antt =====
-- What a sweep may change, however its calls end.
use discord_support_hub.Prelude.{
  String, Bool, true, false, Option, none, some, List, [], ◌≡◌, refl, ◌∙◌, ◌⊎◌, inl, inr, arith,
  find, select, has_key, subst, sym, ap, Bool-cases,
}
use discord_support_hub.Domain.{Space, SpaceMember}
use discord_support_hub.Store.Db.{Db, ok}
use discord_support_hub.Store.Spaces.{by_id, get_space_by_id, update_space_reconciled_at}
use discord_support_hub.Store.Members.{in_space, list_active_space_members}
use discord_support_hub.Discord.{
  DiscordApi, PermissionOverwrite, collaborator_overwrite, get_channel_overwrites,
}
use discord_support_hub.Discord.Laws.{IsDiscord}
use discord_support_hub.Effects.{Env, Locker, query, call, locking, continue, continue_rule}
use discord_support_hub.Worker.View.{
  view, view-query, view-get_channel_overwrites, db-read, query_answers,
}
use discord_support_hub.Reconcile.{
  breaker, no_drift, build_desired, real_members, repair, close_sweep, diff, sweep_channel,
  sweep_if_ready, swept_channel, sweep_space, sweep_locked, reconcile_space, revoke_all,
  reapply_all,
}
use discord_support_hub.Reconcile.Desired.{wants, build_desired-view, build_desired-has_key}
use discord_support_hub.Reconcile.Repair.{revoke_all-change, reapply_all-change}

-- The space is provisioned on the channel `c`.
abbrev pub IsSweptAt : Db → String → String → Type 0
IsSweptAt db s c = (sp : Space) × (find (by_id s) db.spaces ≡ some sp) × (swept_channel sp ≡ some c)

module _ (s c t : String) where
  -- An overwrite that changes is one of the swept channel: an unwanted one that is gone, or a
  -- wanted one that is there.
  abbrev pub Safe : Db → Option PermissionOverwrite → Option PermissionOverwrite → Type 0
  Safe db v v' =
      (v' ≡ v)
      ⊎ (IsSweptAt db s c
          × (((wants db t (select (in_space s) db.members) ≡ false) × (v' ≡ none))
              ⊎ ((wants db t (select (in_space s) db.members) ≡ true)
                  × (v' ≡ some (collaborator_overwrite t)))))

  carry : (db : Db) {v v1 v' : Option PermissionOverwrite} → v1 ≡ v → Safe db v1 v' → Safe db v v'
  carry db h (inl same) = inl (same ∙ h)
  carry db h (inr made) = inr made

  -- The same for the map of the sweep, which knows nothing of the tables.
  abbrev SafeAt :
      String
      → List (String × String)
      → Option PermissionOverwrite
      → Option PermissionOverwrite
      → Type 0
  SafeAt c' desired v v' =
      (v' ≡ v)
      ⊎ ((c ≡ c')
          × (((has_key t desired ≡ false) × (v' ≡ none))
              ⊎ ((has_key t desired ≡ true) × (v' ≡ some (collaborator_overwrite t)))))

  from_map :
      (db : Db) (c' : String) (desired : List (String × String)) {v v' : Option PermissionOverwrite}
      → IsSweptAt db s c'
      → has_key t desired ≡ wants db t (select (in_space s) db.members)
      → SafeAt c' desired v v'
      → Safe db v v'
  from_map db c' desired at h (inl same) = inl same
  from_map db c' desired at h (inr (here, inl (free, gone))) =
      inr (subst (IsSweptAt db s) (sym here) at, inl (sym h ∙ free, gone))
  from_map db c' desired at h (inr (here, inr (wish, there))) =
      inr (subst (IsSweptAt db s) (sym here) at, inr (sym h ∙ wish, there))

module _ {D L : Type 0} (api : DiscordApi D) (laws : IsDiscord api) (s c t : String) where
  repair-SafeAt :
      (c' : String) (desired : List (String × String)) (real : List (String × Bool)) (e : Env D L)
      → SafeAt s c t c' desired (view api c t e) (view api c t (repair api s c' desired real e).1)
  unfolding repair close_sweep
  repair-SafeAt c' desired real e =
      let first = revoke_all api s c' desired real (no_drift, e) in
      let second = reapply_all api s c' real desired first in
      ground (
        arith,
        revoke_all-change api laws s c' desired c t real (no_drift, e),
        reapply_all-change api laws s c' real c t desired first,
        view-query api c t (update_space_reconciled_at s) second.1,
      )

  diff-SafeAt :
      (c' : String) (members : List SpaceMember) (desired : List (String × String))
      (os : List PermissionOverwrite) (e : Env D L)
      → SafeAt s c t c' desired
          (view api c t e)
          (view api c t (diff api s c' members desired os e).1)
  unfolding diff
  diff-SafeAt c' members desired os e =
      elim (Bool-cases (breaker members desired (real_members [] os))) [
        | inl tripped ↦ simp tripped (inl refl)
        | inr quiet ↦ simp quiet (repair-SafeAt c' desired (real_members [] os) e)
      ]

  rows_read :
      (e : Env D L) (rows : List SpaceMember)
      → (query (list_active_space_members s) e).0 ≡ ok rows
      → rows ≡ select (in_space s) e.db.members
  unfolding list_active_space_members
  rows_read e rows h = ground (arith, query_answers (list_active_space_members s) e rows h)

  rows_read-db : (e : Env D L) → (query (list_active_space_members s) e).1.db ≡ e.db
  unfolding list_active_space_members
  rows_read-db e = db-read (list_active_space_members s) e (λ n db. refl)

  sweep_channel-Safe :
      (db : Db) (c' : String) (e : Env D L)
      → e.db ≡ db
      → IsSweptAt db s c'
      → Safe s c t db (view api c t e) (view api c t (sweep_channel api s c' e).1)
  unfolding sweep_channel
  sweep_channel-Safe db c' e same at =
      let q = query (list_active_space_members s) e in
      carry s c t db (view-query api c t (list_active_space_members s) e) (
        continue_rule (λ r. Safe s c t db (view api c t q.1) (view api c t r.1)) q _
          (λ x h. inl refl)
          λ rows rows_ok.
            built rows
              (rows_read e rows rows_ok ∙ ap (λ (b : Db). select (in_space s) b.members) same) q.1
              (rows_read-db e ∙ same))
    where
      built :
          (rows : List SpaceMember)
          → rows ≡ select (in_space s) db.members
          → (e1 : Env D L) → e1.db ≡ db
          → Safe s c t db (view api c t e1) (
              view api c t
                (continue (build_desired api s [] rows e1) (λ desired e2.
                  continue
                    (call (get_channel_overwrites api c') e2)
                    (λ os. diff api s c' rows desired os))).1)
      built rows all e1 same1 =
          let q2 = build_desired api s [] rows e1 in
          carry s c t db (build_desired-view api s db c t rows [] e1) (
            continue_rule (λ r. Safe s c t db (view api c t q2.1) (view api c t r.1)) q2 _
              (λ x h. inl refl)
              λ desired desired_ok.
                let q3 = call (get_channel_overwrites api c') q2.1 in
                carry s c t db (view-get_channel_overwrites api laws c t c' q2.1) (
                  continue_rule (λ r. Safe s c t db (view api c t q3.1) (view api c t r.1)) q3 _
                    (λ x h. inl refl)
                    λ os os_ok.
                      from_map s c t db c' desired at
                        (build_desired-has_key api s db t rows desired e1 same1 desired_ok
                          ∙ ap (wants db t) all)
                        (diff-SafeAt c' rows desired os q3.1)))

  sweep_if_ready-Safe :
      (db : Db) (sp : Space) (o : Option String) (e : Env D L)
      → e.db ≡ db
      → find (by_id s) db.spaces ≡ some sp
      → swept_channel sp ≡ o
      → Safe s c t db (view api c t e) (view api c t (sweep_if_ready api s o e).1)
  unfolding sweep_if_ready
  sweep_if_ready-Safe db sp none e same found here = inl refl
  sweep_if_ready-Safe db sp (some c') e same found here =
      sweep_channel-Safe db c' e same (sp, found, here)

  sweep_space-Safe :
      (db : Db) (e : Env D L)
      → e.db ≡ db
      → Safe s c t db (view api c t e) (view api c t (sweep_space api s e).1)
  unfolding sweep_space get_space_by_id
  sweep_space-Safe db e same =
      let q = query (get_space_by_id s) e in
      carry s c t db (view-query api c t (get_space_by_id s) e) (
        continue_rule (λ r. Safe s c t db (view api c t q.1) (view api c t r.1)) q _
          (λ x h. inl refl)
          λ sp sp_ok.
            sweep_if_ready-Safe db sp (swept_channel sp) q.1
              (db-read (get_space_by_id s) e (λ n db. refl) ∙ same)
              (ground (arith, query_answers (get_space_by_id s) e sp sp_ok)) refl)

  sweep_locked-Safe :
      (locker : Locker L) (o : Option String) (db : Db) (e : Env D L)
      → e.db ≡ db
      → Safe s c t db (view api c t e) (view api c t (sweep_locked api s locker o e).1)
  unfolding sweep_locked locking
  sweep_locked-Safe locker none db e same = inl refl
  sweep_locked-Safe locker (some token) db e same = sweep_space-Safe db e same

  -- Over a Discord that meets its laws: however a sweep ends and whatever calls fail, an
  -- overwrite that it changes is one of the channel of the provisioned space, and the tables
  -- decide: it is removed only if no unrevoked member row wants its target, and it is set, to
  -- the collaborator's grant, only if one does.
  pub reconcile_space-Safe :
      (locker : Option (Locker L)) (e : Env D L)
      → Safe s c t e.db (view api c t e) (view api c t (reconcile_space api s locker e).1)
  unfolding reconcile_space locking
  reconcile_space-Safe none e = sweep_space-Safe e.db e refl
  reconcile_space-Safe (some locker) e =
      let q = locking (locker.acquire_space s) e in
      continue_rule (λ r. Safe s c t e.db (view api c t e) (view api c t r.1)) q _ (λ x h. inl refl)
        λ token token_ok. sweep_locked-Safe locker token e.db q.1 refl
