-- ===== src/Reconcile/Converges.antt =====
-- A sweep of a space: it converges, and it is safe.
use discord_support_hub.Prelude.{
  ℕ, String, Bool, Option, none, some, List, [], ◌≡◌, refl, ◌∙◌, sym, ap, subst, inl, inr, arith,
  find, select, has_key, Bool-cases,
}
use discord_support_hub.Domain.{Space, SpaceMember}
use discord_support_hub.Store.Db.{Db, Reply, ok}
use discord_support_hub.Store.Spaces.{by_id, get_space_by_id, update_space_reconciled_at}
use discord_support_hub.Store.Members.{in_space, list_active_space_members}
use discord_support_hub.Discord.{DiscordApi, PermissionOverwrite, get_channel_overwrites}
use discord_support_hub.Discord.Laws.{IsDiscord}
use discord_support_hub.Effects.{Env, Locker, query, call, locking, continue, continue_rule}
use discord_support_hub.Worker.View.{
  view, view-query, view-locking, db-locking, view-get_channel_overwrites, db-read, query_answers,
}
use discord_support_hub.Reconcile.{
  Sweep, swept, breaker, Drift, no_drift, build_desired, real_members, repair, close_sweep, diff,
  sweep_channel, sweep_if_ready, swept_channel, sweep_space, sweep_locked, reconcile_space,
  revoke_all, reapply_all,
}
use discord_support_hub.Reconcile.Desired.{
  wants, is_member, real_members-is_member, build_desired-has_key,
}
use discord_support_hub.Reconcile.Repair.{
  revoke_all-change, revoke_all-NoWorse, revoke_all-done, reapply_all-change, reapply_all-NoWorse,
  reapply_all-done,
}

module _ {D L : Type 0} (api : DiscordApi D) (laws : IsDiscord api) (s : String) where
  module _ (c t : String) (desired : List (String × String)) (real : List (String × Bool))
      (e : Env D L) where
    first : Drift × Env D L
    first = revoke_all api s c desired real (no_drift, e)

    second : Drift × Env D L
    second = reapply_all api s c real desired first

    -- Rules 1 and 2 with every drift repaired.
    repaired_member :
        has_key t real ≡ is_member (view api c t e)
        → second.0.found ≡ second.0.repaired
        → is_member (view api c t second.1) ≡ has_key t desired
    unfolding first second
    repaired_member known all =
        let up = revoke_all-NoWorse api laws s c desired real (no_drift, e) in
        let up2 = reapply_all-NoWorse api laws s c real desired first in
        let change1 = revoke_all-change api laws s c desired c t real (no_drift, e) in
        let change2 = reapply_all-change api laws s c real c t desired first in
        elim (Bool-cases (has_key t desired)) [
          | inl wanted ↦ elim (Bool-cases (has_key t real)) [
            | inl there ↦ ground (arith, change1, change2)
            | inr missing ↦ ground (
              arith,
              reapply_all-done api laws s c real t desired first (omega (arith, up, up2)) wanted
                  missing,
            )
          ]
          | inr unwanted ↦ elim (Bool-cases (has_key t real)) [
            | inl there ↦ ground (
              arith,
              revoke_all-done api laws s c desired t real (no_drift, e) (omega (arith, up, up2))
                  there unwanted,
              change2,
            )
            | inr absent ↦ ground (arith, change1, change2)
          ]
        ]

    repair_converges :
        (n : ℕ)
        → has_key t real ≡ is_member (view api c t e)
        → (repair api s c desired real e).0 ≡ ok (swept n n)
        → is_member (view api c t (repair api s c desired real e).1) ≡ has_key t desired
    unfolding repair close_sweep first second
    repair_converges n known h =
        ap is_member (view-query api c t (update_space_reconciled_at s) second.1)
        ∙ repaired_member known (ground arith)

  module _ (c t : String) where
    diff_converges :
        (members : List SpaceMember) (desired : List (String × String))
        (os : List PermissionOverwrite) (e : Env D L) (n : ℕ)
        → has_key t (real_members [] os) ≡ is_member (view api c t e)
        → (diff api s c members desired os e).0 ≡ ok (swept n n)
        → is_member (view api c t (diff api s c members desired os e).1) ≡ has_key t desired
    unfolding diff
    diff_converges members desired os e n known =
        elim (Bool-cases (breaker members desired (real_members [] os))) [
          | inl tripped ↦ simp tripped (λ h. cc)
          | inr quiet ↦ simp quiet (repair_converges c t desired (real_members [] os) e n known)
        ]

    listed :
        (os : List PermissionOverwrite) (e : Env D L)
        → (call (get_channel_overwrites api c) e).0 ≡ ok os
        → has_key t (real_members [] os) ≡ is_member (view api c t e)
    unfolding call get_channel_overwrites
    listed os e h =
        real_members-is_member os t (api.overwrite e.discord c)
          (laws.channel_lists c e.discord os h) (laws.channel_reads c e.discord os h t)

    member_rows :
        (e : Env D L) (rows : List SpaceMember)
        → (query (list_active_space_members s) e).0 ≡ ok rows
        → rows ≡ select (in_space s) e.db.members
    unfolding list_active_space_members
    member_rows e rows h = ground (arith, query_answers (list_active_space_members s) e rows h)

    member_rows-db : (e : Env D L) → (query (list_active_space_members s) e).1.db ≡ e.db
    unfolding list_active_space_members
    member_rows-db e = db-read (list_active_space_members s) e (λ n db. refl)

    -- The sweep repaired every drift, so the wanted members are the ones with access.
    abbrev Converged : Db → Reply Sweep × Env D L → Type 0
    Converged db r =
        (n : ℕ)
        → r.0 ≡ ok (swept n n)
        → is_member (view api c t r.1) ≡ wants db t (select (in_space s) db.members)

    sweep_channel-Converged : (e : Env D L) → Converged e.db (sweep_channel api s c e)
    unfolding sweep_channel
    sweep_channel-Converged e =
        continue_rule (Converged e.db) (query (list_active_space_members s) e) _ (λ x h n. cc)
          λ rows rows_ok.
            built rows (member_rows e rows rows_ok) (query (list_active_space_members s) e).1
              (member_rows-db e)
      where
        built :
            (rows : List SpaceMember)
            → rows ≡ select (in_space s) e.db.members
            → (e1 : Env D L) → e1.db ≡ e.db
            → Converged e.db (
                continue (build_desired api s [] rows e1) (λ desired e2.
                  continue
                    (call (get_channel_overwrites api c) e2)
                    (λ os. diff api s c rows desired os)))
        built rows all e1 same =
            continue_rule (Converged e.db) (build_desired api s [] rows e1) _ (λ x h n. cc)
              λ desired desired_ok.
                let e2 = (build_desired api s [] rows e1).1 in
                continue_rule (Converged e.db) (call (get_channel_overwrites api c) e2) _
                  (λ x h n. cc)
                  λ os os_ok n h.
                    diff_converges rows desired os _ n
                      (listed os e2 os_ok
                        ∙ ap is_member (sym (view-get_channel_overwrites api laws c t c e2)))
                      h
                    ∙ (build_desired-has_key api s e.db t rows desired e1 same desired_ok
                        ∙ ap (wants e.db t) all)

  -- The space is provisioned, and on its channel exactly the wanted members have access.
  pub record IsConverged (db : Db) (after : Env D L) : Type 0 where
    pub space : Space
    pub space_found : find (by_id s) db.spaces ≡ some space
    pub channel : String
    pub space_channel : swept_channel space ≡ some channel
    pub exact :
        (t : String)
        → is_member (view api channel t after) ≡ wants db t (select (in_space s) db.members)

  abbrev Ends : Db → Reply Sweep × Env D L → Type 0
  Ends db r = (n : ℕ) → r.0 ≡ ok (swept n n) → IsConverged db r.1

  sweep_if_ready-Ends :
      (sp : Space) (db : Db) (e : Env D L) (o : Option String)
      → e.db ≡ db
      → find (by_id s) db.spaces ≡ some sp
      → swept_channel sp ≡ o
      → Ends db (sweep_if_ready api s o e)
  unfolding sweep_if_ready
  sweep_if_ready-Ends sp db e none same found here = λ n h. cc
  sweep_if_ready-Ends sp db e (some c) same found here = λ n h. record {
    space = sp;
    space_found = found;
    channel = c;
    space_channel = here;
    exact = λ t.
        subst
          (λ (b : Db).
            is_member (view api c t (sweep_channel api s c e).1)
            ≡ wants b t (select (in_space s) b.members))
          same (sweep_channel-Converged c t e n h);
  }

  sweep_space-Ends : (e : Env D L) → Ends e.db (sweep_space api s e)
  unfolding sweep_space get_space_by_id
  sweep_space-Ends e =
      let q = query (get_space_by_id s) e in
      continue_rule (Ends e.db) q _ (λ x n h. cc)
        λ sp sp_ok.
          sweep_if_ready-Ends sp e.db q.1 (swept_channel sp)
            (db-read (get_space_by_id s) e (λ n db. refl))
            (ground (arith, query_answers (get_space_by_id s) e sp sp_ok)) refl

  sweep_locked-Ends :
      (locker : Locker L) (o : Option String) (e : Env D L)
      → Ends e.db (sweep_locked api s locker o e)
  unfolding sweep_locked
  sweep_locked-Ends locker none e = λ n h. cc
  sweep_locked-Ends locker (some token) e = λ n h.
      let done = sweep_space-Ends e n h in
      record {
        space = done.space;
        space_found = done.space_found;
        channel = done.channel;
        space_channel = done.space_channel;
        exact = λ t. ap is_member (view-locking api done.channel t _ _) ∙ done.exact t;
      }

  -- Over a Discord that meets its laws: a sweep that reports as many repaired drifts as it
  -- found leaves, on the channel of the provisioned space, a member overwrite for exactly those
  -- Discord ids that the unrevoked member rows of the space map to. Any database call may fail
  -- on the way, and any Discord call.
  pub reconcile_space-converges :
      (locker : Option (Locker L)) (e : Env D L) (n : ℕ)
      → (reconcile_space api s locker e).0 ≡ ok (swept n n)
      → IsConverged e.db (reconcile_space api s locker e).1
  unfolding reconcile_space
  reconcile_space-converges none e = sweep_space-Ends e
  reconcile_space-converges (some locker) e =
      let q = locking (locker.acquire_space s) e in
      continue_rule (Ends e.db) q _ (λ x n h. cc)
        λ token token_ok. acquired token q.1 (db-locking (locker.acquire_space s) e)
    where
      acquired :
          (token : Option String) (e1 : Env D L)
          → e1.db ≡ e.db
          → Ends e.db (sweep_locked api s locker token e1)
      acquired token e1 same =
          subst (λ (b : Db). Ends b (sweep_locked api s locker token e1)) same
            (sweep_locked-Ends locker token e1)
