-- ===== src/Worker/Lifecycle/Moves.antt =====
-- What a finished lifecycle task leaves in the row of its space.
use discord_support_hub.Prelude.{
  ℕ, String, true, false, ◌==◌, ◌||◌, Option, none, some, List, ◌≡◌, refl, sym, ◌∙◌, ap, inl, inr,
  ◌⊎◌, eq_of_eq_true, arith, find, update_where, find-update_where, find_sound, revise, Bool-cases,
}
use mathlib.Core.Option
use discord_support_hub.Domain.{Space, SpaceLifecycleState, JobStatus}
use discord_support_hub.Store.Db.{Reply, ok}
use discord_support_hub.Store.Spaces.{by_id, get_space_by_id, update_space_lifecycle, set_lifecycle}
use discord_support_hub.Store.Members.{insert_audit_entry}
use discord_support_hub.Discord.{DiscordApi}
use discord_support_hub.Effects.{Env, continue_rule, query, continue, ignore, ◌>>◌}
use discord_support_hub.Worker.Lifecycle.{
  ChangeLifecyclePayload, action_to_target_state, advance_job, or_archive, audit_lifecycle,
  apply_if_channel, move_space, move_to, change, handle,
}
use discord_support_hub.Worker.View.{query_answers}
use discord_support_hub.Worker.Lifecycle.Steps.{
  At, scan_found, or_archive_rule, audit-keeps, query-At, advance_job-At, updated-At,
  apply_if_channel-At,
}

-- What an action makes of a space's row at a time.
abbrev pub IsTurned : String → ℕ → Space → Space → Type 0
IsTurned action now before after =
    (((action ≡ "open") ⊎ (action ≡ "reopen"))
      × (after ≡ record before {
        lifecycle_state = SpaceLifecycleState.active;
        updated_at = now;
        archived_at = none;
      }))
    ⊎ ((action ≡ "resolve")
        × (after ≡ record before {
          lifecycle_state = SpaceLifecycleState.resolved;
          updated_at = now;
          archived_at = none;
        }))
    ⊎ ((action ≡ "archive")
        × (after ≡ record before {
          lifecycle_state = SpaceLifecycleState.archived;
          updated_at = now;
          archived_at = some now;
        }))

-- The space's row before and after the task.
pub record IsMoved {D L : Type 0} (p : ChangeLifecyclePayload) (before after : Env D L)
    : Type 0 where
  pub space : Space
  pub space_found : find (by_id p.space_id) before.db.spaces ≡ some space
  pub moved : Space
  pub moved_found : find (by_id p.space_id) after.db.spaces ≡ some moved
  pub action_done : IsTurned p.action before.now space moved

set_lifecycle-IsTurned :
    (a : String) (t : SpaceLifecycleState) (now : ℕ) (sp : Space)
    → action_to_target_state a ≡ some t
    → IsTurned a now sp (set_lifecycle t now sp)
unfolding action_to_target_state
set_lifecycle-IsTurned a t now sp known = elim (Bool-cases (a == "open")) [
  | inl opens ↦ inl (
    inl (eq_of_eq_true a "open" opens),
    ap (λ k. set_lifecycle k now sp) (sym (targets (simp opens refl) known)),
  )
  | inr closed ↦ elim (Bool-cases (a == "reopen")) [
    | inl reopens ↦ inl (
      inr (eq_of_eq_true a "reopen" reopens),
      ap (λ k. set_lifecycle k now sp) (sym (targets (simp (closed, reopens) refl) known)),
    )
    | inr shut ↦ elim (Bool-cases (a == "resolve")) [
      | inl resolves ↦ inr (
          inl (
            eq_of_eq_true a "resolve" resolves,
            ap (λ k. set_lifecycle k now sp)
                (sym (targets (simp (closed, shut, resolves) refl) known)),
          ))
      | inr unresolved ↦ elim (Bool-cases (a == "archive")) [
        | inl archives ↦ inr (
            inr (
              eq_of_eq_true a "archive" archives,
              ap (λ k. set_lifecycle k now sp)
                  (sym (targets (simp (closed, shut, unresolved, archives) refl) known)),
            ))
        | inr unknown ↦ absurd (ground (arith, known, closed, shut, unresolved, unknown))
      ]
    ]
  ]
]
  where
    targets :
        {o : Option SpaceLifecycleState} {k l : SpaceLifecycleState}
        → o ≡ some k
        → o ≡ some l
        → k ≡ l
    targets one other = cc

find-moved :
    (s : String) (t : SpaceLifecycleState) (n : ℕ) (ss : List Space) (sp : Space)
    → find (by_id s) ss ≡ some sp
    → find (by_id s) (update_where (by_id s) (set_lifecycle t n) ss) ≡ some (set_lifecycle t n sp)
find-moved s t n ss sp found =
    find-update_where (by_id s) (by_id s) (set_lifecycle t n) ss (λ x. refl)
    ∙ ap (Option.map (revise (by_id s) (set_lifecycle t n))) found
    ∙ simp (find_sound (by_id s) ss sp found)

module _ {D L : Type 0} (api : DiscordApi D) (everyone : String) (p : ChangeLifecyclePayload) where
  abbrev Ends : List Space → ℕ → Reply (Unit {0}) × Env D L → Type 0
  Ends ss n r = r.0 ≡ ok tt → At ss n r.1

  -- The update is the one step that touches the spaces.
  move_space-Ends :
      (sp : Space) (t : SpaceLifecycleState) (ss : List Space) (n : ℕ) (e : Env D L)
      → At ss n e
      → Ends
          (update_where (by_id p.space_id) (set_lifecycle t n) ss)
          n
          (move_space api everyone p sp t e)
  unfolding move_space
  move_space-Ends sp t ss n e at =
      let P = Ends (update_where (by_id p.space_id) (set_lifecycle t n) ss) n in
      or_archive_rule P p.space_id (apply_if_channel api everyone sp.discord_channel_id p.action e)
        _ (λ x s h. cc)
        λ u u_ok.
          written t ss n _
            (apply_if_channel-At ss n api everyone sp.discord_channel_id p.action e at)
    where
      finished :
          (t : SpaceLifecycleState) (ss : List Space) (n : ℕ) (e1 : Env D L)
          → At ss n e1
          → Ends ss n (
              (ignore (query (insert_audit_entry (audit_lifecycle p t)))
                  >> advance_job p.space_id JobStatus.completed false)
                e1)
      finished t ss n e1 at = λ h. advance_job-At ss n p.space_id JobStatus.completed false _ (
          query-At ss n (insert_audit_entry (audit_lifecycle p t)) e1
            (audit-keeps (audit_lifecycle p t)) at)

      written :
          (t : SpaceLifecycleState) (ss : List Space) (n : ℕ) (e1 : Env D L)
          → At ss n e1
          → Ends (update_where (by_id p.space_id) (set_lifecycle t n) ss) n (
              continue
                (or_archive p.space_id
                  (query (update_space_lifecycle p.space_id t) e1).0
                  (query (update_space_lifecycle p.space_id t) e1).1)
                (λ _.
                  ignore (query (insert_audit_entry (audit_lifecycle p t)))
                  >> advance_job p.space_id JobStatus.completed false))
      written t ss n e1 (same, here) =
          or_archive_rule (Ends (update_where (by_id p.space_id) (set_lifecycle t n) ss) n)
            p.space_id (query (update_space_lifecycle p.space_id t) e1) _ (λ x s h. cc)
            λ row row_ok.
              finished t (update_where (by_id p.space_id) (set_lifecycle t n) ss) n _
                (updated-At ss n p.space_id t e1 row (same, here) row_ok)

  abbrev Done : Env D L → Reply (Unit {0}) × Env D L → Type 0
  Done before r = r.0 ≡ ok tt → IsMoved p before r.1

  move_to-Done :
      (before e : Env D L) (sp : Space) (o : Option SpaceLifecycleState)
      → At before.db.spaces before.now e
      → find (by_id p.space_id) before.db.spaces ≡ some sp
      → action_to_target_state p.action ≡ o
      → Done before (move_to api everyone p sp o e)
  unfolding move_to or_archive
  move_to-Done before e sp none at found here =
      continue_rule (Done before) (advance_job p.space_id JobStatus.archived true e) _ (λ x n h. cc)
        (λ u u_ok h. cc)
  move_to-Done before e sp (some t) at found here = λ h. record {
    space = sp;
    space_found = found;
    moved = set_lifecycle t before.now sp;
    moved_found =
        ap (find (by_id p.space_id)) (move_space-Ends sp t before.db.spaces before.now e at h).0
        ∙ find-moved p.space_id t before.now before.db.spaces sp found;
    action_done = set_lifecycle-IsTurned p.action t before.now sp here;
  }

  change-Done : (e : Env D L) → Done e (change api everyone p e)
  unfolding change get_space_by_id
  change-Done e =
      continue_rule (Done e) (advance_job p.space_id JobStatus.active false e) _ (λ x n h. cc)
        λ u u_ok.
          loaded (advance_job p.space_id JobStatus.active false e).1
            (advance_job-At e.db.spaces e.now p.space_id JobStatus.active false e (refl, refl))
    where
      loaded :
          (e1 : Env D L)
          → At e.db.spaces e.now e1
          → Done e (
              continue
                (or_archive p.space_id
                  (query (get_space_by_id p.space_id) e1).0
                  (query (get_space_by_id p.space_id) e1).1)
                (λ sp. move_to api everyone p sp (action_to_target_state p.action)))
      loaded e1 (same, here) =
          or_archive_rule (Done e) p.space_id (query (get_space_by_id p.space_id) e1) _
            (λ x s h. cc)
            λ sp sp_ok.
              move_to-Done e (query (get_space_by_id p.space_id) e1).1 sp
                (action_to_target_state p.action)
                (query-At e.db.spaces e.now (get_space_by_id p.space_id) e1 (λ k db. refl)
                  (same, here))
                (ap (find (by_id p.space_id)) (sym same)
                  ∙ scan_found _ sp (query_answers (get_space_by_id p.space_id) e1 sp sp_ok))
                refl

  -- A lifecycle task that ends without an error had a known action, and the space's row differs from
  -- the one before by what the action asks: active after open and reopen and resolved after resolve,
  -- both with the time of archiving cleared, and archived at the task's time after archive. Any other
  -- database call may fail on the way, and the job's row may be missing.
  pub handle-IsMoved :
      (e : Env D L)
      → (handle api everyone (some p) e).0 ≡ ok tt
      → IsMoved p e (handle api everyone (some p) e).1
  unfolding handle
  handle-IsMoved e = elim (Bool-cases (p.space_id == "" || p.action == "")) [
    | inl bad ↦ simp bad (λ h. cc)
    | inr fine ↦ simp fine (change-Done e)
  ]
