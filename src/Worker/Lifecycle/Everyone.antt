-- ===== src/Worker/Lifecycle/Everyone.antt =====
-- What a finished lifecycle task leaves of the everyone role's overwrite on the space's channel.
use discord_support_hub.Prelude.{
  String, Bool, true, false, ◌==◌, ◌||◌, Option, none, some, ◌≡◌, refl, sym, ◌∙◌, ap, subst, inl,
  inr, find, Bool-cases, arith, eq_of_eq_true,
}
use discord_support_hub.Domain.{Space, SpaceLifecycleState, JobStatus}
use discord_support_hub.Store.Db.{Reply, ok}
use discord_support_hub.Store.Spaces.{by_id, get_space_by_id, update_space_lifecycle}
use discord_support_hub.Store.Jobs.{get_job_by_space_id_and_kind}
use discord_support_hub.Store.Members.{insert_audit_entry}
use discord_support_hub.Discord.{
  DiscordApi, PermissionOverwrite, role, no_perms, view_and_send, archive_channel,
  unarchive_channel,
}
use discord_support_hub.Discord.Laws.{IsDiscord, made}
use discord_support_hub.Effects.{Env, continue, continue_rule, ignore, ◌>>◌, query, call}
use discord_support_hub.Worker.View.{view, query_answers}
use discord_support_hub.Worker.Lifecycle.{
  ChangeLifecyclePayload, action_to_target_state, advance_job, kind_change_lifecycle,
  audit_lifecycle, or_archive, apply_discord_change, apply_if_channel, move_space, move_to, change,
  handle,
}
use discord_support_hub.Worker.Lifecycle.Steps.{scan_found, or_archive_rule, advance_job-At}
use discord_support_hub.Worker.Provision.Leaves.{Shows, Leaves, query-Leaves, update_job-Leaves}

target_archived :
    (a : String)
    → a == "archive" ≡ true
    → action_to_target_state a ≡ some SpaceLifecycleState.archived
unfolding action_to_target_state
target_archived a h =
    subst (λ b. action_to_target_state b ≡ some SpaceLifecycleState.archived)
      (sym (eq_of_eq_true a "archive" h)) refl

target_active :
    (a : String)
    → (a == "reopen" || a == "open") ≡ true
    → action_to_target_state a ≡ some SpaceLifecycleState.active
unfolding action_to_target_state
target_active a h = ground (arith, h)

target_resolved :
    (a : String)
    → (a == "reopen" || a == "open") ≡ false
    → a == "resolve" ≡ true
    → action_to_target_state a ≡ some SpaceLifecycleState.resolved
unfolding action_to_target_state
target_resolved a h g = ground (arith, h, g)

some_inj : {A : Type 0} {a b : A} → some a ≡ some b → a ≡ b
some_inj h = ground (arith, h)

-- Archived denies, active has no overwrite, resolved keeps what was there.
abbrev pub everyone_after :
    String → SpaceLifecycleState → Option PermissionOverwrite → Option PermissionOverwrite
everyone_after r SpaceLifecycleState.archived v = some (made r role no_perms view_and_send)
everyone_after r SpaceLifecycleState.active v = none
everyone_after r SpaceLifecycleState.resolved v = v

module _ {D L : Type 0} (api : DiscordApi D) (laws : IsDiscord api) (everyone : String)
    (c : String) where
  -- The overwrite after the action, if the action has a target.
  abbrev IsAsked : String → Env D L → Reply (Unit {0}) × Env D L → Type 0
  IsAsked a e r =
      (t : SpaceLifecycleState)
      → action_to_target_state a ≡ some t
      → r.0 ≡ ok tt
      → view api c everyone r.1 ≡ everyone_after everyone t (view api c everyone e)

  IsAsked-by :
      (a : String) (e : Env D L) (r : Reply (Unit {0}) × Env D L) (s : SpaceLifecycleState)
      → action_to_target_state a ≡ some s
      → (r.0 ≡ ok tt → view api c everyone r.1 ≡ everyone_after everyone s (view api c everyone e))
      → IsAsked a e r
  IsAsked-by a e r s known shown t known_t done =
      subst (λ x. view api c everyone r.1 ≡ everyone_after everyone x (view api c everyone e))
        (some_inj (sym known ∙ known_t)) (shown done)

  apply_discord_change-IsAsked :
      (a : String) (e : Env D L) → IsAsked a e (apply_discord_change api everyone c a e)
  unfolding apply_discord_change call archive_channel unarchive_channel
  apply_discord_change-IsAsked a e = elim (Bool-cases (a == "archive")) [
    | inl h ↦ simp h (
        IsAsked-by a e (call (archive_channel api c everyone) e) SpaceLifecycleState.archived
          (target_archived a h) (laws.set_done c everyone role no_perms view_and_send e.discord))
    | inr h ↦ simp h (elim (Bool-cases (a == "reopen" || a == "open")) [
      | inl h2 ↦ simp h2 (
          IsAsked-by a e (call (unarchive_channel api c everyone) e) SpaceLifecycleState.active
            (target_active a h2) (laws.delete_done c everyone e.discord))
      | inr h2 ↦ simp h2 (elim (Bool-cases (a == "resolve")) [
        | inl h3 ↦ simp h3 (
            IsAsked-by a e (ok tt, e) SpaceLifecycleState.resolved (target_resolved a h2 h3)
              (λ h4. refl))
        | inr h3 ↦ simp h3 (λ t known h4. cc)
      ])
    ])
  ]

  apply_if_channel-IsAsked :
      (a : String) (o : Option String) (e : Env D L)
      → o ≡ some c
      → IsAsked a e (apply_if_channel api everyone o a e)
  unfolding apply_if_channel
  apply_if_channel-IsAsked a o e h =
      subst (λ x. IsAsked a e (apply_if_channel api everyone x a e)) (sym h)
        (apply_discord_change-IsAsked a e)

  advance_job-Leaves :
      (v : Option PermissionOverwrite) (s : String) (st : JobStatus) (b : Bool)
      → Leaves {L = L} api c everyone v (advance_job s st b)
  unfolding advance_job
  advance_job-Leaves v s st b e h =
      update_job-Leaves api c everyone v st b _ _
        (query-Leaves api c everyone v (get_job_by_space_id_and_kind s kind_change_lifecycle) e h)

  module _ (p : ChangeLifecyclePayload) where
    -- The end of the task, if it is without an error.
    abbrev Ends : Option PermissionOverwrite → Reply (Unit {0}) × Env D L → Type 0
    Ends v r = r.0 ≡ ok tt → view api c everyone r.1 ≡ v

    written-Ends :
        (v : Option PermissionOverwrite) (t : SpaceLifecycleState) (e : Env D L)
        → Shows api c everyone v e
        → Ends v (
            continue
              (or_archive p.space_id
                (query (update_space_lifecycle p.space_id t) e).0
                (query (update_space_lifecycle p.space_id t) e).1)
              (λ _.
                ignore (query (insert_audit_entry (audit_lifecycle p t)))
                >> advance_job p.space_id JobStatus.completed false))
    written-Ends v t e h =
        or_archive_rule (Ends v) p.space_id (query (update_space_lifecycle p.space_id t) e) _
          (λ x s g. cc)
          λ row row_ok g. advance_job-Leaves v p.space_id JobStatus.completed false _ (
            query-Leaves api c everyone v (insert_audit_entry (audit_lifecycle p t)) _
              (query-Leaves api c everyone v (update_space_lifecycle p.space_id t) e h))

    move_space-Ends :
        (sp : Space) (t : SpaceLifecycleState) (e : Env D L)
        → sp.discord_channel_id ≡ some c
        → action_to_target_state p.action ≡ some t
        → Ends
            (everyone_after everyone t (view api c everyone e))
            (move_space api everyone p sp t e)
    unfolding move_space
    move_space-Ends sp t e has known =
        let q = apply_if_channel api everyone sp.discord_channel_id p.action e in
        or_archive_rule (Ends (everyone_after everyone t (view api c everyone e))) p.space_id q _
          (λ x s g. cc)
          λ u u_ok.
            written-Ends (everyone_after everyone t (view api c everyone e)) t q.1
              (apply_if_channel-IsAsked p.action sp.discord_channel_id e has t known u_ok)

    -- The target and what it makes of the overwrite.
    pub record IsMarked (before after : Env D L) : Type 0 where
      pub target : SpaceLifecycleState
      pub known : action_to_target_state p.action ≡ some target
      pub marked :
          view api c everyone after ≡ everyone_after everyone target (view api c everyone before)

    abbrev Marks : Env D L → Reply (Unit {0}) × Env D L → Type 0
    Marks before r = r.0 ≡ ok tt → IsMarked before r.1

    move_to-Marks :
        (before e : Env D L) (sp : Space) (o : Option SpaceLifecycleState)
        → Shows api c everyone (view api c everyone before) e
        → sp.discord_channel_id ≡ some c
        → action_to_target_state p.action ≡ o
        → Marks before (move_to api everyone p sp o e)
    unfolding move_to or_archive
    move_to-Marks before e sp none same has known =
        continue_rule (Marks before) (advance_job p.space_id JobStatus.archived true e) _
          (λ x n h. cc) (λ u u_ok h. cc)
    move_to-Marks before e sp (some t) same has known = λ h. record {
      target = t;
      known = known;
      marked = move_space-Ends sp t e has known h ∙ ap (everyone_after everyone t) same;
    }

    loaded-Marks :
        (before e : Env D L) (space : Space)
        → find (by_id p.space_id) e.db.spaces ≡ some space
        → space.discord_channel_id ≡ some c
        → Shows api c everyone (view api c everyone before) e
        → Marks before (
            continue
              (or_archive p.space_id
                (query (get_space_by_id p.space_id) e).0
                (query (get_space_by_id p.space_id) e).1)
              (λ sp. move_to api everyone p sp (action_to_target_state p.action)))
    unfolding get_space_by_id
    loaded-Marks before e space found has same =
        or_archive_rule (Marks before) p.space_id (query (get_space_by_id p.space_id) e) _
          (λ x s h. cc)
          λ sp sp_ok.
            move_to-Marks before (query (get_space_by_id p.space_id) e).1 sp
              (action_to_target_state p.action)
              (query-Leaves api c everyone (view api c everyone before) (get_space_by_id p.space_id)
                e same)
              (subst (λ (x : Space). x.discord_channel_id ≡ some c)
                (some_inj (
                  sym found
                  ∙ scan_found _ sp (query_answers (get_space_by_id p.space_id) e sp sp_ok)))
                has)
              refl

    -- Over a Discord that meets its laws: a lifecycle task of a space with a channel that ends
    -- without an error leaves the everyone role's overwrite on the channel as the action asks:
    -- archive denies VIEW_CHANNEL and SEND_MESSAGES, resolve keeps what was there, and open and
    -- reopen leave no overwrite, also none of those that the channel was made with.
    pub handle-IsMarked :
        (e : Env D L) (space : Space)
        → find (by_id p.space_id) e.db.spaces ≡ some space
        → space.discord_channel_id ≡ some c
        → (handle api everyone (some p) e).0 ≡ ok tt
        → IsMarked e (handle api everyone (some p) e).1
    unfolding handle change
    handle-IsMarked e space found has = elim (Bool-cases (p.space_id == "" || p.action == "")) [
      | inl bad ↦ simp bad (λ h. cc)
      | inr fine ↦ simp fine (
          continue_rule (Marks e) (advance_job p.space_id JobStatus.active false e) _ (λ x n h. cc)
            λ u u_ok.
              loaded-Marks e (advance_job p.space_id JobStatus.active false e).1 space
                (ap (find (by_id p.space_id))
                    (advance_job-At e.db.spaces e.now p.space_id JobStatus.active false e
                      (refl, refl)).0
                  ∙ found)
                has
                (advance_job-Leaves (view api c everyone e) p.space_id JobStatus.active false e
                  refl))
    ]
