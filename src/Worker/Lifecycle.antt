-- ===== src/Worker/Lifecycle.antt =====
-- internal/worker/change_lifecycle.go: `handle` of changeLifecycleHandler. No space lock is taken.
pub mod Steps
pub mod Moves
pub mod Everyone
use discord_support_hub.Prelude.{
  String, Bool, true, false, ◌==◌, ◌||◌, Option, none, some, [], ◌∷◌, ◌<>◌, if◌then◌else◌,
}
use discord_support_hub.Domain.{
  Space, SpaceLifecycleState, JobStatus, Job, is_completed, state_text,
}
use discord_support_hub.Store.Db.{Reply, ok, err, skip_retry, malformed}
use discord_support_hub.Store.Spaces.{get_space_by_id, update_space_lifecycle}
use discord_support_hub.Store.Jobs.{
  get_job_by_space_id_and_kind, update_job_status, UpdateJobStatusParams,
}
use discord_support_hub.Store.Members.{insert_audit_entry, InsertAuditEntryParams}
use discord_support_hub.Discord.{DiscordApi, archive_channel, unarchive_channel}
use discord_support_hub.Effects.{M, Env, ◌>>=◌, ◌>>◌, return, fail, try, ignore, query, call}

pub record ChangeLifecyclePayload : Type 0 where
  pub space_id : String
  pub action : String

-- `queue.KindChangeLifecycle`.
abbrev pub kind_change_lifecycle : String
kind_change_lifecycle = "space:change_lifecycle"

unfoldable pub action_to_target_state : String → Option SpaceLifecycleState
action_to_target_state a =
    if a == "open" || a == "reopen"
    then some SpaceLifecycleState.active
    else if a == "resolve"
    then some SpaceLifecycleState.resolved
    else if a == "archive"
    then some SpaceLifecycleState.archived
    else none

abbrev pub job_params : JobStatus → Bool → Job → UpdateJobStatusParams
job_params status cause j = record {
  job_id = j.id;
  status = status;
  error = cause;
  retry_count = none;
  completed = is_completed status;
}

abbrev pub audit_lifecycle : ChangeLifecyclePayload → SpaceLifecycleState → InsertAuditEntryParams
audit_lifecycle p target = record {
  actor_api_key = none;
  actor_user_id = none;
  action = "space.lifecycle." <> p.action;
  merchant_id = none;
  space_id = some p.space_id;
  target_user_id = none;
  scope = none;
  detail = ("action", p.action) ∷ ("new_state", state_text target) ∷ [];
}

module _ {D L : Type 0} where
  unfoldable pub update_job : JobStatus → Bool → Reply Job → M (Env D L) (Unit {0})
  update_job status cause (err e) = return tt
  update_job status cause (ok j) = ignore (query (update_job_status (job_params status cause j)))

  -- The job's row follows the handler; a failure is logged only.
  unfoldable pub advance_job : String → JobStatus → Bool → M (Env D L) (Unit {0})
  advance_job s status cause = do
    job ← try (query (get_job_by_space_id_and_kind s kind_change_lifecycle))
    update_job status cause job

  -- An error ends the handler, and the job's row is archived with it.
  unfoldable pub or_archive : {A : Type 0} → String → Reply A → M (Env D L) A
  or_archive s (ok a) = return a
  or_archive s (err e) = do advance_job s JobStatus.archived true; fail e

module _ {D L : Type 0} (api : DiscordApi D) (everyone : String) where
  unfoldable pub apply_discord_change : String → String → M (Env D L) (Unit {0})
  apply_discord_change c a =
      if a == "archive"
      then call (archive_channel api c everyone)
      else if a == "reopen" || a == "open"
      then call (unarchive_channel api c everyone)
      else if a == "resolve"
      then return tt
      else fail malformed

  unfoldable pub apply_if_channel : Option String → String → M (Env D L) (Unit {0})
  apply_if_channel none a = return tt
  apply_if_channel (some c) a = apply_discord_change c a

  unfoldable pub move_space :
      ChangeLifecyclePayload → Space → SpaceLifecycleState → M (Env D L) (Unit {0})
  move_space p sp target = do
    changed ← try (apply_if_channel sp.discord_channel_id p.action)
    or_archive p.space_id changed
    row ← try (query (update_space_lifecycle p.space_id target))
    or_archive p.space_id row
    ignore (query (insert_audit_entry (audit_lifecycle p target)))
    advance_job p.space_id JobStatus.completed false

  unfoldable pub move_to :
      ChangeLifecyclePayload → Space → Option SpaceLifecycleState → M (Env D L) (Unit {0})
  move_to p sp none = or_archive p.space_id (err (skip_retry malformed))
  move_to p sp (some target) = move_space p sp target

  unfoldable pub change : ChangeLifecyclePayload → M (Env D L) (Unit {0})
  change p = do
    advance_job p.space_id JobStatus.active false
    found ← try (query (get_space_by_id p.space_id))
    sp ← or_archive p.space_id found
    move_to p sp (action_to_target_state p.action)

  unfoldable pub handle : Option ChangeLifecyclePayload → M (Env D L) (Unit {0})
  handle none = fail (skip_retry malformed)
  handle (some p) =
      if p.space_id == "" || p.action == "" then fail (skip_retry malformed) else change p
