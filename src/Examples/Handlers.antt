-- ===== src/Examples/Handlers.antt =====
-- The theorems of the handlers and of the reconciler, at the hub of `Hub`.
use discord_support_hub.Prelude.{
  none, some, [], ◌∷◌, lookup, find, select, insert, update_where, ◌≡◌, refl, ◌⊎◌,
}
use discord_support_hub.Discord.{
  role, view_only, unarchive_channel, archive_channel, member, view_and_send, no_perms,
  collaborator_overwrite, set_collaborator_overwrite, delete_collaborator_overwrite,
  get_channel_overwrites,
}
use discord_support_hub.Effects.{locking, query, call}
use discord_support_hub.Worker.View.{view}
use discord_support_hub.Worker.Invite
use discord_support_hub.Worker.Invite.{InviteCollaboratorPayload, InviteConfig}
use discord_support_hub.Worker.Invite.Grants.{IsBacked, handle-IsBacked}
use discord_support_hub.Worker.Expel
use discord_support_hub.Worker.Expel.{ExpelCollaboratorPayload}
use discord_support_hub.Worker.Expel.Revokes.{IsRevoked, handle-IsRevoked}
use discord_support_hub.Store.Jobs.{get_job_by_space_id_and_kind}
use discord_support_hub.Worker.Lifecycle
use discord_support_hub.Worker.Lifecycle.{
  ChangeLifecyclePayload, advance_job, update_job, or_archive, action_to_target_state, move_to,
  move_space, apply_if_channel, apply_discord_change,
}
use discord_support_hub.Worker.Lifecycle.Everyone.{IsMarked, handle-IsMarked}
use discord_support_hub.Worker.Lifecycle.Moves.{IsMoved, handle-IsMoved}
use discord_support_hub.Store.Spaces.{get_space_by_id, get_user_by_id, update_space_lifecycle}
use discord_support_hub.Store.Members.{
  get_space_member_by_space_and_user, revoke_space_member, insert_audit_entry,
  list_active_space_members,
}
use discord_support_hub.Reconcile.{
  reconcile_space, sweep_locked, sweep_space, sweep_if_ready, sweep_channel, build_desired,
  next_desired, wish, diff, real_members, repair, close_sweep, revoke_all, revoke_one, reapply_all,
  reapply_one,
}
use discord_support_hub.Reconcile.Converges.{IsConverged, reconcile_space-converges}
use discord_support_hub.Reconcile.Safe.{Safe, reconcile_space-Safe}
use discord_support_hub.Examples.Memory.{Memory, memory, memory_laws, listing}
use discord_support_hub.Examples.Hub.{free_locker, hub, hub_db, support}

abbrev invitation : InviteCollaboratorPayload
invitation = record { space_id = "s1"; user_id = "u1"; invited_by = "" }

abbrev config : InviteConfig
config = record { guild_id = "g"; tokens = none }

handle-IsBacked_example :
    let after =
      view memory "c1" "d1"
        (Invite.handle memory free_locker config (some invitation) (hub none [])).1 in
    (after ≡ view memory "c1" "d1" (hub none []))
    ⊎ (IsBacked (hub_db none) invitation "c1" "d1" × (after ≡ some (collaborator_overwrite "d1")))
handle-IsBacked_example =
    handle-IsBacked memory memory_laws free_locker config invitation "c1" "d1" (hub none [])

abbrev expulsion : ExpelCollaboratorPayload
expulsion = record { space_id = "s1"; user_id = "u1"; scope = "channel" }

handle-IsRevoked_example :
    IsRevoked "s1" "u1"
      (Expel.handle memory "g" free_locker (some expulsion) (hub none [])).1.db.members
unfolding Expel.handle Expel.expel_locked Expel.expel_space Expel.expel_user Expel.expel_member
    Expel.expel_row Expel.drop_overwrite Expel.leave_guild Expel.soft_delete locking query call find
    get_space_by_id get_user_by_id get_space_member_by_space_and_user revoke_space_member
    update_where insert_audit_entry delete_collaborator_overwrite
handle-IsRevoked_example = handle-IsRevoked memory "g" expulsion free_locker (hub none []) refl

-- An overwrite of somebody unknown stands on the channel, and Ann's is missing.
abbrev drifted : Memory
drifted =
    record {
      channel = "c1";
      target = "d9";
      body = some (record { kind = member; allow = view_and_send; deny = no_perms });
    }
    ∷ []

reconcile_space-converges_example :
    IsConverged memory memory_laws "s1"
      (hub_db none)
      (reconcile_space memory "s1" (some free_locker) (hub none drifted)).1
unfolding reconcile_space sweep_locked sweep_space sweep_if_ready sweep_channel build_desired
    next_desired wish diff real_members repair close_sweep revoke_all revoke_one reapply_all
    reapply_one locking query call find select get_space_by_id get_user_by_id
    list_active_space_members get_channel_overwrites delete_collaborator_overwrite insert lookup
    set_collaborator_overwrite listing
reconcile_space-converges_example =
    reconcile_space-converges memory memory_laws "s1" (some free_locker) (hub none drifted) 2 refl

reconcile_space-Safe_example :
    Safe "s1" "c1" "d9"
      (hub_db none)
      (view memory "c1" "d9" (hub none drifted))
      (view memory "c1" "d9" (reconcile_space memory "s1" (some free_locker) (hub none drifted)).1)
reconcile_space-Safe_example =
    reconcile_space-Safe memory memory_laws "s1" "c1" "d9" (some free_locker) (hub none drifted)

abbrev archiving : ChangeLifecyclePayload
archiving = record { space_id = "s1"; action = "archive" }

handle-IsMoved_example :
    IsMoved archiving
      (hub none [])
      (Lifecycle.handle memory "everyone" (some archiving) (hub none [])).1
unfolding Lifecycle.handle Lifecycle.change advance_job update_job or_archive action_to_target_state
    move_to move_space apply_if_channel apply_discord_change get_space_by_id query call find
    get_job_by_space_id_and_kind archive_channel update_space_lifecycle insert_audit_entry
    update_where
handle-IsMoved_example = handle-IsMoved memory "everyone" archiving (hub none []) refl

abbrev reopening : ChangeLifecyclePayload
reopening = record { space_id = "s1"; action = "reopen" }

-- The channel stands with the denying overwrite that it was made with.
abbrev born_denied : Memory
born_denied =
    record {
      channel = "c1";
      target = "g";
      body = some (record { kind = role; allow = no_perms; deny = view_only });
    }
    ∷ []

handle-IsMarked_example :
    IsMarked memory memory_laws "g" "c1" reopening
      (hub none born_denied)
      (Lifecycle.handle memory "g" (some reopening) (hub none born_denied)).1
unfolding Lifecycle.handle Lifecycle.change advance_job update_job or_archive action_to_target_state
    move_to move_space apply_if_channel apply_discord_change get_space_by_id query call find
    get_job_by_space_id_and_kind unarchive_channel update_space_lifecycle insert_audit_entry
    update_where
handle-IsMarked_example =
    handle-IsMarked memory memory_laws "g" "c1" reopening (hub none born_denied) support refl refl
      refl
