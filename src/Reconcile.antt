-- ===== src/Reconcile.antt =====
-- internal/reconcile/reconcile.go: the diff of a space's member rows against the overwrites of its
-- channel, and the repair. Logging is left out, the counters that it reports are kept.
pub mod Desired
pub mod Repair
pub mod Converges
pub mod Safe
use discord_support_hub.Prelude.{
  ℕ, zero, suc, ◌+◌, String, Bool, true, false, ◌==◌, ◌||◌, ◌&&◌, not, Option, none, some, List, [],
  ◌∷◌, is_none, insert, has_key, length, if◌then◌else◌,
}
use discord_support_hub.Domain.{Space, User, SpaceMember, is_applied}
use discord_support_hub.Store.Db.{Reply, ok, err, not_found, retry_later, Error}
use discord_support_hub.Store.Spaces.{
  get_space_by_id, get_user_by_id, update_space_reconciled_at, list_active_provisioned_spaces,
}
use discord_support_hub.Store.Members.{
  list_active_space_members, set_space_member_overwrite_applied, insert_audit_entry,
  InsertAuditEntryParams,
}
use discord_support_hub.Discord.{
  DiscordApi, PermissionOverwrite, OverwriteType, role, member, set_collaborator_overwrite,
  delete_collaborator_overwrite, get_channel_overwrites,
}
use discord_support_hub.Effects.{
  Env, Locker, M, ◌>>=◌, ◌>>◌, return, fail, try, ignore, deferring, query, call, locking, continue,
}

-- How a sweep of one space ends; `swept` carries `driftFound` and `driftRepaired`.
pub data Sweep : Type 0 where
  skipped : Sweep
  swept : (found repaired : ℕ) → Sweep

pub record Drift : Type 0 where
  pub found : ℕ
  pub repaired : ℕ

abbrev pub is_member_type : OverwriteType → Bool
is_member_type member = true
is_member_type role = false

-- One round of the loop that builds `desiredByDiscordID`.
unfoldable pub wish : SpaceMember → Option String → List (String × String) → List (String × String)
wish sm none acc = acc
wish sm (some d) acc = insert d sm.id acc

unfoldable pub next_desired :
    SpaceMember → Reply User → List (String × String) → Reply (List (String × String))
next_desired sm (ok u) acc = ok (wish sm u.discord_user_id acc)
next_desired sm (err not_found) acc = ok acc
next_desired sm (err e) acc = err e

-- `realMemberOverwrites`, a Go map to `true`.
unfoldable pub real_members : List (String × Bool) → List PermissionOverwrite → List (String × Bool)
real_members acc [] = acc
real_members acc (o ∷ os) =
    real_members (if is_member_type o.kind then insert o.id true acc else acc) os

abbrev pub is_empty {ℓ} : {A : Type ℓ} → List A → Bool
is_empty [] = true
is_empty (x ∷ xs) = false

-- The circuit breaker.
abbrev pub breaker : List SpaceMember → List (String × String) → List (String × Bool) → Bool
breaker members desired real = not (is_empty members) && (is_empty desired && not (is_empty real))

pub repair_entry : String → String → String → InsertAuditEntryParams
repair_entry s action d = record {
  actor_api_key = none;
  actor_user_id = none;
  action = "reconcile.repair";
  merchant_id = none;
  space_id = some s;
  target_user_id = none;
  scope = none;
  detail = ("action", action) ∷ ("discord_user_id", d) ∷ [];
}

abbrev pub no_drift : Drift
no_drift = record { found = 0; repaired = 0 }

abbrev pub swept_channel : Space → Option String
swept_channel sp = if is_applied sp.acl_state then sp.discord_channel_id else none

module _ {D L : Type 0} (api : DiscordApi D) (s : String) where
  unfoldable pub build_desired :
      List (String × String) → List SpaceMember → M (Env D L) (List (String × String))
  unfolding next_desired wish
  build_desired acc [] e = (ok acc, e)
  build_desired acc (sm ∷ rest) e =
      continue
        (
          next_desired sm (query (get_user_by_id sm.user_id) e).0 acc,
          (query (get_user_by_id sm.user_id) e).1,
        )
        (λ acc'. build_desired acc' rest)

  module _ (c : String) (desired : List (String × String)) where
    abbrev pub revoked : String → Drift → Reply (Unit {0}) × Env D L → Drift × Env D L
    revoked d drift (err x, e) = (record drift { found = drift.found + 1 }, e)
    revoked d drift (ok u, e) = (
      record { found = drift.found + 1; repaired = drift.repaired + 1 },
      (query (insert_audit_entry (repair_entry s "revoke_unbacked_overwrite" d)) e).1,
    )

    -- Rule 1 at one overwrite: not backed by the tables, so revoked.
    unfoldable pub revoke_one : String → Drift × Env D L → Drift × Env D L
    revoke_one d (drift, e) =
        if has_key d desired
        then (drift, e)
        else revoked d drift (call (delete_collaborator_overwrite api c d) e)

    -- A Go map has no order; the rounds are made in the order of the list.
    unfoldable pub revoke_all : List (String × Bool) → Drift × Env D L → Drift × Env D L
    revoke_all [] st = st
    revoke_all ((d, b) ∷ rest) st = revoke_all rest (revoke_one d st)

  module _ (c : String) (real : List (String × Bool)) where
    abbrev pub reapplied : String → String → Drift → Reply (Unit {0}) × Env D L → Drift × Env D L
    reapplied d sm drift (err x, e) = (record drift { found = drift.found + 1 }, e)
    reapplied d sm drift (ok u, e) = (
      record { found = drift.found + 1; repaired = drift.repaired + 1 },
      (query (insert_audit_entry (repair_entry s "reapply_missing_overwrite" d))
          (query (set_space_member_overwrite_applied sm) e).1).1,
    )

    -- Rule 2 at one wish: missing in Discord, so applied again.
    unfoldable pub reapply_one : String → String → Drift × Env D L → Drift × Env D L
    reapply_one d sm (drift, e) =
        if has_key d real
        then (drift, e)
        else reapplied d sm drift (call (set_collaborator_overwrite api c d) e)

    unfoldable pub reapply_all : List (String × String) → Drift × Env D L → Drift × Env D L
    reapply_all [] st = st
    reapply_all ((d, sm) ∷ rest) st = reapply_all rest (reapply_one d sm st)

  unfoldable pub close_sweep : Drift × Env D L → Reply Sweep × Env D L
  close_sweep (drift, e) =
      (ok (swept drift.found drift.repaired), (query (update_space_reconciled_at s) e).1)

  -- Rules 1 and 2, and the stamp.
  unfoldable pub repair : String → List (String × String) → List (String × Bool) → M (Env D L) Sweep
  unfolding close_sweep revoke_all revoke_one reapply_all reapply_one
  repair c desired real e =
      close_sweep (reapply_all c real desired (revoke_all c desired real (no_drift, e)))

  unfoldable pub diff :
      String
      → List SpaceMember
      → List (String × String)
      → List PermissionOverwrite
      → M (Env D L) Sweep
  unfolding real_members
  diff c members desired overwrites =
      let real = real_members [] overwrites in
      if breaker members desired real then fail retry_later else repair c desired real

  unfoldable pub sweep_channel : String → M (Env D L) Sweep
  sweep_channel c = do
    members ← query (list_active_space_members s)
    desired ← build_desired [] members
    overwrites ← call (get_channel_overwrites api c)
    diff c members desired overwrites

  -- A space that is not provisioned is skipped.
  unfoldable pub sweep_if_ready : Option String → M (Env D L) Sweep
  sweep_if_ready none = return skipped
  sweep_if_ready (some c) = sweep_channel c

  unfoldable pub sweep_space : M (Env D L) Sweep
  unfolding sweep_if_ready
  sweep_space = do sp ← query (get_space_by_id s); sweep_if_ready (swept_channel sp)

  unfoldable pub sweep_locked : Locker L → Option String → M (Env D L) Sweep
  sweep_locked locker none = return skipped
  sweep_locked locker (some token) = deferring (locking (locker.release_space s token)) sweep_space

  -- The locker is optional; a space whose lock is held is skipped.
  unfoldable pub reconcile_space : Option (Locker L) → M (Env D L) Sweep
  unfolding sweep_locked
  reconcile_space none = sweep_space
  reconcile_space (some locker) = do
    token ← locking (locker.acquire_space s)
    sweep_locked locker token

abbrev pub count_error : {A : Type 0} → Reply A → ℕ → ℕ
count_error (ok a) n = n
count_error (err e) n = n + 1

module _ {D L : Type 0} (api : DiscordApi D) (locker : Option (Locker L)) where
  -- The loop of `ReconcileGuild`: an error at one space does not stop the sweep.
  pub sweep_spaces : ℕ → List Space → Env D L → ℕ × Env D L
  sweep_spaces errors [] e = (errors, e)
  sweep_spaces errors (sp ∷ rest) e =
      let r = reconcile_space api sp.id locker e in sweep_spaces (count_error r.0 errors) rest r.1

  pub guild_result : ℕ × Env D L → Reply (Unit {0}) × Env D L
  guild_result (zero, e) = (ok tt, e)
  guild_result (suc errors, e) = (err retry_later, e)

  unfoldable pub reconcile_guild : M (Env D L) (Unit {0})
  unfolding sweep_spaces guild_result
  reconcile_guild = do
    spaces ← query list_active_provisioned_spaces
    λ e. guild_result (sweep_spaces 0 spaces e)
