-- ===== src/Worker/Sweep.antt =====
-- internal/worker/reconcile_space.go: `handle` of reconcileSpaceHandler and of
-- reconcileGuildHandler; and the test of a schedule in internal/worker/scheduler.go.
use discord_support_hub.Prelude.{ℕ, ◌-◌, String, ◌==◌, Option, none, some, if◌then◌else◌, ltb}
use discord_support_hub.Store.Db.{skip_retry, malformed}
use discord_support_hub.Discord.{DiscordApi}
use discord_support_hub.Reconcile.{reconcile_space, reconcile_guild}
use discord_support_hub.Effects.{M, Env, Locker, ◌>>=◌, return, fail}

pub record ReconcileSpacePayload : Type 0 where
  pub space_id : String

module _ {D L : Type 0} (api : DiscordApi D) (locker : Option (Locker L)) where
  -- What the sweep found is only counted and logged.
  unfoldable pub handle : Option ReconcileSpacePayload → M (Env D L) (Unit {0})
  handle none = fail (skip_retry malformed)
  handle (some p) =
      if p.space_id == ""
      then fail (skip_retry malformed)
      else (do swept ← reconcile_space api p.space_id locker; return tt)

  unfoldable pub handle_guild : M (Env D L) (Unit {0})
  handle_guild = reconcile_guild api locker

-- In milliseconds.
abbrev pub min_sweep_interval : ℕ
min_sweep_interval = 60000

-- The schedules of the cron library are a parameter: what an expression means, if it is one, and the
-- next time after a time.
module _ {S : Type 0} (parse : String → Option S) (next : S → ℕ → ℕ) where
  abbrev pub interval : S → ℕ → ℕ
  interval schedule now = next schedule (next schedule now) - next schedule now

  abbrev pub on_schedule : ℕ → Option S → Option S
  on_schedule now none = none
  on_schedule now (some schedule) =
      if ltb (interval schedule now) min_sweep_interval then none else some schedule

  -- A schedule that fires too often is refused.
  unfoldable pub new_scheduler : String → ℕ → Option S
  new_scheduler cron_expr now = on_schedule now (parse cron_expr)
