-- ===== src/Worker/Locks.antt =====
-- The start that the handlers share: a lock is taken, held elsewhere, or not to be had, and is
-- released when the handler returns.
use discord_support_hub.Prelude.{String, Option, none, some}
use discord_support_hub.Store.Db.{retry_later}
use discord_support_hub.Effects.{Env, Locker, M, ◌>>=◌, fail, deferring, locking}

module _ {D L : Type 0} (locker : Locker L) where
  abbrev pub holding : {A : Type 0} → String → Option String → M (Env D L) A → M (Env D L) A
  holding id none body = fail retry_later
  holding id (some token) body = deferring (locking (locker.release_space id token)) body

  -- A lock that is held elsewhere is an error, so that the task is retried.
  abbrev pub with_space_lock : {A : Type 0} → String → M (Env D L) A → M (Env D L) A
  with_space_lock id body = do token ← locking (locker.acquire_space id); holding id token body
