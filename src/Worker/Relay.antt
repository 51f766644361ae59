-- ===== src/Worker/Relay.antt =====
-- internal/worker/relay.go: one tick of the outbox relay, over an interface for the client of
-- asynq, which is no code of the repository. The ticker of `Run` and logging are left out.
pub mod Delivery
use discord_support_hub.Prelude.{
  ℕ, String, Bool, true, false, ◌==◌, ◌||◌, List, [], ◌∷◌, ◌≡◌, ◌⊎◌, if◌then◌else◌,
}
use discord_support_hub.Domain.{OutboxRow, Fields}
use discord_support_hub.Store.Db.{Reply, ok, err, infrastructure}
use discord_support_hub.Store.Outbox.{list_pending_outbox, stamp_outbox_enqueued}
use discord_support_hub.Effects.{M, Env, ◌>>=◌, return, query, call}

-- `nil`, `asynq.ErrTaskIDConflict`, `asynq.ErrDuplicateTask` and every other error of Enqueue.
pub data Enqueued : Type 0 where
  accepted task_id_conflict duplicate_task refused : Enqueued

-- The queue: a task has a kind, a queue's name, a payload and an id. `has_task` and `has_work`
-- observe that the queue has taken a task of the id, or one of the kind, queue and payload.
pub record TaskQueue (Q : Type 0) : Type 0 where
  pub enqueue : String → String → Fields → String → Q → Enqueued × Q
  pub has_task : Q → String → Bool
  pub has_work : Q → String → String → Fields → Bool

-- The documented behaviour of Enqueue with TaskID and Unique.
pub record IsTaskQueue {Q : Type 0} (api : TaskQueue Q) : Type 0 where
  pub accepted_has :
      (k n : String) (f : Fields) (i : String) (q : Q)
      → (api.enqueue k n f i q).0 ≡ accepted
      → api.has_task (api.enqueue k n f i q).1 i ≡ true
  pub conflict_has :
      (k n : String) (f : Fields) (i : String) (q : Q)
      → (api.enqueue k n f i q).0 ≡ task_id_conflict
      → api.has_task (api.enqueue k n f i q).1 i ≡ true
  pub duplicate_has :
      (k n : String) (f : Fields) (i : String) (q : Q)
      → (api.enqueue k n f i q).0 ≡ duplicate_task
      → api.has_work (api.enqueue k n f i q).1 k n f ≡ true
  pub task_stays :
      (k n : String) (f : Fields) (i : String) (q : Q) (j : String)
      → api.has_task q j ≡ true
      → api.has_task (api.enqueue k n f i q).1 j ≡ true
  pub work_stays :
      (k n : String) (f : Fields) (i : String) (q : Q) (k' n' : String) (f' : Fields)
      → api.has_work q k' n' f' ≡ true
      → api.has_work (api.enqueue k n f i q).1 k' n' f' ≡ true

unfoldable pub queue_for_kind : String → String
queue_for_kind k =
    if k == "space:provision"
    then "provision"
    else if k == "membership:invite_collaborator"
        || (k == "membership:expel_collaborator" || k == "membership:project_agent_role")
    then "membership"
    else if k == "reconcile:guild" || k == "reconcile:space"
    then "reconcile"
    else if k == "space:sync_welcome" || k == "marking:apply_nickname_suffix"
    then "marking"
    else "provision"

-- Both sentinels mean that the task is already in the queue.
abbrev pub settled : Enqueued → Reply (Unit {0})
settled accepted = ok tt
settled task_id_conflict = ok tt
settled duplicate_task = ok tt
settled refused = err infrastructure

-- A row that was not enqueued is left for a later tick.
abbrev pub keep : Reply (Unit {0}) → String → List String → List String
keep (ok u) i is = i ∷ is
keep (err e) i is = is

module _ {Q : Type 0} (api : TaskQueue Q) where
  unfoldable pub enqueue_row : OutboxRow → Q → Reply (Unit {0}) × Q
  enqueue_row o q =
      let r = api.enqueue o.kind (queue_for_kind o.kind) o.payload o.idempotency_key q in
      (settled r.0, r.1)

  -- The loop over the batch; it makes the list `stamped`.
  unfoldable pub enqueue_rows : List OutboxRow → Q → List String × Q
  enqueue_rows [] q = ([], q)
  enqueue_rows (o ∷ os) q =
      let r = enqueue_row o q in let rest = enqueue_rows os r.1 in (keep r.0 o.id rest.0, rest.1)

module _ {Q L : Type 0} where
  unfoldable pub stamp_batch : List String → M (Env Q L) (Unit {0})
  stamp_batch [] = return tt
  stamp_batch (i ∷ is) = query (stamp_outbox_enqueued (i ∷ is))

module _ {Q L : Type 0} (api : TaskQueue Q) where
  unfoldable pub relay_rows : List OutboxRow → M (Env Q L) (Unit {0})
  relay_rows [] = return tt
  relay_rows (o ∷ os) = do
    stamped ← call (λ q. (ok (enqueue_rows api (o ∷ os) q).0, (enqueue_rows api (o ∷ os) q).1))
    stamp_batch stamped

  unfoldable pub tick : ℕ → M (Env Q L) (Unit {0})
  tick batch_size = do rows ← query (list_pending_outbox batch_size); relay_rows rows
