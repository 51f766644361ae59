-- ===== src/Examples/Queue.antt =====
-- A queue that keeps the ids of its tasks, and the relay's theorem on an outbox of two rows.
use discord_support_hub.Prelude.{
  String, false, none, List, [], ◌∷◌, refl, inl, arith, find, eq_refl, if◌then◌else◌,
}
use discord_support_hub.Domain.{OutboxRow}
use discord_support_hub.Store.Outbox.{any_of}
use discord_support_hub.Effects.{Env, clean, late}
use discord_support_hub.Worker.Relay.{TaskQueue, IsTaskQueue, accepted, task_id_conflict, tick}
use discord_support_hub.Worker.Relay.Delivery.{IsLossless, tick-IsLossless}
use discord_support_hub.Examples.Hub.{hub_db}

abbrev pub ids_queue : TaskQueue (List String)
ids_queue = record {
  enqueue = λ k n f i q. if any_of q i then (task_id_conflict, q) else (accepted, i ∷ q);
  has_task = λ q i. any_of q i;
  has_work = λ q k n f. false;
}

ids_queue_laws : IsTaskQueue ids_queue
unfolding any_of
ids_queue_laws = record {
  accepted_has = λ k n f i q h. ground (arith, eq_refl i, h);
  conflict_has = λ k n f i q h. ground (arith, eq_refl i, h);
  duplicate_has = λ k n f i q h. ground (arith, h);
  task_stays = λ k n f i q j h. ground (arith, h);
  work_stays = λ k n f i q k' n' f' h. cc;
}

abbrev outbox_row : String → String → OutboxRow
outbox_row i key = record {
  id = i;
  aggregate = "space";
  aggregate_id = "m1";
  kind = "space:provision";
  payload = [];
  idempotency_key = key;
  enqueued_at = none;
  created_at = 1;
}

-- The answer of the stamping call is lost.
abbrev two_rows : Env (List String) (Unit {0})
two_rows = record {
  db = record (hub_db none) { outbox = outbox_row "o1" "k1" ∷ outbox_row "o2" "k2" ∷ [] };
  faults = clean ∷ late ∷ [];
  now = 9;
  discord = "k1" ∷ [];
  locks = tt;
}

tick-IsLossless_example : IsLossless ids_queue ids_queue_laws (tick ids_queue 100 two_rows).1
unfolding find
tick-IsLossless_example =
    tick-IsLossless ids_queue ids_queue_laws 100 two_rows (refl, (refl, tt))
      (inl refl, (inl refl, tt))
