-- ===== src/Worker/Relay/Delivery.antt =====
-- No row of the outbox is stamped before the queue has its task.
use discord_support_hub.Prelude.{
  take, ℕ, zero, suc, String, Bool, true, ◌==◌, some, List, [], ◌∷◌, ◌≡◌, refl, sym, ◌∙◌, subst,
  ◌⊎◌, inl, inr, All, find, select, update_where, is_none, Bool-cases, arith, eq_of_eq_true,
}
use discord_support_hub.Domain.{OutboxRow}
use discord_support_hub.Store.Db.{Reply, ok, err, Db, Statement}
use discord_support_hub.Store.Outbox.{
  list_pending_outbox, stamp_outbox_enqueued, is_pending, stamp, any_of,
}
use discord_support_hub.Effects.{
  Env, Fault, clean, lost, late, run_statement, next_fault, continue_rule, query, call,
}
use discord_support_hub.Worker.Relay.{
  TaskQueue, IsTaskQueue, Enqueued, accepted, task_id_conflict, duplicate_task, refused,
  queue_for_kind, settled, keep, enqueue_row, enqueue_rows, stamp_batch, relay_rows, tick,
}
use discord_support_hub.Worker.View.{db-read, query_answers}

-- Each row is the first of its id: the primary key.
abbrev pub row_by_id : String → OutboxRow → Bool
row_by_id i o = o.id == i

abbrev pub IsKeyed : List OutboxRow → List OutboxRow → Type 0
IsKeyed ob rows = All (λ o. find (row_by_id o.id) ob ≡ some o) rows

All-select :
    {A : Type 0} (P : A → Type 0) (p : A → Bool) (xs : List A) → All P xs → All P (select p xs)
unfolding select
All-select P p [] h = tt
All-select P p (x ∷ xs) (here, later) = elim (Bool-cases (p x)) [
  | inl kept ↦ simp kept (here, All-select P p xs later)
  | inr gone ↦ simp gone (All-select P p xs later)
]

All-take : {A : Type 0} (P : A → Type 0) (n : ℕ) (xs : List A) → All P xs → All P (take n xs)
All-take P zero xs h = tt
All-take P (suc n) [] h = tt
All-take P (suc n) (x ∷ xs) (here, later) = (here, All-take P n xs later)

ok_inj : {A : Type 0} {a b : A} → ok a ≡ ok b → a ≡ b
ok_inj h = ground (arith, h)

some_inj : {A : Type 0} {a b : A} → some a ≡ some b → a ≡ b
some_inj h = ground (arith, h)

module _ {Q : Type 0} (api : TaskQueue Q) (laws : IsTaskQueue api) where
  -- The queue has taken the row's task, or one of the same kind, queue and payload.
  abbrev pub IsDelivered : Q → OutboxRow → Type 0
  IsDelivered q o =
      (api.has_task q o.idempotency_key ≡ true)
      ⊎ (api.has_work q o.kind (queue_for_kind o.kind) o.payload ≡ true)

  -- No stamped row is lost.
  abbrev pub IsCovered : Q → OutboxRow → Type 0
  IsCovered q o = (is_none o.enqueued_at ≡ true) ⊎ IsDelivered q o

  enqueue_row-stays :
      (x o : OutboxRow) (q : Q) → IsDelivered q o → IsDelivered (enqueue_row api x q).1 o
  unfolding enqueue_row
  enqueue_row-stays x o q (inl h) = inl (laws.task_stays _ _ _ _ q _ h)
  enqueue_row-stays x o q (inr h) = inr (laws.work_stays _ _ _ _ q _ _ _ h)

  enqueue_rows-stays :
      (rows : List OutboxRow) (o : OutboxRow) (q : Q)
      → IsDelivered q o
      → IsDelivered (enqueue_rows api rows q).1 o
  unfolding enqueue_rows
  enqueue_rows-stays [] o q h = h
  enqueue_rows-stays (x ∷ rows) o q h =
      enqueue_rows-stays rows o (enqueue_row api x q).1 (enqueue_row-stays x o q h)

  taken :
      (x : OutboxRow) (r : Enqueued) (q : Q)
      → (api.enqueue x.kind (queue_for_kind x.kind) x.payload x.idempotency_key q).0 ≡ r
      → settled r ≡ ok tt
      → IsDelivered (api.enqueue x.kind (queue_for_kind x.kind) x.payload x.idempotency_key q).1 x
  taken x accepted q h s = inl (laws.accepted_has _ _ _ _ q h)
  taken x task_id_conflict q h s = inl (laws.conflict_has _ _ _ _ q h)
  taken x duplicate_task q h s = inr (laws.duplicate_has _ _ _ _ q h)
  taken x refused q h s = cc

  -- The ids of the batch that are stamped, each with its row and the row's task.
  abbrev Backs : List OutboxRow → Q → List String → Type 0
  Backs ob q ids =
      (i : String)
      → any_of ids i ≡ true
      → (o : OutboxRow) × (find (row_by_id i) ob ≡ some o) × IsDelivered q o

  keep-Backs :
      (ob : List OutboxRow) (q : Q) (x : OutboxRow) (r : Reply (Unit {0})) (ids : List String)
      → find (row_by_id x.id) ob ≡ some x
      → (r ≡ ok tt → IsDelivered q x)
      → Backs ob q ids
      → Backs ob q (keep r x.id ids)
  unfolding any_of
  keep-Backs ob q x (err e) ids keyed delivered later = later
  keep-Backs ob q x (ok tt) ids keyed delivered later = λ i h. elim (Bool-cases (x.id == i)) [
    | inl same ↦ (
      x,
      subst (λ j. find (row_by_id j) ob ≡ some x) (eq_of_eq_true x.id i same) keyed,
      delivered refl,
    )
    | inr other ↦ later i (ground (arith, other, h))
  ]

  enqueue_rows-Backs :
      (ob rows : List OutboxRow) (q : Q)
      → IsKeyed ob rows
      → Backs ob (enqueue_rows api rows q).1 (enqueue_rows api rows q).0
  unfolding enqueue_rows enqueue_row any_of
  enqueue_rows-Backs ob [] q keyed = λ i h. cc
  enqueue_rows-Backs ob (x ∷ rows) q (here, later) =
      let r = enqueue_row api x q in
      keep-Backs ob _ x r.0 _ here (λ s. enqueue_rows-stays rows x r.1 (taken x _ q refl s))
        (enqueue_rows-Backs ob rows r.1 later)

  stamp-IsCovered :
      (ob : List OutboxRow) (q q' : Q) (ids : List String) (now : ℕ) (rows : List OutboxRow)
      → Backs ob q' ids
      → ((o : OutboxRow) → IsDelivered q o → IsDelivered q' o)
      → IsKeyed ob rows
      → All (IsCovered q) rows
      → All (IsCovered q') (update_where (λ o. any_of ids o.id) (stamp now) rows)
  unfolding update_where
  stamp-IsCovered ob q q' ids now [] backs stays keyed covered = tt
  stamp-IsCovered ob q q' ids now (o ∷ rows) backs stays (here, later) (cov, covs) = (
    elim (Bool-cases (any_of ids o.id)) [
      | inl hit ↦ simp hit (inr (found hit))
      | inr miss ↦ simp miss (kept cov)
    ],
    stamp-IsCovered ob q q' ids now rows backs stays later covs,
  )
    where
      found : any_of ids o.id ≡ true → IsDelivered q' o
      found hit = let b = backs o.id hit in subst (IsDelivered q') (some_inj (sym b.1 ∙ here)) b.2

      kept : IsCovered q o → IsCovered q' o
      kept (inl p) = inl p
      kept (inr d) = inr (stays o d)

  IsCovered-stays :
      (q q' : Q) (rows : List OutboxRow)
      → ((o : OutboxRow) → IsDelivered q o → IsDelivered q' o)
      → All (IsCovered q) rows
      → All (IsCovered q') rows
  IsCovered-stays q q' [] stays h = tt
  IsCovered-stays q q' (o ∷ rows) stays (inl pending, hs) =
      (inl pending, IsCovered-stays q q' rows stays hs)
  IsCovered-stays q q' (o ∷ rows) stays (inr d, hs) =
      (inr (stays o d), IsCovered-stays q q' rows stays hs)

  module _ {L : Type 0} where
    -- Every row of the outbox is pending, or the queue has its task.
    abbrev pub IsLossless : Env Q L → Type 0
    IsLossless e = All (IsCovered e.discord) e.db.outbox

    stamp_run-IsLossless :
        (f : Fault) (i : String) (is : List String) (q : Q) (e : Env Q L)
        → ((o : OutboxRow) → IsDelivered q o → IsDelivered e.discord o)
        → Backs e.db.outbox e.discord (i ∷ is)
        → IsKeyed e.db.outbox e.db.outbox
        → All (IsCovered q) e.db.outbox
        → IsLossless (run_statement (stamp_outbox_enqueued (i ∷ is)) f e).1
    unfolding stamp_outbox_enqueued
    stamp_run-IsLossless clean i is q e stays backs keyed h =
        stamp-IsCovered e.db.outbox q e.discord (i ∷ is) e.now e.db.outbox backs stays keyed h
    stamp_run-IsLossless lost i is q e stays backs keyed h =
        IsCovered-stays q e.discord e.db.outbox stays h
    stamp_run-IsLossless late i is q e stays backs keyed h =
        stamp-IsCovered e.db.outbox q e.discord (i ∷ is) e.now e.db.outbox backs stays keyed h

    stamp_batch-IsLossless :
        (ids : List String) (q : Q) (e : Env Q L)
        → ((o : OutboxRow) → IsDelivered q o → IsDelivered e.discord o)
        → Backs e.db.outbox e.discord ids
        → IsKeyed e.db.outbox e.db.outbox
        → All (IsCovered q) e.db.outbox
        → IsLossless (stamp_batch ids e).1
    unfolding stamp_batch query
    stamp_batch-IsLossless [] q e stays backs keyed h =
        IsCovered-stays q e.discord e.db.outbox stays h
    stamp_batch-IsLossless (i ∷ is) q e stays backs keyed h =
        stamp_run-IsLossless (next_fault e.faults) i is q _ stays backs keyed h

    relay_rows-IsLossless :
        (rows : List OutboxRow) (e : Env Q L)
        → IsKeyed e.db.outbox rows
        → IsKeyed e.db.outbox e.db.outbox
        → IsLossless e
        → IsLossless (relay_rows api rows e).1
    unfolding relay_rows call
    relay_rows-IsLossless [] e batch keyed h = h
    relay_rows-IsLossless (o ∷ os) e batch keyed h =
        stamp_batch-IsLossless (enqueue_rows api (o ∷ os) e.discord).0 e.discord _
          (λ x. enqueue_rows-stays (o ∷ os) x e.discord)
          (enqueue_rows-Backs e.db.outbox (o ∷ os) e.discord batch) keyed h

    run-discord :
        {A : Type 0} (st : Statement A) (f : Fault) (e : Env Q L)
        → (run_statement st f e).1.discord ≡ e.discord
    run-discord st clean e = refl
    run-discord st lost e = refl
    run-discord st late e = refl

    query-discord :
        {A : Type 0} (st : Statement A) (e : Env Q L) → (query st e).1.discord ≡ e.discord
    unfolding query
    query-discord st e = run-discord st (next_fault e.faults) _

    -- Over a queue that meets its laws: where every row is the only one of its id, a tick of
    -- any batch size keeps the outbox lossless: a row that is stamped has its task in the
    -- queue, or one of the same kind, queue and payload. Any database call may fail, and the
    -- queue may refuse any task.
    pub tick-IsLossless :
        (n : ℕ) (e : Env Q L)
        → IsKeyed e.db.outbox e.db.outbox
        → IsLossless e
        → IsLossless (tick api n e).1
    unfolding tick list_pending_outbox
    tick-IsLossless n e keyed h =
        let q = query (list_pending_outbox n) e in
        let same = db-read (list_pending_outbox n) e (λ k db. refl) in
        let lossless =
          subst (λ (d : Db). All (IsCovered q.1.discord) d.outbox) (sym same)
            (subst (λ k. All (IsCovered k) e.db.outbox)
              (sym (query-discord (list_pending_outbox n) e)) h) in
        continue_rule (λ r. IsLossless r.1) q (relay_rows api) (λ x x_err. lossless)
          λ rows rows_ok.
            relay_rows-IsLossless rows q.1
              (subst (λ (d : Db). IsKeyed d.outbox rows) (sym same)
                (subst (IsKeyed e.db.outbox)
                  (ok_inj (query_answers (list_pending_outbox n) e rows rows_ok))
                  (All-take _ n _ (All-select _ is_pending e.db.outbox keyed))))
              (subst (λ (d : Db). IsKeyed d.outbox d.outbox) (sym same) keyed) lossless
