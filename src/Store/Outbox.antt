-- ===== src/Store/Outbox.antt =====
-- The statements on `outbox`.
use discord_support_hub.Prelude.{
  ℕ, take, not, String, Bool, false, ◌&&◌, ◌||◌, none, some, List, [], ◌∷◌, ◌++◌, ◌==◌, find,
  select, update_where, is_none, is_some, if◌then◌else◌,
}
use discord_support_hub.Domain.{OutboxRow, Space, Fields}
use discord_support_hub.Store.Db.{Db, ok, err, conflict, database, Statement}
use discord_support_hub.Store.Spaces.{CreateSpaceParams, new_space, has_space_of, has_merchant}

pub record CreateOutboxParams : Type 0 where
  pub aggregate : String
  pub aggregate_id : String
  pub kind : String
  pub payload : Fields
  pub idempotency_key : String

abbrev pub new_outbox_row : String → CreateOutboxParams → ℕ → OutboxRow
new_outbox_row id p now = record {
  id = id;
  aggregate = p.aggregate;
  aggregate_id = p.aggregate_id;
  kind = p.kind;
  payload = p.payload;
  idempotency_key = p.idempotency_key;
  enqueued_at = none;
  created_at = now;
}

-- The constraint outbox_idempotency_key_key of the table.
abbrev pub has_outbox_key : String → Db → Bool
has_outbox_key k db = is_some (find (λ o. o.idempotency_key == k) db.outbox)

-- One transaction: UNIQUE (idempotency_key) on the second insert rolls the first back.
unfoldable pub create_space_with_outbox :
    String → String → CreateSpaceParams → CreateOutboxParams → Statement (Space × OutboxRow)
create_space_with_outbox sid oid sp ob now db =
    if has_space_of sp.merchant_id db
    then (err conflict, db)
    else if not (has_merchant sp.merchant_id db)
    then (err database, db)
    else if has_outbox_key ob.idempotency_key db
    then (err database, db)
    else (
      ok (new_space sid sp now, new_outbox_row oid ob now),
      record db {
        spaces = db.spaces ++ new_space sid sp now ∷ [];
        outbox = db.outbox ++ new_outbox_row oid ob now ∷ [];
      },
    )

abbrev pub is_pending : OutboxRow → Bool
is_pending o = is_none o.enqueued_at

unfoldable pub list_pending_outbox : ℕ → Statement (List OutboxRow)
list_pending_outbox limit now db = (ok (take limit (select is_pending db.outbox)), db)

abbrev pub set_payload : Fields → OutboxRow → OutboxRow
set_payload f o = record o { payload = f }

unfoldable pub update_outbox_payload : String → Fields → Statement (Unit {0})
update_outbox_payload k f now db = (
  ok tt,
  record db {
    outbox =
        update_where (λ o. o.idempotency_key == k && is_none o.enqueued_at) (set_payload f)
          db.outbox;
  },
)

-- id = ANY(ids).
unfoldable pub any_of : List String → String → Bool
any_of [] i = false
any_of (j ∷ js) i = j == i || any_of js i

abbrev pub stamp : ℕ → OutboxRow → OutboxRow
stamp now o = record o { enqueued_at = some now }

unfoldable pub stamp_outbox_enqueued : List String → Statement (Unit {0})
unfolding any_of
stamp_outbox_enqueued [] now db = (ok tt, db)
stamp_outbox_enqueued (i ∷ is) now db =
    (ok tt, record db { outbox = update_where (λ o. any_of (i ∷ is) o.id) (stamp now) db.outbox })
