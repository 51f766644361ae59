-- ===== src/Store/Spaces.antt =====
-- The statements on `spaces` and `users`.
use discord_support_hub.Prelude.{
  ℕ, String, Bool, not, ◌&&◌, Option, none, some, List, [], ◌∷◌, ◌++◌, ◌==◌, true, page, or_fifty,
  find, select, update_where, holds, is_some, coalesce, if◌then◌else◌,
}
use discord_support_hub.Domain.{
  User, Space, SpaceLifecycleState, AclState, is_active_state, is_archived_state, same_lifecycle,
}
use discord_support_hub.Store.Db.{Db, ok, err, conflict, database, Statement, scan, returning}

abbrev pub by_id : String → Space → Bool
by_id i s = s.id == i

abbrev pub user_by_id : String → User → Bool
user_by_id i u = u.id == i

unfoldable pub get_space_by_id : String → Statement Space
get_space_by_id id now db = (scan (find (by_id id) db.spaces), db)

unfoldable pub get_space_by_merchant_id : String → Statement Space
get_space_by_merchant_id m now db = (scan (find (λ s. s.merchant_id == m) db.spaces), db)

unfoldable pub get_user_by_id : String → Statement User
get_user_by_id id now db = (scan (find (user_by_id id) db.users), db)

unfoldable pub get_user_by_discord_id : String → Statement User
get_user_by_discord_id d now db = (scan (find (λ u. holds u.discord_user_id d) db.users), db)

pub record CreateSpaceParams : Type 0 where
  pub merchant_id : String
  pub name : String
  pub discord_category_id : Option String

-- The row that INSERT makes, with the defaults of the table; `id` is `gen_random_uuid()`.
abbrev pub new_space : String → CreateSpaceParams → ℕ → Space
new_space id p now = record {
  id = id;
  merchant_id = p.merchant_id;
  discord_channel_id = none;
  discord_category_id = p.discord_category_id;
  name = p.name;
  lifecycle_state = SpaceLifecycleState.active;
  acl_state = AclState.pending;
  welcome_message_id = none;
  last_activity_at = none;
  reconciled_at = none;
  drift_count = 0;
  created_at = now;
  updated_at = now;
  archived_at = none;
}

-- The constraint spaces_merchant_id_key of the table.
abbrev pub has_space_of : String → Db → Bool
has_space_of m db = is_some (find (λ s. s.merchant_id == m) db.spaces)

-- The foreign key to the merchants.
abbrev pub has_merchant : String → Db → Bool
has_merchant m db = is_some (find (λ r. r.id == m) db.merchants)

-- UNIQUE (merchant_id) is what makes a merchant's space the only one; the foreign key is checked
-- after it.
unfoldable pub create_space : String → CreateSpaceParams → Statement Space
create_space id p now db =
    if has_space_of p.merchant_id db
    then (err conflict, db)
    else if has_merchant p.merchant_id db
    then (ok (new_space id p now), record db { spaces = db.spaces ++ new_space id p now ∷ [] })
    else (err database, db)

pub record ListSpacesParams : Type 0 where
  pub lifecycle_state : Option SpaceLifecycleState
  pub merchant_id : Option String
  pub cursor : Option ℕ
  pub limit : ℕ

abbrev pub is_lifecycle : Option SpaceLifecycleState → Space → Bool
is_lifecycle none s = true
is_lifecycle (some l) s = same_lifecycle s.lifecycle_state l

abbrev pub is_merchants : Option String → Space → Bool
is_merchants none s = true
is_merchants (some m) s = s.merchant_id == m

unfoldable pub list_spaces : ListSpacesParams → Statement (List Space)
list_spaces p now db = (
  ok (
      page (or_fifty p.limit) (λ s. s.created_at) p.cursor
        (λ s. is_lifecycle p.lifecycle_state s && is_merchants p.merchant_id s) db.spaces),
  db,
)

pub record UpdateSpaceDiscordChannelParams : Type 0 where
  pub space_id : String
  pub discord_channel_id : String
  pub discord_category_id : Option String
  pub acl_state : AclState

abbrev pub stamp_channel : UpdateSpaceDiscordChannelParams → ℕ → Space → Space
stamp_channel p now s = record s {
  discord_channel_id = some p.discord_channel_id;
  discord_category_id = coalesce p.discord_category_id s.discord_category_id;
  acl_state = p.acl_state;
  updated_at = now;
}

-- UNIQUE (discord_channel_id): another space already holds the channel.
abbrev pub channel_taken : String → String → Db → Bool
channel_taken id c db =
    is_some (find (λ s. holds s.discord_channel_id c && not (s.id == id)) db.spaces)

unfoldable pub update_space_discord_channel : UpdateSpaceDiscordChannelParams → Statement Space
update_space_discord_channel p now db =
    if is_some (find (by_id p.space_id) db.spaces)
      && channel_taken p.space_id p.discord_channel_id db
    then (err database, db)
    else (
      returning (by_id p.space_id) (stamp_channel p now) db.spaces,
      record db { spaces = update_where (by_id p.space_id) (stamp_channel p now) db.spaces },
    )

abbrev pub set_acl : AclState → ℕ → Space → Space
set_acl a now s = record s { acl_state = a; updated_at = now }

unfoldable pub update_space_acl_state : String → AclState → Statement Space
update_space_acl_state id a now db = (
  returning (by_id id) (set_acl a now) db.spaces,
  record db { spaces = update_where (by_id id) (set_acl a now) db.spaces },
)

-- CASE WHEN $1 = 'archived' THEN now() ELSE NULL END.
abbrev pub set_lifecycle : SpaceLifecycleState → ℕ → Space → Space
set_lifecycle l now s = record s {
  lifecycle_state = l;
  updated_at = now;
  archived_at = if is_archived_state l then some now else none;
}

unfoldable pub update_space_lifecycle : String → SpaceLifecycleState → Statement Space
update_space_lifecycle id l now db = (
  returning (by_id id) (set_lifecycle l now) db.spaces,
  record db { spaces = update_where (by_id id) (set_lifecycle l now) db.spaces },
)

abbrev pub set_welcome : String → ℕ → Space → Space
set_welcome m now s = record s { welcome_message_id = some m; updated_at = now }

unfoldable pub update_space_welcome_message_id : String → String → Statement Space
update_space_welcome_message_id id m now db = (
  returning (by_id id) (set_welcome m now) db.spaces,
  record db { spaces = update_where (by_id id) (set_welcome m now) db.spaces },
)

abbrev pub stamp_reconciled : ℕ → Space → Space
stamp_reconciled now s = record s { reconciled_at = some now; updated_at = now }

-- An UPDATE with no RETURNING: no row is no error.
unfoldable pub update_space_reconciled_at : String → Statement (Unit {0})
update_space_reconciled_at id now db =
    (ok tt, record db { spaces = update_where (by_id id) (stamp_reconciled now) db.spaces })

abbrev pub is_provisioned : Space → Bool
is_provisioned s = is_active_state s.lifecycle_state && is_some s.discord_channel_id

-- The rows stand in the order of their creation, which is ORDER BY created_at ASC.
unfoldable pub list_active_provisioned_spaces : Statement (List Space)
list_active_provisioned_spaces now db = (ok (select is_provisioned db.spaces), db)
