-- ===== src/Store/Members.antt =====
-- The statements on `space_members` and `audit_log`.
use discord_support_hub.Prelude.{
  ℕ, ◌+◌, String, Bool, true, false, ◌&&◌, ◌||◌, Option, none, some, List, [], ◌∷◌, ◌++◌, ◌==◌,
  find, select, update_where, is_none, is_some, length, if◌then◌else◌,
}
use discord_support_hub.Domain.{SpaceMember, AuditEntry, Fields}
use discord_support_hub.Store.Db.{Db, ok, err, conflict, database, Statement, scan, returning}
use discord_support_hub.Store.Spaces.{by_id, user_by_id}

abbrev pub member_by_id : String → SpaceMember → Bool
member_by_id i m = m.id == i

abbrev pub by_space_and_user : String → String → SpaceMember → Bool
by_space_and_user s u m = m.space_id == s && m.user_id == u

abbrev pub in_space : String → SpaceMember → Bool
in_space s m = m.space_id == s && is_none m.revoked_at

abbrev pub of_user : String → SpaceMember → Bool
of_user u m = m.user_id == u && is_none m.revoked_at

-- The row is found whether or not it is revoked.
unfoldable pub get_space_member_by_space_and_user : String → String → Statement SpaceMember
get_space_member_by_space_and_user s u now db = (scan (find (by_space_and_user s u) db.members), db)

pub record CreateSpaceMemberParams : Type 0 where
  pub space_id : String
  pub user_id : String
  pub invited_by : Option String

abbrev pub new_member : String → CreateSpaceMemberParams → ℕ → SpaceMember
new_member id p now = record {
  id = id;
  space_id = p.space_id;
  user_id = p.user_id;
  overwrite_applied = false;
  invited_by = p.invited_by;
  created_at = now;
  revoked_at = none;
}

-- The foreign keys of a new row.
abbrev pub refers : Option String → Db → Bool
refers none db = true
refers (some u) db = is_some (find (user_by_id u) db.users)

abbrev pub references_hold : CreateSpaceMemberParams → Db → Bool
references_hold p db =
    is_some (find (by_id p.space_id) db.spaces)
    && is_some (find (user_by_id p.user_id) db.users)
    && refers p.invited_by db

-- The constraint space_members_space_user_key of the table, which counts revoked rows too.
abbrev pub pair_taken : String → String → Db → Bool
pair_taken s u db = is_some (find (by_space_and_user s u) db.members)

-- The unique constraint is checked before the foreign keys.
unfoldable pub create_space_member : String → CreateSpaceMemberParams → Statement SpaceMember
create_space_member id p now db =
    if pair_taken p.space_id p.user_id db
    then (err conflict, db)
    else if references_hold p db
    then (ok (new_member id p now), record db { members = db.members ++ new_member id p now ∷ [] })
    else (err database, db)

abbrev pub mark_applied : SpaceMember → SpaceMember
mark_applied m = record m { overwrite_applied = true }

unfoldable pub set_space_member_overwrite_applied : String → Statement SpaceMember
set_space_member_overwrite_applied id now db = (
  returning (member_by_id id) mark_applied db.members,
  record db { members = update_where (member_by_id id) mark_applied db.members },
)

abbrev pub mark_revoked : ℕ → SpaceMember → SpaceMember
mark_revoked now m = record m { revoked_at = some now }

unfoldable pub revoke_space_member : String → Statement SpaceMember
revoke_space_member id now db = (
  returning (member_by_id id) (mark_revoked now) db.members,
  record db { members = update_where (member_by_id id) (mark_revoked now) db.members },
)

unfoldable pub list_space_members : String → Statement (List SpaceMember)
list_space_members s now db = (ok (select (in_space s) db.members), db)

unfoldable pub list_active_space_members : String → Statement (List SpaceMember)
list_active_space_members s now db = (ok (select (in_space s) db.members), db)

unfoldable pub list_collaborator_channels : String → Statement (List SpaceMember)
list_collaborator_channels u now db = (ok (select (of_user u) db.members), db)

pub record InsertAuditEntryParams : Type 0 where
  pub actor_api_key : Option String
  pub actor_user_id : Option String
  pub action : String
  pub merchant_id : Option String
  pub space_id : Option String
  pub target_user_id : Option String
  pub scope : Option String
  pub detail : Fields

-- The enumeration `expulsion_scope`.
abbrev pub is_scope : Option String → Bool
is_scope none = true
is_scope (some s) = s == "channel" || s == "server"

abbrev pub space_refers : Option String → Db → Bool
space_refers none db = true
space_refers (some s) db = is_some (find (by_id s) db.spaces)

abbrev pub new_entry : InsertAuditEntryParams → ℕ → ℕ → AuditEntry
new_entry p id now = record {
  id = id;
  actor_api_key = p.actor_api_key;
  actor_user_id = p.actor_user_id;
  action = p.action;
  merchant_id = p.merchant_id;
  space_id = p.space_id;
  target_user_id = p.target_user_id;
  scope = p.scope;
  detail = p.detail;
  created_at = now;
}

abbrev pub merchant_refers : Option String → Db → Bool
merchant_refers none db = true
merchant_refers (some m) db = is_some (find (λ r. r.id == m) db.merchants)

abbrev pub key_refers : Option String → Db → Bool
key_refers none db = true
key_refers (some k) db = is_some (find (λ r. r.id == k) db.api_keys)

unfoldable pub insert_audit_entry : InsertAuditEntryParams → Statement (Unit {0})
insert_audit_entry p now db =
    if is_scope p.scope
      && key_refers p.actor_api_key db
      && merchant_refers p.merchant_id db
      && space_refers p.space_id db
      && refers p.target_user_id db
      && refers p.actor_user_id db
    then (ok tt, record db { audit = db.audit ++ new_entry p (length db.audit + 1) now ∷ [] })
    else (err database, db)
