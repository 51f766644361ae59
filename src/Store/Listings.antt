-- ===== src/Store/Listings.antt =====
-- The listings that join tables or read backwards: the directory and the audit log.
use discord_support_hub.Prelude.{
  ℕ, String, Bool, true, ◌&&◌, Option, none, some, List, [], ◌∷◌, ◌==◌, ◌++◌, ltb, take, find,
  select, is_after, or_fifty, is_none, holds, if◌then◌else◌,
}
use mathlib.Core.List.{reverse}
use discord_support_hub.Domain.{UserType, Space, SpaceMember, AuditEntry, Merchant, User}
use discord_support_hub.Store.Db.{Db, ok, Statement}
use discord_support_hub.Store.Spaces.{by_id, user_by_id}
use discord_support_hub.Store.Merchants.{merchant_by_id}

pub record ListDirectoryParams : Type 0 where
  pub user_id : Option String
  pub space_id : Option String
  pub merchant_id : Option String
  pub cursor : Option ℕ
  pub limit : ℕ

pub record DirectoryEntry : Type 0 where
  pub space_id : String
  pub space_name : String
  pub merchant_id : String
  pub merchant_name : String
  pub user_id : String
  pub user_display_name : Option String
  pub role : UserType

abbrev pub wanted : Option String → String → Bool
wanted none x = true
wanted (some y) x = x == y

abbrev pub entry_of : SpaceMember → Space → Merchant → User → DirectoryEntry
entry_of sm sp m u = record {
  space_id = sm.space_id;
  space_name = sp.name;
  merchant_id = sp.merchant_id;
  merchant_name = m.name;
  user_id = sm.user_id;
  user_display_name = u.display_name;
  role = u.kind;
}

-- The inner joins of one member row; a row that has no partner is dropped.
unfoldable pub join_user : SpaceMember → Space → Merchant → Option User → List DirectoryEntry
join_user sm sp m none = []
join_user sm sp m (some u) = entry_of sm sp m u ∷ []

unfoldable pub join_merchant : Db → SpaceMember → Space → Option Merchant → List DirectoryEntry
join_merchant db sm sp none = []
join_merchant db sm sp (some m) = join_user sm sp m (find (user_by_id sm.user_id) db.users)

unfoldable pub join_space :
    ListDirectoryParams → Db → SpaceMember → Option Space → List DirectoryEntry
join_space p db sm none = []
join_space p db sm (some sp) =
    if wanted p.merchant_id sp.merchant_id
    then join_merchant db sm sp (find (merchant_by_id sp.merchant_id) db.merchants)
    else []

abbrev pub listed_member : ListDirectoryParams → SpaceMember → Bool
listed_member p sm =
    is_none sm.revoked_at
    && (wanted p.user_id sm.user_id
        && (wanted p.space_id sm.space_id && is_after p.cursor sm.created_at))

unfoldable pub directory : ListDirectoryParams → Db → List SpaceMember → List DirectoryEntry
unfolding join_space join_merchant join_user
directory p db [] = []
directory p db (sm ∷ rest) =
    let later = directory p db rest in
    if listed_member p sm
    then join_space p db sm (find (by_id sm.space_id) db.spaces) ++ later
    else later

unfoldable pub list_directory : ListDirectoryParams → Statement (List DirectoryEntry)
list_directory p now db = (ok (take (or_fifty p.limit) (directory p db db.members)), db)

pub record ListAuditEntriesParams : Type 0 where
  pub merchant_id : Option String
  pub space_id : Option String
  pub action : Option String
  pub since : Option ℕ
  pub cursor : Option ℕ
  pub limit : ℕ

abbrev pub holds_if : Option String → Option String → Bool
holds_if none x = true
holds_if (some y) x = holds x y

abbrev pub is_before : Option ℕ → ℕ → Bool
is_before none i = true
is_before (some c) i = ltb i c

abbrev pub listed_entry : ListAuditEntriesParams → AuditEntry → Bool
listed_entry p a =
    holds_if p.merchant_id a.merchant_id
    && (holds_if p.space_id a.space_id
        && (wanted p.action a.action && (is_after p.since a.created_at && is_before p.cursor a.id)))

-- The ids rise in the order of the table, so ORDER BY id DESC is its reverse.
unfoldable pub list_audit_entries : ListAuditEntriesParams → Statement (List AuditEntry)
list_audit_entries p now db =
    (ok (take (or_fifty p.limit) (reverse (select (listed_entry p) db.audit))), db)
