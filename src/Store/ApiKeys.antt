-- ===== src/Store/ApiKeys.antt =====
-- The statements on `api_keys`.
use discord_support_hub.Prelude.{
  ℕ, String, Bool, ◌&&◌, not, ◌||◌, none, some, List, [], ◌∷◌, ◌++◌, ◌==◌, find, select,
  update_where, is_none, is_some, if◌then◌else◌,
}
use discord_support_hub.Domain.{ApiKey}
use discord_support_hub.Store.Db.{Db, ok, err, conflict, not_found, Statement, scan}

pub record CreateApiKeyParams : Type 0 where
  pub name : String
  pub key_hash : String
  pub scope : String

abbrev pub new_api_key : String → CreateApiKeyParams → ℕ → ApiKey
new_api_key id p now = record {
  id = id;
  name = p.name;
  key_hash = p.key_hash;
  scope = p.scope;
  created_at = now;
  last_used_at = none;
  revoked_at = none;
}

abbrev pub by_hash : String → ApiKey → Bool
by_hash h k = k.key_hash == h

-- The constraint api_keys_key_hash_key of the table.
abbrev pub hash_taken : String → Db → Bool
hash_taken h db = is_some (find (by_hash h) db.api_keys)

unfoldable pub create_api_key : String → CreateApiKeyParams → Statement ApiKey
create_api_key id p now db = if hash_taken p.key_hash db then (err conflict, db) else (
  ok (new_api_key id p now),
  record db { api_keys = db.api_keys ++ new_api_key id p now ∷ [] },
)

abbrev pub is_active : ApiKey → Bool
is_active k = is_none k.revoked_at

unfoldable pub list_api_keys : Bool → Statement (List ApiKey)
list_api_keys active_only now db =
    (ok (select (λ k. not active_only || is_active k) db.api_keys), db)

abbrev pub active_with_hash : String → ApiKey → Bool
active_with_hash h k = by_hash h k && is_active k

unfoldable pub lookup_active_api_key_by_hash : String → Statement ApiKey
lookup_active_api_key_by_hash h now db = (scan (find (active_with_hash h) db.api_keys), db)

abbrev pub active_with_id : String → ApiKey → Bool
active_with_id i k = (k.id == i) && is_active k

abbrev pub revoke : ℕ → ApiKey → ApiKey
revoke now k = record k { revoked_at = some now }

unfoldable pub revoke_api_key : String → Statement (Unit {0})
revoke_api_key id now db =
    if is_some (find (active_with_id id) db.api_keys)
    then (ok tt, record db { api_keys = update_where (active_with_id id) (revoke now) db.api_keys })
    else (err not_found, db)

abbrev pub touch : ℕ → ApiKey → ApiKey
touch now k = record k { last_used_at = some now }

unfoldable pub touch_api_key_last_used : String → Statement (Unit {0})
touch_api_key_last_used id now db =
    (ok tt, record db { api_keys = update_where (λ k. k.id == id) (touch now) db.api_keys })
