-- ===== src/Store/Merchants.antt =====
-- The statements on `merchants`.
use discord_support_hub.Prelude.{
  ℕ, String, Bool, true, false, Option, none, some, List, [], ◌∷◌, ◌++◌, ◌==◌, find, is_some, page,
  or_fifty, if◌then◌else◌,
}
use discord_support_hub.Domain.{Merchant}
use discord_support_hub.Store.Db.{Db, ok, err, conflict, Statement, scan}

abbrev pub merchant_by_id : String → Merchant → Bool
merchant_by_id i m = m.id == i

abbrev pub by_external_ref : String → Merchant → Bool
by_external_ref r m = m.external_ref == r

pub record CreateMerchantParams : Type 0 where
  pub external_ref : String
  pub name : String
  pub help_desk_url : Option String

abbrev pub new_merchant : String → CreateMerchantParams → ℕ → Merchant
new_merchant id p now = record {
  id = id;
  external_ref = p.external_ref;
  name = p.name;
  help_desk_url = p.help_desk_url;
  is_active = true;
  created_at = now;
  updated_at = now;
}

-- The constraint merchants_external_ref_key of the table.
abbrev pub reference_taken : String → Db → Bool
reference_taken r db = is_some (find (by_external_ref r) db.merchants)

unfoldable pub create_merchant : String → CreateMerchantParams → Statement Merchant
create_merchant id p now db = if reference_taken p.external_ref db then (err conflict, db) else (
  ok (new_merchant id p now),
  record db { merchants = db.merchants ++ new_merchant id p now ∷ [] },
)

unfoldable pub get_merchant_by_id : String → Statement Merchant
get_merchant_by_id id now db = (scan (find (merchant_by_id id) db.merchants), db)

unfoldable pub get_merchant_by_external_ref : String → Statement Merchant
get_merchant_by_external_ref r now db = (scan (find (by_external_ref r) db.merchants), db)

-- A cursor is the time that it reads as.
pub record ListMerchantsParams : Type 0 where
  pub is_active : Option Bool
  pub cursor : Option ℕ
  pub limit : ℕ

abbrev pub same_bool : Bool → Bool → Bool
same_bool true b = b
same_bool false true = false
same_bool false false = true

abbrev pub has_activity : Option Bool → Merchant → Bool
has_activity none m = true
has_activity (some b) m = same_bool m.is_active b

unfoldable pub list_merchants : ListMerchantsParams → Statement (List Merchant)
list_merchants p now db = (
  ok (page (or_fifty p.limit) (λ m. m.created_at) p.cursor (has_activity p.is_active) db.merchants),
  db,
)
