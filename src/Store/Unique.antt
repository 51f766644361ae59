-- ===== src/Store/Unique.antt =====
-- The unique constraints of the tables.
use discord_support_hub.Prelude.{Bool, ◌==◌, ◌&&◌, AllDistinct, clash_at}
use discord_support_hub.Domain.{
  User, Space, SpaceMember, Job, OutboxRow, Merchant, ApiKey, OauthToken, IdempotencyKey,
}
use discord_support_hub.Store.Db.{Db}

abbrev pub same_ref : Merchant → Merchant → Bool
same_ref x y = x.external_ref == y.external_ref

abbrev pub same_user : User → User → Bool
same_user x y = x.id == y.id

abbrev pub same_discord : User → User → Bool
same_discord = clash_at (λ u. u.discord_user_id)

abbrev pub same_space : Space → Space → Bool
same_space x y = x.id == y.id

abbrev pub same_merchant : Space → Space → Bool
same_merchant x y = x.merchant_id == y.merchant_id

abbrev pub same_channel : Space → Space → Bool
same_channel = clash_at (λ s. s.discord_channel_id)

abbrev pub same_pair : SpaceMember → SpaceMember → Bool
same_pair x y = x.space_id == y.space_id && x.user_id == y.user_id

abbrev pub same_task : Job → Job → Bool
same_task x y = x.task_id == y.task_id

abbrev pub same_outbox_key : OutboxRow → OutboxRow → Bool
same_outbox_key x y = x.idempotency_key == y.idempotency_key

abbrev pub same_hash : ApiKey → ApiKey → Bool
same_hash x y = x.key_hash == y.key_hash

abbrev pub same_owner : OauthToken → OauthToken → Bool
same_owner x y = x.user_id == y.user_id

abbrev pub same_key : IdempotencyKey → IdempotencyKey → Bool
same_key x y = x.key == y.key

pub record IsUnique (db : Db) : Type 0 where
  pub merchants : AllDistinct same_ref db.merchants
  pub users : AllDistinct same_user db.users
  pub discords : AllDistinct same_discord db.users
  pub spaces : AllDistinct same_space db.spaces
  pub owners : AllDistinct same_merchant db.spaces
  pub channels : AllDistinct same_channel db.spaces
  pub members : AllDistinct same_pair db.members
  pub jobs : AllDistinct same_task db.jobs
  pub outbox : AllDistinct same_outbox_key db.outbox
  pub api_keys : AllDistinct same_hash db.api_keys
  pub oauth_tokens : AllDistinct same_owner db.oauth_tokens
  pub idempotency_keys : AllDistinct same_key db.idempotency_keys
