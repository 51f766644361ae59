-- ===== src/Domain.antt =====
-- internal/domain/domain.go: the entities, one record for each table's row.
-- A timestamp is a number, a nullable column an `Option`, a JSON object a list of fields.
use discord_support_hub.Prelude.{ℕ, String, Bool, true, false, Option, List}

pub data UserType : Type 0 where
  agent collaborator : UserType

pub data SpaceLifecycleState : Type 0 where
  active resolved archived : SpaceLifecycleState

pub data AclState : Type 0 where
  pending applied degraded failed : AclState

pub data JobStatus : Type 0 where
  pending active completed retrying archived : JobStatus

pub data ExpulsionScope : Type 0 where
  channel server : ExpulsionScope

abbrev pub Fields : Type 0
Fields = List (String × String)

pub record Merchant : Type 0 where
  pub id : String
  pub external_ref : String
  pub name : String
  pub help_desk_url : Option String
  pub is_active : Bool
  pub created_at : ℕ
  pub updated_at : ℕ

pub record User : Type 0 where
  pub id : String
  pub kind : UserType
  pub is_admin : Bool
  pub discord_user_id : Option String
  pub email : Option String
  pub display_name : Option String
  pub provisioned_at : Option ℕ
  pub is_active : Bool
  pub created_at : ℕ
  pub updated_at : ℕ

pub record Space : Type 0 where
  pub id : String
  pub merchant_id : String
  pub discord_channel_id : Option String
  pub discord_category_id : Option String
  pub name : String
  pub lifecycle_state : SpaceLifecycleState
  pub acl_state : AclState
  pub welcome_message_id : Option String
  pub last_activity_at : Option ℕ
  pub reconciled_at : Option ℕ
  pub drift_count : ℕ
  pub created_at : ℕ
  pub updated_at : ℕ
  pub archived_at : Option ℕ

-- `Role` has one value in the source and is left out.
pub record SpaceMember : Type 0 where
  pub id : String
  pub space_id : String
  pub user_id : String
  pub overwrite_applied : Bool
  pub invited_by : Option String
  pub created_at : ℕ
  pub revoked_at : Option ℕ

pub record AuditEntry : Type 0 where
  pub id : ℕ
  pub actor_api_key : Option String
  pub actor_user_id : Option String
  pub action : String
  pub merchant_id : Option String
  pub space_id : Option String
  pub target_user_id : Option String
  pub scope : Option String
  pub detail : Fields
  pub created_at : ℕ

-- `error` says whether a text is recorded: the texts themselves are not modelled.
pub record Job : Type 0 where
  pub id : String
  pub task_id : String
  pub kind : String
  pub queue : String
  pub status : JobStatus
  pub merchant_id : Option String
  pub space_id : Option String
  pub user_id : Option String
  pub payload : Fields
  pub error : Bool
  pub retry_count : ℕ
  pub created_at : ℕ
  pub updated_at : ℕ
  pub completed_at : Option ℕ

pub record OutboxRow : Type 0 where
  pub id : String
  pub aggregate : String
  pub aggregate_id : String
  pub kind : String
  pub payload : Fields
  pub idempotency_key : String
  pub enqueued_at : Option ℕ
  pub created_at : ℕ

-- A hash, a ciphertext and a nonce are texts of bytes.
pub record ApiKey : Type 0 where
  pub id : String
  pub name : String
  pub key_hash : String
  pub scope : String
  pub created_at : ℕ
  pub last_used_at : Option ℕ
  pub revoked_at : Option ℕ

pub record OauthToken : Type 0 where
  pub id : String
  pub user_id : String
  pub access_token_cipher : String
  pub access_token_nonce : String
  pub refresh_token_cipher : Option String
  pub refresh_token_nonce : Option String
  pub encryption_key_version : ℕ
  pub scopes : String
  pub expires_at : Option ℕ
  pub created_at : ℕ
  pub updated_at : ℕ

pub record IdempotencyKey : Type 0 where
  pub key : String
  pub request_hash : String
  pub status : JobStatus
  pub response_code : Option ℕ
  pub response_body : Option Fields
  pub job_id : Option String
  pub created_at : ℕ
  pub expires_at : ℕ

-- The tests of `==` on the enumerations.
abbrev pub is_agent : UserType → Bool
is_agent agent = true
is_agent collaborator = false

abbrev pub same_lifecycle : SpaceLifecycleState → SpaceLifecycleState → Bool
same_lifecycle active active = true
same_lifecycle resolved resolved = true
same_lifecycle archived archived = true
same_lifecycle _ _ = false

abbrev pub is_applied : AclState → Bool
is_applied applied = true
is_applied _ = false

abbrev pub is_active_state : SpaceLifecycleState → Bool
is_active_state active = true
is_active_state _ = false

abbrev pub is_archived_state : SpaceLifecycleState → Bool
is_archived_state archived = true
is_archived_state _ = false

abbrev pub is_completed : JobStatus → Bool
is_completed completed = true
is_completed _ = false

-- The text of the state.
abbrev pub state_text : SpaceLifecycleState → String
state_text active = "active"
state_text resolved = "resolved"
state_text archived = "archived"
