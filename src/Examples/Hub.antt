-- ===== src/Examples/Hub.antt =====
-- A hub with one provisioned space and one collaborator.
use discord_support_hub.Prelude.{ℕ, true, false, Option, none, some, [], ◌∷◌}
use discord_support_hub.Domain.{
  Merchant, User, UserType, Space, SpaceLifecycleState, AclState, SpaceMember,
}
use discord_support_hub.Store.Db.{Db, ok}
use discord_support_hub.Effects.{Env, Locker}
use discord_support_hub.Examples.Memory.{Memory}

-- A locker whose locks are always free.
abbrev pub free_locker : Locker (Unit {0})
free_locker = record {
  acquire_space = λ s l. (ok (some "token"), l);
  release_space = λ s t l. (ok tt, l);
  acquire_merchant = λ s l. (ok (some "token"), l);
  release_merchant = λ s t l. (ok tt, l);
}

abbrev pub acme : Merchant
acme = record {
  id = "m1";
  external_ref = "ref1";
  name = "acme";
  help_desk_url = none;
  is_active = true;
  created_at = 1;
  updated_at = 1;
}

abbrev pub ann : User
ann = record {
  id = "u1";
  kind = UserType.collaborator;
  is_admin = false;
  discord_user_id = some "d1";
  email = none;
  display_name = none;
  provisioned_at = none;
  is_active = true;
  created_at = 1;
  updated_at = 1;
}

abbrev pub support : Space
support = record {
  id = "s1";
  merchant_id = "m1";
  discord_channel_id = some "c1";
  discord_category_id = some "cat";
  name = "acme";
  lifecycle_state = SpaceLifecycleState.active;
  acl_state = AclState.applied;
  welcome_message_id = none;
  last_activity_at = none;
  reconciled_at = none;
  drift_count = 0;
  created_at = 1;
  updated_at = 1;
  archived_at = none;
}

-- Ann's row in the space: revoked at the given time, or not.
abbrev pub row : Option ℕ → SpaceMember
row at = record {
  id = "sm1";
  space_id = "s1";
  user_id = "u1";
  overwrite_applied = false;
  invited_by = none;
  created_at = 2;
  revoked_at = at;
}

abbrev pub hub_db : Option ℕ → Db
hub_db at = record {
  merchants = acme ∷ [];
  users = ann ∷ [];
  spaces = support ∷ [];
  members = row at ∷ [];
  jobs = [];
  outbox = [];
  audit = [];
  api_keys = [];
  oauth_tokens = [];
  idempotency_keys = [];
}

abbrev pub hub : Option ℕ → Memory → Env Memory (Unit {0})
hub at d = record { db = hub_db at; faults = []; now = 9; discord = d; locks = tt }
