-- ===== src/Handlers/Provision/Recorded.antt =====
-- A provisioning request is accepted only where its space and its outbox row stand in the tables.
use discord_support_hub.Prelude.{ℕ, String, true, ◌==◌, Option, some, ◌≡◌, find}
use discord_support_hub.Store.Db.{Db}
use discord_support_hub.Store.Spaces.{new_space}
use discord_support_hub.Store.Outbox.{has_outbox_key}
use discord_support_hub.Handlers.Provision.{ProvisionRequest, provision_key, space_params}
use discord_support_hub.Handlers.Provision.Kept.{Kept}

-- The space and its outbox row, as the request makes them.
abbrev HasRecorded : ProvisionRequest → String → Option String → ℕ → Db → Type 0
HasRecorded r name category now db =
    (find (λ s. s.merchant_id == r.merchant_id) db.spaces
      ≡ some (new_space r.ids.space (space_params r name category) now))
    × (has_outbox_key (provision_key r) db ≡ true)
