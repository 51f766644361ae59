-- ===== src/Worker/Provision/Leaves.antt =====
-- The steps of a provisioning task that leave an overwrite: all but the one that makes the channel,
-- for every target but the agents' role.
use discord_support_hub.Prelude.{
  String, Bool, true, false, Option, List, ◌≡◌, ◌≢◌, ◌∙◌, inl, inr, Bool-cases, if◌then◌else◌,
}
use discord_support_hub.Domain.{JobStatus, Job}
use discord_support_hub.Store.Db.{Error, Reply, ok, err, Statement}
use discord_support_hub.Store.Jobs.{get_job_by_space_id_and_kind, update_job_status}
use discord_support_hub.Discord.{
  DiscordApi, PermissionOverwrite, role, no_perms, view_only, apply_category_agent_allow,
}
use discord_support_hub.Discord.Laws.{IsDiscord}
use discord_support_hub.Effects.{Env, Locker, M, continue, query, call, locking}
use discord_support_hub.Worker.View.{view, view-query, view-locking}
use discord_support_hub.Worker.Lifecycle.{update_job, job_params}
use discord_support_hub.Worker.Provision.{
  ProvisionSpacePayload, ProvisionSpaceConfig, Limiter, kind_provision_space, transition_job,
  fail_closed, take_tokens, handle_429, invalidate_space_cache, persist, allowed, allow_agents,
  created, is_discord_429, permissions_route,
}

module _ {D L : Type 0} (api : DiscordApi D) (c t : String) (v : Option PermissionOverwrite) where
  -- The overwrite is this one.
  abbrev pub Shows : Env D L → Type 0
  Shows e = view api c t e ≡ v

  -- An action that leaves the overwrite.
  abbrev pub Leaves : {A : Type 0} → M (Env D L) A → Type 0
  Leaves m = (e : Env D L) → Shows e → Shows (m e).1

  pub bind-Shows :
      {A B : Type 0} (q : Reply A × Env D L) (f : A → M (Env D L) B)
      → Shows q.1
      → ((a : A) → Leaves (f a))
      → Shows (continue q f).1
  bind-Shows (ok a, e) f h k = k a e h
  bind-Shows (err x, e) f h k = h

  pub query-Leaves : {A : Type 0} (st : Statement A) → Leaves (query st)
  query-Leaves st e h = view-query api c t st e ∙ h

  pub locking-Leaves : {A : Type 0} (f : L → Reply A × L) → Leaves (locking f)
  locking-Leaves f e h = view-locking api c t f e ∙ h

  pub update_job-Leaves : (st : JobStatus) (b : Bool) (r : Reply Job) → Leaves (update_job st b r)
  unfolding update_job
  update_job-Leaves st b (ok j) e h = query-Leaves (update_job_status (job_params st b j)) e h
  update_job-Leaves st b (err x) e h = h

  pub transition_job-Leaves :
      (s : String) (st : JobStatus) (b : Bool) → Leaves (transition_job s st b)
  unfolding transition_job
  transition_job-Leaves s st b e h =
      update_job-Leaves st b _ _
        (query-Leaves (get_job_by_space_id_and_kind s kind_provision_space) e h)

  pub fail_closed-Leaves :
      (p : ProvisionSpacePayload) (channel reason : String) (x : Error)
      → Leaves (fail_closed p channel reason x)
  unfolding fail_closed
  fail_closed-Leaves p channel reason x e h =
      bind-Shows (transition_job p.space_id JobStatus.archived true _) _
        (transition_job-Leaves p.space_id JobStatus.archived true _ (query-Leaves _ e h))
        λ a e1 h1. query-Leaves _ e1 h1

  module _ (limiter : Limiter L) where
    pub take_tokens-Leaves : (route : String) → Leaves (take_tokens limiter route)
    unfolding take_tokens
    take_tokens-Leaves route e h =
        bind-Shows (locking limiter.take_global e) _ (locking-Leaves limiter.take_global e h)
          λ a e1 h1. locking-Leaves (limiter.take_route route) e1 h1

    handle_429-Leaves : (route : String) (x : Error) → Leaves (handle_429 limiter route x)
    unfolding handle_429
    handle_429-Leaves route x e h = locking-Leaves _ e h

    failed-Leaves :
        (p : ProvisionSpacePayload) (channel reason route : String) (x : Error)
        → Leaves (
            if is_discord_429 x then handle_429 limiter route x else fail_closed p channel reason x)
    failed-Leaves p channel reason route x = elim (Bool-cases (is_discord_429 x)) [
      | inl limited ↦ simp limited (handle_429-Leaves route x)
      | inr other ↦ simp other (fail_closed-Leaves p channel reason x)
    ]

    module _ (laws : IsDiscord api) (locker : Locker L)
        (cache_del : List String → L → Reply (Unit {0}) × L) (cfg : ProvisionSpaceConfig)
        (p : ProvisionSpacePayload) (other : t ≢ cfg.agent_role_id) where
      persist-Leaves :
          (category channel : String)
          → Leaves (persist api locker limiter cache_del cfg p category channel)
      unfolding persist invalidate_space_cache
      persist-Leaves category channel e h =
          bind-Shows (query _ e) _ (query-Leaves _ e h) λ row e1 h1.
            bind-Shows (transition_job p.space_id JobStatus.completed false e1) _
              (transition_job-Leaves p.space_id JobStatus.completed false e1 h1)
              λ a e2 h2. locking-Leaves _ _ (query-Leaves _ e2 h2)

      allowed-Leaves :
          (category channel : String) (r : Reply (Unit {0}))
          → Leaves (allowed api locker limiter cache_del cfg p category channel r)
      unfolding allowed
      allowed-Leaves category channel (ok u) e h = persist-Leaves category channel e h
      allowed-Leaves category channel (err x) e h =
          failed-Leaves p channel "acl_apply_failed" (permissions_route category) x e h

      apply-Leaves :
          (category : String)
          → Leaves (call (apply_category_agent_allow api category cfg.agent_role_id))
      unfolding call apply_category_agent_allow
      apply-Leaves category e h =
          elim (laws.set_each category cfg.agent_role_id role view_only no_perms e.discord c t) [
            | inl same ↦ same ∙ h
            | inr (here, agent, after) ↦ absurd (other agent)
          ]

      allow_agents-Leaves :
          (category channel : String)
          → Leaves (allow_agents api locker limiter cache_del cfg p category channel)
      unfolding allow_agents
      allow_agents-Leaves category channel e h =
          bind-Shows (take_tokens limiter (permissions_route category) e) _
            (take_tokens-Leaves (permissions_route category) e h)
            λ a e1 h1. allowed-Leaves category channel _ _ (apply-Leaves category e1 h1)

      pub created-Leaves :
          (category : String) (r : Reply String)
          → Leaves (created api locker limiter cache_del cfg p category r)
      unfolding created
      created-Leaves category (ok channel) e h = allow_agents-Leaves category channel e h
      created-Leaves category (err x) e h =
          failed-Leaves p "" "channel_create_failed" "POST/channels" x e h
