-- ===== src/Worker/Provision/Born.antt =====
-- The channel that a provisioning task makes is born denied, and stays so on every path.
use discord_support_hub.Prelude.{
  String, Bool, true, false, ◌==◌, ◌&&◌, Option, List, [], ◌∷◌, none, some, ◌≡◌, ◌≢◌, refl, ◌∙◌,
  subst, ◌⊎◌, inl, inr, find, Bool-cases, is_some, eq_refl,
}
use discord_support_hub.Domain.{Space, JobStatus, Job, is_applied}
use discord_support_hub.Store.Db.{Error, Reply, ok, err, retry_later}
use discord_support_hub.Store.Spaces.{get_space_by_id, update_space_acl_state}
use discord_support_hub.Store.Jobs.{get_job_by_space_id_and_kind, update_job_status}
use discord_support_hub.Store.Members.{insert_audit_entry}
use discord_support_hub.Discord.{DiscordApi, role, no_perms, view_only, create_channel_denied}
use discord_support_hub.Discord.Laws.{IsDiscord, made}
use discord_support_hub.Effects.{Env, Locker, continue_rule, query, call, locking}
use discord_support_hub.Worker.View.{view, query_keeps_discord}
use discord_support_hub.Worker.Lifecycle.{update_job, job_params}
use discord_support_hub.Worker.Provision.{
  ProvisionSpacePayload, ProvisionSpaceConfig, Limiter, kind_provision_space, transition_job,
  fail_closed, take_tokens, created, create_in, provision_in, provision, provision_locked,
  holding_merchant, handle, category_of, failed_state, audit_failed,
}
use discord_support_hub.Worker.Provision.Leaves.{created-Leaves}
use discord_support_hub.Worker.Provision.FailClosed.{IsClosed, handle-IsClosed}

module _ {D L : Type 0} where
  update_job_keeps :
      (st : JobStatus) (b : Bool) (r : Reply Job) (e : Env D L)
      → (update_job st b r e).1.discord ≡ e.discord
  unfolding update_job
  update_job_keeps st b (ok j) e = query_keeps_discord (update_job_status (job_params st b j)) e
  update_job_keeps st b (err x) e = refl

  transition_job_keeps :
      (s : String) (st : JobStatus) (b : Bool) (e : Env D L)
      → (transition_job s st b e).1.discord ≡ e.discord
  unfolding transition_job
  transition_job_keeps s st b e =
      let look = query (get_job_by_space_id_and_kind s kind_provision_space) e in
      update_job_keeps st b look.0 look.1
      ∙ query_keeps_discord (get_job_by_space_id_and_kind s kind_provision_space) e

  fail_closed_keeps :
      (p : ProvisionSpacePayload) (channel reason : String) (x : Error) (e : Env D L)
      → (fail_closed p channel reason x e).1.discord ≡ e.discord
  unfolding fail_closed
  fail_closed_keeps p channel reason x e =
      let e1 = (query (update_space_acl_state p.space_id (failed_state channel)) e).1 in
      let moved = transition_job p.space_id JobStatus.archived true e1 in
      let kept =
        transition_job_keeps p.space_id JobStatus.archived true e1
        ∙ query_keeps_discord (update_space_acl_state p.space_id (failed_state channel)) e in
      continue_rule (λ q. q.1.discord ≡ e.discord) moved _ (λ y failed. kept)
        (λ a done.
          query_keeps_discord (insert_audit_entry (audit_failed p channel reason)) moved.1 ∙ kept)

  take_tokens_keep :
      (limiter : Limiter L) (route : String) (e : Env D L)
      → (take_tokens limiter route e).1.discord ≡ e.discord
  unfolding take_tokens locking
  take_tokens_keep limiter route e =
      continue_rule (λ q. q.1.discord ≡ e.discord) (locking limiter.take_global e) _
        (λ x failed. refl) (λ a done. refl)

module _ {D L : Type 0} (api : DiscordApi D) (laws : IsDiscord api) (locker : Locker L)
    (limiter : Limiter L) (cache_del : List String → L → Reply (Unit {0}) × L)
    (cfg : ProvisionSpaceConfig) (p : ProvisionSpacePayload) where
  -- The channel that was answered denies VIEW_CHANNEL to everyone.
  abbrev pub IsDenied : Reply String → D → Type 0
  IsDenied (ok c) d =
      api.overwrite d c cfg.everyone_role_id
      ≡ some (made cfg.everyone_role_id role no_perms view_only)
  IsDenied (err x) d = Unit {0}

  abbrev pub create : D → Reply String × D
  create d =
      create_channel_denied api cfg.guild_id p.space_name (category_of cfg p) cfg.everyone_role_id d

  -- From this Discord side no call of Discord was made, or the channel was, denied.
  abbrev pub IsBorn : D → D → Type 0
  IsBorn d after = (after ≡ d) ⊎ IsDenied (create d).0 after

  module _ (apart : cfg.everyone_role_id ≢ cfg.agent_role_id) where
    denied :
        (r : Reply String) (e : Env D L)
        → (create e.discord).0 ≡ r
        → IsDenied r
            (created api locker limiter cache_del cfg p
              (category_of cfg p)
              r
              (record e { discord = (create e.discord).1 })).1.discord
    unfolding create_channel_denied find
    denied (err x) e answer = tt
    denied (ok c) e answer =
        let everyone = cfg.everyone_role_id in
        created-Leaves api c everyone (some (made everyone role no_perms view_only)) limiter laws
          locker cache_del cfg p apart (category_of cfg p) (ok c)
          (record e { discord = (create e.discord).1 })
          (laws.create_done cfg.guild_id p.space_name (category_of cfg p)
              (made everyone role no_perms view_only ∷ []) e.discord c everyone answer
            ∙ simp (eq_refl everyone) refl)

    create_in-IsBorn :
        (d : D) (e : Env D L)
        → e.discord ≡ d
        → IsBorn d (create_in api locker limiter cache_del cfg p (category_of cfg p) e).1.discord
    unfolding create_in call
    create_in-IsBorn d e same =
        let kept = take_tokens_keep limiter "POST/channels" e in
        let tokens = take_tokens limiter "POST/channels" e in
        continue_rule (λ q. IsBorn d q.1.discord) tokens _ (λ x failed. inl (kept ∙ same))
          (λ a done. inr (
            subst
              (λ x.
                IsDenied (create x).0
                  (created api locker limiter cache_del cfg p (category_of cfg p)
                    (create tokens.1.discord).0
                    (record tokens.1 { discord = (create tokens.1.discord).1 })).1.discord)
              (kept ∙ same) (denied (create tokens.1.discord).0 tokens.1 refl)))

    provision-IsBorn :
        (d : D) (sp : Space) (e : Env D L)
        → e.discord ≡ d
        → IsBorn d (provision api locker limiter cache_del cfg p sp e).1.discord
    unfolding provision provision_in
    provision-IsBorn d sp e same =
        elim (Bool-cases (is_some sp.discord_channel_id && is_applied sp.acl_state)) [
          | inl done ↦ simp done (inl same)
          | inr open_still ↦ elim (Bool-cases (category_of cfg p == "")) [
            | inl missing ↦
                simp (open_still, missing)
                  (inl (fail_closed_keeps p "" "no_category_for_agent_allow" retry_later e ∙ same))
            | inr given ↦ simp (open_still, given) (create_in-IsBorn d e same)
          ]
        ]

    holding_merchant-IsBorn :
        (d : D) (o : Option String) (e : Env D L)
        → e.discord ≡ d
        → IsBorn d (holding_merchant api locker limiter cache_del cfg p o e).1.discord
    unfolding holding_merchant provision_locked locking
    holding_merchant-IsBorn d none e same = inl same
    holding_merchant-IsBorn d (some token) e same =
        let look = query (get_space_by_id p.space_id) e in
        let kept = query_keeps_discord (get_space_by_id p.space_id) e ∙ same in
        (continue_rule (λ q. IsBorn d q.1.discord) look _ (λ x failed. inl kept)
          (λ sp found. provision-IsBorn d sp look.1 kept))

    handle-IsBorn :
        (e : Env D L)
        → IsBorn e.discord (handle api locker limiter cache_del cfg (some p) e).1.discord
    unfolding handle locking
    handle-IsBorn e = elim (Bool-cases (p.space_id == "")) [
      | inl bad ↦ simp bad (inl refl)
      | inr fine ↦
          let kept = transition_job_keeps p.space_id JobStatus.active false e in
          let moved = transition_job p.space_id JobStatus.active false e in
          simp fine (
            continue_rule (λ q. IsBorn e.discord q.1.discord) moved _ (λ x failed. inl kept)
              (λ a done.
                continue_rule (λ q. IsBorn e.discord q.1.discord)
                  (locking (locker.acquire_merchant p.merchant_id) moved.1) _ (λ x failed. inl kept)
                  (λ token held. holding_merchant-IsBorn e.discord token _ kept)))
    ]

    -- Over a Discord that meets its laws, with different roles for everyone and the agents, and
    -- whatever call fails: either the task makes no call of Discord, or the channel that its call
    -- answers with denies VIEW_CHANNEL to the everyone role when the task ends; and for every
    -- channel and every target but the agents' role it leaves the overwrite as it was, or the
    -- overwrite is new and is that denial.
    pub handle-IsFailClosed :
        (c t : String) (other : t ≢ cfg.agent_role_id) (e : Env D L)
        → IsBorn e.discord (handle api locker limiter cache_del cfg (some p) e).1.discord
          × IsClosed api laws locker limiter cache_del cfg p c t other
              (view api c t e)
              (view api c t (handle api locker limiter cache_del cfg (some p) e).1)
    handle-IsFailClosed c t other e =
        (handle-IsBorn e, handle-IsClosed api laws locker limiter cache_del cfg p c t other e)
