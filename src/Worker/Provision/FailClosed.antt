-- ===== src/Worker/Provision/FailClosed.antt =====
-- What a provisioning task may do to the overwrites of Discord, on every path.
use discord_support_hub.Prelude.{
  String, false, ◌==◌, ◌&&◌, Option, List, [], ◌∷◌, none, some, ◌≡◌, ◌≢◌, refl, sym, ◌∙◌, subst,
  ◌⊎◌, inl, inr, find, Bool-cases, is_some, arith, eq_of_eq_true,
}
use discord_support_hub.Domain.{Space, JobStatus, is_applied}
use discord_support_hub.Store.Db.{Reply, ok, err, retry_later}
use discord_support_hub.Store.Spaces.{get_space_by_id}
use discord_support_hub.Discord.{
  DiscordApi, PermissionOverwrite, role, no_perms, view_only, of_target, create_channel_denied,
}
use discord_support_hub.Discord.Laws.{IsDiscord, made}
use discord_support_hub.Effects.{Env, Locker, M, continue, query, call, locking}
use discord_support_hub.Worker.View.{view, view-locking}
use discord_support_hub.Worker.Provision.{
  ProvisionSpacePayload, ProvisionSpaceConfig, Limiter, transition_job, take_tokens, create_in,
  provision_in, provision, provision_locked, holding_merchant, handle, category_of,
}
use discord_support_hub.Worker.Provision.Leaves.{
  Shows, query-Leaves, locking-Leaves, transition_job-Leaves, fail_closed-Leaves,
  take_tokens-Leaves, created-Leaves,
}

module _ {D L : Type 0} (api : DiscordApi D) (laws : IsDiscord api) (locker : Locker L)
    (limiter : Limiter L) (cache_del : List String → L → Reply (Unit {0}) × L)
    (cfg : ProvisionSpaceConfig) (p : ProvisionSpacePayload) (c t : String)
    (other : t ≢ cfg.agent_role_id) where
  -- The overwrite stays, or it is the denying one of a channel that was made.
  abbrev pub IsClosed : Option PermissionOverwrite → Option PermissionOverwrite → Type 0
  IsClosed v v' =
      (v' ≡ v)
      ⊎ ((t ≡ cfg.everyone_role_id)
          × (v ≡ none)
          × (v' ≡ some (made cfg.everyone_role_id role no_perms view_only)))

  bind-IsClosed :
      {A B : Type 0} (v : Option PermissionOverwrite) (q : Reply A × Env D L)
      (f : A → M (Env D L) B)
      → Shows api c t v q.1
      → ((a : A) (e : Env D L) → Shows api c t v e → IsClosed v (view api c t (f a e).1))
      → IsClosed v (view api c t (continue q f).1)
  bind-IsClosed v (ok a, e) f h k = k a e h
  bind-IsClosed v (err x, e) f h k = inl h

  born-IsClosed :
      (v v' : Option PermissionOverwrite)
      → v ≡ none
      → v' ≡ find (of_target t) (made cfg.everyone_role_id role no_perms view_only ∷ [])
      → IsClosed v v'
  unfolding find
  born-IsClosed v v' none_before after = elim (Bool-cases (cfg.everyone_role_id == t)) [
    | inl same ↦ inr (sym (eq_of_eq_true _ _ same), none_before, ground (arith, after, same))
    | inr differs ↦ inl (ground (arith, after, differs, none_before))
  ]

  create-IsClosed :
      (category : String) (e : Env D L)
      → IsClosed (view api c t e) (
          view api c t
            (call
              (create_channel_denied api cfg.guild_id p.space_name category cfg.everyone_role_id)
              e).1)
  unfolding call create_channel_denied
  create-IsClosed category e =
      elim (laws.create_each cfg.guild_id p.space_name category
        (made cfg.everyone_role_id role no_perms view_only ∷ []) e.discord c t) [
          | inl same ↦ inl same
          | inr (before, after) ↦ born-IsClosed _ _ before after
        ]

  then-IsClosed : (v v1 v2 : Option PermissionOverwrite) → IsClosed v v1 → v2 ≡ v1 → IsClosed v v2
  then-IsClosed v v1 v2 (inl same) h = inl (h ∙ same)
  then-IsClosed v v1 v2 (inr (here, before, after)) h = inr (here, before, h ∙ after)

  create_in-IsClosed :
      (v : Option PermissionOverwrite) (category : String) (e : Env D L)
      → Shows api c t v e
      → IsClosed v (view api c t (create_in api locker limiter cache_del cfg p category e).1)
  unfolding create_in
  create_in-IsClosed v category e h =
      bind-IsClosed v (take_tokens limiter "POST/channels" e) _
        (take_tokens-Leaves api c t v limiter "POST/channels" e h)
        λ a e1 h1.
          let r =
            call (create_channel_denied api cfg.guild_id p.space_name category cfg.everyone_role_id)
              e1 in
          then-IsClosed v (view api c t r.1) _
            (subst (λ o. IsClosed o (view api c t r.1)) h1 (create-IsClosed category e1))
            (created-Leaves api c t (view api c t r.1) limiter laws locker cache_del cfg p other
              category r.0 r.1 refl)

  provision_in-IsClosed :
      (v : Option PermissionOverwrite) (category : String) (e : Env D L)
      → Shows api c t v e
      → IsClosed v (view api c t (provision_in api locker limiter cache_del cfg p category e).1)
  unfolding provision_in
  provision_in-IsClosed v category e h = elim (Bool-cases (category == "")) [
    | inl missing ↦
        simp missing
          (inl (fail_closed-Leaves api c t v p "" "no_category_for_agent_allow" retry_later e h))
    | inr given ↦ simp given (create_in-IsClosed v category e h)
  ]

  provision-IsClosed :
      (v : Option PermissionOverwrite) (sp : Space) (e : Env D L)
      → Shows api c t v e
      → IsClosed v (view api c t (provision api locker limiter cache_del cfg p sp e).1)
  unfolding provision
  provision-IsClosed v sp e h =
      elim (Bool-cases (is_some sp.discord_channel_id && is_applied sp.acl_state)) [
        | inl done ↦ simp done (inl h)
        | inr open_still ↦ simp open_still (provision_in-IsClosed v (category_of cfg p) e h)
      ]

  holding_merchant-IsClosed :
      (v : Option PermissionOverwrite) (o : Option String) (e : Env D L)
      → Shows api c t v e
      → IsClosed v (view api c t (holding_merchant api locker limiter cache_del cfg p o e).1)
  unfolding holding_merchant provision_locked
  holding_merchant-IsClosed v none e h = inl h
  holding_merchant-IsClosed v (some token) e h =
      then-IsClosed v _ _
        (bind-IsClosed v (query (get_space_by_id p.space_id) e) _
          (query-Leaves api c t v (get_space_by_id p.space_id) e h)
          λ sp e1 h1. provision-IsClosed v sp e1 h1)
        (view-locking api c t (locker.release_merchant p.merchant_id token) _)

  pub handle-IsClosed :
      (e : Env D L)
      → IsClosed
          (view api c t e)
          (view api c t (handle api locker limiter cache_del cfg (some p) e).1)
  unfolding handle
  handle-IsClosed e = elim (Bool-cases (p.space_id == "")) [
    | inl bad ↦ simp bad (inl refl)
    | inr fine ↦ simp fine (
        bind-IsClosed (view api c t e) (transition_job p.space_id JobStatus.active false e) _
          (transition_job-Leaves api c t (view api c t e) p.space_id JobStatus.active false e refl)
          λ a e1 h1.
            bind-IsClosed (view api c t e) (locking (locker.acquire_merchant p.merchant_id) e1) _
              (locking-Leaves api c t (view api c t e) (locker.acquire_merchant p.merchant_id) e1
                h1)
              λ token e2 h2. holding_merchant-IsClosed (view api c t e) token e2 h2)
  ]
