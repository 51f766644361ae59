-- ===== src/Worker/Provision/Applied.antt =====
-- What a finished provisioning task leaves in the row of its space.
use discord_support_hub.Prelude.{
  ℕ, String, Bool, true, false, ◌==◌, ◌&&◌, Option, none, some, List, ◌≡◌, refl, sym, ◌∙◌, ap,
  subst, inl, inr, ◌⊎◌, find, update_where, find-update_where, find_sound, revise, Bool-cases,
  Option-cases, is_some, arith, if◌then◌else◌,
}
use mathlib.Core.Option
use discord_support_hub.Domain.{Space, JobStatus, is_applied}
use discord_support_hub.Store.Db.{Db, Error, Reply, ok, err, retry_later, returning}
use discord_support_hub.Store.Spaces.{
  by_id, get_space_by_id, update_space_discord_channel, channel_taken, stamp_channel,
}
use discord_support_hub.Store.Jobs.{get_job_by_space_id_and_kind}
use discord_support_hub.Store.Members.{insert_audit_entry}
use discord_support_hub.Discord.{DiscordApi}
use discord_support_hub.Effects.{Env, Locker, continue_rule, query, locking, ignore, ◌>>◌}
use discord_support_hub.Worker.View.{db-read, query_answers, query_writes}
use discord_support_hub.Worker.Lifecycle.Steps.{
  At, query-At, update_job-At, audit-keeps, scan_found,
}
use discord_support_hub.Worker.Provision.{
  ProvisionSpacePayload, ProvisionSpaceConfig, Limiter, kind_provision_space, transition_job,
  fail_closed, take_tokens, handle_429, invalidate_space_cache, persist, allowed, allow_agents,
  created, create_in, provision_in, provision, provision_locked, holding_merchant, handle,
  is_discord_429, category_of, applied_params, audit_provision, permissions_route,
}

-- The space's row has a channel, with its ACL applied.
pub record IsProvisioned (id : String) (spaces : List Space) : Type 0 where
  pub space : Space
  pub found : find (by_id id) spaces ≡ some space
  pub applied : is_applied space.acl_state ≡ true
  pub has_channel : is_some space.discord_channel_id ≡ true

update-IsProvisioned :
    (p : ProvisionSpacePayload) (g c : String) (now : ℕ) (db : Db) (row : Space)
    → (update_space_discord_channel (applied_params p g c) now db).0 ≡ ok row
    → IsProvisioned p.space_id (update_space_discord_channel (applied_params p g c) now db).1.spaces
unfolding update_space_discord_channel
update-IsProvisioned p g c now db row =
    elim (Bool-cases
      (is_some (find (by_id p.space_id) db.spaces) && channel_taken p.space_id c db)) [
        | inl taken ↦ simp taken (λ h. cc)
        | inr free ↦ simp free (written (Option-cases (find (by_id p.space_id) db.spaces)))
      ]
  where
    written :
        (find (by_id p.space_id) db.spaces ≡ none)
          ⊎ ((a : Space) × (find (by_id p.space_id) db.spaces ≡ some a))
        → returning (by_id p.space_id) (stamp_channel (applied_params p g c) now) db.spaces ≡ ok row
        → IsProvisioned p.space_id
            (update_where (by_id p.space_id) (stamp_channel (applied_params p g c) now) db.spaces)
    written (inl missing) h = absurd (ground (arith, missing, h))
    written (inr (sp, here)) h = record {
      space = stamp_channel (applied_params p g c) now sp;
      found =
          find-update_where (by_id p.space_id) (by_id p.space_id)
            (stamp_channel (applied_params p g c) now) db.spaces (λ x. refl)
          ∙ ap (Option.map (revise (by_id p.space_id) (stamp_channel (applied_params p g c) now)))
              here
          ∙ simp (find_sound (by_id p.space_id) db.spaces sp here);
      applied = refl;
      has_channel = refl;
    }

module _ {D L : Type 0} (ss : List Space) (n : ℕ) where
  transition_job-At :
      (s : String) (st : JobStatus) (b : Bool) (e : Env D L)
      → At ss n e
      → At ss n (transition_job s st b e).1
  unfolding transition_job get_job_by_space_id_and_kind
  transition_job-At s st b e at =
      let look = get_job_by_space_id_and_kind s kind_provision_space in
      update_job-At ss n st b (query look e).0 (query look e).1
        (query-At ss n look e (λ k db. refl) at)

module _ {D L : Type 0} (api : DiscordApi D) (locker : Locker L) (limiter : Limiter L)
    (cache_del : List String → L → Reply (Unit {0}) × L) (cfg : ProvisionSpaceConfig)
    (p : ProvisionSpacePayload) where
  -- A task that ends without an error leaves the space provisioned.
  abbrev Ends : Reply (Unit {0}) × Env D L → Type 0
  Ends r = r.0 ≡ ok tt → IsProvisioned p.space_id r.1.db.spaces

  closing-Ends :
      (g c : String) (e : Env D L)
      → IsProvisioned p.space_id e.db.spaces
      → Ends (
          (transition_job p.space_id JobStatus.completed false
              >> ((ignore (query (insert_audit_entry (audit_provision p g c)))
                  >> invalidate_space_cache api locker limiter cache_del cfg p.space_id)))
            e)
  unfolding invalidate_space_cache locking
  closing-Ends g c e done =
      continue_rule Ends (transition_job p.space_id JobStatus.completed false e) _ (λ x k h. cc)
        λ u u_ok h.
          subst (IsProvisioned p.space_id)
            (sym
              (query-At e.db.spaces e.now (insert_audit_entry (audit_provision p g c)) _
                (audit-keeps (audit_provision p g c))
                (transition_job-At e.db.spaces e.now p.space_id JobStatus.completed false e
                  (refl, refl))).0)
            done

  persist-Ends :
      (g c : String) (e : Env D L) → Ends (persist api locker limiter cache_del cfg p g c e)
  unfolding persist
  persist-Ends g c e =
      let st = update_space_discord_channel (applied_params p g c) in
      continue_rule Ends (query st e) _ (λ x k h. cc)
        λ row row_ok. closing-Ends g c (query st e).1 (
          subst (λ (d : Db). IsProvisioned p.space_id d.spaces) (sym (query_writes st e row row_ok))
            (update-IsProvisioned p g c e.now e.db row (query_answers st e row row_ok)))

  fail_closed-Ends :
      (channel reason : String) (x : Error) (e : Env D L) → Ends (fail_closed p channel reason x e)
  unfolding fail_closed
  fail_closed-Ends channel reason x e =
      continue_rule Ends (transition_job p.space_id JobStatus.archived true _) _ (λ y k h. cc)
        (λ u u_ok h. cc)

  failed-Ends :
      (channel reason route : String) (x : Error) (e : Env D L)
      → Ends (
          (if is_discord_429 x then handle_429 limiter route x else fail_closed p channel reason x)
            e)
  unfolding handle_429
  failed-Ends channel reason route x e = elim (Bool-cases (is_discord_429 x)) [
    | inl limited ↦ simp limited (λ h. cc)
    | inr other ↦ simp other (fail_closed-Ends channel reason x e)
  ]

  allowed-Ends :
      (g c : String) (r : Reply (Unit {0})) (e : Env D L)
      → Ends (allowed api locker limiter cache_del cfg p g c r e)
  unfolding allowed
  allowed-Ends g c (ok u) e = persist-Ends g c e
  allowed-Ends g c (err x) e = failed-Ends c "acl_apply_failed" (permissions_route g) x e

  allow_agents-Ends :
      (g c : String) (e : Env D L) → Ends (allow_agents api locker limiter cache_del cfg p g c e)
  unfolding allow_agents
  allow_agents-Ends g c e =
      continue_rule Ends (take_tokens limiter (permissions_route g) e) _ (λ y k h. cc)
        λ u u_ok. allowed-Ends g c _ _

  created-Ends :
      (g : String) (r : Reply String) (e : Env D L)
      → Ends (created api locker limiter cache_del cfg p g r e)
  unfolding created
  created-Ends g (ok c) e = allow_agents-Ends g c e
  created-Ends g (err x) e = failed-Ends "" "channel_create_failed" "POST/channels" x e

  provision_in-Ends :
      (g : String) (e : Env D L) → Ends (provision_in api locker limiter cache_del cfg p g e)
  unfolding provision_in create_in
  provision_in-Ends g e = elim (Bool-cases (g == "")) [
    | inl missing ↦ simp missing (fail_closed-Ends "" "no_category_for_agent_allow" retry_later e)
    | inr given ↦ simp given (
        continue_rule Ends (take_tokens limiter "POST/channels" e) _ (λ y k h. cc)
          (λ u u_ok. created-Ends g _ _))
  ]

  provision-Ends :
      (sp : Space) (e : Env D L)
      → find (by_id p.space_id) e.db.spaces ≡ some sp
      → Ends (provision api locker limiter cache_del cfg p sp e)
  unfolding provision
  provision-Ends sp e found =
      elim (Bool-cases (is_some sp.discord_channel_id && is_applied sp.acl_state)) [
        | inl done ↦ simp done (λ h. record {
          space = sp;
          found = found;
          applied = ground (arith, done);
          has_channel = ground (arith, done);
        })
        | inr open_still ↦ simp open_still (provision_in-Ends (category_of cfg p) e)
      ]

  holding_merchant-Ends :
      (o : Option String) (e : Env D L)
      → Ends (holding_merchant api locker limiter cache_del cfg p o e)
  unfolding holding_merchant provision_locked locking get_space_by_id
  holding_merchant-Ends none e = λ h. cc
  holding_merchant-Ends (some token) e =
      let look = get_space_by_id p.space_id in
      continue_rule Ends (query look e) (provision api locker limiter cache_del cfg p) (λ y k h. cc)
        λ sp sp_ok. provision-Ends sp (query look e).1 (
          ap (λ (d : Db). find (by_id p.space_id) d.spaces) (db-read look e (λ k db. refl))
          ∙ scan_found _ sp (query_answers look e sp sp_ok))

  -- A provisioning task that ends without an error leaves the space's row with a channel and its
  -- ACL applied, whether the task made the channel or found the space provisioned. Any database,
  -- Discord, lock or limiter call may fail on the way.
  pub handle-IsProvisioned :
      (e : Env D L)
      → (handle api locker limiter cache_del cfg (some p) e).0 ≡ ok tt
      → IsProvisioned p.space_id (handle api locker limiter cache_del cfg (some p) e).1.db.spaces
  unfolding handle
  handle-IsProvisioned e = elim (Bool-cases (p.space_id == "")) [
    | inl bad ↦ simp bad (λ h. cc)
    | inr fine ↦ simp fine (
        continue_rule Ends (transition_job p.space_id JobStatus.active false e) _ (λ y k h. cc)
          λ u u_ok.
            continue_rule Ends (locking (locker.acquire_merchant p.merchant_id) _) _ (λ y k h. cc)
              λ token token_ok. holding_merchant-Ends token _)
  ]
