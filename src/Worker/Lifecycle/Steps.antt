-- ===== src/Worker/Lifecycle/Steps.antt =====
-- The steps of a lifecycle task: the spaces that they leave alone, and the step that moves one.
use discord_support_hub.Prelude.{
  ℕ, String, Bool, true, ◌==◌, ◌||◌, Option, none, some, List, ◌≡◌, refl, ◌∙◌, ap, inl, inr,
  update_where, Bool-cases, arith,
}
use discord_support_hub.Domain.{Space, SpaceLifecycleState, JobStatus, Job}
use discord_support_hub.Store.Db.{Db, Error, Reply, ok, err, Statement, scan}
use discord_support_hub.Store.Spaces.{by_id, update_space_lifecycle, set_lifecycle}
use discord_support_hub.Store.Jobs.{get_job_by_space_id_and_kind, update_job_status}
use discord_support_hub.Store.Members.{insert_audit_entry, InsertAuditEntryParams}
use discord_support_hub.Discord.{DiscordApi}
use discord_support_hub.Effects.{
  Env, Fault, clean, lost, late, M, query, run_statement, next_fault, call, continue, fail,
}
use discord_support_hub.Worker.Lifecycle.{
  job_params, update_job, advance_job, or_archive, kind_change_lifecycle, apply_discord_change,
  apply_if_channel,
}
use discord_support_hub.Worker.View.{query_keeps, query_writes}

pub audit-keeps :
    (p : InsertAuditEntryParams) (k : ℕ) (db : Db)
    → (insert_audit_entry p k db).1.spaces ≡ db.spaces
unfolding insert_audit_entry
audit-keeps p k db = ground arith

module _ {D L : Type 0} where
  run-now :
      {A : Type 0} (st : Statement A) (f : Fault) (e : Env D L)
      → (run_statement st f e).1.now ≡ e.now
  run-now st clean e = refl
  run-now st lost e = refl
  run-now st late e = refl

  pub query-now : {A : Type 0} (st : Statement A) (e : Env D L) → (query st e).1.now ≡ e.now
  unfolding query
  query-now st e = run-now st (next_fault e.faults) _

module _ {D L : Type 0} (ss : List Space) (n : ℕ) where
  -- The spaces and the time are these.
  abbrev pub At : Env D L → Type 0
  At e = (e.db.spaces ≡ ss) × (e.now ≡ n)

  pub query-At :
      {A : Type 0} (st : Statement A) (e : Env D L)
      → ((k : ℕ) (db : Db) → (st k db).1.spaces ≡ db.spaces)
      → At e
      → At (query st e).1
  query-At st e keeps (same, here) =
      (query_keeps (λ (d : Db). d.spaces) st e keeps ∙ same, query-now st e ∙ here)

  pub call-At : {A : Type 0} (f : D → Reply A × D) (e : Env D L) → At e → At (call f e).1
  unfolding call
  call-At f e at = at

  pub update_job-At :
      (st : JobStatus) (b : Bool) (r : Reply Job) (e : Env D L) → At e → At (update_job st b r e).1
  unfolding update_job update_job_status
  update_job-At st b (ok j) e at =
      query-At (update_job_status (job_params st b j)) e (λ k db. refl) at
  update_job-At st b (err x) e at = at

  pub advance_job-At :
      (s : String) (st : JobStatus) (b : Bool) (e : Env D L) → At e → At (advance_job s st b e).1
  unfolding advance_job get_job_by_space_id_and_kind
  advance_job-At s st b e at =
      let look = get_job_by_space_id_and_kind s kind_change_lifecycle in
      update_job-At st b (query look e).0 (query look e).1 (query-At look e (λ k db. refl) at)

  pub updated-At :
      (id : String) (t : SpaceLifecycleState) (e : Env D L) (row : Space)
      → At e
      → (query (update_space_lifecycle id t) e).0 ≡ ok row
      → (((query (update_space_lifecycle id t) e).1.db.spaces
            ≡ update_where (by_id id) (set_lifecycle t n) ss)
          × ((query (update_space_lifecycle id t) e).1.now ≡ n))
  unfolding update_space_lifecycle
  updated-At id t e row (same, here) done = (
    ap (λ (d : Db). d.spaces) (query_writes (update_space_lifecycle id t) e row done)
        ∙ ap (λ k. update_where (by_id id) (set_lifecycle t k) e.db.spaces) here
        ∙ ap (update_where (by_id id) (set_lifecycle t n)) same,
    query-now (update_space_lifecycle id t) e ∙ here,
  )

  module _ (api : DiscordApi D) (everyone : String) where
    pub apply_discord_change-At :
        (c a : String) (e : Env D L) → At e → At (apply_discord_change api everyone c a e).1
    unfolding apply_discord_change
    apply_discord_change-At c a e at = elim (Bool-cases (a == "archive")) [
      | inl h ↦ simp h (call-At _ e at)
      | inr h ↦ simp h (elim (Bool-cases (a == "reopen" || a == "open")) [
        | inl h2 ↦ simp h2 (call-At _ e at)
        | inr h2 ↦
            simp h2
              (elim (Bool-cases (a == "resolve")) [ inl h3 ↦ simp h3 at | inr h3 ↦ simp h3 at ])
      ])
    ]

    pub apply_if_channel-At :
        (c : Option String) (a : String) (e : Env D L)
        → At e
        → At (apply_if_channel api everyone c a e).1
    unfolding apply_if_channel
    apply_if_channel-At none a e at = at
    apply_if_channel-At (some c) a e at = apply_discord_change-At c a e at

pub scan_found : {A : Type 0} (o : Option A) (a : A) → scan o ≡ ok a → o ≡ some a
scan_found none a h = cc
scan_found (some b) a h = ground arith

failed_rule :
    {S A B C : Type 0} (P : Reply C × S → Type 0) (x : Error) (q : Reply B × S) (f : A → M S C)
    → ((y : Error) (s : S) → P (err y, s))
    → P (continue (continue q (λ _. fail x)) f)
failed_rule P x (ok b, s) f failed = failed x s
failed_rule P x (err y, s) f failed = failed y s

-- What holds of a step that archives the job when it fails, and of what follows it.
pub or_archive_rule :
    {D L A B : Type 0} (P : Reply B × Env D L → Type 0) (s : String) (q : Reply A × Env D L)
    (f : A → M (Env D L) B)
    → ((y : Error) (e : Env D L) → P (err y, e))
    → ((a : A) → q.0 ≡ ok a → P (f a q.1))
    → P (continue (or_archive s q.0 q.1) f)
unfolding or_archive
or_archive_rule P s (ok a, e) f failed went_on = went_on a refl
or_archive_rule P s (err x, e) f failed went_on =
    failed_rule P x (advance_job s JobStatus.archived true e) f failed
