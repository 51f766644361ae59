-- ===== src/Worker/View.antt =====
-- What a handler's calls do to one channel's overwrite for one target: database and lock calls
-- nothing, each Discord call what its law says.
use discord_support_hub.Prelude.{ℕ, String, Option, some, none, ◌≡◌, ◌≢◌, refl, ◌⊎◌, arith}
use discord_support_hub.Store.Db.{Statement, Reply, ok, err, Error, infrastructure, Db}
use discord_support_hub.Discord.{
  DiscordApi, PermissionOverwrite, role, set_collaborator_overwrite, delete_collaborator_overwrite,
  add_guild_member, remove_guild_member, archive_channel, unarchive_channel, collaborator_overwrite,
  get_channel_overwrites, no_perms, view_and_send,
}
use discord_support_hub.Discord.Laws.{IsDiscord, made}
use discord_support_hub.Effects.{
  Env, Fault, clean, lost, late, query, run_statement, next_fault, call, locking,
}

abbrev pub view :
    {D L : Type 0} → DiscordApi D → String → String → Env D L → Option PermissionOverwrite
view api c t e = api.overwrite e.discord c t

module _ {D L : Type 0} (api : DiscordApi D) (c t : String) where
  view-run :
      {A : Type 0} (st : Statement A) (f : Fault) (e : Env D L)
      → view api c t (run_statement st f e).1 ≡ view api c t e
  view-run st clean e = refl
  view-run st lost e = refl
  view-run st late e = refl

  pub view-query :
      {A : Type 0} (st : Statement A) (e : Env D L) → view api c t (query st e).1 ≡ view api c t e
  unfolding query
  view-query st e = view-run st (next_fault e.faults) _

  pub view-locking :
      {A : Type 0} (f : L → Reply A × L) (e : Env D L)
      → view api c t (locking f e).1 ≡ view api c t e
  unfolding locking
  view-locking f e = refl

-- A statement that only reads leaves the tables, and answers from them if it answers.
abbrev pub Reads : {A : Type 0} → Statement A → Type 0
Reads st = (n : ℕ) (db : Db) → (st n db).1 ≡ db

module _ {D L : Type 0} where
  pub db-locking : {A : Type 0} (f : L → Reply A × L) (e : Env D L) → (locking f e).1.db ≡ e.db
  unfolding locking
  db-locking f e = refl

  pub db-call : {A : Type 0} (f : D → Reply A × D) (e : Env D L) → (call f e).1.db ≡ e.db
  unfolding call
  db-call f e = refl

  db-run :
      {A : Type 0} (st : Statement A) (f : Fault) (e : Env D L)
      → Reads st
      → (run_statement st f e).1.db ≡ e.db
  db-run st clean e r = r e.now e.db
  db-run st lost e r = refl
  db-run st late e r = r e.now e.db

  pub db-read : {A : Type 0} (st : Statement A) (e : Env D L) → Reads st → (query st e).1.db ≡ e.db
  unfolding query
  db-read st e r = db-run st (next_fault e.faults) _ r

  run_answers :
      {A : Type 0} (st : Statement A) (f : Fault) (e : Env D L) (a : A)
      → (run_statement st f e).0 ≡ ok a
      → (st e.now e.db).0 ≡ ok a
  run_answers st clean e a h = h
  run_answers st lost e a h = cc
  run_answers st late e a h = cc

  pub query_answers :
      {A : Type 0} (st : Statement A) (e : Env D L) (a : A)
      → (query st e).0 ≡ ok a
      → (st e.now e.db).0 ≡ ok a
  unfolding query
  query_answers st e a h = run_answers st (next_fault e.faults) _ a h

  run_refuses :
      {A : Type 0} (st : Statement A) (f : Fault) (e : Env D L) (x : Error)
      → x ≢ infrastructure
      → (run_statement st f e).0 ≡ err x
      → (st e.now e.db).0 ≡ err x
  run_refuses st clean e x n h = h
  run_refuses st lost e x n h = absurd (n (ground arith))
  run_refuses st late e x n h = absurd (n (ground arith))

  -- An error other than a failed call is the statement's own.
  pub query_refuses :
      {A : Type 0} (st : Statement A) (e : Env D L) (x : Error)
      → x ≢ infrastructure
      → (query st e).0 ≡ err x
      → (st e.now e.db).0 ≡ err x
  unfolding query
  query_refuses st e x n h = run_refuses st (next_fault e.faults) _ x n h

  run_writes :
      {A : Type 0} (st : Statement A) (f : Fault) (e : Env D L) (a : A)
      → (run_statement st f e).0 ≡ ok a
      → (run_statement st f e).1.db ≡ (st e.now e.db).1
  run_writes st clean e a h = refl
  run_writes st lost e a h = cc
  run_writes st late e a h = cc

  -- A statement whose answer arrives has run.
  pub query_writes :
      {A : Type 0} (st : Statement A) (e : Env D L) (a : A)
      → (query st e).0 ≡ ok a
      → (query st e).1.db ≡ (st e.now e.db).1
  unfolding query
  query_writes st e a h = run_writes st (next_fault e.faults) _ a h

  run_keeps :
      {A B : Type 0} (g : Db → B) (st : Statement A) (f : Fault) (e : Env D L)
      → ((n : ℕ) (db : Db) → g (st n db).1 ≡ g db)
      → g (run_statement st f e).1.db ≡ g e.db
  run_keeps g st clean e h = h e.now e.db
  run_keeps g st lost e h = refl
  run_keeps g st late e h = h e.now e.db

  -- What a statement leaves alone stays under every fault.
  pub query_keeps_discord :
      {A : Type 0} (st : Statement A) (e : Env D L) → (query st e).1.discord ≡ e.discord
  unfolding query
  query_keeps_discord st e = ground arith

  pub query_keeps :
      {A B : Type 0} (g : Db → B) (st : Statement A) (e : Env D L)
      → ((n : ℕ) (db : Db) → g (st n db).1 ≡ g db)
      → g (query st e).1.db ≡ g e.db
  unfolding query
  query_keeps g st e h = run_keeps g st (next_fault e.faults) _ h

module _ {D L : Type 0} (api : DiscordApi D) (laws : IsDiscord api) (c t : String) where
  pub view-set_collaborator :
      (c' u : String) (e : Env D L)
      → let after = view api c t (call (set_collaborator_overwrite api c' u) e).1 in
        (after ≡ view api c t e) ⊎ ((c ≡ c') × (t ≡ u) × (after ≡ some (collaborator_overwrite u)))
  unfolding call set_collaborator_overwrite
  view-set_collaborator c' u e = laws.set_each c' u _ _ _ e.discord c t

  pub view-delete_collaborator :
      (c' u : String) (e : Env D L)
      → let after = view api c t (call (delete_collaborator_overwrite api c' u) e).1 in
        (after ≡ view api c t e) ⊎ ((c ≡ c') × (t ≡ u) × (after ≡ none))
  unfolding call delete_collaborator_overwrite
  view-delete_collaborator c' u e = laws.delete_each c' u e.discord c t

  pub view-add_guild_member :
      (g u k : String) (e : Env D L)
      → view api c t (call (add_guild_member api g u k) e).1 ≡ view api c t e
  unfolding call add_guild_member
  view-add_guild_member g u k e = laws.member_add_keeps g u k e.discord c t

  pub view-remove_guild_member :
      (g u : String) (e : Env D L)
      → view api c t (call (remove_guild_member api g u) e).1 ≡ view api c t e
  unfolding call remove_guild_member
  view-remove_guild_member g u e = laws.member_delete_keeps g u e.discord c t

  pub view-get_channel_overwrites :
      (c' : String) (e : Env D L)
      → view api c t (call (get_channel_overwrites api c') e).1 ≡ view api c t e
  unfolding call get_channel_overwrites
  view-get_channel_overwrites c' e = laws.channel_keeps c' e.discord c t

  pub view-archive_channel :
      (c' u : String) (e : Env D L)
      → let after = view api c t (call (archive_channel api c' u) e).1 in
        (after ≡ view api c t e)
        ⊎ ((c ≡ c') × (t ≡ u) × (after ≡ some (made u role no_perms view_and_send)))
  unfolding call archive_channel
  view-archive_channel c' u e = laws.set_each c' u _ _ _ e.discord c t

  pub view-unarchive_channel :
      (c' u : String) (e : Env D L)
      → let after = view api c t (call (unarchive_channel api c' u) e).1 in
        (after ≡ view api c t e) ⊎ ((c ≡ c') × (t ≡ u) × (after ≡ none))
  unfolding call unarchive_channel
  view-unarchive_channel c' u e = laws.delete_each c' u e.discord c t
