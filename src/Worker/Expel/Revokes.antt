-- ===== src/Worker/Expel/Revokes.antt =====
-- What an expulsion leaves of the member row: revoked.
use discord_support_hub.Prelude.{
  ℕ, String, true, ◌==◌, ◌||◌, Option, none, some, List, ◌≡◌, refl, ◌∙◌, ap, inl, inr, arith, find,
  update_where, find-update_where, Option-cases, Bool-cases, is_some, eq_refl,
}
use discord_support_hub.Domain.{Space, User, SpaceMember}
use discord_support_hub.Store.Db.{Db, Reply, ok, err, not_found, Reply-cases}
use discord_support_hub.Store.Spaces.{get_space_by_id, get_user_by_id}
use discord_support_hub.Store.Members.{
  by_space_and_user, member_by_id, mark_revoked, get_space_member_by_space_and_user,
  revoke_space_member, insert_audit_entry, InsertAuditEntryParams,
}
use discord_support_hub.Discord.{DiscordApi}
use discord_support_hub.Effects.{Env, Locker, query, locking, continue, ignore}
use discord_support_hub.Worker.Locks.{holding}
use discord_support_hub.Worker.View.{
  query_refuses, db-call, db-read, query_answers, query_writes, query_keeps,
}
use discord_support_hub.Worker.Expel.{
  ExpelCollaboratorPayload, audit_expel, drop_overwrite, drop_guild_member, leave_guild,
  soft_delete, expel_row, expel_member, expel_user, expel_space, expel_locked, handle,
}

-- The row of the space and the user, if there is one, is revoked.
abbrev pub IsRevoked : String → String → List SpaceMember → Type 0
IsRevoked s u rows =
    (m : SpaceMember) → find (by_space_and_user s u) rows ≡ some m → is_some m.revoked_at ≡ true

insert_audit_entry-members :
    (a : InsertAuditEntryParams) (n : ℕ) (db : Db)
    → (insert_audit_entry a n db).1.members ≡ db.members
unfolding insert_audit_entry
insert_audit_entry-members a n db = ground arith

revoke-IsRevoked :
    (s u : String) (n : ℕ) (rows : List SpaceMember) (sm : SpaceMember)
    → find (by_space_and_user s u) rows ≡ some sm
    → IsRevoked s u (update_where (member_by_id sm.id) (mark_revoked n) rows)
revoke-IsRevoked s u n rows sm found m h = ground (
  arith,
  find-update_where (by_space_and_user s u) (member_by_id sm.id) (mark_revoked n) rows (λ x. refl),
  eq_refl sm.id,
)

revoked_rows :
    {D L : Type 0} (sm : SpaceMember) (e : Env D L) (row : SpaceMember)
    → (query (revoke_space_member sm.id) e).0 ≡ ok row
    → (query (revoke_space_member sm.id) e).1.db.members
      ≡ update_where (member_by_id sm.id) (mark_revoked e.now) e.db.members
unfolding revoke_space_member
revoked_rows sm e row h = ap (λ db. db.members) (query_writes (revoke_space_member sm.id) e row h)

module _ {D L : Type 0} (api : DiscordApi D) (guild_id : String)
    (p : ExpelCollaboratorPayload) where
  Final : (Env D L → Reply (Unit {0}) × Env D L) → Env D L → Type 0
  Final m e = (m e).0 ≡ ok tt → IsRevoked p.space_id p.user_id (m e).1.db.members

  member_row :
      (e : Env D L) (m : SpaceMember)
      → (query (get_space_member_by_space_and_user p.space_id p.user_id) e).0 ≡ ok m
      → find
          (by_space_and_user p.space_id p.user_id)
          (query (get_space_member_by_space_and_user p.space_id p.user_id) e).1.db.members
        ≡ some m
  unfolding get_space_member_by_space_and_user
  member_row e m h =
      let st = get_space_member_by_space_and_user p.space_id p.user_id in
      ground (arith, query_answers st e m h, query_writes st e m h)

  member_gone :
      (e : Env D L)
      → (query (get_space_member_by_space_and_user p.space_id p.user_id) e).0 ≡ err not_found
      → find
          (by_space_and_user p.space_id p.user_id)
          (query (get_space_member_by_space_and_user p.space_id p.user_id) e).1.db.members
        ≡ none
  unfolding get_space_member_by_space_and_user
  member_gone e h =
      let st = get_space_member_by_space_and_user p.space_id p.user_id in
      ground (arith, query_refuses st e not_found (λ q. cc) h, db-read st e (λ n b. refl))

  drop_overwrite-db :
      (c u : Option String) (e : Env D L) → (drop_overwrite api guild_id c u e).1.db ≡ e.db
  unfolding drop_overwrite
  drop_overwrite-db none u e = refl
  drop_overwrite-db (some c) none e = refl
  drop_overwrite-db (some c) (some u) e = db-call _ e

  drop_guild_member-db :
      (u : Option String) (e : Env D L) → (drop_guild_member api guild_id u e).1.db ≡ e.db
  unfolding drop_guild_member
  drop_guild_member-db none e = refl
  drop_guild_member-db (some u) e = db-call _ e

  leave_guild-db :
      (s : String) (u : Option String) (e : Env D L) → (leave_guild api guild_id s u e).1.db ≡ e.db
  unfolding leave_guild
  leave_guild-db s u e = ground (arith, drop_guild_member-db u e)

  soft_delete-IsRevoked :
      (sm : SpaceMember) (e : Env D L)
      → find (by_space_and_user p.space_id p.user_id) e.db.members ≡ some sm
      → Final (soft_delete api guild_id sm) e
  unfolding soft_delete Final
  soft_delete-IsRevoked sm e found h = elim (Option-cases sm.revoked_at) [
    | inl open_row ↦ elim (Reply-cases (query (revoke_space_member sm.id) e).0) [
      | inl (row, answered) ↦ λ m fm.
          revoke-IsRevoked p.space_id p.user_id e.now e.db.members sm found m
            (ground (arith, revoked_rows sm e row answered))
      | inr (x, failed) ↦ ground arith
    ]
    | inr (at, closed) ↦ λ m fm. ground arith
  ]

  drop_overwrite_ok :
      (c u : Option String) (e : Env D L) → (drop_overwrite api guild_id c u e).0 ≡ ok tt
  unfolding drop_overwrite
  drop_overwrite_ok none u e = refl
  drop_overwrite_ok (some c) none e = refl
  drop_overwrite_ok (some c) (some u) e = refl

  leave_guild_ok :
      (s : String) (u : Option String) (e : Env D L) → (leave_guild api guild_id s u e).0 ≡ ok tt
  unfolding leave_guild drop_guild_member
  leave_guild_ok s none e = ground arith
  leave_guild_ok s (some u) e = ground arith

  -- Steps 1 and 2 do not fail, and do not touch the tables.
  row_start : (sp : Space) (user : User) (e : Env D L) → Env D L
  row_start sp user e =
      (leave_guild api guild_id p.scope user.discord_user_id
        (drop_overwrite api guild_id sp.discord_channel_id user.discord_user_id e).1).1

  row_start-db : (sp : Space) (user : User) (e : Env D L) → (row_start sp user e).db ≡ e.db
  unfolding row_start
  row_start-db sp user e =
      leave_guild-db p.scope user.discord_user_id _
      ∙ drop_overwrite-db sp.discord_channel_id user.discord_user_id e

  row_steps :
      (sp : Space) (user : User) (sm : SpaceMember) (e : Env D L)
      → expel_row api guild_id p sp user sm e
        ≡ continue
            (soft_delete api guild_id sm (row_start sp user e))
            (λ _. ignore (query (insert_audit_entry (audit_expel p))))
  unfolding expel_row row_start
  row_steps sp user sm e = ground (
    arith,
    drop_overwrite_ok sp.discord_channel_id user.discord_user_id e,
    leave_guild_ok p.scope user.discord_user_id
        (drop_overwrite api guild_id sp.discord_channel_id user.discord_user_id e).1,
  )

  audited :
      (r : Reply (Unit {0})) (e : Env D L)
      → (r ≡ ok tt → IsRevoked p.space_id p.user_id e.db.members)
      → Final (λ s. continue (r, s) (λ _. ignore (query (insert_audit_entry (audit_expel p))))) e
  unfolding Final
  audited (err x) e f h m fm = cc
  audited (ok u) e f h m fm = f refl m (
      rw
        (query_keeps (λ db. db.members) (insert_audit_entry (audit_expel p)) e
          (insert_audit_entry-members (audit_expel p)))
        at fm)

  expel_row-IsRevoked :
      (sp : Space) (user : User) (sm : SpaceMember) (e : Env D L)
      → find (by_space_and_user p.space_id p.user_id) e.db.members ≡ some sm
      → Final (expel_row api guild_id p sp user sm) e
  unfolding Final
  expel_row-IsRevoked sp user sm e found =
      let e1 = row_start sp user e in
      rw (row_steps sp user sm e) (
        audited (soft_delete api guild_id sm e1).0 (soft_delete api guild_id sm e1).1
          (soft_delete-IsRevoked sm e1 (rw (row_start-db sp user e) found)))

  expel_member-IsRevoked :
      (sp : Space) (user : User) (r : Reply SpaceMember) (e : Env D L)
      → ((sm : SpaceMember)
          → r ≡ ok sm
          → find (by_space_and_user p.space_id p.user_id) e.db.members ≡ some sm)
      → (r ≡ err not_found → find (by_space_and_user p.space_id p.user_id) e.db.members ≡ none)
      → Final (expel_member api guild_id p sp user r) e
  unfolding Final expel_member
  expel_member-IsRevoked sp user (ok sm) e found gone =
      expel_row-IsRevoked sp user sm e (found sm refl)
  expel_member-IsRevoked sp user (err not_found) e found gone = λ h m fm. ground (arith, gone refl)
  expel_member-IsRevoked sp user (err x) e found gone = λ h m fm. cc

  expel_user-IsRevoked :
      (sp : Space) (r : Reply User) (e : Env D L) → Final (expel_user api guild_id p sp r) e
  unfolding Final expel_user
  expel_user-IsRevoked sp (err x) e = λ h m fm. cc
  expel_user-IsRevoked sp (ok user) e =
      let st = get_space_member_by_space_and_user p.space_id p.user_id in
      expel_member-IsRevoked sp user (query st e).0 (query st e).1 (member_row e) (member_gone e)

  expel_space-IsRevoked : (r : Reply Space) (e : Env D L) → Final (expel_space api guild_id p r) e
  unfolding Final expel_space
  expel_space-IsRevoked (err x) e = λ h m fm. cc
  expel_space-IsRevoked (ok sp) e =
      let st = get_user_by_id p.user_id in expel_user-IsRevoked sp (query st e).0 (query st e).1

  expel_locked-IsRevoked : (e : Env D L) → Final (expel_locked api guild_id p) e
  unfolding Final expel_locked
  expel_locked-IsRevoked e =
      let st = get_space_by_id p.space_id in expel_space-IsRevoked (query st e).0 (query st e).1

  module _ (locker : Locker L) where
    holding-IsRevoked :
        (lock : Option String) (e : Env D L)
        → Final (holding locker p.space_id lock (expel_locked api guild_id p)) e
    unfolding Final locking
    holding-IsRevoked none e h = cc
    holding-IsRevoked (some token) e h = expel_locked-IsRevoked e h

    acquired-IsRevoked :
        (r : Reply (Option String)) (e : Env D L)
        → Final
            (λ s. continue (r, s) (λ k. holding locker p.space_id k (expel_locked api guild_id p)))
            e
    unfolding Final
    acquired-IsRevoked (ok k) e = holding-IsRevoked k e
    acquired-IsRevoked (err x) e = λ h m fm. cc

    -- A task that ends without an error leaves no open row for the space and the user: there is
    -- none, or it is revoked. This holds under every database fault and whatever Discord answers.
    pub handle-IsRevoked :
        (e : Env D L)
        → (handle api guild_id locker (some p) e).0 ≡ ok tt
        → IsRevoked p.space_id p.user_id (handle api guild_id locker (some p) e).1.db.members
    unfolding handle locking Final
    handle-IsRevoked e = elim (Bool-cases (p.space_id == "" || p.user_id == "")) [
      | inl bad ↦ simp bad (λ h. cc)
      | inr fine ↦ simp fine (
          acquired-IsRevoked (locker.acquire_space p.space_id e.locks).0
            (record e { locks = (locker.acquire_space p.space_id e.locks).1 }))
    ]
