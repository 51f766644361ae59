-- ===== src/Worker/Invite/Grants.antt =====
-- What the invitation handler grants, and what it needs for that.
use discord_support_hub.Prelude.{
  String, true, false, ◌==◌, ◌||◌, Option, none, some, ◌≡◌, refl, ◌∙◌, ◌⊎◌, inl, inr, arith, find,
  Option-cases, Bool-cases,
}
use discord_support_hub.Domain.{Space, User, SpaceMember, is_applied}
use discord_support_hub.Store.Db.{Db, Reply, ok, err}
use discord_support_hub.Store.Spaces.{by_id, user_by_id, get_space_by_id, get_user_by_id}
use discord_support_hub.Store.Members.{
  by_space_and_user, get_space_member_by_space_and_user, set_space_member_overwrite_applied,
  insert_audit_entry,
}
use discord_support_hub.Discord.{
  DiscordApi, PermissionOverwrite, set_collaborator_overwrite, collaborator_overwrite,
}
use discord_support_hub.Discord.Laws.{IsDiscord}
use discord_support_hub.Effects.{Env, Locker, query, call, locking, continue}
use discord_support_hub.Worker.Locks.{holding}
use discord_support_hub.Worker.View.{
  view, view-query, view-locking, db-read, query_answers, view-set_collaborator,
  view-add_guild_member,
}
use discord_support_hub.Worker.Invite.{
  InviteCollaboratorPayload, InviteConfig, join_with, join_guild, grant, grant_if_connected,
  project_member, invite_to, invite_user, invite_locked, invite_space, handle, ready_channel,
  audit_invite,
}

-- The rows that back a grant of channel `c` to the Discord user `d`.
pub record IsBacked (db : Db) (p : InviteCollaboratorPayload) (c d : String) : Type 0 where
  pub space : Space
  pub space_found : find (by_id p.space_id) db.spaces ≡ some space
  pub space_applied : is_applied space.acl_state ≡ true
  pub space_channel : space.discord_channel_id ≡ some c
  pub user : User
  pub user_found : find (user_by_id p.user_id) db.users ≡ some user
  pub user_connected : user.discord_user_id ≡ some d
  pub row : SpaceMember
  pub row_found : find (by_space_and_user p.space_id p.user_id) db.members ≡ some row
  pub row_open : row.overwrite_applied ≡ false

-- What the three lookups answer, and that they leave the tables.
module _ {D L : Type 0} (p : InviteCollaboratorPayload) (db : Db) (e : Env D L) where
  space_answer :
      (s : Space)
      → e.db ≡ db
      → (query (get_space_by_id p.space_id) e).0 ≡ ok s
      → find (by_id p.space_id) db.spaces ≡ some s
  unfolding get_space_by_id
  space_answer s eb h = ground (arith, query_answers (get_space_by_id p.space_id) e s h)

  space_tables : e.db ≡ db → (query (get_space_by_id p.space_id) e).1.db ≡ db
  unfolding get_space_by_id
  space_tables eb = db-read (get_space_by_id p.space_id) e (λ n b. refl) ∙ eb

  user_answer :
      (u : User)
      → e.db ≡ db
      → (query (get_user_by_id p.user_id) e).0 ≡ ok u
      → find (user_by_id p.user_id) db.users ≡ some u
  unfolding get_user_by_id
  user_answer u eb h = ground (arith, query_answers (get_user_by_id p.user_id) e u h)

  user_tables : e.db ≡ db → (query (get_user_by_id p.user_id) e).1.db ≡ db
  unfolding get_user_by_id
  user_tables eb = db-read (get_user_by_id p.user_id) e (λ n b. refl) ∙ eb

  member_answer :
      (m : SpaceMember)
      → e.db ≡ db
      → (query (get_space_member_by_space_and_user p.space_id p.user_id) e).0 ≡ ok m
      → find (by_space_and_user p.space_id p.user_id) db.members ≡ some m
  unfolding get_space_member_by_space_and_user
  member_answer m eb h =
      ground (arith, query_answers (get_space_member_by_space_and_user p.space_id p.user_id) e m h)

module _ {D L : Type 0} (api : DiscordApi D) (laws : IsDiscord api) (locker : Locker L)
    (cfg : InviteConfig) (p : InviteCollaboratorPayload) (c t : String) where
  join_with-view :
      (d : String) (r : Reply String) (e : Env D L)
      → view api c t (join_with api locker cfg d r e).1 ≡ view api c t e
  unfolding join_with
  join_with-view d (ok token) e =
      ground (arith, view-add_guild_member api laws c t cfg.guild_id d token e)
  join_with-view d (err x) e = refl

  join_guild-view :
      (d : String) (tokens : Option (String → Reply String)) (e : Env D L)
      → view api c t (join_guild api locker cfg p.user_id d tokens e).1 ≡ view api c t e
  unfolding join_guild
  join_guild-view d none e = refl
  join_guild-view d (some tokens) e = join_with-view d (tokens p.user_id) e

  -- Only the grant's own overwrite may change.
  abbrev Changes : String → String → Env D L → Env D L → Type 0
  Changes c' d e e' =
      (view api c t e' ≡ view api c t e)
      ⊎ ((c ≡ c') × (t ≡ d) × (view api c t e' ≡ some (collaborator_overwrite d)))

  grant-Changes :
      (c' d : String) (sm : SpaceMember) (e : Env D L)
      → Changes c' d e (grant api locker cfg p c' d sm e).1
  unfolding grant
  grant-Changes c' d sm e =
      let e1 = (join_guild api locker cfg p.user_id d cfg.tokens e).1 in
      let e2 = (call (set_collaborator_overwrite api c' d) e1).1 in
      let e3 = (query (set_space_member_overwrite_applied sm.id) e2).1 in
      ground (
        arith,
        join_guild-view d cfg.tokens e,
        view-set_collaborator api laws c t c' d e1,
        view-query api c t (set_space_member_overwrite_applied sm.id) e2,
        view-query api c t (insert_audit_entry (audit_invite api locker cfg p c' d)) e3,
      )

  abbrev Outcome : Db → Option PermissionOverwrite → Option PermissionOverwrite → Type 0
  Outcome db v v' = (v' ≡ v) ⊎ (IsBacked db p c t × (v' ≡ some (collaborator_overwrite t)))

  abbrev SpaceFits : Db → Space → Type 0
  SpaceFits db sp = (find (by_id p.space_id) db.spaces ≡ some sp) × (is_applied sp.acl_state ≡ true)

  grant_if_connected-Outcome :
      (db : Db) (c' : String) (sp : Space) (user : User) (sm : SpaceMember) (e : Env D L)
      → SpaceFits db sp
      → sp.discord_channel_id ≡ some c'
      → find (user_by_id p.user_id) db.users ≡ some user
      → find (by_space_and_user p.space_id p.user_id) db.members ≡ some sm
      → sm.overwrite_applied ≡ false
      → Outcome db
          (view api c t e)
          (view api c t (grant_if_connected api locker cfg p c' user sm e).1)
  unfolding grant_if_connected
  grant_if_connected-Outcome db c' sp user sm e fits chan uf mf free =
      elim (Option-cases user.discord_user_id) [
        | inl none_yet ↦ inl (ground arith)
        | inr (d, known) ↦ elim (Bool-cases (d == "")) [
          | inl empty ↦ inl (ground arith)
          | inr full ↦ elim (grant-Changes c' d sm e) [
            | inl same ↦ inl (ground arith)
            | inr (ec, et, v) ↦ inr (
              record {
                space = sp;
                space_found = fits.0;
                space_applied = fits.1;
                space_channel = ground arith;
                user = user;
                user_found = uf;
                user_connected = ground arith;
                row = sm;
                row_found = mf;
                row_open = free;
              },
              ground arith,
            )
          ]
        ]
      ]

  project-Outcome :
      (db : Db) (c' : String) (sp : Space) (user : User) (r : Reply SpaceMember) (e : Env D L)
      → SpaceFits db sp
      → sp.discord_channel_id ≡ some c'
      → find (user_by_id p.user_id) db.users ≡ some user
      → ((sm : SpaceMember)
          → r ≡ ok sm
          → find (by_space_and_user p.space_id p.user_id) db.members ≡ some sm)
      → Outcome db (view api c t e) (view api c t (project_member api locker cfg p c' user r e).1)
  unfolding project_member
  project-Outcome db c' sp user (ok sm) e fits chan uf mf = elim (Bool-cases sm.overwrite_applied) [
    | inl done ↦ inl (ground arith)
    | inr free ↦
        simp free (grant_if_connected-Outcome db c' sp user sm e fits chan uf (mf sm refl) free)
  ]
  project-Outcome db c' sp user (err x) e fits chan uf mf = inl (ground arith)

  carry :
      (db : Db) {v v1 v' : Option PermissionOverwrite} → v1 ≡ v → Outcome db v1 v' → Outcome db v v'
  carry db h (inl same) = inl (same ∙ h)
  carry db h (inr made) = inr made

  invite_user-Outcome :
      (db : Db) (c' : String) (sp : Space) (r : Reply User) (e : Env D L)
      → e.db ≡ db
      → SpaceFits db sp
      → sp.discord_channel_id ≡ some c'
      → ((u : User) → r ≡ ok u → find (user_by_id p.user_id) db.users ≡ some u)
      → Outcome db (view api c t e) (view api c t (invite_user api locker cfg p c' r e).1)
  unfolding invite_user
  invite_user-Outcome db c' sp (err x) e eb fits chan uf = inl refl
  invite_user-Outcome db c' sp (ok user) e eb fits chan uf =
      let st = get_space_member_by_space_and_user p.space_id p.user_id in
      carry db (view-query api c t st e) (
        project-Outcome db c' sp user (query st e).0 (query st e).1 fits chan (uf user refl)
          (λ sm h. member_answer p db e sm eb h))

  invite_to-Outcome :
      (db : Db) (e : Env D L) (sp : Space) (o : Option String)
      → e.db ≡ db
      → ((c' : String) → o ≡ some c' → SpaceFits db sp × (sp.discord_channel_id ≡ some c'))
      → Outcome db (view api c t e) (view api c t (invite_to api locker cfg p o e).1)
  unfolding invite_to
  invite_to-Outcome db e sp none eb fits = inl refl
  invite_to-Outcome db e sp (some c') eb fits =
      let st = get_user_by_id p.user_id in
      carry db (view-query api c t st e) (
        invite_user-Outcome db c' sp (query st e).0 (query st e).1 (user_tables p db e eb)
          (fits c' refl).0 (fits c' refl).1 (λ u h. user_answer p db e u eb h))

  ready :
      (sp : Space) (c' : String)
      → ready_channel sp ≡ some c'
      → (is_applied sp.acl_state ≡ true) × (sp.discord_channel_id ≡ some c')
  ready sp c' h = ground arith

  invite_space-Outcome :
      (db : Db) (r : Reply Space) (e : Env D L)
      → e.db ≡ db
      → ((s : Space) → r ≡ ok s → find (by_id p.space_id) db.spaces ≡ some s)
      → Outcome db (view api c t e) (view api c t (invite_space api locker cfg p r e).1)
  unfolding invite_space
  invite_space-Outcome db (err x) e eb sf = inl refl
  invite_space-Outcome db (ok sp) e eb sf =
      invite_to-Outcome db e sp (ready_channel sp) eb
        (λ c' h. let (on, here) = ready sp c' h in ((sf sp refl, on), here))

  invite_locked-Outcome :
      (db : Db) (e : Env D L)
      → e.db ≡ db
      → Outcome db (view api c t e) (view api c t (invite_locked api locker cfg p e).1)
  unfolding invite_locked
  invite_locked-Outcome db e eb =
      let st = get_space_by_id p.space_id in
      carry db (view-query api c t st e) (
        invite_space-Outcome db (query st e).0 (query st e).1 (space_tables p db e eb)
          (λ s h. space_answer p db e s eb h))

  holding-Outcome :
      (lock : Option String) (e : Env D L)
      → Outcome e.db
          (view api c t e)
          (view api c t (holding locker p.space_id lock (invite_locked api locker cfg p) e).1)
  holding-Outcome none e = inl refl
  holding-Outcome (some token) e =
      rw (view-locking api c t (locker.release_space p.space_id token) _)
        (invite_locked-Outcome e.db e refl)

  acquired-Outcome :
      (r : Reply (Option String)) (e : Env D L)
      → Outcome e.db (view api c t e) (
          view api c t
            (continue (r, e) (λ k. holding locker p.space_id k (invite_locked api locker cfg p))).1)
  acquired-Outcome (ok k) e = holding-Outcome k e
  acquired-Outcome (err x) e = inl refl

  -- Over a Discord that meets its laws: whatever the handler does, on every path and under
  -- every fault, an overwrite that it changes is the collaborator's own on the channel of the
  -- payload's space, and the tables had: the space with its ACL applied, the user with that
  -- Discord id, and a member row not yet projected.
  pub handle-IsBacked :
      (e : Env D L)
      → let after = view api c t (handle api locker cfg (some p) e).1 in
        (after ≡ view api c t e) ⊎ (IsBacked e.db p c t × (after ≡ some (collaborator_overwrite t)))
  unfolding handle locking
  handle-IsBacked e = elim (Bool-cases (p.space_id == "" || p.user_id == "")) [
    | inl bad ↦ inl (ground arith)
    | inr fine ↦ simp fine (
        acquired-Outcome (locking (locker.acquire_space p.space_id) e).0
          (locking (locker.acquire_space p.space_id) e).1)
  ]
