-- ===== src/Handlers/Callback/Bound.antt =====
-- A callback that succeeds stores the access token of the user that its state names.
use discord_support_hub.Prelude.{
  ℕ, String, ◌==◌, List, [], ◌∷◌, ◌≡◌, ◌≢◌, ◌⊎◌, inl, inr, refl, sym, ap, ◌∙◌, arith, Bool-cases,
}
use discord_support_hub.Domain.{SpaceMember, OauthToken, Fields}
use discord_support_hub.Store.Db.{Reply, ok, err, conflict}
use discord_support_hub.Effects.{Env, calm, continue, return, query, locking, call}
use discord_support_hub.Store.Users.{update_discord_user_id}
use discord_support_hub.Store.Members.{list_collaborator_channels}
use discord_support_hub.Secrets.{IsAead}
use discord_support_hub.Oauth.State.{validate}
use discord_support_hub.Oauth.Tokens.{
  store_tokens, load_access_token, load_access_token-store_tokens,
}
use discord_support_hub.Oauth.Exchange.{
  TokenResponse, DiscordUserResponse, exchange_code, fetch_discord_user,
}
use discord_support_hub.Handlers.Common.{Response}
use discord_support_hub.Handlers.Callback.{
  Wiring, CallbackRequest, expiry, enqueue_members, enqueue_listed, enqueue_pending_invites,
  success, on_stored, store_and_enqueue, on_linked, on_identity, on_tokens, on_state, redeem_state,
  oauth_discord_callback,
}

-- The redirect, or the answer to a caller without a browser.
abbrev pub IsSuccess : ℕ → Type 0
IsSuccess status = (status ≡ 200) ⊎ (status ≡ 302)

failed_status :
    (s status : ℕ) (x b : Fields)
    → ◌≡◌ {A = Reply Response} (ok (s, x)) (ok (status, b))
    → s ≡ status
failed_status s status x b h = ground (arith, h)

returned : {S A B : Type 0} (q : Reply A × S) (b : B) → (continue q (λ _. return b)).1 ≡ q.1
returned (ok a, s) b = refl
returned (err x, s) b = refl

module _ {Q L : Type 0} (w : Wiring Q L) where
  members_keep :
      (r : CallbackRequest) (user : String) (ms : List SpaceMember) (e : Env Q L)
      → (enqueue_members w r user ms e).1.db ≡ e.db
  unfolding enqueue_members call
  members_keep r user [] e = refl
  members_keep r user (sm ∷ ms) e = elim (Bool-cases sm.overwrite_applied) [
    | inl applied ↦ rw applied (members_keep r user ms e)
    | inr pending ↦ rw pending (members_keep r user ms _)
  ]

  listed_keep :
      (r : CallbackRequest) (user : String) (ms : Reply (List SpaceMember)) (e : Env Q L)
      → (enqueue_listed w r user ms e).1.db ≡ e.db
  listed_keep r user (err x) e = refl
  listed_keep r user (ok ms) e = members_keep r user ms e

  list_keeps :
      (user : String) (e : Env Q L) → (query (list_collaborator_channels user) e).1.db ≡ e.db
  unfolding query list_collaborator_channels
  list_keeps user e = ground arith

  pending_keep :
      (r : CallbackRequest) (user : String) (e : Env Q L)
      → (enqueue_pending_invites w r user e).1.db ≡ e.db
  unfolding enqueue_pending_invites
  pending_keep r user e =
      let listed = query (list_collaborator_channels user) e in
      listed_keep r user listed.0 listed.1 ∙ list_keeps user e

  pending_ok :
      (r : CallbackRequest) (user : String) (du : DiscordUserResponse) (row : OauthToken)
      (e : Env Q L)
      → (on_stored w r user du (ok row) e).1.db ≡ e.db
  pending_ok r user du row e =
      ap (λ s. s.db) (returned (enqueue_pending_invites w r user e) (success w r du))
      ∙ pending_keep r user e

  -- What the last step says.
  stored_answer :
      (r : CallbackRequest) (user : String) (du : DiscordUserResponse) (saved : Reply OauthToken)
      (e : Env Q L) (status : ℕ) (b : Fields)
      → (on_stored w r user du saved e).0 ≡ ok (status, b)
      → IsSuccess status
      → (row : OauthToken) × (saved ≡ ok row) × ((on_stored w r user du saved e).1.db ≡ e.db)
  stored_answer r user du (ok row) e status b h s = (row, refl, pending_ok r user du row e)
  stored_answer r user du (err x) e status b h s = absurd (ground (arith, h, s))

  saved_tokens :
      (laws : IsAead w.aead) (r : CallbackRequest) (user : String) (tr : TokenResponse)
      (du : DiscordUserResponse) (e : Env Q L) (status : ℕ) (b : Fields)
      → (store_and_enqueue w r user tr du e).0 ≡ ok (status, b)
      → IsSuccess status
      → (load_access_token w.aead w.encrypter user (calm (store_and_enqueue w r user tr du e).1)).0
        ≡ ok tr.access_token
  unfolding store_and_enqueue
  saved_tokens laws r user tr du e status b h s =
      let saved =
        store_tokens w.aead w.encrypter r.token_id r.nonce r.nonce' user tr.access_token
          tr.refresh_token tr.scope (expiry e.now tr.expires_in) e in
      let (row, done, kept) = stored_answer r user du saved.0 saved.1 status b h s in
      load_access_token-store_tokens w.aead w.encrypter laws r.token_id r.nonce r.nonce' user
        tr.access_token tr.refresh_token tr.scope (expiry e.now tr.expires_in) e
        (on_stored w r user du saved.0 saved.1).1 row done (ap (λ d. d.oauth_tokens) kept)

  linked_answer :
      (r : CallbackRequest) (user : String) (tr : TokenResponse) (du : DiscordUserResponse)
      (linked : Reply (Unit {0})) (e : Env Q L) (status : ℕ) (b : Fields)
      → (on_linked w r user tr du linked e).0 ≡ ok (status, b)
      → IsSuccess status
      → (linked ≢ err conflict)
        × (on_linked w r user tr du linked e ≡ store_and_enqueue w r user tr du e)
  linked_answer r user tr du (err conflict) e status b h s = absurd (ground (arith, h, s))
  linked_answer r user tr du linked e status b h s = (λ c. absurd (ground (arith, c)), refl)

  identity_answer :
      (r : CallbackRequest) (user : String) (tr : TokenResponse) (found : Reply DiscordUserResponse)
      (e : Env Q L) (status : ℕ) (b : Fields)
      → (on_identity w r user tr found e).0 ≡ ok (status, b)
      → IsSuccess status
      → (du : DiscordUserResponse) × (found ≡ ok du)
        × ((query (update_discord_user_id user du.id) e).0 ≢ err conflict)
        × (on_identity w r user tr found e
            ≡ store_and_enqueue w r user tr du (query (update_discord_user_id user du.id) e).1)
  identity_answer r user tr (err x) e status b h s = absurd (ground (arith, h, s))
  identity_answer r user tr (ok du) e status b h s =
      let linked = query (update_discord_user_id user du.id) e in
      let (free, same) = linked_answer r user tr du linked.0 linked.1 status b h s in
      (du, refl, free, same)

  tokens_answer :
      (r : CallbackRequest) (user : String) (found : Reply TokenResponse) (e : Env Q L) (status : ℕ)
      (b : Fields)
      → (on_tokens w r user found e).0 ≡ ok (status, b)
      → IsSuccess status
      → (tr : TokenResponse) × (found ≡ ok tr)
        × (on_tokens w r user found e
            ≡ on_identity w r user tr
                (fetch_discord_user w.http w.decoders tr.access_token e).0
                (fetch_discord_user w.http w.decoders tr.access_token e).1)
  tokens_answer r user (err x) e status b h s = absurd (ground (arith, h, s))
  tokens_answer r user (ok tr) e status b h s = (tr, refl, refl)

  state_answer :
      (r : CallbackRequest) (user : Reply String) (e : Env Q L) (status : ℕ) (b : Fields)
      → (on_state w r user e).0 ≡ ok (status, b)
      → IsSuccess status
      → (u : String) × (user ≡ ok u)
        × (on_state w r user e
            ≡ on_tokens w r u
                (exchange_code w.http w.decoders w.exchange r.code e).0
                (exchange_code w.http w.decoders w.exchange r.code e).1)
  state_answer r (err x) e status b h s = absurd (ground (arith, h, s))
  state_answer r (ok u) e status b h s = elim (Bool-cases (r.code == "")) [
    | inl empty ↦ absurd (ground (arith, h, s, empty))
    | inr given ↦ (u, refl, rw given refl)
  ]

  -- Over an AEAD that meets its laws: a callback that is answered with success was given a state that
  -- the state manager accepted for a user, a code that Discord's token endpoint took, and a token
  -- that names a Discord identity; the update that links the identity to the user did not answer
  -- with a conflict (it may have failed otherwise, and is passed over then); and afterwards the
  -- access token that is loaded for that user, by calls that do not fail, is the one that Discord
  -- gave. Any call of the callback may fail on the way.
  pub oauth_discord_callback-IsBound :
      (laws : IsAead w.aead) (r : CallbackRequest) (e : Env Q L) (status : ℕ) (b : Fields)
      → (oauth_discord_callback w r e).0 ≡ ok (status, b)
      → IsSuccess status
      → let e1 = (redeem_state w r.state e).1 in
        let exchanged = exchange_code w.http w.decoders w.exchange r.code e1 in
        (user : String) × (tr : TokenResponse) × (du : DiscordUserResponse) × ((validate w.codec
            w.nonces w.secret e.now r.state e.locks).0
          ≡ ok user)
        × (exchanged.0 ≡ ok tr)
        × ((fetch_discord_user w.http w.decoders tr.access_token exchanged.1).0 ≡ ok du)
        × ((query
              (update_discord_user_id user du.id)
              (fetch_discord_user w.http w.decoders tr.access_token exchanged.1).1).0
            ≢ err conflict)
        × ((load_access_token w.aead w.encrypter user (calm (oauth_discord_callback w r e).1)).0
            ≡ ok tr.access_token)
  unfolding oauth_discord_callback locking
  oauth_discord_callback-IsBound laws r e status b h s =
      let checked = redeem_state w r.state e in
      let (user, accepted, same) = state_answer r checked.0 checked.1 status b h s in
      let exchanged = exchange_code w.http w.decoders w.exchange r.code checked.1 in
      let h1 = ap (λ q. q.0) (sym same) ∙ h in
      let (tr, took, same') = tokens_answer r user exchanged.0 exchanged.1 status b h1 s in
      let h2 = ap (λ q. q.0) (sym same') ∙ h1 in
      let found = fetch_discord_user w.http w.decoders tr.access_token exchanged.1 in
      let (du, named, free, same'') = identity_answer r user tr found.0 found.1 status b h2 s in
      let linked = (query (update_discord_user_id user du.id) found.1).1 in
      let h3 = ap (λ q. q.0) (sym same'') ∙ h2 in
      let loaded = saved_tokens laws r user tr du linked status b h3 s in
      let whole : oauth_discord_callback w r e ≡ store_and_enqueue w r user tr du linked =
        same ∙ same' ∙ same'' in
      (
        user,
        tr,
        du,
        accepted,
        took,
        named,
        free,
        ap (λ q. (load_access_token w.aead w.encrypter user (calm q.1)).0) whole ∙ loaded,
      )
