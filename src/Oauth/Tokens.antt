-- ===== src/Oauth/Tokens.antt =====
-- internal/oauth/oauth.go: the tokens of a user, encrypted in the table.
use discord_support_hub.Prelude.{
  ℕ, String, ◌==◌, Option, none, some, ◌≡◌, refl, arith, if◌then◌else◌, find, find-update_where,
  eq_refl, ap, sym, ◌∙◌, Option-cases, inl, inr, find-snoc, find_sound,
}
use discord_support_hub.Domain.{OauthToken}
use discord_support_hub.Store.Db.{Db, Reply, ok, err, Reply-cases}
use discord_support_hub.Store.Tokens.{
  UpsertOauthTokenParams, upsert_oauth_token, get_oauth_token_by_user_id, token_of, renew,
  new_token,
}
use discord_support_hub.Secrets.{
  Aead, IsAead, Encrypter, EncryptedValue, encrypt, decrypt, decrypt-encrypt,
}
use discord_support_hub.Effects.{Env, M, ◌>>=◌, calm, query}

abbrev pub cipher_of : Option EncryptedValue → Option String
cipher_of none = none
cipher_of (some v) = some v.ciphertext

abbrev pub nonce_of : Option EncryptedValue → Option String
nonce_of none = none
nonce_of (some v) = some v.nonce

abbrev pub token_params :
    String → EncryptedValue → Option EncryptedValue → String → Option ℕ → UpsertOauthTokenParams
token_params user access refresh scopes expires_at = record {
  user_id = user;
  access_token_cipher = access.ciphertext;
  access_token_nonce = access.nonce;
  refresh_token_cipher = cipher_of refresh;
  refresh_token_nonce = nonce_of refresh;
  encryption_key_version = access.key_version;
  scopes = scopes;
  expires_at = expires_at;
}

abbrev pub encrypted_row : OauthToken → EncryptedValue
encrypted_row t = record {
  ciphertext = t.access_token_cipher;
  nonce = t.access_token_nonce;
  key_version = t.encryption_key_version;
}

module _ (aead : Aead) (encrypter : Encrypter) where
  -- An empty refresh token is not encrypted. The nonces are what `rand` gives at the two calls.
  abbrev pub encrypt_refresh : Option String → String → Reply (Option EncryptedValue)
  encrypt_refresh nonce refresh =
      if refresh == ""
      then ok none
      else elim (encrypt aead encrypter nonce refresh) [ ok v ↦ ok (some v) | err x ↦ err x ]

module _ {D L : Type 0} (aead : Aead) (encrypter : Encrypter) where
  abbrev pub lift : {A : Type 0} → Reply A → M (Env D L) A
  lift r e = (r, e)

  -- `id` is what the database draws for a new row.
  unfoldable pub store_tokens :
      String
      → Option String
      → Option String
      → String
      → String
      → String
      → String
      → Option ℕ
      → M (Env D L) OauthToken
  store_tokens id nonce nonce' user access refresh scopes expires_at = do
    access_enc ← lift (encrypt aead encrypter nonce access)
    refresh_enc ← lift (encrypt_refresh aead encrypter nonce' refresh)
    query (upsert_oauth_token id (token_params user access_enc refresh_enc scopes expires_at))

  unfoldable pub load_access_token : String → M (Env D L) String
  load_access_token user = do
    token ← query (get_oauth_token_by_user_id user)
    lift (decrypt aead encrypter (encrypted_row token))

decrypt_same :
    (aead : Aead) (encrypter : Encrypter) (v w : EncryptedValue)
    → v.ciphertext ≡ w.ciphertext
    → v.nonce ≡ w.nonce
    → decrypt aead encrypter v ≡ decrypt aead encrypter w
unfolding decrypt
decrypt_same aead encrypter v w same same' = rw same (rw same' refl)

upserted :
    (id : String) (p : UpsertOauthTokenParams) (now : ℕ) (db : Db) (row : OauthToken)
    → (upsert_oauth_token id p now db).0 ≡ ok row
    → (find (token_of p.user_id) (upsert_oauth_token id p now db).1.oauth_tokens ≡ some row)
      × (row.access_token_cipher ≡ p.access_token_cipher)
      × (row.access_token_nonce ≡ p.access_token_nonce)
unfolding upsert_oauth_token
upserted id p now db row h =
    let added = find-snoc (token_of p.user_id) db.oauth_tokens (new_token id p now) in
    let renewed =
      find-update_where (token_of p.user_id) (token_of p.user_id) (renew p now) db.oauth_tokens
        (λ x. refl) in
    elim (Option-cases (find (token_of p.user_id) db.oauth_tokens)) [
      | inl nothing ↦ ground (arith, h, nothing, added nothing (eq_refl p.user_id))
      | inr (t, there) ↦
          let mine = find_sound (token_of p.user_id) db.oauth_tokens t there in
          ground (arith, h, there, mine, renewed)
    ]

module _ {D L : Type 0} (aead : Aead) (encrypter : Encrypter) where
  stored :
      (id : String) (p : UpsertOauthTokenParams) (e : Env D L) (row : OauthToken)
      → (query (upsert_oauth_token id p) e).0 ≡ ok row
      → (find (token_of p.user_id) (query (upsert_oauth_token id p) e).1.db.oauth_tokens ≡ some row)
        × (row.access_token_cipher ≡ p.access_token_cipher)
        × (row.access_token_nonce ≡ p.access_token_nonce)
  unfolding query
  stored id p e row h = ground (arith, h, upserted id p e.now e.db row)

  runs_upsert :
      (id : String) (nonce nonce' : Option String) (user access refresh scopes : String)
      (expires_at : Option ℕ) (e : Env D L) (row : OauthToken)
      → (store_tokens aead encrypter id nonce nonce' user access refresh scopes expires_at e).0
        ≡ ok row
      → (v : EncryptedValue) × (w : Option EncryptedValue) × (encrypt aead encrypter nonce access
          ≡ ok v)
        × (store_tokens aead encrypter id nonce nonce' user access refresh scopes expires_at e
            ≡ query (upsert_oauth_token id (token_params user v w scopes expires_at)) e)
  unfolding store_tokens
  runs_upsert id nonce nonce' user access refresh scopes expires_at e row h =
      elim (Reply-cases (encrypt aead encrypter nonce access)) [
        | inr (x, bad) ↦ absurd (ground (arith, bad, h))
        | inl (v, sealed) ↦ elim (Reply-cases (encrypt_refresh aead encrypter nonce' refresh)) [
          | inr (x, bad) ↦ absurd (ground (arith, sealed, bad, h))
          | inl (w, sealed') ↦ (v, w, sealed, simp (sealed, sealed') refl)
        ]
      ]

  loads :
      (user : String) (later : Env D L) (row : OauthToken)
      → find (token_of user) later.db.oauth_tokens ≡ some row
      → (load_access_token aead encrypter user (calm later)).0
        ≡ decrypt aead encrypter (encrypted_row row)
  unfolding load_access_token query get_oauth_token_by_user_id
  loads user later row there = simp there refl

  -- Over an AEAD that meets its laws: once a user's tokens were stored, the access token that is
  -- loaded is the one that was stored, whether the user had tokens before or not and whatever
  -- refresh token came with it, as long as the table of tokens stays and no database call fails.
  pub load_access_token-store_tokens :
      (laws : IsAead aead) (id : String) (nonce nonce' : Option String)
      (user access refresh scopes : String) (expires_at : Option ℕ) (e later : Env D L)
      (row : OauthToken)
      → (store_tokens aead encrypter id nonce nonce' user access refresh scopes expires_at e).0
        ≡ ok row
      → later.db.oauth_tokens
        ≡ (store_tokens aead encrypter id nonce nonce' user access refresh scopes expires_at
            e).1.db.oauth_tokens
      → (load_access_token aead encrypter user (calm later)).0 ≡ ok access
  load_access_token-store_tokens laws id nonce nonce' user access refresh scopes expires_at e later
        row h same =
      let (v, w, sealed, run) =
        runs_upsert id nonce nonce' user access refresh scopes expires_at e row h in
      let p = token_params user v w scopes expires_at in
      let (there, cipher, mark) = stored id p e row (ap (λ r. r.0) (sym run) ∙ h) in
      let table = same ∙ ap (λ r. r.1.db.oauth_tokens) run in
      let found = ap (find (token_of user)) table ∙ there in
      loads user later row found
      ∙ decrypt_same aead encrypter (encrypted_row row) v cipher mark
      ∙ decrypt-encrypt aead laws encrypter nonce access v sealed
