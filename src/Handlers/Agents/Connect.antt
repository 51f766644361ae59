-- ===== src/Handlers/Agents/Connect.antt =====
-- The URL that a new agent gets is refused by the callback.
use discord_support_hub.Prelude.{
  ℕ, String, Bool, false, Option, none, some, [], ◌∷◌, ◌≡◌, refl, arith, ◌∙◌, ap, sym, lookup,
  subst, has_char, split_first, inl, inr, Bool-cases,
}
use discord_support_hub.Domain.{User, Fields}
use discord_support_hub.Store.Db.{Reply, ok, err, malformed}
use discord_support_hub.Effects.{Env, query, call}
use discord_support_hub.Store.Users.{CreateUserParams, create_user}
use discord_support_hub.Worker.Relay.{TaskQueue}
use discord_support_hub.Oauth.Nonces.{NonceStore}
use discord_support_hub.Oauth.State.{Codec, validate}
use discord_support_hub.Api.Auth.{require_control_plane}
use discord_support_hub.Handlers.Common.{Response}
use discord_support_hub.Handlers.Invite.{safe_name}
use discord_support_hub.Handlers.Agents.{
  AgentRequest, AgentBody, agent_params, add_agent, on_agent_body, on_agent_created,
}

split_none : (sep : ℕ) (s : String) → has_char sep s ≡ false → split_first sep s ≡ none
unfolding split_first has_char
split_none sep String.[] h = refl
split_none sep (String.◌∷◌ c s) h = ground (arith, h, split_none sep s)

created_id :
    {Q L : Type 0} (id : String) (p : CreateUserParams) (e : Env Q L) (u : User)
    → (query (create_user id p) e).0 ≡ ok u
    → u.id ≡ id
unfolding query create_user
created_id id p e u h = ground (arith, h)

body_is :
    (x b : Fields) (k v : String)
    → ◌≡◌ {A = Reply Response} (ok (201, x)) (ok (201, b))
    → lookup k x ≡ some v
    → lookup k b ≡ some v
body_is x b k v h found = subst (λ y. lookup k y ≡ some v) (ground (arith, h)) found

module _ {Q L : Type 0} (is_format : ℕ → Bool) (api : TaskQueue Q) where
  created_state :
      (r : Reply User) (e : Env Q L) (b : Fields)
      → (on_agent_created is_format api r e).0 ≡ ok (201, b)
      → (u : User) × (r ≡ ok u) × (lookup "connect_state" b ≡ some u.id)
  unfolding lookup call
  created_state (err x) e b h = absurd (ground (arith, h))
  created_state (ok u) e b h =
      (u, refl, body_is (("id", u.id) ∷ ("connect_state", u.id) ∷ []) b "connect_state" u.id h refl)

  body_state :
      (r : AgentRequest) (o : Option AgentBody) (e : Env Q L) (b : Fields)
      → (on_agent_body is_format api r o e).0 ≡ ok (201, b)
      → lookup "connect_state" b ≡ some r.ids.user
  body_state r none e b h = absurd (ground (arith, h))
  body_state r (some body) e b h = elim (Bool-cases (safe_name is_format body.display_name)) [
    | inr wrong ↦ absurd (ground (arith, wrong, h))
    | inl safe ↦
        let made = query (create_user r.ids.user (agent_params body)) e in
        let same : on_agent_body is_format api r (some body) e
            ≡ on_agent_created is_format api made.0 made.1 =
          simp safe refl in
        let (u, answer, state) = created_state made.0 made.1 b (ap (λ m. m.0) (sym same) ∙ h) in
        state ∙ ap some (created_id r.ids.user (agent_params body) e u answer)
  ]

  -- A new agent's id has no dot, so the state of the URL that an accepted request answers with is no
  -- state token: the callback refuses it, under any secret, nonce store and coding, at any time.
  pub add_agent-IsUnredeemable :
      {N : Type 0} (codec : Codec) (nonces : NonceStore N) (secret : String) (r : AgentRequest)
      (e : Env Q L) (b : Fields) (state : String) (now : ℕ) (s : N)
      → has_char 46 r.ids.user ≡ false
      → (add_agent is_format api r e).0 ≡ ok (201, b)
      → lookup "connect_state" b ≡ some state
      → (validate codec nonces secret now state s).0 ≡ err malformed
  unfolding add_agent validate
  add_agent-IsUnredeemable codec nonces secret r e b state now s plain h shown =
      elim (Bool-cases (require_control_plane r.principal)) [
        | inr denied ↦ absurd (ground (arith, denied, h))
        | inl granted ↦
            let same : add_agent is_format api r e ≡ on_agent_body is_format api r r.body e =
              simp granted refl in
            let own = body_state r r.body e b (ap (λ m. m.0) (sym same) ∙ h) in
            let named : some state ≡ some r.ids.user = sym shown ∙ own in
            let is_id : state ≡ r.ids.user = ground (arith, named) in
            rw is_id (ground (arith, split_none 46 r.ids.user plain))
      ]
