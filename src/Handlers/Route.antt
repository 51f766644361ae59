-- ===== src/Handlers/Route.antt =====
-- internal/api/router.go: a route is the API key's middleware, then the middleware for idempotency, and
-- then the handler.
use discord_support_hub.Prelude.{
  ℕ, String, Bool, true, false, ◌==◌, Option, some, List, [], ◌∷◌, ◌≡◌, ◌⊎◌, inl, inr, leb, refl,
  ◌∙◌, sym, subst, find, Bool-cases, if◌then◌else◌,
}
use discord_support_hub.Domain.{ApiKey}
use discord_support_hub.Store.Db.{Reply, ok}
use discord_support_hub.Store.ApiKeys.{active_with_hash}
use discord_support_hub.Effects.{Env, M, ◌>>=◌, continue_rule, return}
use discord_support_hub.Worker.Relay.{TaskQueue}
use discord_support_hub.Api.Bearer.{extract_bearer}
use discord_support_hub.Api.Auth.{
  Principal, Admission, admitted, refused, auth, require_control_plane, scope_backoffice,
}
use discord_support_hub.Api.Guarded.{auth-IsAuthentic}
use discord_support_hub.Api.Idempotency.{Request, Gate, idempotency}
use discord_support_hub.Api.Untouched.{
  Untouched, then-Untouched, auth-Untouched, idempotency-Untouched,
}
use discord_support_hub.Handlers.Common.{Response, problem}
use discord_support_hub.Handlers.Provision.{ProvisionRequest, provision_space}
use discord_support_hub.Handlers.Lifecycle.{LifecycleRequest, change_space_lifecycle}
use discord_support_hub.Handlers.Invite.{InviteRequest, invite_collaborator}
use discord_support_hub.Handlers.Expel.{ExpelRequest, expel_collaborator}
use discord_support_hub.Handlers.Agents.{AgentRequest, add_agent, remove_agent}
use discord_support_hub.Handlers.Merchants.{MerchantRequest, ParsedUrl, register_merchant}
use discord_support_hub.Handlers.Welcome.{WelcomeRequest, sync_welcome}

pub data Call : Type 0 where
  post_channel : ProvisionRequest → Call
  post_lifecycle : LifecycleRequest → Call
  post_collaborator : InviteRequest → Call
  delete_collaborator : ExpelRequest → Call
  post_agent : AgentRequest → Call
  delete_agent : String → Call
  post_merchant : MerchantRequest → Call
  post_welcome : WelcomeRequest → Call

abbrev pub code_of : ℕ → String
code_of status =
    if leb status 400
    then "validation_error"
    else if leb status 409
    then "idempotency_conflict"
    else "internal_error"

-- The handler reads the principal and the idempotency key that the middleware set. `digest` is the
-- hash of a request, and `Request` what the middleware for idempotency reads of it.
module _ {Q L : Type 0} (is_format : ℕ → Bool) (parse : String → Option ParsedUrl)
    (api : TaskQueue Q) (cache_del : List String → L → Reply (Unit {0}) × L)
    (issue_state : String → L → Reply String × L) (hash digest : String → String) where
  unfoldable pub serve : Option Principal → String → Call → M (Env Q L) Response
  serve p key (Call.post_channel r) =
      provision_space is_format cache_del (record r { principal = p; idempotency_key = key })
  serve p key (Call.post_lifecycle r) =
      change_space_lifecycle api (record r { principal = p; idempotency_key = key })
  serve p key (Call.post_collaborator r) =
      invite_collaborator is_format api issue_state
        (record r { principal = p; idempotency_key = key })
  serve p key (Call.delete_collaborator r) =
      expel_collaborator api (record r { principal = p; idempotency_key = key })
  serve p key (Call.post_agent r) = add_agent is_format api (record r { principal = p })
  serve p key (Call.delete_agent user) = remove_agent api p user
  serve p key (Call.post_merchant r) =
      register_merchant is_format parse (record r { principal = p })
  serve p key (Call.post_welcome r) =
      sync_welcome api (record r { principal = p; idempotency_key = key })

  abbrev pub on_gate : Principal → Call → Gate → M (Env Q L) Response
  on_gate p c (Gate.pass key) = serve (some p) key c
  on_gate p c (Gate.abort status) = problem status (code_of status)
  on_gate p c (Gate.replay code body) = return (code, body)

  abbrev pub on_admission : Request → Call → Admission → M (Env Q L) Response
  on_admission r c (refused status) = problem status "unauthorized"
  on_admission r c (admitted p) = do gate ← idempotency digest r; on_gate p c gate

  unfoldable pub route : String → Request → Call → M (Env Q L) Response
  route header r c = do admission ← auth hash header; on_admission r c admission

  serve_denied :
      (p : Option Principal) (key : String) (c : Call) (e : Env Q L)
      → require_control_plane p ≡ false
      → serve p key c e ≡ (ok (403, ("code", "forbidden") ∷ []), e)
  unfolding serve provision_space change_space_lifecycle invite_collaborator expel_collaborator
      add_agent remove_agent register_merchant sync_welcome
  serve_denied p key (Call.post_channel r) e h = simp h refl
  serve_denied p key (Call.post_lifecycle r) e h = simp h refl
  serve_denied p key (Call.post_collaborator r) e h = simp h refl
  serve_denied p key (Call.delete_collaborator r) e h = simp h refl
  serve_denied p key (Call.post_agent r) e h = simp h refl
  serve_denied p key (Call.delete_agent user) e h = simp h refl
  serve_denied p key (Call.post_merchant r) e h = simp h refl
  serve_denied p key (Call.post_welcome r) e h = simp h refl

  gate-Untouched :
      (p : Principal) (c : Call) (gate : Gate) (e after : Env Q L)
      → require_control_plane (some p) ≡ false
      → Untouched e after
      → Untouched e (on_gate p c gate after).1
  gate-Untouched p c (Gate.pass key) e after denied kept =
      subst (λ out. Untouched e out.1) (sym (serve_denied (some p) key c after denied)) kept
  gate-Untouched p c (Gate.abort status) e after denied kept = kept
  gate-Untouched p c (Gate.replay code body) e after denied kept = kept

  gated-Untouched :
      (p : Principal) (r : Request) (c : Call) (e : Env Q L)
      → require_control_plane (some p) ≡ false
      → Untouched e (on_admission r c (admitted p) e).1
  gated-Untouched p r c e denied =
      let q = idempotency digest r e in
      let kept = idempotency-Untouched digest r e in
      continue_rule (λ out. Untouched e out.1) q (on_gate p c) (λ x failed. kept)
        (λ gate passed. gate-Untouched p c gate e q.1 denied kept)

  -- The bearer's hash is that of an unrevoked row of scope "backoffice".
  abbrev pub IsBacked : String → Env Q L → Type 0
  IsBacked header e =
      (raw : String) × (k : ApiKey) × (extract_bearer header ≡ some raw)
      × (find (active_with_hash (hash raw)) e.db.api_keys ≡ some k)
      × ((k.scope == scope_backoffice) ≡ true)

  admitted-Untouched :
      (header : String) (r : Request) (c : Call) (e after : Env Q L) (p : Principal)
      → (auth hash header e).0 ≡ ok (admitted p)
      → Untouched e after
      → IsBacked header e ⊎ Untouched e (on_admission r c (admitted p) after).1
  admitted-Untouched header r c e after p same kept =
      let (raw, k, given, found, _, control, _) = auth-IsAuthentic hash header e p same in
      elim (Bool-cases (k.scope == scope_backoffice)) [
        | inl right ↦ inl (raw, k, given, found, right)
        | inr wrong ↦ inr (
            then-Untouched e after (on_admission r c (admitted p) after).1 kept
              (gated-Untouched p r c after (control ∙ wrong)))
      ]

  -- Whatever the request that writes and whatever calls fail: the key is one whose hash an unrevoked
  -- row of scope "backoffice" has, or the request leaves the queue, Valkey and every table but the API
  -- keys and the idempotency keys as they were.
  pub route-IsAuthorised :
      (header : String) (r : Request) (c : Call) (e : Env Q L)
      → IsBacked header e ⊎ Untouched e (route header r c e).1
  unfolding route
  route-IsAuthorised header r c e =
      let kept = auth-Untouched hash header e in
      continue_rule (λ out. IsBacked header e ⊎ Untouched e out.1) (auth hash header e)
        (on_admission r c) (λ x failed. inr kept) (λ a. decide a)
    where
      decide :
          (a : Admission)
          → (auth hash header e).0 ≡ ok a
          → IsBacked header e ⊎ Untouched e (on_admission r c a (auth hash header e).1).1
      decide (refused status) same = inr (auth-Untouched hash header e)
      decide (admitted p) same =
          admitted-Untouched header r c e (auth hash header e).1 p same
            (auth-Untouched hash header e)
