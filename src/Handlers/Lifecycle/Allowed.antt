-- ===== src/Handlers/Lifecycle/Allowed.antt =====
-- A lifecycle request is accepted only for a transition that is allowed.
use discord_support_hub.Prelude.{
  String, true, false, ◌==◌, Option, none, some, ◌≡◌, refl, arith, ◌∙◌, ap, sym, find, subst,
  eq_of_eq_true, inl, inr, Bool-cases,
}
use discord_support_hub.Domain.{Space, SpaceLifecycleState, same_lifecycle, Fields}
use discord_support_hub.Store.Db.{Reply, ok, err}
use discord_support_hub.Effects.{Env, M, query}
use discord_support_hub.Store.Spaces.{by_id, get_space_by_id}
use discord_support_hub.Worker.Relay.{TaskQueue}
use discord_support_hub.Worker.Lifecycle.{action_to_target_state}
use discord_support_hub.Api.Auth.{require_control_plane}
use discord_support_hub.Handlers.Common.{Response, on_loaded}
use discord_support_hub.Handlers.Lifecycle.{
  LifecycleRequest, lifecycle_transitions, action_to_lifecycle_state, change_space_lifecycle,
  check_transition, on_target, on_action,
}

pub loaded :
    {S A : Type 0} (r : Reply A) (k : A → M S Response) (s : S) (b : Fields)
    → (on_loaded r k s).0 ≡ ok (202, b)
    → (a : A) × (r ≡ ok a) × ((k a s).0 ≡ ok (202, b))
loaded (err x) k s b h = absurd (ground (arith, h))
loaded (ok a) k s b h = (a, refl, h)

agrees : (a : String) → action_to_lifecycle_state a ≡ action_to_target_state a
unfolding action_to_lifecycle_state action_to_target_state
agrees a = elim (Bool-cases (a == "reopen")) [
  | inl same ↦
      subst (λ x. action_to_lifecycle_state x ≡ action_to_target_state x)
        (sym (eq_of_eq_true a "reopen" same)) refl
  | inr other ↦ ground (arith, other)
]

module _ {Q L : Type 0} (api : TaskQueue Q) where
  space_found :
      (id : String) (e : Env Q L) (sp : Space)
      → (query (get_space_by_id id) e).0 ≡ ok sp
      → find (by_id id) e.db.spaces ≡ some sp
  unfolding query get_space_by_id
  space_found id e sp h = ground (arith, h)

  transition_allowed :
      (r : LifecycleRequest) (a : String) (target : SpaceLifecycleState) (sp : Space) (e : Env Q L)
      (b : Fields)
      → (check_transition api r a target sp e).0 ≡ ok (202, b)
      → (lifecycle_transitions sp.lifecycle_state target ≡ true)
        × (same_lifecycle sp.lifecycle_state target ≡ false)
  unfolding lifecycle_transitions
  transition_allowed r a target sp e b h = ground (arith, h)

  targeted :
      (r : LifecycleRequest) (a : String) (o : Option SpaceLifecycleState) (e : Env Q L)
      (b : Fields)
      → (on_target api r a o e).0 ≡ ok (202, b)
      → (target : SpaceLifecycleState) × (sp : Space) × (o ≡ some target)
        × (find (by_id r.space_id) e.db.spaces ≡ some sp)
        × (lifecycle_transitions sp.lifecycle_state target ≡ true)
        × (same_lifecycle sp.lifecycle_state target ≡ false)
  targeted r a none e b h = absurd (ground (arith, h))
  targeted r a (some target) e b h =
      let look = query (get_space_by_id r.space_id) e in
      let (sp, found, went_on) = loaded look.0 (check_transition api r a target) look.1 b h in
      let (allowed, differs) = transition_allowed r a target sp look.1 b went_on in
      (target, sp, refl, space_found r.space_id e sp found, allowed, differs)

  acted :
      (r : LifecycleRequest) (o : Option String) (e : Env Q L) (b : Fields)
      → (on_action api r o e).0 ≡ ok (202, b)
      → (a : String) × (o ≡ some a)
        × ((on_target api r a (action_to_lifecycle_state a) e).0 ≡ ok (202, b))
  acted r none e b h = absurd (ground (arith, h))
  acted r (some a) e b h = (a, refl, h)

  -- A lifecycle request that is accepted comes from a principal with control-plane authority, names
  -- an action that the worker knows too, and asks for a transition that is allowed from the state of
  -- the space's row, to another state. Any database call may fail.
  pub change_space_lifecycle-IsAllowed :
      (r : LifecycleRequest) (e : Env Q L) (b : Fields)
      → (change_space_lifecycle api r e).0 ≡ ok (202, b)
      → (a : String) × (target : SpaceLifecycleState) × (sp : Space) × (require_control_plane
            r.principal
          ≡ true)
        × (r.action ≡ some a)
        × (action_to_target_state a ≡ some target)
        × (find (by_id r.space_id) e.db.spaces ≡ some sp)
        × (lifecycle_transitions sp.lifecycle_state target ≡ true)
        × (same_lifecycle sp.lifecycle_state target ≡ false)
  unfolding change_space_lifecycle
  change_space_lifecycle-IsAllowed r e b h = elim (Bool-cases (require_control_plane r.principal)) [
    | inr denied ↦ absurd (ground (arith, denied, h))
    | inl granted ↦ elim (Bool-cases (r.space_id == "")) [
      | inl empty ↦ absurd (ground (arith, granted, empty, h))
      | inr given ↦
          let same : change_space_lifecycle api r e ≡ on_action api r r.action e =
            simp (granted, given) refl in
          let (a, named, went_on) = acted r r.action e b (ap (λ m. m.0) (sym same) ∙ h) in
          let (target, sp, known, found, allowed, differs) =
            targeted r a (action_to_lifecycle_state a) e b went_on in
          (a, target, sp, granted, named, sym (agrees a) ∙ known, found, allowed, differs)
    ]
  ]
