-- ===== src/Reconcile/Desired.antt =====
-- The two sets that a sweep compares: the desired one against the tables, the real one against
-- Discord.
use discord_support_hub.Prelude.{
  String, Bool, true, false, ◌==◌, ◌||◌, Option, none, some, List, [], ◌∷◌, All, ◌≡◌, refl, ◌∙◌,
  arith, find, holds, has_key, insert, lookup, lookup-insert, eq_iff, if◌then◌else◌, Bool-cases,
  Option-cases, inl, inr,
}
use discord_support_hub.Domain.{SpaceMember, User}
use discord_support_hub.Store.Db.{Db, Reply, ok, err, not_found}
use discord_support_hub.Store.Spaces.{user_by_id, get_user_by_id}
use discord_support_hub.Discord.{DiscordApi, PermissionOverwrite, of_target}
use discord_support_hub.Effects.{Env, continue, query}
use discord_support_hub.Worker.View.{view, view-query, db-read, query_answers, query_refuses}
use discord_support_hub.Reconcile.{wish, next_desired, real_members, is_member_type, build_desired}

-- The user of a row holds the Discord id `t`.
abbrev pub row_user_holds : Option User → String → Bool
row_user_holds none t = false
row_user_holds (some u) t = holds u.discord_user_id t

-- Some of the rows belongs to a user with the Discord id `t`.
pub wants : Db → String → List SpaceMember → Bool
wants db t [] = false
wants db t (m ∷ ms) = row_user_holds (find (user_by_id m.user_id) db.users) t || wants db t ms

or_true : (b : Bool) → (b || true) ≡ true
or_true true = refl
or_true false = refl

has_key-insert {ℓ} :
    {V : Type ℓ} (k j : String) (v : V) (m : List (String × V))
    → has_key j (insert k v m) ≡ (k == j || has_key j m)
has_key-insert k j v m = ground (arith, lookup-insert k j v m)

has_key-wish :
    (sm : SpaceMember) (o : Option String) (acc : List (String × String)) (t : String)
    → has_key t (wish sm o acc) ≡ (holds o t || has_key t acc)
unfolding wish
has_key-wish sm none acc t = refl
has_key-wish sm (some d) acc t = has_key-insert d t sm.id acc

has_key-next_desired :
    (sm : SpaceMember) (r : Reply User) (o : Option User) (t : String)
    (acc acc' : List (String × String))
    → ((u : User) → r ≡ ok u → o ≡ some u)
    → (r ≡ err not_found → o ≡ none)
    → next_desired sm r acc ≡ ok acc'
    → has_key t acc' ≡ (row_user_holds o t || has_key t acc)
unfolding next_desired
has_key-next_desired sm (ok u) o t acc acc' found gone h =
    ground (arith, found u refl, has_key-wish sm u.discord_user_id acc t)
has_key-next_desired sm (err not_found) o t acc acc' found gone h = ground (arith, gone refl)
has_key-next_desired sm (err x) o t acc acc' found gone h = cc

module _ {D L : Type 0} (sm : SpaceMember) (db : Db) (e : Env D L) (same : e.db ≡ db) where
  user_found :
      (u : User)
      → (query (get_user_by_id sm.user_id) e).0 ≡ ok u
      → find (user_by_id sm.user_id) db.users ≡ some u
  unfolding get_user_by_id
  user_found u h = ground (arith, query_answers (get_user_by_id sm.user_id) e u h)

  user_gone :
      (query (get_user_by_id sm.user_id) e).0 ≡ err not_found
      → find (user_by_id sm.user_id) db.users ≡ none
  unfolding get_user_by_id
  user_gone h = ground (arith, query_refuses (get_user_by_id sm.user_id) e not_found (λ q. cc) h)

  user_read : (query (get_user_by_id sm.user_id) e).1.db ≡ db
  unfolding get_user_by_id
  user_read = db-read (get_user_by_id sm.user_id) e (λ n b. refl) ∙ same

module _ {D L : Type 0} (api : DiscordApi D) (s : String) (db : Db) where
  -- What the loop adds to the map is what the rest of the rows wants.
  Built :
      String
      → List SpaceMember
      → List (String × String)
      → Reply (List (String × String)) × Env D L
      → Type 0
  Built t rows acc (r, e) =
      (e.db ≡ db)
      × ((out : List (String × String))
          → r ≡ ok out
          → has_key t out ≡ (wants db t rows || has_key t acc))

  build_desired-Built :
      (t : String) (rows : List SpaceMember) (acc : List (String × String)) (e : Env D L)
      → e.db ≡ db
      → Built t rows acc (build_desired api s acc rows e)
  unfolding build_desired Built wants
  build_desired-Built t [] acc e same = (same, λ out h. ground arith)
  build_desired-Built t (sm ∷ rest) acc e same =
      next (next_desired sm (query (get_user_by_id sm.user_id) e).0 acc)
        (query (get_user_by_id sm.user_id) e).1 (user_read sm db e same)
        (λ acc' h.
          has_key-next_desired sm _ (find (user_by_id sm.user_id) db.users) t acc acc'
            (user_found sm db e same) (user_gone sm db e same) h)
        (λ acc' e' k. build_desired-Built t rest acc' e' k)
    where
      next :
          (r : Reply (List (String × String))) (e' : Env D L)
          → e'.db ≡ db
          → ((acc' : List (String × String))
              → r ≡ ok acc'
              → has_key t acc'
                ≡ (row_user_holds (find (user_by_id sm.user_id) db.users) t || has_key t acc))
          → ((acc' : List (String × String)) (e' : Env D L)
              → e'.db ≡ db
              → Built t rest acc' (build_desired api s acc' rest e'))
          → Built t (sm ∷ rest) acc (continue (r, e') (λ acc'. build_desired api s acc' rest))
      next (err x) e' k step later = (k, λ out h. cc)
      next (ok acc') e' k step later =
          ((later acc' e' k).0, λ out h. ground (arith, (later acc' e' k).1 out h, step acc' refl))

  -- The map that the loop builds has a key for each Discord id that the rows want, and no other.
  pub build_desired-has_key :
      (t : String) (rows : List SpaceMember) (out : List (String × String)) (e : Env D L)
      → e.db ≡ db
      → (build_desired api s [] rows e).0 ≡ ok out
      → has_key t out ≡ wants db t rows
  unfolding Built lookup
  build_desired-has_key t rows out e same h =
      ground (arith, (build_desired-Built t rows [] e same).1 out h)

  pub build_desired-view :
      (c t : String) (rows : List SpaceMember) (acc : List (String × String)) (e : Env D L)
      → view api c t (build_desired api s acc rows e).1 ≡ view api c t e
  unfolding build_desired
  build_desired-view c t [] acc e = refl
  build_desired-view c t (sm ∷ rest) acc e =
      next (next_desired sm (query (get_user_by_id sm.user_id) e).0 acc)
        (query (get_user_by_id sm.user_id) e).1 (λ acc' e'. build_desired-view c t rest acc' e')
      ∙ view-query api c t (get_user_by_id sm.user_id) e
    where
      next :
          (r : Reply (List (String × String))) (e' : Env D L)
          → ((acc' : List (String × String)) (e' : Env D L)
              → view api c t (build_desired api s acc' rest e').1 ≡ view api c t e')
          → view api c t (continue (r, e') (λ acc'. build_desired api s acc' rest)).1
            ≡ view api c t e'
      next (err x) e' later = refl
      next (ok acc') e' later = later acc' e'

abbrev pub is_member : Option PermissionOverwrite → Bool
is_member none = false
is_member (some o) = is_member_type o.kind

empty_map : (t : String) → has_key {V = Bool} t [] ≡ false
unfolding lookup
empty_map t = refl

-- The entries of a channel, as they are listed.
abbrev Lists : List PermissionOverwrite → (String → Option PermissionOverwrite) → Type 0
Lists os f = All (λ o. f o.id ≡ some o) os

real_members-listed :
    (os : List PermissionOverwrite) (acc : List (String × Bool)) (t : String)
    → find (of_target t) os ≡ none
    → has_key t (real_members acc os) ≡ has_key t acc
unfolding real_members find
real_members-listed [] acc t h = refl
real_members-listed (o ∷ os) acc t h = ground (
  arith,
  real_members-listed os (if is_member_type o.kind then insert o.id true acc else acc) t,
  has_key-insert o.id t true acc,
)

real_members-grows :
    (os : List PermissionOverwrite) (acc : List (String × Bool)) (t : String)
    → has_key t acc ≡ true
    → has_key t (real_members acc os) ≡ true
unfolding real_members
real_members-grows [] acc t h = h
real_members-grows (o ∷ os) acc t h = ground (
  arith,
  real_members-grows os (if is_member_type o.kind then insert o.id true acc else acc) t,
  has_key-insert o.id t true acc,
)

real_members_sound :
    (os : List PermissionOverwrite) (acc : List (String × Bool)) (t : String)
    (f : String → Option PermissionOverwrite)
    → Lists os f
    → has_key t (real_members acc os) ≡ true
    → has_key t acc || is_member (f t) ≡ true
unfolding real_members
real_members_sound [] acc t f l h = ground arith
real_members_sound (o ∷ os) acc t f (here, l) h = ground (
  arith,
  real_members_sound os (if is_member_type o.kind then insert o.id true acc else acc) t f l,
  has_key-insert o.id t true acc,
  eq_iff o.id t,
)

real_members_complete :
    (os : List PermissionOverwrite) (acc : List (String × Bool)) (t : String)
    (o : PermissionOverwrite)
    → find (of_target t) os ≡ some o
    → is_member_type o.kind ≡ true
    → has_key t (real_members acc os) ≡ true
unfolding real_members find
real_members_complete [] acc t o h k = ground arith
real_members_complete (o' ∷ os) acc t o h k = elim (Bool-cases (o'.id == t)) [
  | inl here ↦ real_members-grows os _ t (ground (arith, has_key-insert o'.id t true acc))
  | inr other ↦ real_members_complete os _ t o (ground arith) k
]

-- The real set holds exactly the targets of the channel's member overwrites.
pub real_members-is_member :
    (os : List PermissionOverwrite) (t : String) (f : String → Option PermissionOverwrite)
    → Lists os f
    → find (of_target t) os ≡ f t
    → has_key t (real_members [] os) ≡ is_member (f t)
real_members-is_member os t f l h = elim (Option-cases (f t)) [
  | inl nothing ↦ ground (arith, real_members-listed os [] t, empty_map t)
  | inr (o, there) ↦ elim (Bool-cases (is_member_type o.kind)) [
    | inl yes_it_is ↦ ground (arith, real_members_complete os [] t o (h ∙ there) yes_it_is)
    | inr not_one ↦ elim (Bool-cases (has_key t (real_members [] os))) [
      | inl in_it ↦ ground (arith, real_members_sound os [] t f l in_it, empty_map t)
      | inr out ↦ ground arith
    ]
  ]
]
