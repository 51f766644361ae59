-- ===== src/Lock/Exclusive.antt =====
-- The locks exclude each other, over a Valkey that meets its laws.
use discord_support_hub.Prelude.{
  ℕ, ◌+◌, ◌≤◌, ◌<◌, String, Bool, true, false, ◌==◌, Option, none, some, List, [], ◌∷◌, ◌≡◌, ◌≢◌,
  ◌⊎◌, inl, inr, ◌∙◌, refl, ap, arith, subst, Bool-cases, Option-cases, eq_of_eq_true, All, eq_refl,
  eq_iff,
}
use discord_support_hub.Store.Db.{Reply, ok, err}
use discord_support_hub.Valkey.{Valkey, IsValkey}
use discord_support_hub.Lock.{LockState, acquire, release, release_script, set_token, granted}

-- A call of some worker, with the key of the lock.
pub data Call : Type 0 where
  take : String → Call
  give_back : String → String → Call

-- The call gives back no lock of the key under the token.
abbrev pub IsOther : String → String → Call → Type 0
IsOther key token (Call.take k) = Unit
IsOther key token (Call.give_back k t) = ((k == key) ≡ false) ⊎ ((token == t) ≡ false)

module _ {V : Type 0} (api : Valkey V) (ttl : ℕ) where
  -- A call at its time.
  unfoldable pub perform : ℕ × Call → LockState V → LockState V
  perform (at, Call.take k) s = (acquire api ttl k (record s { now = at })).1
  perform (at, Call.give_back k t) s = (release api k t (record s { now = at })).1

  unfoldable pub perform_all : List (ℕ × Call) → LockState V → LockState V
  perform_all [] s = s
  perform_all (c ∷ cs) s = perform_all cs (perform c s)

module _ {V : Type 0} (api : Valkey V) (laws : IsValkey api) where
  script_keeps :
      (at t : ℕ) (key token k u : String) (v : V)
      → at ≤ t
      → ((k == key) ≡ false) ⊎ ((token == u) ≡ false)
      → api.get t key v ≡ some token
      → api.get t key (release_script api at k u v).1 ≡ some token
  unfolding release_script
  script_keeps at t key token k u v early other h =
      let now_held = laws.held at t key token v early h in
      let cleared_by = laws.deleted k v t key in
      ground (arith, eq_iff k key, eq_iff key k, eq_iff token u)

  release_keeps :
      (at t : ℕ) (key token k u : String) (s : LockState V)
      → at ≤ t
      → ((k == key) ≡ false) ⊎ ((token == u) ≡ false)
      → api.get t key s.valkey ≡ some token
      → api.get t key (release api k u (record s { now = at })).1.valkey ≡ some token
  unfolding release
  release_keeps at t key token k u s early other h =
      elim (laws.ran (release_script api at k u) s.valkey) [
        | inl clean ↦ rw clean (script_keeps at t key token k u s.valkey early other h)
        | inr (inl late) ↦ rw late (script_keeps at t key token k u s.valkey early other h)
        | inr (inr lost) ↦ rw lost h
      ]

  fenced :
      (now : ℕ) (v : V) (key token k : String) (t : ℕ)
      → (api.get t k (release_script api now key token v).1 ≡ api.get t k v)
        ⊎ ((k ≡ key)
            × (api.get now key v ≡ some token)
            × (api.get t k (release_script api now key token v).1 ≡ none))
  unfolding release_script
  fenced now v key token k t =
      let after_del = laws.deleted key v t k in
      elim (Option-cases (api.get now key v)) [
        | inl nothing ↦ inl (ground (arith, nothing))
        | inr (x, there) ↦ ground (arith, eq_iff k key, eq_iff x token)
      ]

  -- Over a Valkey that meets its laws: a release changes what a key holds at a time from then on
  -- only where the key is the lock's own and holds the given token at the release; such a key
  -- then holds nothing. So a worker whose lock has expired leaves the next holder's lock, also
  -- where the answer is lost.
  pub release-IsFenced :
      (s : LockState V) (key token k : String) (t : ℕ)
      → (api.get t k (release api key token s).1.valkey ≡ api.get t k s.valkey)
        ⊎ ((k ≡ key)
            × (api.get s.now key s.valkey ≡ some token)
            × (api.get t k (release api key token s).1.valkey ≡ none))
  unfolding release
  release-IsFenced s key token k t = elim (laws.ran (release_script api s.now key token) s.valkey) [
    | inl clean ↦ rw clean (fenced s.now s.valkey key token k t)
    | inr (inl late) ↦ rw late (fenced s.now s.valkey key token k t)
    | inr (inr lost) ↦ rw lost (inl refl)
  ]

module _ {V : Type 0} (api : Valkey V) (laws : IsValkey api) (ttl : ℕ) where
  set_keeps :
      (at t : ℕ) (key token k : String) (draw : Option String) (v : V)
      → at ≤ t
      → api.get t key v ≡ some token
      → api.get t key (set_token api ttl k draw at v).1 ≡ some token
  unfolding set_token
  set_keeps at t key token k none v early h = h
  set_keeps at t key token k (some x) v early h = elim (Bool-cases (key == k)) [
    | inl same ↦
        let e = eq_of_eq_true key k same in
        (laws.set_held at k x ttl v token
            (subst (λ j. api.get at j v ≡ some token) e (laws.held at t key token v early h))).1
          t key
        ∙ h
    | inr other ↦ laws.set_other at k x ttl v t key other ∙ h
  ]

  -- A token that is held stays while other workers call.
  perform_all-keeps :
      (t : ℕ) (key token : String) (cs : List (ℕ × Call)) (s : LockState V)
      → All (λ c. (c.0 ≤ t) × IsOther key token c.1) cs
      → api.get t key s.valkey ≡ some token
      → api.get t key (perform_all api ttl cs s).valkey ≡ some token
  unfolding perform_all perform acquire
  perform_all-keeps t key token [] s all h = h
  perform_all-keeps t key token ((at, Call.take k) ∷ cs) s ((early, _), rest) h =
      perform_all-keeps t key token cs (perform api ttl (at, Call.take k) s) rest
        (set_keeps at t key token k (s.tokens s.drawn) s.valkey early h)
  perform_all-keeps t key token ((at, Call.give_back k u) ∷ cs) s ((early, other), rest) h =
      perform_all-keeps t key token cs (perform api ttl (at, Call.give_back k u) s) rest
        (release_keeps api laws at t key token k u s early other h)

  token_set :
      (key token : String) (draw : Option String) (at : ℕ) (v : V)
      → (set_token api ttl key draw at v).0 ≡ ok (some token)
      → (draw ≡ some token) × ((api.set_nx at key token ttl v).0 ≡ ok true)
  unfolding set_token
  token_set key token none at v h = absurd (ground (arith, h))
  token_set key token (some x) at v h = elim (granted_cases (api.set_nx at key x ttl v).0) [
    | inl won ↦
        let same : x ≡ token = ground (arith, won, h) in
        (ap some same, subst (λ y. (api.set_nx at key y ttl v).0 ≡ ok true) same won)
    | inr other ↦ absurd (other x token h)
  ]
    where
      granted_cases :
          (r : Reply Bool) → (r ≡ ok true) ⊎ ((x y : String) → granted api x r ≢ ok (some y))
      granted_cases (ok true) = inl refl
      granted_cases (ok false) = inr (λ x y h. ground (arith, h))
      granted_cases (err e) = inr (λ x y h. ground (arith, h))

  refused :
      (key token x : String) (draw : Option String) (at : ℕ) (v : V)
      → api.get at key v ≡ some token
      → (set_token api ttl key draw at v).0 ≢ ok (some x)
  refused key token x draw at v h won =
      (laws.set_held at key x ttl v token h).0 (token_set key x draw at v won).1

  -- Over a Valkey that meets its laws: once a worker has been granted a lock, no acquire of it is
  -- granted before its time to live is over, whatever calls are made in between, in any order and
  -- with any lost answers, as long as none of them gives the lock back under the worker's token.
  pub acquire-IsExclusive :
      (s : LockState V) (key token x : String) (cs : List (ℕ × Call)) (later : ℕ)
      → (acquire api ttl key s).0 ≡ ok (some token)
      → All (λ c. (c.0 ≤ later) × IsOther key token c.1) cs
      → s.now ≤ later
      → later < s.now + ttl
      → (acquire api ttl key
          (record (perform_all api ttl cs (acquire api ttl key s).1) { now = later })).0
        ≢ ok (some x)
  unfolding acquire set_token
  acquire-IsExclusive s key token x cs later won calls after before =
      refused key token x (last.tokens last.drawn) later last.valkey
        (perform_all-keeps later key token cs (acquire api ttl key s).1 calls start)
    where
      last : LockState V
      last = perform_all api ttl cs (acquire api ttl key s).1

      drew :
          (s.tokens s.drawn ≡ some token) × ((api.set_nx s.now key token ttl s.valkey).0 ≡ ok true)
      drew = token_set key token (s.tokens s.drawn) s.now s.valkey won

      start : api.get later key (acquire api ttl key s).1.valkey ≡ some token
      start = rw drew.0 (
          (laws.set_free s.now key token ttl s.valkey drew.1).1 later key after
          ∙ ground (arith, eq_refl key))
