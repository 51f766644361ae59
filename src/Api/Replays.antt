-- ===== src/Api/Replays.antt =====
-- A repeated request gets the response that was recorded, and an expired key none.
use discord_support_hub.Prelude.{
  ℕ, ◌+◌, ◌<◌, ◌≤◌, String, Bool, true, false, ◌==◌, ◌&&◌, Option, none, some, List, [], ◌∷◌, ◌++◌,
  ◌≡◌, refl, arith, find, ltb, update_where, find-update_where, find-snoc, eq_refl, ◌∙◌, ap, revise,
  if◌then◌else◌,
}
use discord_support_hub.Domain.{IdempotencyKey, Fields}
use discord_support_hub.Store.Db.{ok}
use discord_support_hub.Store.Tokens.{
  with_key, new_idempotency_key, record_response, UpdateIdempotencyKeyResponseParams,
  get_idempotency_key, insert_idempotency_key, update_idempotency_key_response, job_known,
}
use discord_support_hub.Effects.{Env, calm, query}
use discord_support_hub.Api.Idempotency.{
  Request, Gate, idempotency, store_idempotency_response, hash_request, idempotency_ttl,
  response_status,
}

abbrev live : String → ℕ → IdempotencyKey → Bool
live k now r = with_key k r && ltb now r.expires_at

live-none :
    (k : String) (now : ℕ) (rows : List IdempotencyKey)
    → find (with_key k) rows ≡ none
    → find (live k now) rows ≡ none
unfolding find
live-none k now [] h = refl
live-none k now (r ∷ rows) h = ground (arith, live-none k now rows)

abbrev first_row : (String → String) → Request → String → ℕ → IdempotencyKey
first_row digest r body now =
    new_idempotency_key
      (record {
        key = r.idempotency_key;
        request_hash = hash_request digest r.method r.full_path body;
        job_id = none;
        expires_at = now + idempotency_ttl;
      })
      now

abbrev recording : String → ℕ → Fields → Option String → UpdateIdempotencyKeyResponseParams
recording k code out job = record {
  key = k;
  status = response_status code;
  response_code = code;
  response_body = some out;
  job_id = job;
}

module _ {D L : Type 0} (digest : String → String) where
  registers :
      (r : Request) (body : String) (e : Env D L)
      → (r.idempotency_key == "") ≡ false
      → r.body ≡ some body
      → find (with_key r.idempotency_key) e.db.idempotency_keys ≡ none
      → ((idempotency digest r (calm e)).0 ≡ ok (Gate.pass r.idempotency_key))
        × ((idempotency digest r (calm e)).1.db.idempotency_keys
            ≡ e.db.idempotency_keys ++ first_row digest r body e.now ∷ [])
  unfolding idempotency query get_idempotency_key insert_idempotency_key
  registers r body e given read new =
      simp (given, read, new, live-none r.idempotency_key e.now e.db.idempotency_keys new)
        (refl, refl)

  answers :
      (r : Request) (body : String) (e : Env D L) (row : IdempotencyKey) (code : ℕ) (out : Fields)
      → (r.idempotency_key == "") ≡ false
      → r.body ≡ some body
      → find (live r.idempotency_key e.now) e.db.idempotency_keys ≡ some row
      → row.response_code ≡ some code
      → row.response_body ≡ some out
      → (idempotency digest r (calm e)).0
        ≡ ok (
            if row.request_hash == hash_request digest r.method r.full_path body
            then Gate.replay code out
            else Gate.abort 409)
  unfolding idempotency query get_idempotency_key
  answers r body e row code out given read found coded filled =
      simp (given, read, found) (ground (arith, coded, filled))

  -- What the table holds of the key when the response is recorded.
  recorded :
      (k : String) (code : ℕ) (out : Fields) (job : Option String) (now : ℕ) (e : Env D L)
      (rows : List IdempotencyKey) (row : IdempotencyKey)
      → (k == "") ≡ false
      → e.db.idempotency_keys ≡ rows ++ row ∷ []
      → find (with_key k) rows ≡ none
      → live k now row ≡ true
      → job_known job e.db ≡ true
      → find
          (live k now)
          (store_idempotency_response k code (some out) job (calm e)).1.db.idempotency_keys
        ≡ some (record_response (recording k code out job) row)
  unfolding store_idempotency_response query update_idempotency_key_response
  recorded k code out job now e rows row given table new here known =
      let keyed : with_key k row ≡ true = ground (arith, here) in
      let p = recording k code out job in
      simp (given, table, find-snoc (with_key k) rows row new keyed, known)
        (rw
          (find-update_where (live k now) (with_key k) (record_response p) (rows ++ row ∷ [])
            (λ x. refl))
          (rw (find-snoc (live k now) rows row (live-none k now rows new) here) (simp keyed refl)))

  -- Where no database call fails: a request under a new key is let through; once the handler's
  -- response has been recorded, a request under the same key before the key expires gets that
  -- response if its method, route pattern and body hash to the same value, whatever its path, and a
  -- 409 if not. Between the three the rest of the database may change, and only the rows of the
  -- other tables.
  pub idempotency-replays :
      (r again : Request) (body body' : String) (e handled later : Env D L) (code : ℕ)
      (out : Fields) (job : Option String)
      → (r.idempotency_key == "") ≡ false
      → r.body ≡ some body
      → find (with_key r.idempotency_key) e.db.idempotency_keys ≡ none
      → handled.db.idempotency_keys ≡ (idempotency digest r (calm e)).1.db.idempotency_keys
      → job_known job handled.db ≡ true
      → later.db.idempotency_keys
        ≡ (store_idempotency_response r.idempotency_key code
            (some out)
            job
            (calm handled)).1.db.idempotency_keys
      → later.now < e.now + idempotency_ttl
      → again.idempotency_key ≡ r.idempotency_key
      → again.body ≡ some body'
      → ((idempotency digest r (calm e)).0 ≡ ok (Gate.pass r.idempotency_key))
        × ((idempotency digest again (calm later)).0
            ≡ ok (
                if hash_request digest r.method r.full_path body
                  == hash_request digest again.method again.full_path body'
                then Gate.replay code out
                else Gate.abort 409))
  idempotency-replays r again body body' e handled later code out job given read new kept known
        table early same read' =
      let registered = registers r body e given read new in
      let row = first_row digest r body e.now in
      let here : live r.idempotency_key later.now row ≡ true =
        ground (arith, early, eq_refl r.idempotency_key) in
      let found =
        recorded r.idempotency_key code out job later.now handled e.db.idempotency_keys row given
          (kept ∙ registered.1) new here known in
      (
        registered.0,
        answers again body' later (record_response (recording r.idempotency_key code out job) row)
            code out (rw same given) read' (rw same (rw table found)) refl refl,
      )

expired_stays :
    (k : String) (s t : ℕ) (rows : List IdempotencyKey)
    → s ≤ t
    → find (live k s) rows ≡ none
    → find (live k t) rows ≡ none
unfolding find
expired_stays k s t [] early h = refl
expired_stays k s t (r ∷ rows) early h = ground (arith, expired_stays k s t rows)

module _ {D L : Type 0} (digest : String → String) where
  passes :
      (r : Request) (body : String) (e : Env D L) (row : IdempotencyKey)
      → (r.idempotency_key == "") ≡ false
      → r.body ≡ some body
      → find (with_key r.idempotency_key) e.db.idempotency_keys ≡ some row
      → find (live r.idempotency_key e.now) e.db.idempotency_keys ≡ none
      → ((idempotency digest r (calm e)).0 ≡ ok (Gate.pass r.idempotency_key))
        × ((idempotency digest r (calm e)).1.db.idempotency_keys ≡ e.db.idempotency_keys)
  unfolding idempotency query get_idempotency_key insert_idempotency_key
  passes r body e row given read there expired = simp (given, read, there, expired) (refl, refl)

  -- Where no database call fails: a request under a key whose row has expired is let through, and
  -- so is every later request under the key, although the response to the first was recorded: the
  -- expired row is neither replaced nor renewed.
  pub idempotency-forgets :
      (r again : Request) (body body' : String) (e handled later : Env D L) (row : IdempotencyKey)
      (code : ℕ) (out : Fields) (job : Option String)
      → (r.idempotency_key == "") ≡ false
      → r.body ≡ some body
      → find (with_key r.idempotency_key) e.db.idempotency_keys ≡ some row
      → find (live r.idempotency_key e.now) e.db.idempotency_keys ≡ none
      → handled.db.idempotency_keys ≡ (idempotency digest r (calm e)).1.db.idempotency_keys
      → job_known job handled.db ≡ true
      → later.db.idempotency_keys
        ≡ (store_idempotency_response r.idempotency_key code
            (some out)
            job
            (calm handled)).1.db.idempotency_keys
      → e.now ≤ later.now
      → again.idempotency_key ≡ r.idempotency_key
      → again.body ≡ some body'
      → ((idempotency digest r (calm e)).0 ≡ ok (Gate.pass r.idempotency_key))
        × ((idempotency digest again (calm later)).0 ≡ ok (Gate.pass r.idempotency_key))
  unfolding store_idempotency_response query update_idempotency_key_response
  idempotency-forgets r again body body' e handled later row code out job given read there expired
        kept known table late same read' =
      let k = r.idempotency_key in
      let first = passes r body e row given read there expired in
      let rows : handled.db.idempotency_keys ≡ e.db.idempotency_keys = kept ∙ first.1 in
      let f = record_response (recording k code out job) in
      let updated : later.db.idempotency_keys ≡ update_where (with_key k) f e.db.idempotency_keys =
        table ∙ simp (given, rows, there, known) refl in
      let seen : find (with_key k) later.db.idempotency_keys ≡ some (revise (with_key k) f row) =
        rw updated (
          find-update_where (with_key k) (with_key k) f e.db.idempotency_keys (λ x. refl)
          ∙ rw there refl) in
      let gone : find (live k later.now) later.db.idempotency_keys ≡ none = rw updated (
        find-update_where (live k later.now) (with_key k) f e.db.idempotency_keys (λ x. refl)
        ∙ rw (expired_stays k e.now later.now e.db.idempotency_keys late expired) refl) in
      let second =
        passes again body' later (revise (with_key k) f row) (rw same given) read' (rw same seen)
          (rw same gone) in
      (first.0, second.0 ∙ ap (λ j. ok (Gate.pass j)) same)
