-- ===== src/Oauth/Redeem.antt =====
-- A state token is redeemed for its user, once, and only under the secret's signature.
use discord_support_hub.Prelude.{
  ℕ, ◌+◌, ◌<◌, ◌≤◌, String, false, ◌==◌, Option, none, some, ◌≡◌, ◌≢◌, refl, arith, split_first,
  split_first-concat, eq_iff, eq_refl, Bool-cases, inl, inr, ◌∙◌, ap, sym, ◌⊎◌, concat_filled,
  cons_filled, eq_of_eq_true,
}
use discord_support_hub.Store.Db.{Reply, ok, err}
use discord_support_hub.Oauth.Nonces.{NonceStore, IsNonceStore}
use discord_support_hub.Oauth.State.{
  Codec, IsCodec, StatePayload, state_ttl, signed_state, issue, validate, persisted, redeem,
  check_binding, check_signature, check_parts,
}

module _ {N : Type 0} (codec : Codec) (is_codec : IsCodec codec) (nonces : NonceStore N)
    (laws : IsNonceStore nonces) (secret : String) where
  bound_user :
      (r : Reply (Option String)) (p : StatePayload) (u : String)
      → check_binding codec nonces secret r p ≡ ok u
      → (stored : String) × (r ≡ ok (some stored))
        × (p.user_id ≡ u)
        × ((stored ≡ "") ⊎ (stored ≡ u))
  bound_user (err e) p u h = absurd (ground (arith, h))
  bound_user (ok none) p u h = absurd (ground (arith, h))
  bound_user (ok (some stored)) p u h = (
    stored,
    refl,
    ground (arith, h),
    ground (arith, h, eq_iff stored "", eq_iff stored p.user_id),
  )

  redeemed :
      (now : ℕ) (o : Option StatePayload) (s : N) (u : String)
      → (redeem codec nonces secret now o s).0 ≡ ok u
      → (p : StatePayload) × (o ≡ some p)
        × (check_binding codec nonces secret (nonces.consume_nonce now p.nonce s).0 p ≡ ok u)
  redeemed now none s u h = absurd (ground (arith, h))
  redeemed now (some p) s u h = (p, refl, h)

  signed :
      (now : ℕ) (a b : Option String) (s : N) (u : String)
      → (check_signature codec nonces secret now a b s).0 ≡ ok u
      → (json : String) × (a ≡ some json)
        × (b ≡ some (codec.hmac secret json))
        × (check_signature codec nonces secret now a b s
            ≡ redeem codec nonces secret now (codec.unmarshal json) s)
  signed now none b s u h = absurd (ground (arith, h))
  signed now (some json) none s u h = absurd (ground (arith, h))
  signed now (some json) (some sig) s u h = elim (Bool-cases (sig == codec.hmac secret json)) [
    | inl same ↦
        (json, refl, ap some (eq_of_eq_true sig (codec.hmac secret json) same), rw same refl)
    | inr other ↦ absurd (ground (arith, other, h))
  ]

  parted :
      (now : ℕ) (o : Option (String × String)) (s : N) (u : String)
      → (check_parts codec nonces secret now o s).0 ≡ ok u
      → (a : String) × (b : String) × (o ≡ some (a, b))
        × ((check_signature codec nonces secret now (codec.decode a) (codec.decode b) s).0 ≡ ok u)
  parted now none s u h = absurd (ground (arith, h))
  parted now (some (a, b)) s u h = (a, b, refl, h)

  filled_state :
      (now : ℕ) (state : String) (s : N) (u : String)
      → (validate codec nonces secret now state s).0 ≡ ok u
      → (validate codec nonces secret now state s
          ≡ check_parts codec nonces secret now (split_first 46 state) s)
  unfolding validate
  filled_state now state s u h = elim (Bool-cases (state == "")) [
    | inl empty ↦ absurd (ground (arith, empty, h))
    | inr filled ↦ rw filled refl
  ]

  -- A token that is accepted has two parts, of which the second decodes to the HMAC of the first
  -- under the secret; the first says for which user, and its nonce was bound to that user, or to
  -- the empty text, at that time.
  pub validate-IsSigned :
      (now : ℕ) (state u : String) (s : N)
      → (validate codec nonces secret now state s).0 ≡ ok u
      → (a b json stored : String) × (p : StatePayload) × (split_first 46 state ≡ some (a, b))
        × (codec.decode a ≡ some json)
        × (codec.decode b ≡ some (codec.hmac secret json))
        × (codec.unmarshal json ≡ some p)
        × (p.user_id ≡ u)
        × (nonces.bound now p.nonce s ≡ some stored)
        × ((stored ≡ "") ⊎ (stored ≡ u))
  validate-IsSigned now state u s h =
      let whole = filled_state now state s u h in
      let (a, b, split, sig_ok) =
        parted now (split_first 46 state) s u (ap (λ r. r.0) (sym whole) ∙ h) in
      let (json, da, db, same) = signed now (codec.decode a) (codec.decode b) s u sig_ok in
      let (p, read, bind) =
        redeemed now (codec.unmarshal json) s u (ap (λ r. r.0) (sym same) ∙ sig_ok) in
      let (stored, answer, user, either) =
        bound_user (nonces.consume_nonce now p.nonce s).0 p u bind in
      (
        a,
        b,
        json,
        stored,
        p,
        split,
        da,
        db,
        read,
        user,
        laws.finds now p.nonce (some stored) s answer,
        either,
      )

  -- A text with the parts of a token is checked down to its nonce.
  reaches_nonce :
      (now : ℕ) (state a b json : String) (p : StatePayload) (s : N)
      → (state == "") ≡ false
      → split_first 46 state ≡ some (a, b)
      → codec.decode a ≡ some json
      → codec.decode b ≡ some (codec.hmac secret json)
      → codec.unmarshal json ≡ some p
      → validate codec nonces secret now state s ≡ redeem codec nonces secret now (some p) s
  unfolding validate
  reaches_nonce now state a b json p s filled split da db read =
      simp (filled, split, da, db, read, eq_refl (codec.hmac secret json)) refl

  is_filled :
      (now : ℕ) (state u : String) (s : N)
      → (validate codec nonces secret now state s).0 ≡ ok u
      → (state == "") ≡ false
  unfolding validate
  is_filled now state u s h = ground (arith, h)

  -- A token that was accepted is refused from then on.
  pub validate-IsSingleUse :
      (now later : ℕ) (state u u' : String) (s : N)
      → (validate codec nonces secret now state s).0 ≡ ok u
      → (validate codec nonces secret later state (validate codec nonces secret now state s).1).0
        ≢ ok u'
  validate-IsSingleUse now later state u u' s h again =
      let filled = is_filled now state u s h in
      let (a, b, json, stored, p, split, da, db, read, user, there, either) =
        validate-IsSigned now state u s h in
      let first = reaches_nonce now state a b json p s filled split da db read in
      let after = (validate codec nonces secret now state s).1 in
      let second = reaches_nonce later state a b json p after filled split da db read in
      let (stored, answer, _, _) =
        bound_user (nonces.consume_nonce now p.nonce s).0 p u (ap (λ r. r.0) (sym first) ∙ h) in
      let (stored', answer', _, _) =
        bound_user (nonces.consume_nonce later p.nonce after).0 p u'
          (ap (λ r. r.0) (sym second) ∙ again) in
      let left : after ≡ (nonces.consume_nonce now p.nonce s).1 = ap (λ r. r.1) first in
      let gone = laws.consumes now later p.nonce stored s answer in
      let found = laws.finds later p.nonce (some stored') after answer' in
      ground (arith, ap (λ x. nonces.bound later p.nonce x) left, gone, found)

  stored_state :
      (r : Reply (Unit {0})) (text state : String)
      → persisted codec nonces secret r text ≡ ok state
      → (state ≡ text) × (r ≡ ok tt)
  stored_state (err e) text state h = absurd (ground (arith, h))
  stored_state (ok done) text state h = (ground (arith, h), refl)

  issued :
      (now : ℕ) (n user state : String) (s : N)
      → (issue codec nonces secret now (some n) user s).0 ≡ ok state
      → (state
          ≡ signed_state codec nonces secret
              (record { nonce = n; user_id = user; issued_at = now }))
        × ((nonces.set_nonce now n user state_ttl s).0 ≡ ok tt)
  unfolding issue
  issued now n user state s h =
      stored_state (nonces.set_nonce now n user state_ttl s).0
        (signed_state codec nonces secret (record { nonce = n; user_id = user; issued_at = now }))
        state h

  -- A token that was issued is accepted for its user as long as its 15 minutes are not over, no other
  -- call has touched its nonce and the nonce store answers.
  pub validate-issue :
      (now later : ℕ) (n user state : String) (s s' : N) (answer : Option String)
      → (issue codec nonces secret now (some n) user s).0 ≡ ok state
      → now ≤ later
      → later < now + state_ttl
      → nonces.bound later n s'
        ≡ nonces.bound later n (issue codec nonces secret now (some n) user s).1
      → (nonces.consume_nonce later n s').0 ≡ ok answer
      → (validate codec nonces secret later state s').0 ≡ ok user
  unfolding issue
  validate-issue now later n user state s s' answer h after early untouched answered =
      let p : StatePayload = record { nonce = n; user_id = user; issued_at = now } in
      let json = codec.marshal p in
      let (text, stands) = issued now n user state s h in
      let a = codec.encode json in
      let b = codec.encode (codec.hmac secret json) in
      let split : split_first 46 state ≡ some (a, b) =
        rw text (split_first-concat 46 "." a b (ground arith) (is_codec.has_no_dot json)) in
      let filled : (state == "") ≡ false =
        rw text (concat_filled a (String.◌∷◌ "." b) (cons_filled "." b)) in
      let checked =
        reaches_nonce later state a b json p s' filled split (is_codec.decodes json)
          (is_codec.decodes (codec.hmac secret json)) (is_codec.reads p) in
      let found : answer ≡ some user =
        sym (laws.finds later n answer s' answered)
        ∙ untouched
        ∙ laws.sets now n user state_ttl later s stands after early in
      rw checked (ground (arith, answered, found, eq_refl user))
