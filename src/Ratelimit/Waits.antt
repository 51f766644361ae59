-- ===== src/Ratelimit/Waits.antt =====
-- A penalty holds.
use Prim.Native.Char.{code}
use Prim.Native.String.append
use discord_support_hub.Prelude.{
  ℕ, ◌+◌, ◌≤◌, ◌<◌, String, ◌==◌, ◌<>◌, true, false, Option, none, some, [], ◌≡◌, ◌≢◌, refl, sym,
  ◌∙◌, arith, leb, ltb, eq_refl, Bool-cases, inl, inr, ap, eq_of_eq_true, Option-cases,
}
use discord_support_hub.Store.Db.{Reply, ok, err, infrastructure, rate_limit}
use discord_support_hub.Ratelimit.Doubles.{Numbers, IsRounded}
use discord_support_hub.Ratelimit.Hashes.{
  Cell, live, capacity_of, put, HashStore, IsHashStore, apply_all,
}
use discord_support_hub.Ratelimit.{
  Config, available, refilled, take, take_global, take_route, penalize_until, take_script,
  global_key, route_key, millis, at_most, max_penalty_duration, freeze, retry_after,
}

never_granted : (w : ℕ) (k : String) → ◌≢◌ {A = Reply (Unit {0})} (err (rate_limit w k)) (ok tt)
never_granted w k h = absurd (ground (arith, h))

never_ok : ◌≢◌ {A = Reply (Unit {0})} (err infrastructure) (ok tt)
never_ok h = absurd (ground (arith, h))

-- The key that was just written is alive.
live-put :
    {N : Type 0} (t : ℕ) (tokens : N) (last : ℕ) (k : Option ℕ) (c : Option (Cell N))
    → live t (put tokens last k (live t c)) ≡ put tokens last k (live t c)
live-put t tokens last k none = refl
live-put t tokens last k (some c) = elim (Option-cases c.expires) [
  | inl always ↦ simp always refl
  | inr (x, ends) ↦ elim (Bool-cases (ltb t x)) [
    | inl alive ↦ simp (ends, alive) refl
    | inr gone ↦ simp (ends, gone) refl
  ]
]

abbrev head_code : String → ℕ
head_code String.[] = 0
head_code (String.◌∷◌ c s) = code c

abbrev tail : String → String
tail String.[] = ""
tail (String.◌∷◌ c s) = s

keys_differ : (p k : String) → p <> ("route:" <> k) ≢ p <> "global"
keys_differ String.[] k e =
    let r : head_code ("" <> ("route:" <> k)) ≡ 114 =
      ap head_code (append.nil ("route:" <> k) ∙ append.cons "r" "oute:" k) in
    let g : head_code ("" <> "global") ≡ 103 = ap head_code (append.nil "global") in
    omega (arith, r, g, ap head_code e)
keys_differ (String.◌∷◌ c p) k e =
    keys_differ p k (ap tail (sym (append.cons c p ("route:" <> k)) ∙ e ∙ append.cons c p "global"))

-- A bucket that is empty and begins to fill later has no token.
none_before :
    {N : Type 0} (ns : Numbers N) (rounded : IsRounded ns) (capacity : ℕ) (rate : N) (t : ℕ)
    (c : Cell N)
    → c.bucket.tokens ≡ ns.of 0
    → t ≤ c.bucket.last_ms
    → ns.le (ns.of 0) rate ≡ true
    → ns.le (ns.of 1) (available ns capacity rate t (some c)) ≡ false
none_before ns rounded capacity rate t c empty ahead positive =
    let elapsed = ns.div (ns.sub (ns.of t) (ns.of c.bucket.last_ms)) (ns.of 1000) in
    let past = rounded.sub_signs _ _ (rounded.of_ordered t c.bucket.last_ms ahead) in
    let seconds = rounded.div_signs _ (ns.of 1000) past (rounded.of_ordered 0 1000 (omega arith)) in
    let gain = rounded.mul_signs elapsed rate seconds positive in
    let start : ns.le c.bucket.tokens (ns.of 0) ≡ true =
      rw empty (rounded.of_ordered 0 0 (omega arith)) in
    let filled = rounded.add_signs _ _ start gain in
    let low =
      rounded.trans _ _ _ (rounded.min_below (ns.of capacity) (refilled ns rate t c)) filled in
    elim (Bool-cases (ns.le (ns.of 1) (available ns capacity rate t (some c)))) [
      | inr short ↦ short
      | inl enough ↦ absurd (ground (arith, rounded.trans _ _ _ enough low, rounded.one_positive))
    ]

module _ {N V : Type 0} (ns : Numbers N) (rounded : IsRounded ns) (api : HashStore N V)
    (cfg : Config N) (laws : IsHashStore api) where
  route_differs : (r : String) → (global_key ns api cfg == route_key ns api cfg r) ≡ false
  route_differs r = elim (Bool-cases (global_key ns api cfg == route_key ns api cfg r)) [
    | inr other ↦ other
    | inl same ↦ absurd (keys_differ cfg.key_prefix r (sym (eq_of_eq_true _ _ same)))
  ]

  -- A key whose bucket begins to fill later gives nothing before.
  refused_before :
      (capacity : ℕ) (rate : N) (now : ℕ) (key : String) (v : V) (last x : ℕ) (k : Option ℕ)
      → api.cell key v
        ≡ some (record {
          bucket = record { tokens = ns.of 0; last_ms = last; capacity = k };
          expires = some x;
        })
      → ns.le (ns.of 0) rate ≡ true
      → millis now ≤ last
      → millis now < x
      → (take ns api cfg capacity rate now key v).0 ≢ ok tt
  unfolding take take_script
  refused_before capacity rate now key v last x k holds positive ahead alive h =
      let t = millis now in
      let c : Cell N = record {
        bucket = record { tokens = ns.of 0; last_ms = last; capacity = k };
        expires = some x;
      } in
      let on : ltb t x ≡ true = ground (arith, alive) in
      let there : live t (api.cell key v) ≡ some c = rw holds (rw on refl) in
      let need = ns.div (ns.sub (ns.of 1) (available ns capacity rate t (some c))) rate in
      let wait = retry_after ns api cfg (ns.ceil (ns.mul need (ns.of 1000))) in
      let short = none_before ns rounded capacity rate t c refl ahead positive in
      elim (laws.ran (take_script ns api cfg capacity rate t key) v) [
        | inr (inl late) ↦ absurd (ground (arith, h, late))
        | inr (inr lost) ↦ absurd (ground (arith, h, lost))
        | inl done ↦ absurd (never_granted wait key (sym (rw done (rw there (rw short refl))) ∙ h))
      ]

  frozen_cell :
      (t last ttl : ℕ) (key : String) (v : V)
      → let u = api.pexpire t key ttl (api.hset t key (ns.of 0) last none v) in
        (api.cell key u
          ≡ some (record {
            bucket = record {
              tokens = ns.of 0;
              last_ms = last;
              capacity = capacity_of (live t (api.cell key v));
            };
            expires = some (t + ttl);
          }))
        × ((k : String) → (k == key) ≡ false → api.cell k u ≡ api.cell k v)
  frozen_cell t last ttl key v = (
    rw (laws.pexpire_cell t key ttl (api.hset t key (ns.of 0) last none v) key) (
        rw (laws.hset_cell t key (ns.of 0) last none v key)
          (rw (eq_refl key) (rw (live-put t (ns.of 0) last none (api.cell key v)) refl))),
    λ k apart.
        rw (laws.pexpire_cell t key ttl (api.hset t key (ns.of 0) last none v) k)
          (rw apart (laws.hset_cell t key (ns.of 0) last none v k ∙ rw apart refl)),
  )

  -- Over numbers and hashes that meet their laws, where the refill rate of the global bucket is not
  -- negative: after a penalty of which all commands ran, and with no other call of the limiter in
  -- between, neither the global bucket nor the route's gives a token until the penalty's delay or
  -- five minutes are over, whichever is earlier.
  pub penalize_until-IsFrozen :
      (now later retry : ℕ) (route : String) (v : V)
      → ns.le (ns.of 0) cfg.global_refill_rate ≡ true
      → 0 < retry
      → (penalize_until ns api cfg now route retry v).0 ≡ ok tt
      → now ≤ later
      → millis later < millis (now + at_most max_penalty_duration retry)
      → let after = (penalize_until ns api cfg now route retry v).1 in
        ((take_global ns api cfg later after).0 ≢ ok tt)
        × ((take_route ns api cfg later route after).0 ≢ ok tt)
  unfolding penalize_until take_global take_route
  penalize_until-IsFrozen now later retry route v positive asked h on early =
      let t = millis now in
      let capped = at_most max_penalty_duration retry in
      let last = millis (now + capped) in
      let ttl = millis (capped + 10000000000) in
      let g = global_key ns api cfg in
      let key = route_key ns api cfg route in
      let fs = freeze ns api cfg now capped g (freeze ns api cfg now capped key []) in
      let some_delay : leb retry 0 ≡ false = ground (arith, asked) in
      let u = api.pexpire t g ttl (api.hset t g (ns.of 0) last none v) in
      let (first, _) = frozen_cell t last ttl g v in
      let (second, others) = frozen_cell t last ttl key u in
      let alive : millis later < t + ttl = omega (arith, early) in
      let ahead : millis later ≤ last = omega (arith, early) in
      elim (laws.executed fs v) [
        | inr (n, part) ↦ absurd (never_ok (sym (rw some_delay (rw part refl)) ∙ h))
        | inl whole ↦
            let after : (penalize_until ns api cfg now route retry v).1 ≡ apply_all fs v =
              rw some_delay (rw whole refl) in
            rw after (
              refused_before cfg.global_capacity cfg.global_refill_rate later g (apply_all fs v)
                  last (t + ttl) (capacity_of (live t (api.cell g v)))
                  (others g (route_differs route) ∙ first) positive ahead alive,
              refused_before cfg.default_route_capacity (ns.of cfg.default_route_capacity) later key
                  (apply_all fs v) last (t + ttl) (capacity_of (live t (api.cell key u))) second
                  (rounded.of_ordered 0 cfg.default_route_capacity (omega arith)) ahead alive,
            )
      ]
