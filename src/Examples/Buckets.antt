-- ===== src/Examples/Buckets.antt =====
-- The rate limiter over hashes in memory, at concrete inputs.
use discord_support_hub.Prelude.{
  ℕ, ◌+◌, ◌*◌, ◌-◌, String, true, ◌==◌, Option, none, ◌≡◌, ◌≢◌, refl, arith, inl, leb,
  if◌then◌else◌, ◌/◌,
}
use discord_support_hub.Store.Db.{ok}
use discord_support_hub.Ratelimit.Doubles.{Numbers, IsRounded}
use discord_support_hub.Ratelimit.Hashes.{
  Cell, HashStore, IsHashStore, put, expire_at, live, apply_all,
}
use discord_support_hub.Ratelimit
use discord_support_hub.Ratelimit.{default_config}
use discord_support_hub.Ratelimit.Waits.{penalize_until-IsFrozen}

-- Numbers that are rounded down to whole ones, and to 0 from below.
abbrev whole : Numbers ℕ
whole = record {
  of = λ n. n;
  add = λ a b. a + b;
  sub = λ a b. a - b;
  mul = λ a b. if leb a 0 then 0 else a * b;
  div = λ a b. if leb a 0 then 0 else a / b;
  min = λ a b. if leb a b then a else b;
  le = leb;
  floor = λ n. n;
  ceil = λ n. n;
}

none_of : (a : ℕ) → leb a 0 ≡ true → a ≡ 0
none_of a h = ground (arith, h)

whole-IsRounded : IsRounded whole
whole-IsRounded = record {
  trans = λ a b c ab bc. ground (arith, ab, bc);
  of_ordered = λ m n h. ground (arith, h);
  one_positive = refl;
  min_below = λ a b. ground arith;
  add_signs = λ a b l r. ground (arith, l, r);
  sub_signs = λ a b l. ground (arith, l);
  mul_signs = λ a b l r. rw (none_of a l) refl;
  div_signs = λ a b l r. rw (none_of a l) refl;
}

abbrev Hashes : Type 0
Hashes = String → Option (Cell ℕ)

abbrev memory_hashes : HashStore ℕ Hashes
memory_hashes = record {
  cell = λ k v. v k;
  hset = λ now key tokens last capacity v k.
      if k == key then put tokens last capacity (live now (v k)) else v k;
  pexpire = λ now key ttl v k. if k == key then expire_at (now + ttl) (live now (v k)) else v k;
  run = λ f v. (ok (f v).0, (f v).1);
  exec = λ cs v. (ok tt, apply_all cs v);
}

memory_hashes-IsHashStore : IsHashStore memory_hashes
memory_hashes-IsHashStore = record {
  hset_cell = λ now key tokens last capacity v k. refl;
  pexpire_cell = λ now key ttl v k. refl;
  ran = λ f v. inl refl;
  executed = λ cs v. inl refl;
}

-- Nothing was taken yet.
abbrev fresh : Hashes
fresh k = none

penalize_until-IsFrozen_example :
    let after =
      (Ratelimit.penalize_until whole memory_hashes
        (default_config whole)
        0
        "r"
        2000000000
        fresh).1 in
    ((Ratelimit.take_global whole memory_hashes (default_config whole) 1999000000 after).0 ≢ ok tt)
    × ((Ratelimit.take_route whole memory_hashes (default_config whole) 1999000000 "r" after).0
        ≢ ok tt)
unfolding Ratelimit.penalize_until
penalize_until-IsFrozen_example =
    penalize_until-IsFrozen whole whole-IsRounded memory_hashes (default_config whole)
      memory_hashes-IsHashStore 0 1999000000 2000000000 "r" fresh refl (omega arith) refl
      (omega arith) (omega arith)
