-- ===== src/Examples/MemoryValkey.antt =====
-- A Valkey in memory, that meets the laws and never fails.
use discord_support_hub.Prelude.{
  ℕ, ◌+◌, ◌≤◌, String, Bool, true, false, ◌==◌, Option, none, some, ◌≡◌, refl, arith, inl, ltb,
  if◌then◌else◌,
}
use discord_support_hub.Store.Db.{Reply, ok}
use discord_support_hub.Valkey.{Valkey, IsValkey, written, cleared}

-- What a key holds, and when it expires.
abbrev pub Keys : Type 0
Keys = String → Option (String × ℕ)

abbrev pub alive : ℕ → Option (String × ℕ) → Option String
alive t none = none
alive t (some (x, expires)) = if ltb t expires then some x else none

abbrev pub put : String → Option (String × ℕ) → Keys → Keys
put key e v k = if k == key then e else v k

abbrev pub no_keys : Keys
no_keys k = none

abbrev pub add_if_free : Option String → ℕ → String → String → ℕ → Keys → Reply Bool × Keys
add_if_free none now key val ttl v = (ok true, put key (some (val, now + ttl)) v)
add_if_free (some x) now key val ttl v = (ok false, v)

unfoldable pub memory_valkey : Valkey Keys
memory_valkey = record {
  get = λ t k v. alive t (v k);
  set_nx = λ now key val ttl v. add_if_free (alive now (v key)) now key val ttl v;
  set = λ now key val ttl v. (ok tt, put key (some (val, now + ttl)) v);
  del = λ key v. put key none v;
  run = λ f v. (ok (f v).0, (f v).1);
}

alive_expired : (s t : ℕ) (e : Option (String × ℕ)) → s ≤ t → alive s e ≡ none → alive t e ≡ none
alive_expired s t none early h = refl
alive_expired s t (some (x, expires)) early h = ground (arith, h)

alive_held :
    (s t : ℕ) (e : Option (String × ℕ)) (x : String)
    → s ≤ t
    → alive t e ≡ some x
    → alive s e ≡ some x
alive_held s t none x early h = absurd (ground (arith, h))
alive_held s t (some (y, expires)) x early h = ground (arith, h)

put_get :
    (key val : String) (expires t : ℕ) (k : String) (v : Keys)
    → alive t (put key (some (val, expires)) v k) ≡ written key val expires t k (alive t (v k))
put_get key val expires t k v = ground arith

clear_get :
    (key : String) (t : ℕ) (k : String) (v : Keys)
    → alive t (put key none v k) ≡ cleared key k (alive t (v k))
clear_get key t k v = ground arith

free_when_granted :
    (o : Option String) (now : ℕ) (key val : String) (ttl : ℕ) (v : Keys)
    → (add_if_free o now key val ttl v).0 ≡ ok true
    → (o ≡ none) × ((add_if_free o now key val ttl v).1 ≡ put key (some (val, now + ttl)) v)
free_when_granted none now key val ttl v h = (refl, refl)
free_when_granted (some x) now key val ttl v h = absurd (ground (arith, h))

other_key :
    (o : Option String) (now : ℕ) (key val : String) (ttl t : ℕ) (k : String) (v : Keys)
    → (k == key) ≡ false
    → alive t ((add_if_free o now key val ttl v).1 k) ≡ alive t (v k)
other_key none now key val ttl t k v h = rw h refl
other_key (some x) now key val ttl t k v h = refl

pub memory_valkey-IsValkey : IsValkey memory_valkey
unfolding memory_valkey
memory_valkey-IsValkey = record {
  expired = λ s t k v. alive_expired s t (v k);
  held = λ s t k x v. alive_held s t (v k) x;
  set_free = λ now key val ttl v h.
      let (free, made) = free_when_granted (alive now (v key)) now key val ttl v h in
      (free, λ t k after. rw made (put_get key val (now + ttl) t k v));
  set_held = λ now key val ttl v x h. (rw h (λ bad. ground (arith, bad)), λ t k. rw h refl);
  set_other = λ now key val ttl v t k h. other_key (alive now (v key)) now key val ttl t k v h;
  set_ok = λ now key val ttl v h t k after. put_get key val (now + ttl) t k v;
  deleted = λ key v t k. clear_get key t k v;
  ran = λ f v. inl refl;
}
