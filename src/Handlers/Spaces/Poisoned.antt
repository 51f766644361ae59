-- ===== src/Handlers/Spaces/Poisoned.antt =====
-- A filtered listing that finds no generation token takes the place of the unfiltered one.
use discord_support_hub.Prelude.{
  ℕ, String, Bool, true, false, Option, none, some, List, ◌≡◌, ◌≢◌, refl, ap, sym, subst, ◌∙◌, inl,
  inr, Bool-cases, ne_of_eq_false, arith,
}
use discord_support_hub.Domain.{Space}
use discord_support_hub.Store.Db.{Reply, ok, err, Statement}
use discord_support_hub.Effects.{Env, M, query, locking, continue, return}
use discord_support_hub.Api.Auth.{require_control_plane}
use discord_support_hub.Handlers.Spaces.{
  list_with, read_as, state_of, Cache, Answer, found, SpacesPage, page_of, SpaceResponse,
  ListSpacesRequest, is_filtered, on_listed, list_spaces_page, write_token, cache_key_spaces_list,
  cache_space_ttl, cache_key_spaces_list_gen,
}

-- What the cache answers at once after a set: what was set, if the set succeeded, and for another key
-- what it would have answered before. Nothing is said of a later time, when entries have expired.
pub record IsCache {B L : Type 0} (cache : Cache B L) : Type 0 where
  pub get_set :
      (k : String) (b : B) (t : ℕ) (l : L)
      → (cache.set k b t l).0 ≡ ok tt
      → (cache.get k (cache.set k b t l).1).0 ≡ ok (some b)
  pub get_other :
      (k k' : String) (b : B) (t : ℕ) (l : L)
      → k' ≢ k
      → (cache.get k' (cache.set k b t l).1).0 ≡ (cache.get k' l).0

found_injective : {A : Type 0} (a b : A) → ok (found a) ≡ ok (found b) → a ≡ b
found_injective a b h = ground (arith, h)

-- The write of this body would succeed now.
abbrev Writes : {L B : Type 0} → Cache B L → B → L → Type 0
Writes cache b l = (cache.set cache_key_spaces_list b cache_space_ttl l).0 ≡ ok tt

module _ {D L B : Type 0} (cache : Cache B L) (encode_page : SpacesPage → B)
    (encode_space : SpaceResponse → B) (decode_space : B → Option SpaceResponse) (one : B)
    (parse_time : String → Option ℕ) where
  abbrev pub listing : ListSpacesRequest → M (Env D L) (Answer B)
  listing = list_spaces_page cache encode_page encode_space decode_space one parse_time

  abbrev Cached : B → Env D L → Type 0
  Cached b e = (cache.get cache_key_spaces_list e.locks).0 ≡ ok (some b)

  -- An answer with this body leaves it as the unfiltered listing.
  abbrev Stays : B → Reply (Answer B) × Env D L → Type 0
  Stays b q = q.0 ≡ ok (found b) → Cached b q.1

  token-Stays :
      IsCache cache
      → (t : Bool) (b body : B) (e : Env D L) → (body ≡ b → Cached b e)
      → Stays b (
          continue
            (write_token cache encode_page encode_space decode_space one parse_time t e)
            (λ done. return (found body)))
  unfolding locking
  token-Stays laws true b body e there h =
      laws.get_other cache_key_spaces_list_gen cache_key_spaces_list one cache_space_ttl e.locks
        (ne_of_eq_false _ _ refl)
      ∙ there (found_injective body b h)
  token-Stays laws false b body e there h = there (found_injective body b h)

  listed-Stays :
      IsCache cache
      → (r : ListSpacesRequest) (listed : Reply (List Space)) (b : B) (e : Env D L)
      → Writes cache b e.locks
      → Stays b (
          on_listed cache encode_page encode_space decode_space one parse_time r
            cache_key_spaces_list listed e)
  unfolding locking
  listed-Stays laws r (err x) b e writes = λ h. cc
  listed-Stays laws r (ok spaces) b e writes =
      let body = encode_page (page_of spaces) in
      token-Stays laws (is_filtered r) b body _ (λ same.
        subst
          (λ x.
            (cache.get cache_key_spaces_list
              (cache.set cache_key_spaces_list x cache_space_ttl e.locks).1).0
            ≡ ok (some b))
          (sym same) (laws.get_set cache_key_spaces_list b cache_space_ttl e.locks writes))

  query_keeps_locks : {A : Type 0} (st : Statement A) (e : Env D L) → (query st e).1.locks ≡ e.locks
  unfolding query
  query_keeps_locks st e = ground arith

  without_token :
      IsCache cache
      → (r : ListSpacesRequest) (b : B) (e : Env D L) → is_filtered r ≡ true
      → (cache.get cache_key_spaces_list_gen e.locks).0 ≡ ok none
      → Writes cache b (cache.get cache_key_spaces_list_gen e.locks).1
      → Stays b (listing r e)
  unfolding list_spaces_page locking
  without_token laws r b e filtered absent writes =
      let st =
        list_with r.merchant_id (read_as state_of r.lifecycle_state)
          (read_as parse_time r.cursor) in
      let missed = record e { locks = (cache.get cache_key_spaces_list_gen e.locks).1 } in
      elim (Bool-cases (require_control_plane r.principal)) [
        | inl admitted ↦
            simp (admitted, filtered, absent)
              (listed-Stays laws r (query st missed).0 b (query st missed).1 (
                ap (λ l. (cache.set cache_key_spaces_list b cache_space_ttl l).0)
                  (query_keeps_locks st missed)
                ∙ writes))
        | inr barred ↦ simp barred (λ h. cc)
      ]

  served :
      (later : ListSpacesRequest) (e : Env D L) (b : B)
      → is_filtered later ≡ false
      → require_control_plane later.principal ≡ true
      → Cached b e
      → (listing later e).0 ≡ ok (found b)
  unfolding list_spaces_page locking
  served later e b plain admitted there = simp (admitted, plain, there) refl

  -- Over a cache that meets its laws: where the generation token is absent and the write of the page
  -- to the cache succeeds, the page that answers a filtered listing also answers an admitted
  -- unfiltered listing that runs right after it, whatever its cursor.
  pub list_spaces_page-IsPoisoned :
      IsCache cache
      → (r later : ListSpacesRequest) (e : Env D L) (b : B) → is_filtered r ≡ true
      → is_filtered later ≡ false
      → require_control_plane later.principal ≡ true
      → (cache.get cache_key_spaces_list_gen e.locks).0 ≡ ok none
      → (cache.set cache_key_spaces_list b cache_space_ttl
          (cache.get cache_key_spaces_list_gen e.locks).1).0
        ≡ ok tt
      → (listing r e).0 ≡ ok (found b)
      → (listing later (listing r e).1).0 ≡ ok (found b)
  list_spaces_page-IsPoisoned laws r later e b filtered plain admitted absent writes answered =
      served later (listing r e).1 b plain admitted
        (without_token laws r b e filtered absent writes answered)
