-- ===== src/Examples/Listing.antt =====
-- The listing of spaces at concrete inputs, with a cache in memory.
use discord_support_hub.Prelude.{
  String, false, ◌==◌, Option, none, some, List, [], ◌∷◌, ◌≡◌, ◌≢◌, refl, ap, inl, inr, Bool-cases,
  ne_of_eq_false, eq_of_eq_true, page, select, if◌then◌else◌,
}
use discord_support_hub.Store.Db.{Reply, ok}
use discord_support_hub.Store.Spaces.{list_spaces}
use discord_support_hub.Effects.{Env, query, locking}
use discord_support_hub.Api.Auth.{Principal, service, require_control_plane}
use discord_support_hub.Handlers.Spaces.{
  Cache, Answer, found, SpacesPage, page_of, SpaceResponse, ListSpacesRequest, list_spaces_page,
}
use discord_support_hub.Handlers.Spaces.Poisoned.{IsCache, listing, list_spaces_page-IsPoisoned}
use discord_support_hub.Examples.Hub.{hub_db}

-- The body is the page, and a space is a page of its own.
abbrev Entries : Type 0
Entries = String → Option SpacesPage

abbrev entries : Cache SpacesPage Entries
entries = record {
  get = λ k l. (ok (l k), l);
  set = λ k b t l. (ok tt, λ j. if j == k then some b else l j);
}

at_key : (k : String) (x y : Option SpacesPage) → (if k == k then x else y) ≡ x
at_key k x y = elim (Bool-cases (k == k)) [
  | inl same ↦ simp same refl
  | inr other ↦ absurd (ne_of_eq_false k k other refl)
]

at_other : (j k : String) (x y : Option SpacesPage) → j ≢ k → (if j == k then x else y) ≡ y
at_other j k x y differ = elim (Bool-cases (j == k)) [
  | inl same ↦ absurd (differ (eq_of_eq_true j k same))
  | inr other ↦ simp other refl
]

entries-IsCache : IsCache entries
entries-IsCache = record {
  get_set = λ k b t l done. ap ok (at_key k (some b) (l k));
  get_other = λ k j b t l other. ap ok (at_other j k (some b) (l j) other);
}

abbrev alone : SpaceResponse → SpacesPage
alone s = record { items = s ∷ []; next_cursor = none }

abbrev first_of : List SpaceResponse → Option SpaceResponse
first_of [] = none
first_of (s ∷ rest) = some s

abbrev backoffice : Principal
backoffice = record {
  kind = service;
  key_id = "k1";
  user_id = "";
  is_admin = false;
  key_scope = "backoffice";
}

abbrev of_other_merchant : ListSpacesRequest
of_other_merchant = record {
  principal = some backoffice;
  lifecycle_state = "";
  merchant_id = "m2";
  cursor = "";
}

abbrev all_spaces : ListSpacesRequest
all_spaces = record {
  principal = some backoffice;
  lifecycle_state = "";
  merchant_id = "";
  cursor = "";
}

abbrev empty_cache : Env (Unit {0}) Entries
empty_cache = record { db = hub_db none; faults = []; now = 9; discord = tt; locks = λ k. none }

abbrev answer :
    ListSpacesRequest → Env (Unit {0}) Entries → Reply (Answer SpacesPage) × Env (Unit {0}) Entries
answer = listing entries (λ p. p) alone (λ p. first_of p.items) (page_of []) (λ s. none)

-- The hub has a space, and the listing is empty.
list_spaces_page-IsPoisoned_example :
    (answer all_spaces (answer of_other_merchant empty_cache).1).0 ≡ ok (found (page_of []))
unfolding list_spaces_page list_spaces query locking require_control_plane page select
list_spaces_page-IsPoisoned_example =
    list_spaces_page-IsPoisoned entries (λ p. p) alone (λ p. first_of p.items) (page_of [])
      (λ s. none) entries-IsCache of_other_merchant all_spaces empty_cache (page_of []) refl refl
      refl refl refl refl
