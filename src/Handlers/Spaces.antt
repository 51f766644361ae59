-- ===== src/Handlers/Spaces.antt =====
-- internal/api/handlers/spaces.go: ListSpaces and GetSpace, which read through the cache.
pub mod Poisoned
use discord_support_hub.Prelude.{
  ℕ, String, Bool, true, false, length, map, leb, not, ◌==◌, ◌&&◌, ◌||◌, ◌<>◌, Option, none, some,
  List, [], ◌∷◌, if◌then◌else◌,
}
use mathlib.Core.Option
use discord_support_hub.Domain.{Space, SpaceLifecycleState, AclState, state_text}
use discord_support_hub.Store.Db.{Reply, ok, err, not_found, database, Statement}
use discord_support_hub.Store.Spaces.{list_spaces, get_space_by_id}
use discord_support_hub.Effects.{Env, M, ◌>>=◌, ◌>>◌, return, try, ignore, query, locking}
use discord_support_hub.Api.Auth.{Principal, require_control_plane}

-- `cache.Cache`; an empty `Option` is a miss. `B` is the bytes.
pub record Cache (B L : Type 0) : Type 0 where
  pub get : String → L → Reply (Option B) × L
  pub set : String → B → ℕ → L → Reply (Unit {0}) × L

-- An answer with status 200 and its body, or a refusal with its status and code.
pub data Answer (A : Type 0) : Type 0 where
  found : A → Answer A
  refused : (status : ℕ) (code : String) → Answer A

pub record SpaceResponse : Type 0 where
  pub id : String
  pub merchant_id : String
  pub name : String
  pub discord_channel_id : Option String
  pub discord_category_id : Option String
  pub lifecycle_state : String
  pub acl_state : String
  pub last_activity_at : Option ℕ
  pub created_at : ℕ
  pub archived_at : Option ℕ

abbrev pub acl_text : AclState → String
acl_text AclState.pending = "pending"
acl_text AclState.applied = "applied"
acl_text AclState.degraded = "degraded"
acl_text AclState.failed = "failed"

abbrev pub to_space_response : Space → SpaceResponse
to_space_response s = record {
  id = s.id;
  merchant_id = s.merchant_id;
  name = s.name;
  discord_channel_id = s.discord_channel_id;
  discord_category_id = s.discord_category_id;
  lifecycle_state = state_text s.lifecycle_state;
  acl_state = acl_text s.acl_state;
  last_activity_at = s.last_activity_at;
  created_at = s.created_at;
  archived_at = s.archived_at;
}

pub record SpacesPage : Type 0 where
  pub items : List SpaceResponse
  pub next_cursor : Option ℕ

-- The query parameters; an absent one is empty.
pub record ListSpacesRequest : Type 0 where
  pub principal : Option Principal
  pub lifecycle_state : String
  pub merchant_id : String
  pub cursor : String

abbrev pub cache_key_spaces_list : String
cache_key_spaces_list = "spaces:list"

abbrev pub cache_key_spaces_list_gen : String
cache_key_spaces_list_gen = "spaces:list:gen"

-- Five minutes, in milliseconds.
abbrev pub cache_space_ttl : ℕ
cache_space_ttl = 300000

abbrev pub is_filtered : ListSpacesRequest → Bool
is_filtered r = not (r.lifecycle_state == "") || not (r.merchant_id == "")

abbrev pub part : String → String → String
part name value = if value == "" then "" else name <> value

abbrev pub filtered_key : ListSpacesRequest → String
filtered_key r =
    (cache_key_spaces_list <> part ":lc=" r.lifecycle_state) <> part ":m=" r.merchant_id

-- The labels of the enumerated type in the tables.
abbrev pub state_of : String → Option SpaceLifecycleState
state_of s =
    if s == "active"
    then some SpaceLifecycleState.active
    else if s == "resolved"
    then some SpaceLifecycleState.resolved
    else if s == "archived"
    then some SpaceLifecycleState.archived
    else none

-- A parameter that the database cannot read as the type of its column fails the query.
abbrev pub read_as : {A : Type 0} → (String → Option A) → String → Option (Option A)
read_as parse s = if s == "" then some none else Option.map some (parse s)

abbrev pub list_with :
    String → Option (Option SpaceLifecycleState) → Option (Option ℕ) → Statement (List Space)
list_with m (some l) (some c) now db =
    list_spaces
      (record {
        lifecycle_state = l;
        merchant_id = if m == "" then none else some m;
        cursor = c;
        limit = 50;
      })
      now db
list_with m none c now db = (err database, db)
list_with m (some l) none now db = (err database, db)

-- As many as the limit.
abbrev pub is_full : ℕ → Bool
is_full n = leb n 50 && leb 50 n

abbrev pub last_created : List Space → Option ℕ
last_created [] = none
last_created (s ∷ []) = some s.created_at
last_created (s ∷ t ∷ rest) = last_created (t ∷ rest)

abbrev pub page_of : List Space → SpacesPage
page_of spaces = record {
  items = map to_space_response spaces;
  next_cursor = if is_full (length spaces) then last_created spaces else none;
}

-- Where a listing looks, or that it does not; and where it writes.
abbrev pub CacheKey : Type 0
CacheKey = Bool × String

-- A filtered listing without the generation token does not read the cache, and keeps the key of the
-- unfiltered one.
abbrev pub on_gen : {B : Type 0} → ListSpacesRequest → Reply (Option B) → CacheKey
on_gen r (ok (some gen)) = (true, filtered_key r)
on_gen r (ok none) = (false, cache_key_spaces_list)
on_gen r (err x) = (false, cache_key_spaces_list)

abbrev pub decoded_space :
    {B : Type 0} → (B → Option SpaceResponse) → Reply (Option B) → Option SpaceResponse
decoded_space decode (ok (some body)) = decode body
decoded_space decode (ok none) = none
decoded_space decode (err x) = none

-- The JSON coding is a parameter; `one` is the token's bytes, and `parse_time` is how the database
-- reads a cursor.
module _ {D L B : Type 0} (cache : Cache B L) (encode_page : SpacesPage → B)
    (encode_space : SpaceResponse → B) (decode_space : B → Option SpaceResponse) (one : B)
    (parse_time : String → Option ℕ) where
  abbrev pub key_for : ListSpacesRequest → M (Env D L) CacheKey
  key_for r =
      if is_filtered r
      then (do gen ← try (locking (cache.get cache_key_spaces_list_gen)); return (on_gen r gen))
      else return (true, cache_key_spaces_list)

  abbrev pub cache_read : CacheKey → M (Env D L) (Reply (Option B))
  cache_read (true, key) = try (locking (cache.get key))
  cache_read (false, key) = return (ok none)

  abbrev pub write_token : Bool → M (Env D L) (Unit {0})
  write_token true = ignore (locking (cache.set cache_key_spaces_list_gen one cache_space_ttl))
  write_token false = return tt

  abbrev pub on_listed : ListSpacesRequest → String → Reply (List Space) → M (Env D L) (Answer B)
  on_listed r key (err x) = return (refused 500 "internal_error")
  on_listed r key (ok spaces) = do
    ignore (locking (cache.set key (encode_page (page_of spaces)) cache_space_ttl))
    write_token (is_filtered r)
    return (found (encode_page (page_of spaces)))

  abbrev pub list_fallback : ListSpacesRequest → String → M (Env D L) (Answer B)
  list_fallback r key = do
    spaces ← try (
        query (
          list_with r.merchant_id (read_as state_of r.lifecycle_state)
            (read_as parse_time r.cursor)))
    on_listed r key spaces

  abbrev pub on_cached : ListSpacesRequest → String → Reply (Option B) → M (Env D L) (Answer B)
  on_cached r key (ok (some body)) = return (found body)
  on_cached r key (ok none) = list_fallback r key
  on_cached r key (err x) = list_fallback r key

  unfoldable pub list_spaces_page : ListSpacesRequest → M (Env D L) (Answer B)
  list_spaces_page r =
      if require_control_plane r.principal
      then (do key ← key_for r; cached ← cache_read key; on_cached r key.1 cached)
      else return (refused 403 "forbidden")

  abbrev pub space_found : String → Reply Space → M (Env D L) (Answer SpaceResponse)
  space_found key (err not_found) = return (refused 404 "not_found")
  space_found key (err x) = return (refused 500 "internal_error")
  space_found key (ok sp) = do
    ignore (locking (cache.set key (encode_space (to_space_response sp)) cache_space_ttl))
    return (found (to_space_response sp))

  abbrev pub space_fallback : String → M (Env D L) (Answer SpaceResponse)
  space_fallback id = do sp ← try (query (get_space_by_id id)); space_found ("spaces:id:" <> id) sp

  abbrev pub on_cached_space : String → Option SpaceResponse → M (Env D L) (Answer SpaceResponse)
  on_cached_space id (some sp) = return (found sp)
  on_cached_space id none = space_fallback id

  unfoldable pub get_space : Option Principal → String → M (Env D L) (Answer SpaceResponse)
  get_space p id =
      if require_control_plane p
      then if id == "" then return (refused 400 "validation_error") else (do
        cached ← try (locking (cache.get ("spaces:id:" <> id)))
        on_cached_space id (decoded_space decode_space cached))
      else return (refused 403 "forbidden")
