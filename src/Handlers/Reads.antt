-- ===== src/Handlers/Reads.antt =====
-- internal/api/handlers/jobs.go: GetJob; and internal/api/handlers/transversal.go: the members of a
-- space, the directory and the audit log.
use discord_support_hub.Prelude.{
  ℕ, String, ◌==◌, ◌<>◌, Option, none, some, List, [], ◌∷◌, if◌then◌else◌, length,
}
use mathlib.Core.Option
use discord_support_hub.Domain.{Job, SpaceMember, AuditEntry, Space}
use discord_support_hub.Store.Db.{Reply, ok, err, not_found, database, Statement}
use discord_support_hub.Store.Jobs.{get_job_by_id}
use discord_support_hub.Store.Spaces.{get_space_by_id}
use discord_support_hub.Store.Members.{list_space_members}
use discord_support_hub.Store.Listings.{DirectoryEntry, list_directory, list_audit_entries}
use discord_support_hub.Effects.{Env, M, ◌>>=◌, return, try, query}
use discord_support_hub.Api.Auth.{Principal, require_control_plane}
use discord_support_hub.Handlers.Spaces.{Answer, found, refused, is_full}

abbrev pub guarded : {S A : Type 0} → Option Principal → M S (Answer A) → M S (Answer A)
guarded p body = if require_control_plane p then body else return (refused 403 "forbidden")

abbrev pub with_id : {S A : Type 0} → String → M S (Answer A) → M S (Answer A)
with_id id body = if id == "" then return (refused 400 "validation_error") else body

-- A row that is loaded, or 404 or 500.
abbrev pub answer_loaded : {S A B : Type 0} → Reply A → (A → M S (Answer B)) → M S (Answer B)
answer_loaded (err not_found) k = return (refused 404 "not_found")
answer_loaded (err x) k = return (refused 500 "internal_error")
answer_loaded (ok a) k = k a

abbrev pub answer_listed : {S A B : Type 0} → Reply A → (A → B) → M S (Answer B)
answer_listed (err x) f = return (refused 500 "internal_error")
answer_listed (ok a) f = return (found (f a))

-- An empty query parameter is none.
abbrev pub given : String → Option String
given s = if s == "" then none else some s

pub record Page (A C : Type 0) : Type 0 where
  pub items : List A
  pub next_cursor : Option C

abbrev pub last_of : {A : Type 0} → List A → Option A
last_of [] = none
last_of (x ∷ []) = some x
last_of (x ∷ y ∷ rest) = last_of (y ∷ rest)

-- A full page of 50 names its last row.
abbrev pub paged : {A C : Type 0} → (A → C) → List A → Page A C
paged cursor rows = record {
  items = rows;
  next_cursor = if is_full (length rows) then Option.map cursor (last_of rows) else none;
}

abbrev pub directory_cursor : DirectoryEntry → String
directory_cursor e = (e.space_id <> ":") <> e.user_id

pub record DirectoryRequest : Type 0 where
  pub principal : Option Principal
  pub user_id : String
  pub space_id : String
  pub merchant_id : String
  pub cursor : String

pub record AuditRequest : Type 0 where
  pub principal : Option Principal
  pub merchant_id : String
  pub space_id : String
  pub action : String
  pub since : String
  pub cursor : String

-- How the database reads a time is a parameter, and how `fmt.Sscanf` reads a number is another. A
-- parameter that is no time fails the query; a cursor that is no number is left out.
module _ (parse_time : String → Option ℕ) (scan_number : String → Option ℕ) where
  abbrev pub directory_with : DirectoryRequest → Option (Option ℕ) → Statement (List DirectoryEntry)
  directory_with r none now db = (err database, db)
  directory_with r (some c) now db =
      list_directory
        (record {
          user_id = given r.user_id;
          space_id = given r.space_id;
          merchant_id = given r.merchant_id;
          cursor = c;
          limit = 50;
        })
        now db

  abbrev pub audit_with : AuditRequest → Option (Option ℕ) → Statement (List AuditEntry)
  audit_with r none now db = (err database, db)
  audit_with r (some since) now db =
      list_audit_entries
        (record {
          merchant_id = given r.merchant_id;
          space_id = given r.space_id;
          action = given r.action;
          since = since;
          cursor = if r.cursor == "" then none else scan_number r.cursor;
          limit = 50;
        })
        now db

  -- An empty parameter is left out.
  abbrev pub time_of : String → Option (Option ℕ)
  time_of s = if s == "" then some none else Option.map some (parse_time s)

  module _ {D L : Type 0} where
    unfoldable pub get_directory :
        DirectoryRequest → M (Env D L) (Answer (Page DirectoryEntry String))
    get_directory r = guarded r.principal (do
      entries ← try (query (directory_with r (time_of r.cursor)))
      answer_listed entries (paged directory_cursor))

    unfoldable pub get_audit : AuditRequest → M (Env D L) (Answer (Page AuditEntry ℕ))
    get_audit r = guarded r.principal (do
      entries ← try (query (audit_with r (time_of r.since)))
      answer_listed entries (paged (λ a. a.id)))

module _ {D L : Type 0} where
  unfoldable pub get_job : Option Principal → String → M (Env D L) (Answer Job)
  get_job p id = guarded p (
      with_id id
        (do job ← try (query (get_job_by_id id)); answer_loaded job (λ j. return (found j))))

  abbrev pub members_of : String → Space → M (Env D L) (Answer (List SpaceMember))
  members_of id sp = do
    members ← try (query (list_space_members id))
    answer_listed members (λ rows. rows)

  unfoldable pub list_space_members_page :
      Option Principal → String → M (Env D L) (Answer (List SpaceMember))
  list_space_members_page p id =
      guarded p
        (with_id id (do sp ← try (query (get_space_by_id id)); answer_loaded sp (members_of id)))
