-- ===== src/Store/Users.antt =====
-- The statements on `users` that write, and the listings.
use discord_support_hub.Prelude.Chars.{starts_folded}
use discord_support_hub.Prelude.{
  ℕ, String, Bool, true, false, not, ◌&&◌, ◌||◌, Option, none, some, List, [], ◌∷◌, ◌++◌, ◌==◌,
  find, select, update_where, holds, is_some, if◌then◌else◌,
}
use discord_support_hub.Domain.{User, UserType, is_agent}
use discord_support_hub.Store.Db.{
  Db, ok, err, conflict, database, not_found, Statement, scan, returning,
}
use discord_support_hub.Store.Spaces.{user_by_id}

pub record CreateUserParams : Type 0 where
  pub kind : UserType
  pub is_admin : Bool
  pub discord_user_id : Option String
  pub email : Option String
  pub display_name : Option String

abbrev pub new_user : String → CreateUserParams → ℕ → User
new_user id p now = record {
  id = id;
  kind = p.kind;
  is_admin = p.is_admin;
  discord_user_id = p.discord_user_id;
  email = p.email;
  display_name = p.display_name;
  provisioned_at = none;
  is_active = true;
  created_at = now;
  updated_at = now;
}

abbrev pub of_discord : String → User → Bool
of_discord d u = holds u.discord_user_id d

-- The constraint users_discord_user_id_key of the table; a null is in no conflict.
abbrev pub discord_taken : Option String → Db → Bool
discord_taken none db = false
discord_taken (some d) db = is_some (find (of_discord d) db.users)

-- CHECK (is_admin = FALSE OR type = 'agent') comes before UNIQUE (discord_user_id).
unfoldable pub create_user : String → CreateUserParams → Statement User
create_user id p now db =
    if p.is_admin && not (is_agent p.kind)
    then (err database, db)
    else if discord_taken p.discord_user_id db
    then (err conflict, db)
    else (ok (new_user id p now), record db { users = db.users ++ new_user id p now ∷ [] })

-- The column is CITEXT: the comparison is of the texts in lower case.
abbrev pub same_folded : String → String → Bool
same_folded x y = starts_folded x y && starts_folded y x

abbrev pub is_email_of : String → Option String → Bool
is_email_of m none = false
is_email_of m (some x) = same_folded x m

unfoldable pub get_user_by_email : String → Statement User
get_user_by_email m now db = (scan (find (λ u. is_email_of m u.email) db.users), db)

abbrev pub listed_agent : Bool → User → Bool
listed_agent include_inactive u = is_agent u.kind && (include_inactive || u.is_active)

unfoldable pub list_agents : Bool → Statement (List User)
list_agents include_inactive now db = (ok (select (listed_agent include_inactive) db.users), db)

abbrev pub deactivate : ℕ → User → User
deactivate now u = record u { is_active = false; updated_at = now }

unfoldable pub deactivate_user : String → Statement User
deactivate_user id now db = (
  returning (user_by_id id) (deactivate now) db.users,
  record db { users = update_where (user_by_id id) (deactivate now) db.users },
)

abbrev pub stamp_provisioned : ℕ → User → User
stamp_provisioned now u = record u { provisioned_at = some now; updated_at = now }

unfoldable pub set_user_provisioned_at : String → Statement User
set_user_provisioned_at id now db = (
  returning (user_by_id id) (stamp_provisioned now) db.users,
  record db { users = update_where (user_by_id id) (stamp_provisioned now) db.users },
)

abbrev pub link_discord : String → ℕ → User → User
link_discord d now u = record u { discord_user_id = some d; updated_at = now }

-- Another user has the identity.
abbrev pub linked_elsewhere : String → String → Db → Bool
linked_elsewhere id d db = is_some (find (λ u. of_discord d u && not (u.id == id)) db.users)

unfoldable pub update_discord_user_id : String → String → Statement (Unit {0})
update_discord_user_id id d now db =
    if is_some (find (user_by_id id) db.users)
    then (if linked_elsewhere id d db then (err conflict, db) else (
      ok tt,
      record db { users = update_where (user_by_id id) (link_discord d now) db.users },
    ))
    else (err not_found, db)
