-- ===== src/Users.antt =====
-- syncmaster/db/repositories/user.py, over the table user of syncmaster/db/models/user.py, and the
-- handlers of syncmaster/server/api/v1/users.py.
pub mod Login
pub mod Superusers
use syncmaster.Prelude.Tables.{get}
use syncmaster.Db.{User, user_key}
use syncmaster.Session.{
  M, except_map, map_integrity, map_entity, map_no_result, or_raise, one, violates, out_of_range,
  gets, ◌>>◌, ◌>>=◌, pure,
}
use syncmaster.Prelude.{
  String, ℕ, List, Option, Bool, true, find?, ◌+◌, str_eq, some, if◌then◌else◌, ◌||◌, is_some, ◌&&◌,
  keep, none, ◌++◌, nat_eq, ◌∷◌, [], fits, not,
}
use syncmaster.Errors.{
  Constraint, SyncmasterError, username_already_exists, syncmaster_error, ix__user__username,
  user_not_found, entity_not_found,
}
use syncmaster.Pagination.{Pagination, paginate as page_of}

unfoldable pub raise_error : Constraint → SyncmasterError
raise_error ix__user__username = username_already_exists
raise_error _ = syncmaster_error

-- The arguments of `create`.
pub record UserData : Type 0 where
  pub username : String
  pub email : Option String
  pub first_name : Option String
  pub middle_name : Option String
  pub last_name : Option String
  pub is_superuser : Bool

abbrev pub find_username : String → List User → Option User
find_username username users = find? (λ u. str_eq u.username username) users

-- `String(256)`
abbrev fits_or_none : Option String → Bool
fits_or_none none = true
fits_or_none (some s) = fits 256 s

unfoldable pub fits_user : UserData → Bool
fits_user d =
    fits 256 d.username
    && fits_or_none d.email
    && fits_or_none d.first_name
    && fits_or_none d.middle_name
    && fits_or_none d.last_name

-- `insert(User).values(…).returning(User)`: a user is active, and the name is unique.
unfoldable pub insert_user : UserData → M User
insert_user d db =
    let new : User = record {
      id = db.seq.user;
      username = d.username;
      email = d.email;
      first_name = d.first_name;
      last_name = d.last_name;
      middle_name = d.middle_name;
      is_superuser = d.is_superuser;
      is_active = true;
    } in
    let db' = record db { seq = record db.seq { user = db.seq.user + 1 } } in
    if not (fits_user d)
    then out_of_range db'
    else if is_some (find_username d.username db.users)
    then violates ix__user__username db'
    else pure new (record db' { users = db.users ++ new ∷ [] })

unfoldable pub create : UserData → M User
create d = except_map (map_integrity raise_error) (insert_user d)

unfoldable pub read_by_id : ℕ → M User
read_by_id user_id =
    except_map (map_entity user_not_found)
      (do or_raise entity_not_found (← gets (λ db. get user_key user_id db.users)))

unfoldable pub read_by_username : String → M User
read_by_username username =
    except_map (map_no_result entity_not_found)
      (do one (← gets (λ db. find_username username db.users)))

-- The similarity of names and the order by name are those of the database.
unfoldable pub paginate :
    (String → User → Bool)
    → (List User → List User)
    → ℕ
    → ℕ
    → Bool
    → Option String
    → M (Pagination User)
paginate similar order page page_size is_superuser search_query =
    gets (λ db. page_of (order (keep passes db.users)) page page_size)
  where
    matches : Option String → User → Bool
    matches none u = true
    matches (some s) u = str_eq s "" || similar s u

    passes : User → Bool
    passes u = matches search_query u && (is_superuser || u.is_active)

unfoldable pub get_users :
    (String → User → Bool)
    → (List User → List User)
    → User
    → ℕ
    → ℕ
    → Option String
    → M (Pagination User)
get_users similar order current_user page page_size search_query =
    paginate similar order page page_size current_user.is_superuser search_query

unfoldable pub read_user : ℕ → M User
read_user user_id = read_by_id user_id
