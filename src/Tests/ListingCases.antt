-- ===== src/Tests/ListingCases.antt =====
-- The groups that users see, and logins.
use syncmaster.Listings.Shown.{is_shown, read_connections-shown}
use syncmaster.Listings.{read_connections, item_of}
use syncmaster.Connections.Api.{ReadConnection}
use syncmaster.Credentials.{Fernet, read_schema}
use syncmaster.Pagination.{Pagination}
use syncmaster.Access.{is_none, group_permission}
use syncmaster.Groups.Visible.{listed, shows, read_groups-permission}
use syncmaster.Session.{ok}
use syncmaster.Users.Login.{read_or_create, read_or_create-again}
use syncmaster.Groups.Listing.{GroupItem, read_groups}
use syncmaster.Db.{User, Db, Group, Connection}
use syncmaster.Users.{UserData}
use syncmaster.Prelude.Tables.{get}
use syncmaster.Prelude.{
  List, String, none, ◌≡◌, false, Bool, any, refl, not, some, keep, all, map, ◌==◌, true, ◌∷◌, [],
}
use syncmaster.Pagination.{paginate}
use syncmaster.Tests.Sample.{sample, bob, root, login}
use syncmaster.Groups

abbrev no_match : String → Group → Bool
no_match _ _ = false

abbrev as_stored : List GroupItem → List GroupItem
as_stored xs = xs

read_groups-permission_example :
    (read_groups no_match as_stored bob 1 20 none none sample
      ≡ (ok (paginate (listed no_match as_stored 2 sample) 1 20), sample))
    × (any (shows 1) (listed no_match as_stored 2 sample)
        ≡ not (is_none (group_permission Groups.group_policy bob 1 sample)))
unfolding get
read_groups-permission_example =
    read_groups-permission no_match as_stored (λ p xs. refl) bob refl 1 20 sample 1 refl

abbrev eve : UserData
eve = record {
  username = "eve";
  email = none;
  first_name = none;
  middle_name = none;
  last_name = none;
  is_superuser = false;
}

read_or_create-again_example :
    (u : User) × (db' : Db) × (read_or_create eve sample ≡ (ok u, db'))
    × (u.username ≡ "eve")
    × (read_or_create eve db' ≡ (ok u, db'))
unfolding syncmaster.Users.fits_user
read_or_create-again_example = read_or_create-again eve eve sample refl refl

abbrev fernet : Fernet
fernet = record { encrypt = λ now a. "token"; decrypt = λ token. some login }

abbrev no_connection : String → Connection → Bool
no_connection _ _ = false

abbrev stored_order : List Connection → List Connection
stored_order xs = xs

abbrev connection_page : Pagination Connection
connection_page = paginate (keep (λ c. c.group_id == 1) sample.connections) 1 20

-- The two connections of the first group, and the credentials that decrypt.
abbrev shown_items : List ReadConnection
shown_items =
    map (item_of ((1, login) ∷ (2, login) ∷ [])) (keep (λ c. c.group_id == 1) sample.connections)

listed_connections :
    read_connections fernet no_connection stored_order 1 root 1 20 none none sample
    ≡ (ok (shown_items, connection_page), sample)
unfolding read_connections syncmaster.Access.get_group_permission get
    syncmaster.Listings.paginate_connections paginate syncmaster.Credentials.read_bulk
listed_connections = refl

read_connections-shown_example : all (is_shown 1) shown_items ≡ true
unfolding read_schema
read_connections-shown_example =
    read_connections-shown fernet no_connection stored_order (λ p xs. refl) root 1 1 20 none none
      sample sample shown_items connection_page listed_connections
