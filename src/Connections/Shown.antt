-- ===== src/Connections/Shown.antt =====
-- What the responses of syncmaster/server/api/v1/connections.py show of credentials.
use syncmaster.Connections.Api.{or_none}
use syncmaster.Access.{get_group_permission, get_resource_permission, is_none, below, write, delete}
use syncmaster.Connections
use syncmaster.Connections.{connection_model}
use syncmaster.Connections.Api.{
  ConnectionBody, ReadConnection, respond, create_connection, read_connection, write_connection,
  update_connection, copy_connection,
}
use mathlib.Core.Option
use syncmaster.Credentials
use syncmaster.Credentials.{Auth, Fernet, read_schema}
use syncmaster.Db.{Connection, User, Db}
use syncmaster.Errors.{action_not_allowed, connection_not_found, group_not_found}
use syncmaster.Listings.Shown.{hides_secrets, hides-read_schema}
use syncmaster.Prelude.{Bool, Option, String, ℕ, ◌&&◌, if◌then◌else◌, ◌≡◌, none, some, true}
use syncmaster.Session.{pure, unit_of_work, ◌>>=◌, ◌>>◌, M, ok}
use syncmaster.Session.Returns.{Returns, bind-Returns, guarded-Returns}

-- No secret field of the type of the credentials is in the response.
abbrev pub Hidden : ReadConnection → Type 0
Hidden r = hides_secrets r.auth_data ≡ true

respond-Hidden : (c : Connection) (o : Option Auth) → Returns Hidden (respond c o)
respond-Hidden c o = record {
  returns = λ db db' r h.
      let same : ◌≡◌ {A = Option Auth} (Option.map read_schema o) r.auth_data = cc h in
      rw (← same) (hides-read_schema o);
}

pub data ConnectionRequest : Type 0 where
  create : ℕ → ConnectionBody → ConnectionRequest
  read_one : ℕ → ConnectionRequest
  update_by : ℕ → ConnectionBody → ConnectionRequest
  copy : ℕ → ℕ → Option String → Bool → ConnectionRequest

-- The handler of a request that is answered with a connection.
unfoldable pub answer : Fernet → User → ConnectionRequest → M ReadConnection
answer fernet u (create gid body) = create_connection fernet u gid body
answer fernet u (read_one cid) = read_connection fernet u cid
answer fernet u (update_by cid body) = update_connection fernet u cid body
answer fernet u (copy cid gid name remove_source) = copy_connection u cid gid name remove_source

module _ (fernet : Fernet) (u : User) where
  create-Hidden :
      (gid : ℕ) (body : ConnectionBody) → Returns Hidden (create_connection fernet u gid body)
  unfolding create_connection
  create-Hidden gid body = bind-Returns Hidden (get_group_permission u gid) λ permission.
      guarded-Returns Hidden (is_none permission) group_not_found (
        guarded-Returns Hidden (below permission write) action_not_allowed (
          bind-Returns Hidden
            (unit_of_work (
              Connections.create gid body.type body.name body.description body.payload >>= λ c.
              Credentials.create fernet c.id body.auth_data >> pure c))
            λ connection.
              bind-Returns Hidden (Credentials.read fernet connection.id)
                λ credentials. respond-Hidden connection (some credentials)))

  read-Hidden : (cid : ℕ) → Returns Hidden (read_connection fernet u cid)
  unfolding read_connection
  read-Hidden cid = bind-Returns Hidden (get_resource_permission connection_model u cid) λ role.
      guarded-Returns Hidden (is_none role) connection_not_found (
        bind-Returns Hidden (Connections.read_by_id cid) λ connection.
          bind-Returns Hidden (λ db. or_none (Credentials.read fernet connection.id db))
            λ credentials. respond-Hidden connection credentials)

  update-Hidden :
      (cid : ℕ) (body : ConnectionBody) → Returns Hidden (update_connection fernet u cid body)
  unfolding update_connection
  update-Hidden cid body =
      bind-Returns Hidden (get_resource_permission connection_model u cid) λ role.
        guarded-Returns Hidden (is_none role) connection_not_found (
          guarded-Returns Hidden (below role write) action_not_allowed (
            bind-Returns Hidden (unit_of_work (write_connection fernet cid body)) λ connection.
              bind-Returns Hidden (Credentials.read fernet cid)
                λ credentials. respond-Hidden connection (some credentials)))

  copy-Hidden :
      (cid gid : ℕ) (name : Option String) (remove_source : Bool)
      → Returns Hidden (copy_connection u cid gid name remove_source)
  unfolding copy_connection
  copy-Hidden cid gid name remove_source =
      bind-Returns Hidden (get_resource_permission connection_model u cid) λ role.
        guarded-Returns Hidden (is_none role) connection_not_found (
          guarded-Returns Hidden (remove_source && below role delete) action_not_allowed (
            bind-Returns Hidden (get_group_permission u gid) λ target_role.
              guarded-Returns Hidden (is_none target_role) group_not_found (
                guarded-Returns Hidden (below target_role write) action_not_allowed (
                  bind-Returns Hidden
                    (unit_of_work (
                      Connections.copy cid gid name >>= λ c.
                      (if remove_source then Connections.delete cid else pure tt) >> pure c))
                    λ connection. respond-Hidden connection none))))

  answer-Hidden : (request : ConnectionRequest) → Returns Hidden (answer fernet u request)
  unfolding answer
  answer-Hidden (create gid body) = create-Hidden gid body
  answer-Hidden (read_one cid) = read-Hidden cid
  answer-Hidden (update_by cid body) = update-Hidden cid body
  answer-Hidden (copy cid gid name remove_source) = copy-Hidden cid gid name remove_source

  -- Whoever creates, reads, updates or copies a connection, and whatever is stored, the response
  -- shows no secret field of the type of the credentials in it.
  pub answer-hides_secrets :
      (request : ConnectionRequest) (db db' : Db) (r : ReadConnection)
      → answer fernet u request db ≡ (ok r, db')
      → hides_secrets r.auth_data ≡ true
  answer-hides_secrets request db db' r h = (answer-Hidden request).returns db db' r h
