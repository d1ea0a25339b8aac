-- ===== src/Listings/Shown.antt =====
-- What the listing of connections shows.
use syncmaster.Session.{◌>>=◌, ◌>>◌, ok, bind-ok, Result, err, raise_if, pure, M}
use Prim.Native.Nat.{zero}
use syncmaster.Pagination.{Pagination, paginate}
use syncmaster.Credentials.Secrets.{mentions, read_schema-secret}
use syncmaster.Errors.{ConnectionType, group_not_found}
use syncmaster.Listings.{
  paginate_connections, read_connections, searched, of_types, item_of, credentials_of,
  with_credentials, items_of,
}
use syncmaster.Db.{Connection, Db, User}
use syncmaster.Connections.Api.{ReadConnection}
use syncmaster.Credentials.{Auth, Fernet, read_schema, secret_fields}
use syncmaster.Prelude.{
  Bool, Option, ℕ, true, List, String, any, ◌≡◌, some, all, ◌==◌, ◌&&◌, take, not, drop, str_eq,
  map, keep, suc, ◌∷◌, arith, Bool-cases, none, [], inl, str_eq_iff, inr, refl, ◌-◌, ◌*◌, subst,
  is_empty, ap,
}
use mathlib.Core.Option
use syncmaster.Access.{get_group_permission, is_none, Permission}
use syncmaster.Credentials

all-drop :
    {A : Type 0} (p : A → Bool) (n : ℕ) (xs : List A) → all p xs ≡ true → all p (drop n xs) ≡ true
all-drop p zero xs h = h
all-drop p (suc n) [] h = refl
all-drop p (suc n) (x ∷ xs) h = all-drop p n xs (ground arith)

all-take :
    {A : Type 0} (p : A → Bool) (n : ℕ) (xs : List A) → all p xs ≡ true → all p (take n xs) ≡ true
all-take p zero xs h = refl
all-take p (suc n) [] h = refl
all-take p (suc n) (x ∷ xs) h = ground (arith, all-take p n xs)

all-keep :
    {A : Type 0} (p q : A → Bool) (xs : List A)
    → ((x : A) → q x ≡ true → p x ≡ true)
    → all p (keep q xs) ≡ true
all-keep p q [] h = refl
all-keep p q (x ∷ xs) h = elim (Bool-cases (q x)) [
  | inl kept ↦ rw (kept, h x kept) (all-keep p q xs h)
  | inr dropped ↦ rw dropped (all-keep p q xs h)
]

all-map :
    {A B : Type 0} (p : B → Bool) (f : A → B) (q : A → Bool) (xs : List A)
    → ((x : A) → q x ≡ true → p (f x) ≡ true)
    → all q xs ≡ true
    → all p (map f xs) ≡ true
all-map p f q [] h all_q = refl
all-map p f q (x ∷ xs) h all_q = ground (arith, h x, all-map p f q xs h)

-- The credentials of an item have no secret field of their type.
abbrev pub hides_secrets : Option Auth → Bool
hides_secrets none = true
hides_secrets (some a) = all (λ s. not (mentions s a.fields)) (secret_fields a.type)

all_secrets :
    (a : Auth) (ss : List String)
    → ((s : String) → any (str_eq s) ss ≡ true → any (str_eq s) (secret_fields a.type) ≡ true)
    → all (λ s. not (mentions s (read_schema a).fields)) ss ≡ true
all_secrets a [] h = refl
all_secrets a (s ∷ ss) h =
    rw (read_schema-secret a s (h s (rw ((str_eq_iff s s).1 refl) refl)))
      (all_secrets a ss (λ t m. h t (ground (arith, m))))

pub hides-read_schema : (o : Option Auth) → hides_secrets (Option.map read_schema o) ≡ true
unfolding read_schema
hides-read_schema none = refl
hides-read_schema (some a) = all_secrets a (secret_fields a.type) (λ s m. m)

-- An item of the group, without secrets.
abbrev pub is_shown : ℕ → ReadConnection → Bool
is_shown gid item = item.connection.group_id == gid && hides_secrets item.auth_data

ok_value :
    {A : Type 0} (a b : A) (db db' : Db) → ◌≡◌ {A = Result A × Db} (ok a, db) (ok b, db') → a ≡ b
ok_value {A = A} a b db db' h = ap (λ r. value_or a r.0) h
  where
    value_or : A → Result A → A
    value_or d (ok x) = x
    value_or d (err e) = d

module _ (fernet : Fernet) (matches : String → Connection → Bool)
    (order : List Connection → List Connection)
    (keeps : (p : Connection → Bool) (xs : List Connection) → all p (order xs) ≡ all p xs) where
  -- Every row of the page is one of the group.
  page_of_group :
      (gid page page_size : ℕ) (search_query : Option String) (types : Option (List ConnectionType))
      (db db' : Db) (p : Pagination Connection)
      → paginate_connections matches order page page_size gid search_query types db ≡ (ok p, db')
      → all (λ c. c.group_id == gid) p.items ≡ true
  unfolding paginate_connections paginate
  page_of_group gid page page_size search_query types db db' p h =
      let passes : Connection → Bool =
        λ c. c.group_id == gid && searched matches search_query c && of_types types c in
      let rows : List Connection = order (keep passes db.connections) in
      let in_group : Connection → Bool = λ c. c.group_id == gid in
      let all_rows : all in_group rows ≡ true =
        rw (keeps in_group (keep passes db.connections))
          (all-keep in_group passes db.connections (λ c h. ground (arith, h))) in
      let shown =
        all-take in_group page_size (drop ((page - 1) * page_size) rows)
          (all-drop in_group ((page - 1) * page_size) rows all_rows) in
      subst (λ q. all in_group q.items ≡ true) (ok_value (paginate rows page page_size) p db db' h)
        shown

  -- Whoever lists the connections of a group, and however the listing is filtered, every item that
  -- is returned is a connection of the group, and shows no secret field of its credentials, if the
  -- order keeps the rows.
  pub read_connections-shown :
      (u : User) (gid page page_size : ℕ) (types : Option (List ConnectionType))
      (search_query : Option String) (db db' : Db) (items : List ReadConnection)
      (p : Pagination Connection)
      → read_connections fernet matches order gid u page page_size types search_query db
        ≡ (ok (items, p), db')
      → all (is_shown gid) items ≡ true
  unfolding read_connections
  read_connections-shown u gid page page_size types search_query db db' items p h =
      let paging = paginate_connections matches order page page_size gid search_query types in
      let tail : M (List ReadConnection × Pagination Connection) =
        paging >>= with_credentials fernet in
      let checked : Permission → M (List ReadConnection × Pagination Connection) =
        λ role. raise_if (is_none role) group_not_found >> tail in
      let (role, db1, _, h1) = bind-ok (get_group_permission u gid) checked db db' (items, p) h in
      let (_, db2, _, h2) =
        bind-ok (raise_if (is_none role) group_not_found) (λ _. tail) db1 db' (items, p) h1 in
      let (pg, db3, found, h3) = bind-ok paging (with_credentials fernet) db2 db' (items, p) h2 in
      let of_group = page_of_group gid page page_size search_query types db2 db3 pg found in
      of_items pg db3 of_group h3
    where
      of_items :
          (pg : Pagination Connection) (db3 : Db)
          → all (λ c. c.group_id == gid) pg.items ≡ true
          → with_credentials fernet pg db3 ≡ (ok (items, p), db')
          → all (is_shown gid) items ≡ true
      of_items pg db3 of_group h3 = elim (Bool-cases (is_empty pg.items)) [
        | inl empty ↦
            subst (λ r. all (is_shown gid) r.0 ≡ true)
              (ok_value ([], pg) (items, p) db3 db' (rw empty at h3)) refl
        | inr rows ↦
            let (credentials, db4, _, h4) =
              bind-ok (Credentials.read_bulk fernet (map (λ c. c.id) pg.items))
                (λ credentials. pure (items_of pg credentials)) db3 db' (items, p)
                (rw rows at h3) in
            subst (λ r. all (is_shown gid) r.0 ≡ true)
              (ok_value (map (item_of credentials) pg.items, pg) (items, p) db4 db' h4)
              (all-map (is_shown gid) (item_of credentials) (λ c. c.group_id == gid) pg.items
                (λ c same. rw (same, hides-read_schema (credentials_of c.id credentials)) refl)
                of_group)
      ]
