-- ===== src/Tests/ConnectionCases.antt =====
-- Connections on the sample: the loop over secret fields, and a copied connection.
use syncmaster.Session.{is_ok}
use syncmaster.Errors.{postgres}
use syncmaster.Prelude.{◌≡◌, some, if◌then◌else◌, any, ◌∷◌, str_eq, [], ◌&&◌, false, refl}
use syncmaster.Prelude.Tables.{get}
use syncmaster.Connections.Api.{ConnectionBody, update_connection}
use syncmaster.Db.{Connection}
use syncmaster.Db.Json.{Dict, str, null}
use syncmaster.Credentials.{Fernet, basic}
use syncmaster.Connections
use syncmaster.Connections.Copies.{copy-not_updated}
use syncmaster.Connections.Secrets.{lookup, left_out, fill_secrets_lem}
use syncmaster.Tests.Sample.{sample, login, root}

abbrev fernet : Fernet
fernet = record { encrypt = λ now a. "token"; decrypt = λ token. some login }

-- The user is changed, the password is left out.
abbrev given : Dict
given = ("user", str "v") ∷ ("password", null) ∷ []

abbrev filled : Dict
filled = ("user", str "v") ∷ ("password", str "p") ∷ []

fill_secrets_lem_example :
    (sample ≡ sample)
    × (lookup "password" filled ≡ (
        if any (λ f. str_eq f "password") ("password" ∷ []) && left_out (lookup "password" given)
        then lookup "password" login.fields
        else lookup "password" given))
unfolding syncmaster.Connections.Api.fill_secrets syncmaster.Connections.Api.fill_secret
    syncmaster.Credentials.subscript syncmaster.Credentials.assign
fill_secrets_lem_example =
    fill_secrets_lem ("password" ∷ []) login basic given filled sample sample refl "password"

abbrev copied_connection : Connection
copied_connection = record {
  id = 5;
  group_id = 2;
  type = postgres;
  name = "c";
  description = "";
  payload = null;
}

abbrev body : ConnectionBody
body = record { name = "c"; type = postgres; description = ""; payload = null; auth_data = login }

copy-not_updated_example :
    let db' = (Connections.copy 1 2 (some "c") sample).1 in
    let r = update_connection fernet root 5 body db' in (r.1 ≡ db') × (is_ok r.0 ≡ false)
unfolding get Connections.copy syncmaster.Connections.Statements.insert_connection
copy-not_updated_example =
    copy-not_updated fernet 1 2 (some "c") sample (Connections.copy 1 2 (some "c") sample).1
      copied_connection refl refl root body
