-- ===== src/Tests/SecretCases.antt =====
-- Credentials in a response, and in the dump of a run.
use syncmaster.Connections.Shown.{ConnectionRequest, answer, answer-hides_secrets}
use syncmaster.Credentials
use syncmaster.Credentials.{Fernet, read_schema}
use syncmaster.Runs.{dump_connection, dump_transfer}
use syncmaster.Db.{manual, Connection, Run, Db}
use syncmaster.Db.Json.{null}
use syncmaster.Errors.{postgres, hive, created}
use syncmaster.Listings.Shown.{hides_secrets}
use syncmaster.Prelude.{Bool, List, ℕ, refl, some, true, ◌≡◌, ◌++◌, ◌∷◌, [], ◌+◌, none}
use syncmaster.Tests.Sample.{bob, login, sample, transfer}

abbrev fernet : Fernet
fernet = record { encrypt = λ now a. "token"; decrypt = λ token. some login }

abbrev sent : ℕ → List ℕ → Bool
sent rid slug = true

abbrev first : Connection
first = record {
  id = 1;
  group_id = 1;
  type = postgres;
  name = "a";
  description = "";
  payload = null;
}

abbrev request : ConnectionRequest
request = ConnectionRequest.read_one 1

answer-hides_secrets_example : hides_secrets (some (read_schema login)) ≡ true
unfolding answer syncmaster.Connections.Api.read_connection
    syncmaster.Access.get_resource_permission syncmaster.Prelude.Tables.get
    syncmaster.Connections.read_by_id Credentials.read
answer-hides_secrets_example =
    answer-hides_secrets fernet bob request sample sample
      (record { connection = first; auth_data = some (read_schema login) }) refl

abbrev second : Connection
second = record first { id = 2; type = hive; name = "b" }

-- The first run of the sample's first transfer that a user starts.
abbrev started_run : Run
started_run = record {
  id = sample.seq.run;
  transfer_id = 1;
  started_at = none;
  ended_at = none;
  status = created;
  type = manual;
  log_url = none;
  transfer_dump =
      dump_transfer (transfer 1 1 1 2 1) (dump_connection first (read_schema login))
        (dump_connection second (read_schema login));
  created_at = sample.now;
  updated_at = sample.now;
}

abbrev with_run : Db
with_run = record sample {
  runs = sample.runs ++ started_run ∷ [];
  seq = record sample.seq { run = sample.seq.run + 1 };
}
