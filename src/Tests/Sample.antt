-- ===== src/Tests/Sample.antt =====
-- A small database: three users, two groups, a queue, connections and a transfer in each group.
use syncmaster.Queues.Slug.{slug}
use syncmaster.Errors.{ConnectionType, Status, postgres, hive, created, started, finished}
use syncmaster.Db.Json.{str, null}
use syncmaster.Db.{
  Db, Group, User, UserGroup, Transfer, Queue, developer, AuthData, Connection, Run, manual,
}
use syncmaster.Prelude.{ℕ, false, true, String, ◌∷◌, [], Bool, none, codes}
use syncmaster.Credentials.{basic, Auth}

abbrev user : ℕ → String → Bool → User
user id username is_superuser = record {
  id = id;
  username = username;
  email = none;
  first_name = none;
  last_name = none;
  middle_name = none;
  is_superuser = is_superuser;
  is_active = true;
}

abbrev pub ann : User
ann = user 1 "ann" false

abbrev pub bob : User
bob = user 2 "bob" false

abbrev pub root : User
root = user 3 "root" true

abbrev pub team : Group
team = record { id = 1; name = "team"; description = ""; owner_id = 1 }

abbrev pub lab : Group
lab = record { id = 2; name = "lab"; description = ""; owner_id = 2 }

abbrev pub bob_in_team : UserGroup
bob_in_team = record { user_id = 2; group_id = 1; role = developer }

abbrev pub queue : ℕ → ℕ → Queue
queue id gid = record {
  id = id;
  name = "main";
  slug = slug gid (codes "main");
  group_id = gid;
  description = "";
}

abbrev connection : ℕ → ℕ → ConnectionType → String → Connection
connection id gid type name = record {
  id = id;
  group_id = gid;
  type = type;
  name = name;
  description = "";
  payload = null;
}

abbrev pub transfer : ℕ → ℕ → ℕ → ℕ → ℕ → Transfer
transfer id gid source_id target_id qid = record {
  id = id;
  group_id = gid;
  name = "copy";
  description = "";
  source_connection_id = source_id;
  target_connection_id = target_id;
  strategy_params = null;
  source_params = null;
  target_params = null;
  transformations = null;
  resources = null;
  is_scheduled = true;
  schedule = "0 0 * * *";
  queue_id = qid;
  created_at = 5;
  updated_at = 6;
}

abbrev pub run : ℕ → ℕ → Status → Run
run id tid status = record {
  id = id;
  transfer_id = tid;
  started_at = none;
  ended_at = none;
  status = status;
  type = manual;
  log_url = none;
  transfer_dump = null;
  created_at = 7;
  updated_at = 7;
}

-- A token that is the word for its value: only one dictionary is ever encrypted with it.
abbrev pub login : Auth
login = record { type = basic; fields = ("user", str "u") ∷ ("password", str "p") ∷ [] }

abbrev pub stored : ℕ → AuthData
stored cid = record { connection_id = cid; value = "token" }

abbrev pub sample : Db
sample = record {
  users = ann ∷ bob ∷ root ∷ [];
  groups = team ∷ lab ∷ [];
  user_groups = bob_in_team ∷ [];
  queues = queue 1 1 ∷ queue 2 2 ∷ [];
  connections =
      connection 1 1 postgres "a"
      ∷ connection 2 1 hive "b"
      ∷ connection 3 2 postgres "a"
      ∷ connection 4 2 hive "b"
      ∷ [];
  auth_data = stored 1 ∷ stored 2 ∷ stored 3 ∷ stored 4 ∷ [];
  transfers = transfer 1 1 1 2 1 ∷ transfer 2 2 3 4 2 ∷ [];
  runs = run 1 1 created ∷ run 2 1 started ∷ run 3 2 finished ∷ [];
  seq = record { group = 3; queue = 3; connection = 5; transfer = 3; run = 4; user = 4 };
  now = 10;
}
