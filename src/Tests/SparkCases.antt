-- ===== src/Tests/SparkCases.antt =====
-- Sessions and superusers at small inputs.
use syncmaster.Db.{User}
use syncmaster.Tests.Sample.{sample}
use syncmaster.Prelude.{
  [], codes, ◌∷◌, ℕ, ◌≡◌, ◌≤◌, ◌*◌, ◌<◌, ◌+◌, false, some, arith, List, refl, String,
}
use syncmaster.Dto.{Dto}
use syncmaster.Spark.{
  Config, Libraries, session_config, text, number, get_packages, setting, local_master,
}
use syncmaster.Users.Superusers.{add_superusers, remove_superusers, list_superusers}
use syncmaster.Users.Superusers.Lookup.{Superuser, add_superusers-remove}
use syncmaster.Users.{find_username}
use syncmaster.Spark.Conf.{Placed, session_config-resources}
use syncmaster.Schemas.Transfers.{Resources}

abbrev libraries : Libraries
libraries = record {
  postgres = "org.postgresql:postgresql" ∷ [];
  oracle = [];
  clickhouse = [];
  mssql = [];
  mysql = "com.mysql:mysql-connector-j" ∷ [];
  spark_s3 = "hadoop-aws" ∷ [];
  iceberg = [];
  s3_warehouse = [];
  xml = "spark-xml" ∷ [];
  excel = "spark-excel" ∷ [];
  excluded = "com.google.cloud.bigdataoss:gcs-connector" ∷ [];
}

abbrev three_gigabytes : Resources
three_gigabytes = record {
  max_parallel_tasks = 4;
  cpu_cores_per_task = 2;
  ram_bytes_per_task = 3000000000;
}

abbrev table_side : Dto
table_side = record { type = "postgres"; attributes = [] }

abbrev bucket_side : Dto
bucket_side = record { type = "s3"; attributes = [] }

-- The settings of a cluster, which ask for another number of executors.
abbrev cluster : Config
cluster =
    ("spark.master", text (codes "yarn"))
    ∷ ("spark.executor.instances", number 50)
    ∷ ("spark.ui.enabled", text (codes "false"))
    ∷ []

session_config-resources_example :
    let session =
      session_config libraries (codes "worker-1") cluster table_side bucket_side three_gigabytes in
    (mb : ℕ) × (3000000000 ≤ mb * 1048576)
    × (mb * 1048576 < 3000000000 + 1048576)
    × (512 ≤ mb)
    × (mb ≤ 65536)
    × Placed false mb three_gigabytes cluster session
    × (setting "spark.default.parallelism" session ≡ some (number 8))
    × (◌≤◌ 8 3200)
session_config-resources_example =
    session_config-resources libraries (codes "worker-1") cluster table_side bucket_side
      three_gigabytes
      (record {
        some_task = omega arith;
        tasks = omega arith;
        some_core = omega arith;
        cores = omega arith;
        some_memory = omega arith;
        memory = omega arith;
      })

local_session :
    setting "spark.master" (
      session_config libraries
        (codes "worker-1")
        (("spark.master", text (codes "local")) ∷ [])
        table_side
        bucket_side
        three_gigabytes)
    ≡ some (local_master 4)
unfolding session_config get_packages
local_session = refl

-- A user that is there, and one that is not.
abbrev chosen : List String
chosen = "bob" ∷ "zoe" ∷ []

add_superusers-remove_example :
    Superuser "zoe" (add_superusers chosen sample).users
    × ((u : User) × (find_username "zoe"
            (remove_superusers chosen (add_superusers chosen sample)).users
          ≡ some u)
        × (u.is_superuser ≡ false))
add_superusers-remove_example = add_superusers-remove chosen "zoe" sample

superusers_listed :
    list_superusers (λ us. us) (add_superusers chosen sample) ≡ "bob" ∷ "root" ∷ "zoe" ∷ []
unfolding list_superusers add_superusers
superusers_listed = refl
