-- ===== src/Spark.antt =====
-- The Spark session of a run: syncmaster/worker/spark.py, with the packages of
-- syncmaster/worker/ivy2.py. The packages that the data transfer library names are parameters.
pub mod Packages
pub mod Conf
use syncmaster.Db.Json.{Json}
use syncmaster.Dto.{Dto, lookup}
use syncmaster.Schemas.Transfers.{Resources}
use syncmaster.Prelude.{
  Bool, List, String, Option, Text, ℕ, ◌+◌, ◌*◌, ◌/◌, ◌++◌, ◌∷◌, [], ◌||◌, any, codes, decimal,
  is_empty, join, map, none, some, starts_with, str_eq, if◌then◌else◌, true, false, not,
}

-- What `get_packages` of a connection class or of a file format gives, and the packages that
-- `SparkS3.get_exclude_packages` names.
pub record Libraries : Type 0 where
  pub postgres : List String
  pub oracle : List String
  pub clickhouse : List String
  pub mssql : List String
  pub mysql : List String
  pub spark_s3 : List String
  pub iceberg : List String
  pub s3_warehouse : List String
  pub xml : List String
  pub excel : List String
  pub excluded : List String

-- `connection_types & {name, "all"}`
abbrev pub wants : List String → String → Bool
wants connection_types name =
    any (str_eq name) connection_types || any (str_eq "all") connection_types

-- `connection_types & {"s3", "hdfs", …, "all"}`
abbrev pub wants_files : List String → Bool
wants_files ts =
    any (str_eq "s3") ts
    || any (str_eq "hdfs") ts
    || any (str_eq "sftp") ts
    || any (str_eq "ftp") ts
    || any (str_eq "ftps") ts
    || any (str_eq "samba") ts
    || any (str_eq "webdav") ts
    || any (str_eq "all") ts

-- The calls `result.extend(packages)`, each with its test.
abbrev pub extend_all : List (Bool × List String) → List String
extend_all [] = []
extend_all ((wanted, packages) ∷ calls) = (if wanted then packages else []) ++ extend_all calls

abbrev pub extensions : Libraries → List String → List (Bool × List String)
extensions l ts =
    (wants ts "postgres", l.postgres)
    ∷ (wants ts "oracle", l.oracle)
    ∷ (
      wants ts "clickhouse",
      "io.github.mtsongithub.doetl:spark-dialect-extension_2.12:0.0.4" ∷ l.clickhouse,
    )
    ∷ (wants ts "mssql", l.mssql)
    ∷ (wants ts "mysql", l.mysql)
    ∷ (wants ts "s3", l.spark_s3)
    ∷ (wants ts "iceberg", l.iceberg ++ l.s3_warehouse)
    ∷ (wants_files ts, l.xml ++ l.excel)
    ∷ []

unfoldable pub get_packages : Libraries → List String → List String
get_packages l ts = extend_all (extensions l ts)

-- A value of the configuration.
pub data Setting : Type 0 where
  text : Text → Setting
  number : ℕ → Setting

abbrev pub Config : Type 0
Config = List (String × Setting)

-- `config[key] = value`
abbrev pub put : String → Setting → Config → Config
put key v [] = (key, v) ∷ []
put key v ((k, w) ∷ c) = if str_eq k key then (k, v) ∷ c else (k, w) ∷ put key v c

abbrev pub setting : String → Config → Option Setting
setting key [] = none
setting key ((k, v) ∷ c) = if str_eq k key then some v else setting key c

abbrev pub update : Config → Config → Config
update c [] = c
update c ((k, v) ∷ d) = update (put k v c) d

-- `math.ceil(ram_bytes_per_task / 1024 / 1024)`
unfoldable pub memory_mb : ℕ → ℕ
memory_mb ram_bytes = (ram_bytes + 1048575) / 1048576

-- `f"{memory_mb}M"`
abbrev pub megabytes : ℕ → Setting
megabytes mb = text (decimal mb (b'M' ∷ []))

-- `f"local[{tasks}]"`
abbrev pub local_master : ℕ → Setting
local_master tasks = text (codes "local[" ++ decimal tasks (b']' ∷ []))

-- `spark_master and spark_master.startswith("local")`
abbrev pub is_local : Option Text → Bool
is_local none = false
is_local (some master) = starts_with (codes "local") master

abbrev committer : Config
committer =
    ("spark.hadoop.fs.s3a.committer.magic.enabled", text (codes "true"))
    ∷ ("spark.hadoop.fs.s3a.committer.name", text (codes "magic"))
    ∷ (
      "spark.hadoop.mapreduce.outputcommitter.factory.scheme.s3a",
      text (codes "org.apache.hadoop.fs.s3a.commit.S3ACommitterFactory"),
    )
    ∷ (
      "spark.sql.parquet.output.committer.class",
      text (codes "org.apache.spark.internal.io.cloud.BindingParquetOutputCommitter"),
    )
    ∷ (
      "spark.sql.sources.commitProtocolClass",
      text (codes "org.apache.spark.internal.io.cloud.PathOutputCommitProtocol"),
    )
    ∷ []

-- `",".join(packages)`
abbrev comma_joined : List String → Setting
comma_joined packages = text (join (b',' ∷ []) (map codes packages))

-- The settings of the process that computes: the driver, or executors.
abbrev placed : Bool → Resources → Config
placed true r =
    ("spark.master", local_master r.max_parallel_tasks)
    ∷ ("spark.driver.memory", megabytes (memory_mb r.ram_bytes_per_task))
    ∷ []
placed false r =
    ("spark.executor.memory", megabytes (memory_mb r.ram_bytes_per_task))
    ∷ ("spark.executor.instances", number r.max_parallel_tasks)
    ∷ []

abbrev when : Bool → Config → Config
when true c = c
when false c = []

-- The assignments, by the tests of the conditional ones. Every key is assigned once, so that the
-- dictionary is the list of them.
abbrev pub assignments :
    (local packages exclusions to_s3 : Bool) → Text → List String → List String → Resources → Config
assignments local packages exclusions to_s3 hostname maven_packages excluded_packages r =
    ("spark.sql.pyspark.jvmStacktrace.enabled", text (codes "true"))
    ∷ ("spark.hadoop.mapreduce.fileoutputcommitter.marksuccessfuljobs", text (codes "false"))
    ∷ (placed local r
        ++ (("spark.executor.cores", number r.cpu_cores_per_task)
            ∷ ("spark.default.parallelism", number (r.max_parallel_tasks * r.cpu_cores_per_task))
            ∷ ("spark.dynamicAllocation.maxExecutors", number r.max_parallel_tasks)
            ∷ ("spark.kubernetes.executor.limit.cores", number r.cpu_cores_per_task)
            ∷ ("spark.kubernetes.driver.pod.name", text hostname)
            ∷ (when packages (("spark.jars.packages", comma_joined maven_packages) ∷ [])
                ++ (when exclusions (("spark.jars.excludes", comma_joined excluded_packages) ∷ [])
                    ++ when to_s3 committer))))

-- `get_spark_session_conf`, where `hostname` is `socket.gethostname()`.
unfoldable pub get_spark_session_conf :
    Libraries → Text → Option Text → Dto → Dto → Resources → Config
get_spark_session_conf l hostname master source target r =
    let maven_packages = get_packages l (source.type ∷ target.type ∷ []) in
    assignments (is_local master) (not (is_empty maven_packages)) (not (is_empty l.excluded))
      (str_eq target.type "s3") hostname maven_packages l.excluded r

-- What `get_worker_spark_session` tells the builder, and its logins.
pub data Step : Type 0 where
  app_name : Text → Step
  config : String → Setting → Step
  enable_hive_support : Step
  kinit_password : Option Json → Option Json → Step
  get_or_create : Step

abbrev hive_support : Dto → List Step
hive_support entity = if str_eq entity.type "hive" then enable_hive_support ∷ [] else []

-- `kinit_password(entity.user, entity.password)`
abbrev kerberos : Dto → List Step
kerberos entity =
    if str_eq entity.type "hive" || str_eq entity.type "hdfs"
    then kinit_password (lookup "user" entity.attributes) (lookup "password" entity.attributes) ∷ []
    else []

abbrev pub master_of : Option Setting → Option Text
master_of (some (text s)) = some s
master_of _ = none

-- The defaults of the settings, updated by the configuration of the run.
unfoldable pub session_config : Libraries → Text → Config → Dto → Dto → Resources → Config
unfolding get_spark_session_conf
session_config l hostname defaults source target r = update defaults (
    get_spark_session_conf l hostname (master_of (setting "spark.master" defaults)) source target r)

unfoldable pub get_worker_spark_session :
    Libraries → Text → Config → Text → Text → Dto → Dto → Resources → List Step
unfolding session_config
get_worker_spark_session l hostname defaults group_name transfer_name source target r =
    app_name (codes "SyncMaster__" ++ (group_name ++ (b'_' ∷ transfer_name)))
    ∷ (map (λ s. config s.0 s.1) (session_config l hostname defaults source target r)
        ++ ((hive_support source ++ kerberos source)
            ++ ((hive_support target ++ kerberos target) ++ get_or_create ∷ [])))
