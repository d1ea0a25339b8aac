-- ===== src/Spark/Conf.antt =====
-- What the configuration of a session takes from the resources of a transfer.
use syncmaster.Dto.{Dto}
use syncmaster.Schemas.Transfers.{Resources}
use syncmaster.Prelude.{
  Bool, Option, String, ◌≡◌, true, false, Text, if◌then◌else◌, some, List, ◌∷◌, [], none, arith,
  not, ◌*◌, str_eq, refl, ◌||◌, ◌&&◌, str_eq_iff, ◌≤◌, ℕ, ◌<◌, is_empty, ◌+◌,
}
use syncmaster.Spark.{
  Config, setting, update, put, assignments, memory_mb, megabytes, local_master, number, is_local,
  master_of, session_config, Libraries, Setting, get_spark_session_conf, get_packages,
}

abbrev has_key : String → Config → Bool
has_key key [] = false
has_key key ((k, _) ∷ c) = str_eq k key || has_key key c

abbrev has_distinct_keys : Config → Bool
has_distinct_keys [] = true
has_distinct_keys ((k, _) ∷ c) = not (has_key k c) && has_distinct_keys c

abbrev or_else : Option Setting → Option Setting → Option Setting
or_else (some v) o = some v
or_else none o = o

setting-put :
    (key j : String) (v : Setting) (c : Config)
    → setting j (put key v c) ≡ (if str_eq key j then some v else setting j c)
setting-put key j v [] = refl
setting-put key j v ((k, w) ∷ c) =
    ground (arith, str_eq_iff k key, str_eq_iff k j, str_eq_iff key j, setting-put key j v c)

setting-none : (key : String) (c : Config) → has_key key c ≡ false → setting key c ≡ none
setting-none key [] h = refl
setting-none key ((k, v) ∷ c) h = ground (arith, setting-none key c)

-- `d.update(e)`: the values of `e` where it has any, if its keys are distinct.
setting-update :
    (j : String) (c d : Config)
    → has_distinct_keys d ≡ true
    → setting j (update c d) ≡ or_else (setting j d) (setting j c)
setting-update j c [] h = refl
setting-update j c ((k, v) ∷ d) h =
    ground
      (arith, str_eq_iff k j, setting-put k j v c, setting-none k d, setting-update j (put k v c) d)

-- The settings that the resources decide, and that no key is assigned twice.
abbrev Settings : Bool → Resources → Config → Type 0
Settings true r c =
    (setting "spark.master" c ≡ some (local_master r.max_parallel_tasks))
    × (setting "spark.driver.memory" c ≡ some (megabytes (memory_mb r.ram_bytes_per_task)))
    × (setting "spark.executor.cores" c ≡ some (number r.cpu_cores_per_task))
    × (setting "spark.default.parallelism" c
        ≡ some (number (r.max_parallel_tasks * r.cpu_cores_per_task)))
    × (has_distinct_keys c ≡ true)
Settings false r c =
    (setting "spark.master" c ≡ none)
    × (setting "spark.executor.memory" c ≡ some (megabytes (memory_mb r.ram_bytes_per_task)))
    × (setting "spark.executor.cores" c ≡ some (number r.cpu_cores_per_task))
    × (setting "spark.default.parallelism" c
        ≡ some (number (r.max_parallel_tasks * r.cpu_cores_per_task)))
    × (setting "spark.executor.instances" c ≡ some (number r.max_parallel_tasks))
    × (has_distinct_keys c ≡ true)

assignments-Settings :
    (local packages exclusions to_s3 : Bool) (hostname : Text) (ps es : List String) (r : Resources)
    → Settings local r (assignments local packages exclusions to_s3 hostname ps es r)
assignments-Settings true true true true hostname ps es r = (refl, refl, refl, refl, refl)
assignments-Settings true true true false hostname ps es r = (refl, refl, refl, refl, refl)
assignments-Settings true true false true hostname ps es r = (refl, refl, refl, refl, refl)
assignments-Settings true true false false hostname ps es r = (refl, refl, refl, refl, refl)
assignments-Settings true false true true hostname ps es r = (refl, refl, refl, refl, refl)
assignments-Settings true false true false hostname ps es r = (refl, refl, refl, refl, refl)
assignments-Settings true false false true hostname ps es r = (refl, refl, refl, refl, refl)
assignments-Settings true false false false hostname ps es r = (refl, refl, refl, refl, refl)
assignments-Settings false true true true hostname ps es r = (refl, refl, refl, refl, refl, refl)
assignments-Settings false true true false hostname ps es r = (refl, refl, refl, refl, refl, refl)
assignments-Settings false true false true hostname ps es r = (refl, refl, refl, refl, refl, refl)
assignments-Settings false true false false hostname ps es r = (refl, refl, refl, refl, refl, refl)
assignments-Settings false false true true hostname ps es r = (refl, refl, refl, refl, refl, refl)
assignments-Settings false false true false hostname ps es r = (refl, refl, refl, refl, refl, refl)
assignments-Settings false false false true hostname ps es r = (refl, refl, refl, refl, refl, refl)
assignments-Settings false false false false hostname ps es r = (refl, refl, refl, refl, refl, refl)

-- The number of bytes, in whole megabytes.
memory_mb_bounds :
    (bytes : ℕ)
    → (bytes ≤ memory_mb bytes * 1048576) × (memory_mb bytes * 1048576 < bytes + 1048576)
unfolding memory_mb
memory_mb_bounds bytes = omega arith

-- `Resources` of syncmaster/schemas/v1/transfers/resources.py
pub record InBounds (r : Resources) : Type 0 where
  pub some_task : 1 ≤ r.max_parallel_tasks
  pub tasks : r.max_parallel_tasks ≤ 100
  pub some_core : 1 ≤ r.cpu_cores_per_task
  pub cores : r.cpu_cores_per_task ≤ 32
  pub some_memory : 536870912 ≤ r.ram_bytes_per_task
  pub memory : r.ram_bytes_per_task ≤ 68719476736

-- Where the session puts the resources: on the driver for a local master, and else on executors.
abbrev pub Placed : Bool → ℕ → Resources → (defaults session : Config) → Type 0
Placed true mb r defaults c =
    (setting "spark.master" c ≡ some (local_master r.max_parallel_tasks))
    × (setting "spark.driver.memory" c ≡ some (megabytes mb))
Placed false mb r defaults c =
    (setting "spark.master" c ≡ setting "spark.master" defaults)
    × (setting "spark.executor.instances" c ≡ some (number r.max_parallel_tasks))
    × (setting "spark.executor.memory" c ≡ some (megabytes mb))

parallelism :
    (local : Bool) (r : Resources) (c : Config)
    → Settings local r c
    → setting "spark.default.parallelism" c
      ≡ some (number (r.max_parallel_tasks * r.cpu_cores_per_task))
parallelism true r c (_, _, _, p, _) = p
parallelism false r c (_, _, _, p, _, _) = p

distinct :
    (local : Bool) (r : Resources) (c : Config) → Settings local r c → has_distinct_keys c ≡ true
distinct true r c (_, _, _, _, d) = d
distinct false r c (_, _, _, _, _, d) = d

update-parallelism :
    (local : Bool) (r : Resources) (defaults c : Config)
    → Settings local r c
    → setting "spark.default.parallelism" (update defaults c)
      ≡ some (number (r.max_parallel_tasks * r.cpu_cores_per_task))
update-parallelism local r defaults c settings =
    rw
      (
        setting-update "spark.default.parallelism" defaults c (distinct local r c settings),
        parallelism local r c settings,
      )
      refl

update-Placed :
    (local : Bool) (r : Resources) (defaults c : Config)
    → Settings local r c
    → Placed local (memory_mb r.ram_bytes_per_task) r defaults (update defaults c)
update-Placed true r defaults c (master, memory, _, _, d) = (
  rw (setting-update "spark.master" defaults c d, master) refl,
  rw (setting-update "spark.driver.memory" defaults c d, memory) refl,
)
update-Placed false r defaults c (master, memory, _, _, tasks, d) = (
  rw (setting-update "spark.master" defaults c d, master) refl,
  rw (setting-update "spark.executor.instances" defaults c d, tasks) refl,
  rw (setting-update "spark.executor.memory" defaults c d, memory) refl,
)

parallelism_bound :
    (r : Resources) → InBounds r → r.max_parallel_tasks * r.cpu_cores_per_task ≤ 3200
parallelism_bound r bounds = grind arith

module _ (l : Libraries) (hostname : Text) (defaults : Config) (source target : Dto)
    (r : Resources) where
  abbrev conf : Config
  conf =
      get_spark_session_conf l hostname (master_of (setting "spark.master" defaults)) source target
        r

  abbrev is_local_session : Bool
  is_local_session = is_local (master_of (setting "spark.master" defaults))

  conf-Settings : Settings is_local_session r conf
  unfolding get_spark_session_conf
  conf-Settings =
      assignments-Settings is_local_session
        (not (is_empty (get_packages l (source.type ∷ target.type ∷ []))))
        (not (is_empty l.excluded)) (str_eq target.type "s3") hostname
        (get_packages l (source.type ∷ target.type ∷ [])) l.excluded r

  -- Whatever the defaults of the settings say, a session has the resources of the transfer: as many
  -- tasks as it allows, in the master for a local session and as executors otherwise, the product
  -- of tasks and cores as parallelism, at most 3200, and the memory in megabytes, rounded up by less
  -- than one megabyte, from 512 to 65536.
  pub session_config-resources :
      InBounds r
      → let session = session_config l hostname defaults source target r in
        (mb : ℕ) × (r.ram_bytes_per_task ≤ mb * 1048576)
        × (mb * 1048576 < r.ram_bytes_per_task + 1048576)
        × (512 ≤ mb)
        × (mb ≤ 65536)
        × Placed is_local_session mb r defaults session
        × (setting "spark.default.parallelism" session
            ≡ some (number (r.max_parallel_tasks * r.cpu_cores_per_task)))
        × (r.max_parallel_tasks * r.cpu_cores_per_task ≤ 3200)
  unfolding session_config
  session_config-resources bounds =
      let (up, down) = memory_mb_bounds r.ram_bytes_per_task in
      (
        memory_mb r.ram_bytes_per_task,
        up,
        down,
        omega arith,
        omega arith,
        update-Placed is_local_session r defaults conf conf-Settings,
        update-parallelism is_local_session r defaults conf conf-Settings,
        parallelism_bound r bounds,
      )
