-- ===== src/Scheduler/Sync.antt =====
-- The jobs of the scheduler against the transfers of the database.
use Option.{none}
use syncmaster.Prelude.{
  String, Option, ℕ, some, if◌then◌else◌, none, List, ◌≡◌, is_some, ◌==◌, nat_eq, ◌∷◌, arith, [],
  refl, Option-cases, inl, inr, false, keep,
}
use mathlib.Core.Option
use syncmaster.Db.{Transfer, Db, transfer_key}
use syncmaster.Scheduler.{
  Job, job_key, update_job, update_jobs, remove_orphan_jobs, put_job, newer, fetch_updated_jobs,
  round,
}
use syncmaster.Session.{ok}
use syncmaster.Prelude.Tables.{
  get, Distinct, get-update, get-delete, get-append, get-keep_key, key-get, Distinct-keep,
  get-keep-none, get-keep, get-keep-some,
}

module _ {Trigger : Type 0} (from_crontab : String → Option Trigger) where
  -- The job that a transfer is meant to have: one with the trigger of its schedule, if it is
  -- scheduled.
  abbrev pub job_of : Transfer → Option (Job Trigger)
  job_of t =
      if t.is_scheduled
      then Option.map (λ trigger. record { id = t.id; trigger = trigger }) (from_crontab t.schedule)
      else none

  abbrev job_of_row : Option Transfer → Option (Job Trigger)
  job_of_row none = none
  job_of_row (some t) = job_of t

  -- No job without a transfer.
  pub remove_orphan_jobs-get :
      (db : Db) (k : ℕ) (jobs : List (Job Trigger))
      → get job_key k (remove_orphan_jobs from_crontab db jobs)
        ≡ (if is_some (get transfer_key k db.transfers) then get job_key k jobs else none)
  unfolding remove_orphan_jobs
  remove_orphan_jobs-get db k jobs =
      get-keep_key job_key (λ tid. is_some (get transfer_key tid db.transfers)) k jobs

  put_job-get :
      (tid k : ℕ) (o : Option Trigger) (jobs jobs' : List (Job Trigger))
      → put_job from_crontab tid o jobs ≡ (ok tt, jobs')
      → get job_key k jobs' ≡ (
          if tid == k
          then Option.map (λ trigger. record { id = tid; trigger = trigger }) o
          else get job_key k jobs)
  put_job-get tid k none jobs jobs' h = absurd (ground arith)
  put_job-get tid k (some trigger) jobs jobs' h = elim (Option-cases (get job_key tid jobs)) [
    | inl missing ↦
        ground (arith, missing, get-append job_key k jobs (record { id = tid; trigger = trigger }))
    | inr (j, found) ↦ ground (
      arith,
      found,
      get-update job_key tid k (λ j. record j { trigger = trigger }) jobs (λ j. refl),
      key-get job_key tid jobs j found,
    )
  ]

  -- After its turn a transfer has its job, or none; the jobs of the others are as they were.
  update_job-get :
      (t : Transfer) (k : ℕ) (jobs jobs' : List (Job Trigger))
      → update_job from_crontab t jobs ≡ (ok tt, jobs')
      → get job_key k jobs' ≡ (if t.id == k then job_of t else get job_key k jobs)
  unfolding update_job
  update_job-get t k jobs jobs' h = ground (
    arith,
    put_job-get t.id k (from_crontab t.schedule) jobs jobs',
    get-delete job_key t.id k jobs,
  )

  pub update_jobs-get :
      (k : ℕ) (ts : List Transfer) (jobs jobs' : List (Job Trigger))
      → Distinct transfer_key ts
      → update_jobs from_crontab ts jobs ≡ (ok tt, jobs')
      → get job_key k jobs'
        ≡ (elim (get transfer_key k ts) [ none ↦ get job_key k jobs | some t ↦ job_of t ])
  unfolding update_jobs get
  update_jobs-get k [] jobs jobs' d h = ground arith
  update_jobs-get k (t ∷ ts) jobs jobs' d h =
      let jobs1 = (update_job from_crontab t jobs).1 in
      ground (arith, update_job-get t k jobs jobs1, update_jobs-get k ts jobs1 jobs' d.1, d.0)

  -- The jobs agree with the transfers that the scheduler has seen by `last`.
  abbrev pub InStep : Option ℕ → Db → List (Job Trigger) → Type 0
  InStep last db jobs =
      (k : ℕ) (t : Transfer)
      → get transfer_key k db.transfers ≡ some t
      → newer last t ≡ false
      → get job_key k jobs ≡ job_of t

  pub fetch-get :
      (last : Option ℕ) (db : Db) (k : ℕ) (t : Transfer)
      → Distinct transfer_key db.transfers
      → get transfer_key k db.transfers ≡ some t
      → get transfer_key k (fetch_updated_jobs last db) ≡ (if newer last t then some t else none)
  unfolding fetch_updated_jobs
  fetch-get last db k t d found =
      elim (Option-cases (get transfer_key k (keep (newer last) db.transfers))) [
        | inl missing ↦
            rw missing (ground (arith, get-keep transfer_key (newer last) k db.transfers t found))
        | inr (s, at_key) ↦
            let (same, passes) =
              get-keep-some transfer_key (newer last) k db.transfers s d at_key in
            ground arith
      ]

  fetch-get-none :
      (last : Option ℕ) (db : Db) (k : ℕ)
      → get transfer_key k db.transfers ≡ none
      → get transfer_key k (fetch_updated_jobs last db) ≡ none
  unfolding fetch_updated_jobs
  fetch-get-none last db k missing = get-keep-none transfer_key (newer last) k db.transfers missing

  -- The list of jobs after a round is what `update_jobs` made of it.
  pub round-jobs :
      (db : Db) (last last' : Option ℕ) (jobs jobs' : List (Job Trigger))
      → round from_crontab db last jobs ≡ (ok last', jobs')
      → update_jobs from_crontab
          (fetch_updated_jobs last db)
          (remove_orphan_jobs from_crontab db jobs)
        ≡ (ok tt, jobs')
  unfolding round
  round-jobs db last last' jobs jobs' h = ground arith

  pub Distinct-fetch :
      (last : Option ℕ) (db : Db)
      → Distinct transfer_key db.transfers
      → Distinct transfer_key (fetch_updated_jobs last db)
  unfolding fetch_updated_jobs
  Distinct-fetch last db d = Distinct-keep transfer_key (newer last) db.transfers d

  -- After a round that raises nothing, the jobs are exactly those of the scheduled transfers, each
  -- with the trigger of the schedule that its transfer has, if they agreed with the transfers that
  -- were not updated since the last round and the keys of the transfers are distinct.
  pub round-synchronizes :
      (db : Db) (last last' : Option ℕ) (jobs jobs' : List (Job Trigger))
      → Distinct transfer_key db.transfers
      → InStep last db jobs
      → round from_crontab db last jobs ≡ (ok last', jobs')
      → (k : ℕ)
      → get job_key k jobs'
        ≡ (elim (get transfer_key k db.transfers) [ none ↦ none | some t ↦ job_of t ])
  round-synchronizes db last last' jobs jobs' d step h k =
      let made =
        update_jobs-get k (fetch_updated_jobs last db) (remove_orphan_jobs from_crontab db jobs)
          jobs' (Distinct-fetch last db d) (round-jobs db last last' jobs jobs' h) in
      elim (Option-cases (get transfer_key k db.transfers)) [
        | inl missing ↦ ground (
          arith,
          missing,
          made,
          fetch-get-none last db k missing,
          remove_orphan_jobs-get db k jobs,
        )
        | inr (t, found) ↦ ground (
          arith,
          found,
          made,
          fetch-get last db k t d found,
          remove_orphan_jobs-get db k jobs,
          step k t found,
        )
      ]
