-- ===== src/Transfers/Rows.antt =====
-- What the statements on transfers leave runnable, of syncmaster/db/repositories/transfer.py.

use syncmaster.Connections
use syncmaster.Connections.Statements.{insert_connection}
use syncmaster.Connections.{connection_model}
use syncmaster.Db.{Db, Transfer, transfer_key}
use syncmaster.Db.Cascade.{delete_transfers}
use syncmaster.Session.{M}
use syncmaster.Session.Keeps.{Keeps}
use syncmaster.Transfers.Runnable.{IsRunnable}
use syncmaster.Transfers.Statements.{
  TransferValues, insert_transfer, new_transfer, copied, copy_transfer_row, set_transfer,
  update_transfer_row, delete_transfer_row,
}
use syncmaster.Prelude.Tables.{get, update}
use syncmaster.Prelude.{
  All, ℕ, String, Bool, Option, none, some, List, [], ◌∷◌, ◌++◌, ◌≡◌, ◌⊎◌, inl, inr, arith, keep,
  Bool-cases, Option-cases, not, nat_eq, ◌==◌, sym,
}

abbrev pub RowRunnable : Transfer → Type 0
RowRunnable t = IsRunnable t.is_scheduled t.schedule t.strategy_params t.source_params

abbrev pub AllRunnable : Db → Type 0
AllRunnable db = All RowRunnable db.transfers

abbrev pub ValuesRunnable : TransferValues → Type 0
ValuesRunnable v = IsRunnable v.is_scheduled v.schedule v.strategy_params v.source_params

module _ {A : Type 0} (P : A → Type 0) where
  All-append : (xs : List A) (x : A) → All P xs → P x → All P (xs ++ x ∷ [])
  All-append [] x a p = (p, tt)
  All-append (y ∷ xs) x (q, a) p = (q, All-append xs x a p)

  All-keep : (test : A → Bool) (xs : List A) → All P xs → All P (keep test xs)
  All-keep test [] a = tt
  All-keep test (x ∷ xs) (p, a) = elim (Bool-cases (test x)) [
    | inl passes ↦ rw passes (p, All-keep test xs a)
    | inr fails ↦ rw fails (All-keep test xs a)
  ]

All-update :
    (tid : ℕ) (f : Transfer → Transfer) (ts : List Transfer)
    → ((t : Transfer) → RowRunnable (f t))
    → All RowRunnable ts
    → All RowRunnable (update transfer_key tid f ts)
unfolding update
All-update tid f [] h a = tt
All-update tid f (t ∷ ts) h (p, a) = elim (Bool-cases (t.id == tid)) [
  | inl here ↦ rw here (h t, All-update tid f ts h a)
  | inr other ↦ rw other (p, All-update tid f ts h a)
]

All-get :
    (tid : ℕ) (ts : List Transfer) (t : Transfer)
    → All RowRunnable ts
    → get transfer_key tid ts ≡ some t
    → RowRunnable t
unfolding get
All-get tid [] t a h = absurd (cc h)
All-get tid (r ∷ ts) t (p, a) h = elim (Bool-cases (r.id == tid)) [
  | inl here ↦ let same : r ≡ t = cc (rw here at h) in rw (sym same) p
  | inr other ↦ All-get tid ts t a (rw other at h)
]

-- The statements.
insert-rows :
    (gid : ℕ) (v : TransferValues) (db : Db)
    → let db' = (insert_transfer gid v db).1 in
      (db'.transfers ≡ db.transfers)
      ⊎ (db'.transfers ≡ db.transfers ++ new_transfer gid v db.seq.transfer db.now ∷ [])
unfolding insert_transfer
insert-rows gid v db = ground arith

update-rows :
    (tid : ℕ) (v : TransferValues) (db : Db)
    → let db' = (update_transfer_row tid v db).1 in
      (db'.transfers ≡ db.transfers)
      ⊎ (db'.transfers ≡ update transfer_key tid (set_transfer v db.now) db.transfers)
unfolding update_transfer_row
update-rows tid v db = ground arith

delete-rows :
    (tid : ℕ) (db : Db)
    → let db' = (delete_transfer_row tid db).1 in
      (db'.transfers ≡ db.transfers) ⊎ (db'.transfers ≡ keep (λ t. not (t.id == tid)) db.transfers)
unfolding delete_transfer_row delete_transfers
delete-rows tid db = ground arith

copy-rows :
    (tid qid gid source_id target_id : ℕ) (name : Option String) (db : Db) (origin : Transfer)
    → get transfer_key tid db.transfers ≡ some origin
    → let db' = (copy_transfer_row tid qid gid source_id target_id name db).1 in
      (db'.transfers ≡ db.transfers)
      ⊎ (db'.transfers
          ≡ db.transfers ++ copied origin qid gid source_id target_id name db.seq.transfer ∷ [])
unfolding copy_transfer_row
copy-rows tid qid gid source_id target_id name db origin found = ground arith

copy-missing :
    (tid qid gid source_id target_id : ℕ) (name : Option String) (db : Db)
    → get transfer_key tid db.transfers ≡ none
    → (copy_transfer_row tid qid gid source_id target_id name db).1.transfers ≡ db.transfers
unfolding copy_transfer_row
copy-missing tid qid gid source_id target_id name db missing = ground arith

pub connection-rows :
    (cid gid : ℕ) (name : Option String) (db : Db)
    → (Connections.copy cid gid name db).1.transfers ≡ db.transfers
unfolding Connections.copy insert_connection
connection-rows cid gid name db = ground arith

pub same_rows-Keeps :
    {A : Type 0} (m : M A) → ((db : Db) → (m db).1.transfers ≡ db.transfers) → Keeps AllRunnable m
same_rows-Keeps m same = record { keeps = λ db a. rw (same db) a }

pub insert-Keeps :
    (gid : ℕ) (v : TransferValues) → ValuesRunnable v → Keeps AllRunnable (insert_transfer gid v)
insert-Keeps gid v p = record {
  keeps = λ db a. elim (insert-rows gid v db) [
    | inl same ↦ rw same a
    | inr added ↦
        rw added
          (All-append RowRunnable db.transfers (new_transfer gid v db.seq.transfer db.now) a p)
  ];
}

pub update-Keeps :
    (tid : ℕ) (v : TransferValues)
    → ValuesRunnable v
    → Keeps AllRunnable (update_transfer_row tid v)
update-Keeps tid v p = record {
  keeps = λ db a. elim (update-rows tid v db) [
    | inl same ↦ rw same a
    | inr set ↦ rw set (All-update tid (set_transfer v db.now) db.transfers (λ t. p) a)
  ];
}

pub delete-Keeps : (tid : ℕ) → Keeps AllRunnable (delete_transfer_row tid)
delete-Keeps tid = record {
  keeps = λ db a. elim (delete-rows tid db) [
    | inl same ↦ rw same a
    | inr rows ↦ rw rows (All-keep RowRunnable (λ t. not (t.id == tid)) db.transfers a)
  ];
}

pub copy-Keeps :
    (tid qid gid source_id target_id : ℕ) (name : Option String)
    → Keeps AllRunnable (copy_transfer_row tid qid gid source_id target_id name)
copy-Keeps tid qid gid source_id target_id name = record {
  keeps = λ db a. elim (Option-cases (get transfer_key tid db.transfers)) [
    | inl missing ↦ rw (copy-missing tid qid gid source_id target_id name db missing) a
    | inr (origin, found) ↦ elim (copy-rows tid qid gid source_id target_id name db origin found) [
      | inl same ↦ rw same a
      | inr added ↦ rw added (
          All-append RowRunnable db.transfers
            (copied origin qid gid source_id target_id name db.seq.transfer) a
            (All-get tid db.transfers origin a found))
    ]
  ];
}
