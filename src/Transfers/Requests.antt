-- ===== src/Transfers/Requests.antt =====
-- The requests that change transfers, served one after the other by the handlers of
-- syncmaster/server/api/v1/transfers.py.

use syncmaster.Db.{Db, User}
use syncmaster.Transfers.Api.{
  TransferBody, CopyBody, create_transfer, copy_transfer, update_transfer, delete_transfer,
}
use syncmaster.Transfers.Bodies.{CreateTransfer, create_transfer_schema}
use syncmaster.Transfers.Runnable.{validated-IsRunnable}
use syncmaster.Prelude.{ℕ, Option, none, some, List, [], ◌∷◌, ◌≡◌, refl, nat_eq}
use syncmaster.Transfers.Rows.{AllRunnable}
use syncmaster.Transfers.Kept.{
  create_transfer-Keeps, update_transfer-Keeps, delete_transfer-Keeps, copy_transfer-Keeps,
}

pub data TransferRequest : Type 0 where
  create : CreateTransfer → TransferRequest
  copy : ℕ → CopyBody → TransferRequest
  update_by : ℕ → CreateTransfer → TransferRequest
  remove : ℕ → TransferRequest

-- The body of a request is validated before its handler runs.
abbrev with_body : Option TransferBody → (TransferBody → Db) → Db → Db
with_body none f db = db
with_body (some body) f db = f body

-- The database after a request.
unfoldable pub handle_transfer : User → TransferRequest → Db → Db
handle_transfer u (create r) db =
    with_body (create_transfer_schema r) (λ body. (create_transfer u body db).1) db
handle_transfer u (copy tid body) db = (copy_transfer u tid body db).1
handle_transfer u (update_by tid r) db =
    with_body (create_transfer_schema r) (λ body. (update_transfer u tid body db).1) db
handle_transfer u (remove tid) db = (delete_transfer u tid db).1

unfoldable pub serve_transfers : List (User × TransferRequest) → Db → Db
serve_transfers [] db = db
serve_transfers ((u, req) ∷ reqs) db = serve_transfers reqs (handle_transfer u req db)

with_body-AllRunnable :
    (o : Option TransferBody) (f : TransferBody → Db) (db : Db)
    → AllRunnable db
    → ((b : TransferBody) → o ≡ some b → AllRunnable (f b))
    → AllRunnable (with_body o f db)
with_body-AllRunnable none f db a h = a
with_body-AllRunnable (some b) f db a h = h b refl

handle_transfer-AllRunnable :
    (u : User) (req : TransferRequest) (db : Db)
    → AllRunnable db
    → AllRunnable (handle_transfer u req db)
unfolding handle_transfer
handle_transfer-AllRunnable u (create r) db a =
    with_body-AllRunnable (create_transfer_schema r) (λ body. (create_transfer u body db).1) db a
      (λ b e. (create_transfer-Keeps u b (validated-IsRunnable r b e)).keeps db a)
handle_transfer-AllRunnable u (copy tid body) db a = (copy_transfer-Keeps u tid body).keeps db a
handle_transfer-AllRunnable u (update_by tid r) db a =
    with_body-AllRunnable (create_transfer_schema r) (λ body. (update_transfer u tid body db).1) db
      a (λ b e. (update_transfer-Keeps u tid b (validated-IsRunnable r b e)).keeps db a)
handle_transfer-AllRunnable u (remove tid) db a = (delete_transfer-Keeps u tid).keeps db a

-- Requests that create, copy, update and delete transfers, whoever sends them and whatever they
-- answer, keep this: every transfer that is scheduled has a schedule, and its strategy is one that
-- its source, by the type in its parameters, supports, on S3 and HDFS a full one, and on the other
-- storages of files an incremental one only by the name or the time of the files.
pub serve_transfers-AllRunnable :
    (reqs : List (User × TransferRequest)) (db : Db)
    → AllRunnable db
    → AllRunnable (serve_transfers reqs db)
unfolding serve_transfers
serve_transfers-AllRunnable [] db a = a
serve_transfers-AllRunnable ((u, req) ∷ reqs) db a =
    serve_transfers-AllRunnable reqs (handle_transfer u req db)
      (handle_transfer-AllRunnable u req db a)
