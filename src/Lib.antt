-- ===== src/Lib.antt =====
-- SyncMaster, a service that moves data between storages: groups of users own queues, connections
-- and transfers, a run executes a transfer, and a scheduler starts runs. The server
-- (syncmaster/server) answers requests over one database, a worker (syncmaster/worker) executes
-- runs.
--
-- The parts, and the files that model them:
--   Db, Db/Rows, Db/Cascade   syncmaster/db/models and syncmaster/db/mixins: a record for each row,
--     the database as the list of rows of each table with its sequences, and the cascades of the
--     foreign keys. Db/Json holds JSON values and dictionaries.
--   Errors                    syncmaster/exceptions, and what the session raises.
--   Session                   syncmaster/server/services/unit_of_work.py: a handler is a function
--     from the database to a result and the database after it; `unit_of_work` is the block of
--     `UnitOfWork`, whose `__aexit__` commits or rolls back. Session/Keeps has rules for what
--     the parts of an action keep, and Session/Returns for what they return.
--   Role, Access              `GroupMemberRole` of syncmaster/db/models/group.py, and `Permission`
--     with the queries of syncmaster/db/repositories/repository_with_owner.py.
--   Pagination, Repository    syncmaster/db/utils.py and syncmaster/db/repositories/base.py.
--   CurrentUser               syncmaster/server/services/get_user.py.
--   Users                     syncmaster/db/repositories/user.py and syncmaster/server/api/v1/users.py;
--     Login is what the providers of syncmaster/server/providers/auth do with the table, and
--     Superusers the script syncmaster/server/scripts/manage_superusers.py.
--   Providers                 syncmaster/server/providers/auth and syncmaster/server/api/v1/auth.py: the
--     gateway here, KeycloakAuthProvider with its cached key and the session of the browser in
--     Keycloak, DummyAuthProvider with syncmaster/server/utils/jwt.py in Dummy.
--   Groups, Queues, Connections, Transfers, Runs   the class of that name under
--     syncmaster/db/repositories, a definition for each method; Statements holds the statements that
--     a method executes, with the constraints of the table, and Api the handlers of
--     syncmaster/server/api/v1, a definition for each route. Credentials is
--     syncmaster/db/repositories/credentials_repository.py with syncmaster/schemas/v1/auth.
--     Transfers/Bodies is `CreateTransferSchema` of syncmaster/schemas/v1/transfers with its
--     validators, and Transfers/Requests serves requests on transfers one after the other.
--     Connections/Shown is about the responses on connections, and Runs/Dumped about the dump of a run.
--   Listings                  the listings of queues, connections, transfers and runs.
--   Search                    syncmaster/db/repositories/search.py; Search/Tokens reads a query back.
--   Queues/Slug               the slug of syncmaster/schemas/v1/queue.py.
--   Responses                 syncmaster/server/handler.py: the response to an exception.
--   Handlers                  syncmaster/worker/handlers: the conditions of databases and files,
--     Transformations with the columns, Files and Templates with the names of files, Hwm with the data of
--     syncmaster/dto and the high water marks, and Controller with
--     `TransferController.perform_transfer` of syncmaster/worker/controller.py. Sql reads conditions
--     back, where a text with a backslash is not read at all, since only some of the databases escape
--     with it; Asks says what a filter asks for; and Reading has the lemmas that it shares with Search/Tokens.
--   Schemas                   syncmaster/schemas/v1: the fields of the requests on connections, for each
--     type, with their credentials; Connections has the union of the classes and its validators, and
--     Transfers the parameters, the strategy and the resources of a transfer.
--   Dto                       syncmaster/dto: the dataclasses of connections, and in Transfers those of
--     transfers. Handlers is `get_handler` and `__init__` of syncmaster/worker/controller.py, with
--     `connect` of the classes of syncmaster/worker/handlers in Handlers/Connect; Handlers/Wanted says
--     with which arguments the classes of the library are to be called.
--   Spark                     syncmaster/worker/spark.py and syncmaster/worker/ivy2.py.
--   Runs/Worker               `run_transfer` of syncmaster/worker/transfer.py.
--   Scheduler                 syncmaster/scheduler: the fetcher, the job manager, one round of the
--     loop of the main module, and the function that a job calls.
-- The other modules under a part hold the lemmas and theorems on it.
--
-- How the model stands to the code. A statement acts on the list of rows of a table, whose primary
-- key is the field that `Prelude.Tables.get`, `update` and `delete` are given. A statement that
-- violates a constraint raises `integrity_error` with the constraint's name, the unique
-- constraints before the foreign keys, and `_raise_error` maps that name. A value that does not
-- fit in its column raises `data_error`, which nothing catches: this is modelled for the texts of
-- the tables of groups, queues and users, and for the group of a queue. The lengths of the columns
-- of connections, transfers and runs and of the users that the script adds are not, nor that the
-- database cuts off spaces beyond the length, nor the null character, which it refuses in a text.
-- Other numbers and keys are natural numbers without an upper bound: the keys are BIGINT columns
-- filled from sequences. A sequence keeps the key that it gave when a block is rolled back. Each
-- transaction runs alone; the interleavings that a theorem is about are sequences of transactions.
-- Time stamps are read from a clock in the database record. The number of pages is computed with a
-- float in the code, which is exact for fewer than 2^53 rows. No definition needs fuel: every loop
-- is over a list, or over the digits of a number by accessibility. A text that the program takes
-- apart is a list of code points; its lower case is that of ASCII, which is all that a queue's
-- name may hold.
--
-- Parameters: the encryption (`Fernet`), whether the task queue takes a message, what
-- `TransferController.perform_transfer` does (it returns or raises), what other transactions do
-- while a transfer is performed, the template of the log address, the parser of schedules, the
-- order by name that the collation of the database gives, the reader of access tokens of
-- CurrentUser, what the identity server answers, the library that signs and reads tokens, the
-- parsers of file formats, and the packages that the data transfer library names. A validated
-- request is a function from the names of its fields to their values: what validation gives, not
-- how it gets there.
--
-- Not modelled: the patterns of table names and directories, settings, middlewares, migrations and
-- logging; what the database does with a full-text query; and what the data transfer library and
-- Spark do with the calls of the worker, which are parameters that may raise.
pub mod Prelude
pub mod Errors
pub mod Db
pub mod Session
pub mod Role
pub mod Access
pub mod Pagination
pub mod Users
pub mod CurrentUser
pub mod Groups
pub mod Queues
pub mod Credentials
pub mod Connections
pub mod Transfers
pub mod Repository
pub mod Runs
pub mod Reading
pub mod Search
pub mod Handlers
pub mod Responses
pub mod Scheduler
pub mod Listings
pub mod Schemas
pub mod Dto
pub mod Providers
pub mod Spark
pub mod Tests
