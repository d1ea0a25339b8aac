-- ===== src/Db/Rows.antt =====
-- The classes of syncmaster/db/models. Columns that no modelled code reads are left out: the search
-- vectors, and the time stamps of all tables but transfer and run.
use syncmaster.Prelude.{ℕ, String, Bool, Option, List}
use syncmaster.Errors.{ConnectionType, Status}
use syncmaster.Db.Json.{Json}

pub data GroupMemberRole : Type 0 where
  maintainer developer owner guest superuser : GroupMemberRole

pub record User : Type 0 where
  pub id : ℕ
  pub username : String
  pub email : Option String
  pub first_name : Option String
  pub last_name : Option String
  pub middle_name : Option String
  pub is_superuser : Bool
  pub is_active : Bool

pub record Group : Type 0 where
  pub id : ℕ
  pub name : String
  pub description : String
  pub owner_id : ℕ

pub record UserGroup : Type 0 where
  pub user_id : ℕ
  pub group_id : ℕ
  pub role : GroupMemberRole

pub record Queue : Type 0 where
  pub id : ℕ
  pub name : String
  pub slug : List ℕ
  pub group_id : ℕ
  pub description : String

pub record Connection : Type 0 where
  pub id : ℕ
  pub group_id : ℕ
  pub type : ConnectionType
  pub name : String
  pub description : String
  pub payload : Json

pub record AuthData : Type 0 where
  pub connection_id : ℕ
  pub value : String

pub record Transfer : Type 0 where
  pub id : ℕ
  pub group_id : ℕ
  pub name : String
  pub description : String
  pub source_connection_id : ℕ
  pub target_connection_id : ℕ
  pub strategy_params : Json
  pub source_params : Json
  pub target_params : Json
  pub transformations : Json
  pub resources : Json
  pub is_scheduled : Bool
  pub schedule : String
  pub queue_id : ℕ
  pub created_at : ℕ
  pub updated_at : ℕ

pub data RunType : Type 0 where
  manual scheduled : RunType

pub record Run : Type 0 where
  pub id : ℕ
  pub transfer_id : ℕ
  pub started_at : Option ℕ
  pub ended_at : Option ℕ
  pub status : Status
  pub type : RunType
  pub log_url : Option String
  pub transfer_dump : Json
  pub created_at : ℕ
  pub updated_at : ℕ

-- The sequences that give new rows their keys.
pub record Sequences : Type 0 where
  pub group : ℕ
  pub queue : ℕ
  pub connection : ℕ
  pub transfer : ℕ
  pub run : ℕ
  pub user : ℕ

pub record Db : Type 0 where
  pub users : List User
  pub groups : List Group
  pub user_groups : List UserGroup
  pub queues : List Queue
  pub connections : List Connection
  pub auth_data : List AuthData
  pub transfers : List Transfer
  pub runs : List Run
  pub seq : Sequences
  pub now : ℕ

-- The primary keys.
abbrev pub user_key : User → ℕ
user_key u = u.id

abbrev pub group_key : Group → ℕ
group_key g = g.id

abbrev pub user_group_key : UserGroup → ℕ × ℕ
user_group_key m = (m.group_id, m.user_id)

abbrev pub queue_key : Queue → ℕ
queue_key q = q.id

abbrev pub connection_key : Connection → ℕ
connection_key c = c.id

abbrev pub auth_data_key : AuthData → ℕ
auth_data_key a = a.connection_id

abbrev pub transfer_key : Transfer → ℕ
transfer_key t = t.id

abbrev pub run_key : Run → ℕ
run_key r = r.id
