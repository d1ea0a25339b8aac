-- ===== src/Handlers/Hwm.antt =====
-- The data of a transfer that the worker handles, its high water mark, and the options of its
-- reader and its writer: syncmaster/dto, syncmaster/worker/handlers/db/base.py,
-- syncmaster/worker/handlers/file and `_get_transfer_hwm_name` of syncmaster/worker/controller.py.
use mathlib.Core.List.{append-nil}
use syncmaster.Prelude.{
  Bool, Option, Text, codes, ℕ, join, decimal, some, false, not, ◌≡◌, read_from, List,
  if◌then◌else◌, none, ◌∷◌, [], ◌==◌, ◌&&◌, true, text_eq, ◌++◌, is_empty, ◌||◌, decimal-append,
  read_from-decimal, refl,
}

-- What `Strategy.from_dict` makes of `strategy_params`.
pub data Strategy : Type 0 where
  full : Strategy
  incremental : Text → Strategy

-- `DBTransferDTO` and `FileTransferDTO` tell the two kinds of storage apart.
pub data Place : Type 0 where
  table_name directory_path : Text → Place

-- The fields of `TransferDTO` that the functions below read; of the options, `if_exists`.
pub record TransferDto : Type 0 where
  pub id : ℕ
  pub place : Place
  pub strategy : Strategy
  pub if_exists : Option Text

abbrev pub is_incremental : Strategy → Bool
is_incremental full = false
is_incremental (incremental _) = true

-- The value of a mark: an integer with its sign, a moment, or a list of files.
pub data HwmValue : Type 0 where
  integer : Bool → ℕ → HwmValue
  moment : ℕ → HwmValue
  files : List Text → HwmValue

-- `bool(hwm.value)`: zero and the empty list are false.
abbrev pub is_true : HwmValue → Bool
is_true (integer _ n) = not (n == 0)
is_true (moment _) = true
is_true (files fs) = not (is_empty fs)

-- A mark of the store, which may have no value yet.
abbrev pub Hwm : Type 0
Hwm = Option HwmValue

-- `hwm and hwm.value`: zero and the empty list count as no value.
abbrev pub has_value : Option Hwm → Bool
has_value (some (some v)) = is_true v
has_value _ = false

abbrev pub underscore : ℕ
underscore = b'_'

abbrev path_of : Place → Text
path_of (table_name s) = s
path_of (directory_path s) = s

-- `"_".join([str(id), connection_dto.type, hwm_name_suffix])`
unfoldable pub get_transfer_hwm_name : Text → TransferDto → Text
get_transfer_hwm_name connection_type t =
    join (underscore ∷ []) (decimal t.id [] ∷ connection_type ∷ path_of t.place ∷ [])

-- Whether `read` of the handler of the source looks for a mark: `DBHandler` if the strategy is
-- incremental, `LocalDFFileHandler` if `increment_by` is also one that it knows.
abbrev pub looks_for_mark : Strategy → Place → Bool
looks_for_mark full _ = false
looks_for_mark (incremental _) (table_name _) = true
looks_for_mark (incremental increment_by) (directory_path _) =
    text_eq increment_by (codes "file_modified_since") || text_eq increment_by (codes "file_name")

-- `f"{id}_{connection_dto.type}_{table_name}"`, or with `directory_path`, in `read`.
unfoldable pub reader_hwm_name : Text → TransferDto → Option Text
reader_hwm_name connection_type t =
    if looks_for_mark t.strategy t.place
    then some
        (decimal t.id [] ++ (underscore ∷ (connection_type ++ (underscore ∷ path_of t.place))))
    else none

-- `self.options.setdefault("if_exists", value)`
abbrev set_default : Text → TransferDto → TransferDto
set_default value t = record t {
  if_exists = elim t.if_exists [ some v ↦ some v | none ↦ some value ];
}

-- `__post_init__` of the two classes.
abbrev default_mode : Place → Text
default_mode (table_name _) = codes "replace_entire_table"
default_mode (directory_path _) = codes "replace_overlapping_partitions"

unfoldable pub post_init : TransferDto → TransferDto
post_init t = set_default (default_mode t.place) t

-- `__post_init__` of `HiveTransferDTO`
unfoldable pub hive_post_init : TransferDto → TransferDto
unfolding post_init
hive_post_init t = set_default (codes "replace_overlapping_partitions") (post_init t)

-- `__post_init__` of `IcebergTransferDTO`
unfoldable pub iceberg_post_init : TransferDto → TransferDto
unfolding post_init
iceberg_post_init t = set_default (codes "replace_overlapping_partitions") (post_init t)

abbrev is_table : Place → Bool
is_table (table_name _) = true
is_table (directory_path _) = false

-- The option `if_exists` that `write` gives to the writer.
unfoldable pub write_mode : Option Hwm → TransferDto → Option Text
write_mode hwm t =
    if is_table t.place && (is_incremental t.strategy && has_value hwm)
    then some (codes "append")
    else t.if_exists

-- A reader looks for the mark that the controller looks up, and the name of a mark starts with the
-- id of its transfer, so that two transfers never share one.
pub hwm_name-id :
    (connection_type : Text) (t : TransferDto)
    → (read_from 0 (get_transfer_hwm_name connection_type t) ≡ t.id)
      × (reader_hwm_name connection_type t ≡ (
          if looks_for_mark t.strategy t.place
          then some (get_transfer_hwm_name connection_type t)
          else none))
unfolding get_transfer_hwm_name reader_hwm_name read_from
hwm_name-id connection_type t = (
  rw
      (decimal-append t.id []
        (underscore ∷ (connection_type ++ (underscore ∷ (path_of t.place ++ [])))))
      (read_from-decimal t.id
        (underscore ∷ (connection_type ++ (underscore ∷ (path_of t.place ++ []))))),
  rw (append-nil (path_of t.place)) refl,
)
