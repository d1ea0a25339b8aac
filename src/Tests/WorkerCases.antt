-- ===== src/Tests/WorkerCases.antt =====
-- Transfers of the worker, with the marks of a small store.
use syncmaster.Handlers.{postgres_handler}
use syncmaster.Handlers.Names.{is_formatted, get_file_name-is_formatted, no_attribute}
use syncmaster.Handlers.Templates.{validate_file_name_template, accepted, get_file_name, formatted}
use syncmaster.Handlers.Reset.{perform_transfer-mark, reset_of}
use syncmaster.Handlers.Plan.{mark_of}
use syncmaster.Handlers.Controller.{Call, run_reader, TransferController, World, perform_transfer}
use syncmaster.Prelude.{
  Text, read_from, text_eq, [], some, Bool, ◌≡◌, codes, false, true, text_eq_iff, ◌∷◌, none, refl,
  Option, ℕ, leb, ◌&&◌, ◌||◌, ◌==◌,
}
use syncmaster.Handlers.Hwm.{
  Strategy, get_transfer_hwm_name, TransferDto, incremental, full, table_name, integer,
  reader_hwm_name, hwm_name-id,
}
use syncmaster.Handlers.Files.{
  read_extension, get_file_extension, parquet, lz4, get_file_extension-read_extension,
}

get_file_extension-read_extension_example :
    read_extension (get_file_extension parquet (some lz4)) ≡ some (parquet, some lz4)
get_file_extension-read_extension_example =
    get_file_extension-read_extension parquet (some lz4) refl

abbrev orders : Strategy → TransferDto
orders strategy = record {
  id = 7;
  place = table_name (codes "public.orders");
  strategy = strategy;
  if_exists = none;
}

hwm_name-id_example :
    (read_from 0 (get_transfer_hwm_name (codes "postgres") (orders (incremental (codes "id")))) ≡ 7)
    × (reader_hwm_name (codes "postgres") (orders (incremental (codes "id")))
        ≡ some (get_transfer_hwm_name (codes "postgres") (orders (incremental (codes "id")))))
hwm_name-id_example = hwm_name-id (codes "postgres") (orders (incremental (codes "id")))

abbrev controller : TransferController
controller = record {
  source_type = codes "postgres";
  source = orders full;
  target = orders full;
  hwm_store_enabled = true;
}

abbrev name : Text
name = get_transfer_hwm_name (codes "postgres") (orders full)

abbrev world : World
world = record { store = (name, some (integer false 5)) ∷ []; calls = [] }

abbrev no_error : Call → Bool
no_error _ = false

same_name : text_eq name name ≡ true
same_name = (text_eq_iff name name).1 refl

returns : (perform_transfer no_error controller world).0 ≡ true
unfolding perform_transfer syncmaster.Handlers.Controller.try_transfer
    syncmaster.Handlers.Controller.reset_transfer_hwm
returns = rw same_name refl

perform_transfer-mark_example :
    mark_of controller (perform_transfer no_error controller world).1.store
    ≡ reset_of (mark_of controller world.store)
perform_transfer-mark_example = perform_transfer-mark no_error controller world refl refl returns

-- The reader raises.
abbrev reader_raises : Call → Bool
reader_raises (run_reader _) = true
reader_raises _ = false

abbrev letter : ℕ → Bool
letter c = leb b'a' c && leb c b'z' || c == b'_'

abbrev template : Text
template = codes "{run_id}-{index}.{extension}"

accepted_template : validate_file_name_template letter no_attribute template ≡ accepted
unfolding validate_file_name_template syncmaster.Handlers.Templates.format
accepted_template = refl

-- The representation of a method, for any name.
abbrev upper : Text → Text → Option Text
upper _ _ = some (codes "method")

get_file_name-is_formatted_example :
    is_formatted (get_file_name upper template 3 (codes "csv.gz") 12 (codes "2026")) ≡ true
get_file_name-is_formatted_example =
    get_file_name-is_formatted letter upper template 3 (codes "csv.gz") 12 (codes "2026")
      accepted_template

-- Doubled braces pass the test on the placeholders, and every file gets the same name.
constant_name :
    (validate_file_name_template letter no_attribute
        (codes "{{index}}.{{extension}}-{run_created_at}")
      ≡ accepted)
    × (get_file_name no_attribute
          (codes "{{index}}.{{extension}}-{run_created_at}")
          3
          (codes "csv")
          12
          (codes "2026")
        ≡ formatted (codes "{index}.{extension}-2026"))
unfolding validate_file_name_template get_file_name syncmaster.Handlers.Templates.format
constant_name = (refl, refl)
