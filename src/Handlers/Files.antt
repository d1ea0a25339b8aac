-- ===== src/Handlers/Files.antt =====
-- The names of the files that the worker writes: syncmaster/worker/handlers/file/base.py, with the
-- formats of syncmaster/schemas/v1/transfers/file_format.py.
use syncmaster.Prelude.{
  Bool, List, Text, ◌≡◌, codes, ◌∷◌, true, if◌then◌else◌, Option, text_eq, some, ◌||◌, false, [],
  none, ◌&&◌, ◌++◌, arith, refl,
}

pub data FileFormat : Type 0 where
  csv jsonline json excel xml orc parquet : FileFormat

-- A value of the compression enums other than "none".
pub data Compression : Type 0 where
  snappy zlib lz4 gzip bzip2 deflate : Compression

-- The compressions that the schema of a format allows; a sheet has none.
abbrev pub allows : FileFormat → Option Compression → Bool
allows excel none = true
allows excel _ = false
allows orc (some gzip) = false
allows orc (some bzip2) = false
allows orc (some deflate) = false
allows orc _ = true
allows parquet (some zlib) = false
allows parquet (some bzip2) = false
allows parquet (some deflate) = false
allows parquet _ = true
allows xml (some zlib) = false
allows xml (some deflate) = false
allows xml _ = true
allows _ (some zlib) = false
allows _ _ = true

-- `_compression_to_file_suffix`
abbrev compression_suffix : Compression → Text
compression_suffix gzip = codes "gz"
compression_suffix snappy = codes "snappy"
compression_suffix zlib = codes "zlib"
compression_suffix lz4 = codes "lz4"
compression_suffix bzip2 = codes "bz2"
compression_suffix deflate = codes "deflate"

-- `_file_format_to_file_suffix`
abbrev format_suffix : FileFormat → Text
format_suffix json = codes "json"
format_suffix jsonline = codes "jsonl"
format_suffix csv = codes "csv"
format_suffix xml = codes "xml"
format_suffix excel = codes "xlsx"
format_suffix parquet = codes "parquet"
format_suffix orc = codes "orc"

-- `extension_suffix in COLUMN_FORMATS`
abbrev is_column_format : Text → Bool
is_column_format s = text_eq s (codes "parquet") || text_eq s (codes "orc")

abbrev with_compression : Text → Text → Text
with_compression extension compression =
    if text_eq extension (codes "parquet") && text_eq compression (codes "lz4")
    then codes "lz4hadoop.parquet"
    else if is_column_format extension
    then compression ++ (b'.' ∷ extension)
    else extension ++ (b'.' ∷ compression)

-- No compression stands for "none", and for a format without the field.
unfoldable pub get_file_extension : FileFormat → Option Compression → Text
get_file_extension format none = format_suffix format
get_file_extension format (some compression) =
    with_compression (format_suffix format) (compression_suffix compression)

-- Every format with every compression.
abbrev formats : List FileFormat
formats = csv ∷ jsonline ∷ json ∷ excel ∷ xml ∷ orc ∷ parquet ∷ []

abbrev compressions : List (Option Compression)
compressions =
    none ∷ some snappy ∷ some zlib ∷ some lz4 ∷ some gzip ∷ some bzip2 ∷ some deflate ∷ []

-- The allowed pairs whose extension is a text.
abbrev find_compression :
    FileFormat → List (Option Compression) → Text → Option (FileFormat × Option Compression)
find_compression f [] s = none
find_compression f (c ∷ cs) s =
    if allows f c && text_eq (get_file_extension f c) s
    then some (f, c)
    else find_compression f cs s

abbrev find_format : List FileFormat → Text → Option (FileFormat × Option Compression)
find_format [] s = none
find_format (f ∷ fs) s =
    let rest = find_format fs s in
    elim (find_compression f compressions s) [ some p ↦ some p | none ↦ rest ]

-- The first format and compression with an extension.
unfoldable pub read_extension : Text → Option (FileFormat × Option Compression)
read_extension s = find_format formats s

-- The extension of a file tells its format and its compression, for all that the schemas allow: no
-- two of them give the same extension.
pub get_file_extension-read_extension :
    (f : FileFormat) (c : Option Compression)
    → allows f c ≡ true
    → read_extension (get_file_extension f c) ≡ some (f, c)
unfolding get_file_extension read_extension
get_file_extension-read_extension csv none h = refl
get_file_extension-read_extension csv (some snappy) h = refl
get_file_extension-read_extension csv (some zlib) h = absurd (ground arith)
get_file_extension-read_extension csv (some lz4) h = refl
get_file_extension-read_extension csv (some gzip) h = refl
get_file_extension-read_extension csv (some bzip2) h = refl
get_file_extension-read_extension csv (some deflate) h = refl
get_file_extension-read_extension jsonline none h = refl
get_file_extension-read_extension jsonline (some snappy) h = refl
get_file_extension-read_extension jsonline (some zlib) h = absurd (ground arith)
get_file_extension-read_extension jsonline (some lz4) h = refl
get_file_extension-read_extension jsonline (some gzip) h = refl
get_file_extension-read_extension jsonline (some bzip2) h = refl
get_file_extension-read_extension jsonline (some deflate) h = refl
get_file_extension-read_extension json none h = refl
get_file_extension-read_extension json (some snappy) h = refl
get_file_extension-read_extension json (some zlib) h = absurd (ground arith)
get_file_extension-read_extension json (some lz4) h = refl
get_file_extension-read_extension json (some gzip) h = refl
get_file_extension-read_extension json (some bzip2) h = refl
get_file_extension-read_extension json (some deflate) h = refl
get_file_extension-read_extension excel none h = refl
get_file_extension-read_extension excel (some snappy) h = absurd (ground arith)
get_file_extension-read_extension excel (some zlib) h = absurd (ground arith)
get_file_extension-read_extension excel (some lz4) h = absurd (ground arith)
get_file_extension-read_extension excel (some gzip) h = absurd (ground arith)
get_file_extension-read_extension excel (some bzip2) h = absurd (ground arith)
get_file_extension-read_extension excel (some deflate) h = absurd (ground arith)
get_file_extension-read_extension xml none h = refl
get_file_extension-read_extension xml (some snappy) h = refl
get_file_extension-read_extension xml (some zlib) h = absurd (ground arith)
get_file_extension-read_extension xml (some lz4) h = refl
get_file_extension-read_extension xml (some gzip) h = refl
get_file_extension-read_extension xml (some bzip2) h = refl
get_file_extension-read_extension xml (some deflate) h = absurd (ground arith)
get_file_extension-read_extension orc none h = refl
get_file_extension-read_extension orc (some snappy) h = refl
get_file_extension-read_extension orc (some zlib) h = refl
get_file_extension-read_extension orc (some lz4) h = refl
get_file_extension-read_extension orc (some gzip) h = absurd (ground arith)
get_file_extension-read_extension orc (some bzip2) h = absurd (ground arith)
get_file_extension-read_extension orc (some deflate) h = absurd (ground arith)
get_file_extension-read_extension parquet none h = refl
get_file_extension-read_extension parquet (some snappy) h = refl
get_file_extension-read_extension parquet (some zlib) h = absurd (ground arith)
get_file_extension-read_extension parquet (some lz4) h = refl
get_file_extension-read_extension parquet (some gzip) h = refl
get_file_extension-read_extension parquet (some bzip2) h = absurd (ground arith)
get_file_extension-read_extension parquet (some deflate) h = absurd (ground arith)
