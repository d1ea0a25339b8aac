-- ===== src/Spark/Packages.antt =====
-- The packages of a session: syncmaster/worker/ivy2.py.
use syncmaster.Errors.{ConnectionType}
use syncmaster.Schemas.Connections.{type_name}
use syncmaster.Spark.{Libraries, get_packages, extend_all, extensions}
use syncmaster.Prelude.{
  Bool, List, String, ◌++◌, ◌∷◌, [], ◌||◌, any, str_eq, true, false, ◌≡◌, arith, refl, ◌&&◌, ◌∙◌,
  ap,
}

-- The packages that a connection of a type is made with; Hive and HDFS have none of their own.
abbrev pub drivers : Libraries → ConnectionType → List String
drivers l ConnectionType.postgres = l.postgres
drivers l ConnectionType.oracle = l.oracle
drivers l ConnectionType.clickhouse =
    "io.github.mtsongithub.doetl:spark-dialect-extension_2.12:0.0.4" ∷ l.clickhouse
drivers l ConnectionType.mssql = l.mssql
drivers l ConnectionType.mysql = l.mysql
drivers l ConnectionType.hive = []
drivers l ConnectionType.iceberg = l.iceberg ++ l.s3_warehouse
drivers l ConnectionType.s3 = l.spark_s3 ++ (l.xml ++ l.excel)
drivers l _ = l.xml ++ l.excel

any-append :
    (p : String) (xs ys : List String)
    → any (str_eq p) (xs ++ ys) ≡ (any (str_eq p) xs || any (str_eq p) ys)
any-append p [] ys = refl
any-append p (x ∷ xs) ys = ground (arith, any-append p xs ys)

-- A package is among the result if it is in a call whose test holds.
any-extend_all :
    (p : String) (calls : List (Bool × List String))
    → any (str_eq p) (extend_all calls)
      ≡ any (λ (c : Bool × List String). c.0 && any (str_eq p) c.1) calls
any-extend_all p [] = refl
any-extend_all p ((true, ps) ∷ calls) =
    any-append p ps (extend_all calls) ∙ ap (λ b. any (str_eq p) ps || b) (any-extend_all p calls)
any-extend_all p ((false, ps) ∷ calls) = any-extend_all p calls

-- Every package that the connections of a type need is among those of a session that has this type
-- among its connections.
pub get_packages-drivers :
    (l : Libraries) (types : List String) (t : ConnectionType) (p : String)
    → any (str_eq (type_name t)) types ≡ true
    → any (str_eq p) (drivers l t) ≡ true
    → any (str_eq p) (get_packages l types) ≡ true
unfolding get_packages type_name
get_packages-drivers l types ConnectionType.postgres p named needed =
    rw (any-extend_all p (extensions l types)) (ground arith)
get_packages-drivers l types ConnectionType.oracle p named needed =
    rw (any-extend_all p (extensions l types)) (ground arith)
get_packages-drivers l types ConnectionType.clickhouse p named needed =
    rw (any-extend_all p (extensions l types)) (ground arith)
get_packages-drivers l types ConnectionType.mssql p named needed =
    rw (any-extend_all p (extensions l types)) (ground arith)
get_packages-drivers l types ConnectionType.mysql p named needed =
    rw (any-extend_all p (extensions l types)) (ground arith)
get_packages-drivers l types ConnectionType.iceberg p named needed =
    rw (any-extend_all p (extensions l types)) (ground arith)
get_packages-drivers l types ConnectionType.hdfs p named needed =
    rw (any-extend_all p (extensions l types)) (ground arith)
get_packages-drivers l types ConnectionType.sftp p named needed =
    rw (any-extend_all p (extensions l types)) (ground arith)
get_packages-drivers l types ConnectionType.ftp p named needed =
    rw (any-extend_all p (extensions l types)) (ground arith)
get_packages-drivers l types ConnectionType.ftps p named needed =
    rw (any-extend_all p (extensions l types)) (ground arith)
get_packages-drivers l types ConnectionType.webdav p named needed =
    rw (any-extend_all p (extensions l types)) (ground arith)
get_packages-drivers l types ConnectionType.samba p named needed =
    rw (any-extend_all p (extensions l types)) (ground arith)
get_packages-drivers l types ConnectionType.s3 p named needed =
    rw (any-extend_all p (extensions l types))
      (ground (arith, any-append p l.spark_s3 (l.xml ++ l.excel)))
get_packages-drivers l types ConnectionType.hive p named needed = absurd (cc needed)
