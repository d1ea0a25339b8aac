-- ===== src/Tests/PageCases.antt =====
-- Pages of a short list, and the fields of credentials.
use syncmaster.Db.Json.{str}
use syncmaster.Credentials.{read_schema}
use syncmaster.Pagination.{paginate}
use syncmaster.Pagination.Pages.{read_pages, read_pages-paginate}
use syncmaster.Prelude.{List, ◌≡◌, ℕ, ◌∷◌, [], arith, refl}
use syncmaster.Tests.Sample.{login}

abbrev rows : List ℕ
rows = 10 ∷ 20 ∷ 30 ∷ 40 ∷ 50 ∷ []

read_pages-paginate_example : read_pages rows 2 1 (paginate rows 1 2).pages ≡ rows
read_pages-paginate_example = read_pages-paginate rows 2 (omega arith)

-- The third of three pages is the last.
last_page : (paginate rows 3 2).pages ≡ 3
unfolding paginate
last_page = refl

-- The user stays.
shown : (read_schema login).fields ≡ ("user", str "u") ∷ []
unfolding read_schema syncmaster.Credentials.read_fields
shown = refl
