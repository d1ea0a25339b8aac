-- ===== src/Pagination.antt =====
-- `Pagination` of syncmaster/db/utils.py, and the limit and offset of
-- `Repository._paginate_scalar_result` in syncmaster/db/repositories/base.py.
pub mod Pages
use syncmaster.Prelude.{
  ℕ, ◌+◌, ◌-◌, ◌*◌, ◌/◌, Bool, Option, none, some, List, length, take, drop, ltb, ◌==◌,
  if◌then◌else◌,
}

pub record Pagination (A : Type 0) : Type 0 where
  pub items : List A
  pub total : ℕ
  pub page : ℕ
  pub page_size : ℕ
  pub previous_page : Option ℕ
  pub next_page : Option ℕ
  pub has_previous : Bool
  pub has_next : Bool
  pub pages : ℕ

-- `math.ceil(total / float(page_size)) or 1`
unfoldable pub count_pages : ℕ → ℕ → ℕ
count_pages total page_size =
    let pages = (total + (page_size - 1)) / page_size in if pages == 0 then 1 else pages

module _ {A : Type 0} where
  -- `Pagination.__init__`; the page and its size are at least 1.
  unfoldable pub pagination : List A → ℕ → ℕ → ℕ → Pagination A
  unfolding count_pages
  pagination items page page_size total = record {
    items = items;
    total = total;
    page = page;
    page_size = page_size;
    previous_page = if ltb 1 page then some (page - 1) else none;
    next_page = if ltb ((page - 1) * page_size + length items) total then some (page + 1) else none;
    has_previous = ltb 1 page;
    has_next = ltb ((page - 1) * page_size + length items) total;
    pages = count_pages total page_size;
  }

  -- `query.limit(page_size).offset((page - 1) * page_size)`, on the rows that the query finds.
  unfoldable pub paginate : List A → ℕ → ℕ → Pagination A
  unfolding pagination
  paginate rows page page_size =
      pagination (take page_size (drop ((page - 1) * page_size) rows)) page page_size (length rows)
