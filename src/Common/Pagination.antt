-- ===== src/Common/Pagination.antt =====
-- apps/common/pagination.py. How the framework's paginator cuts a page out of a queryset, and the
-- links that it makes, are the framework's.
use saas_backend_api.Prelude.{ℕ, String, Option, List}

-- The attributes of `DefaultPagination` that the framework reads.
abbrev pub page_size : ℕ
page_size = 25

abbrev pub page_size_query_param : String
page_size_query_param = "page_size"

abbrev pub max_page_size : ℕ
max_page_size = 100

-- What the framework's paginator knows after it has cut out a page: `page.paginator.count`,
-- `page.paginator.num_pages`, `page.number`, `get_page_size`, the two links, and the page's rows.
pub record Paging (A : Type 0) : Type 0 where
  pub count : ℕ
  pub num_pages : ℕ
  pub number : ℕ
  pub size : ℕ
  pub next_link : Option String
  pub previous_link : Option String
  pub rows : List A

-- The payload of a page.
pub record Page (A : Type 0) : Type 0 where
  pub count : ℕ
  pub total_pages : ℕ
  pub current_page : ℕ
  pub page_size : ℕ
  pub next : Option String
  pub previous : Option String
  pub results : List A

-- `DefaultPagination.get_paginated_response`
abbrev pub get_paginated_response : {A B : Type 0} → Paging A → List B → Page B
get_paginated_response p content = record {
  count = p.count;
  total_pages = p.num_pages;
  current_page = p.number;
  page_size = p.size;
  next = p.next_link;
  previous = p.previous_link;
  results = content;
}
