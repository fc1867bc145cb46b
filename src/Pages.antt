-- ===== src/Pages.antt =====
-- The listings in pages: apps/api/schemas/common.py, `list_numbers` of
-- apps/api/services/phone_number_service.py (as `list_users` of user_service.py beside it) and `list_contacts` of
-- apps/api/routers/contacts.py (as `list_campaigns` of campaigns.py beside it). The ORDER BY is an argument, and an item
-- stands for its response model.
pub mod Cover
mod Tests
use calling_agent.Prelude.{ℕ, ◌+◌, ◌-◌, ◌*◌, ◌/◌, ◌==◌, ltb, if◌then◌else◌, Bool, List, some}
use calling_agent.Http.{Action, gets, pure, ◌>>=◌}
use calling_agent.Repo.{Row, get_all}
use calling_agent.Contacts.{Contact, Contacts}

pub record PaginationParams : Type 0 where
  pub page : ℕ
  pub per_page : ℕ

abbrev pub skip : PaginationParams → ℕ
skip p = (p.page - 1) * p.per_page

abbrev pub limit : PaginationParams → ℕ
limit p = p.per_page

pub record PaginatedResponse (T : Type 0) : Type 0 where
  pub items : List T
  pub total : ℕ
  pub page : ℕ
  pub per_page : ℕ
  pub pages : ℕ

module _ (tenant : ℕ) where
  unfoldable pub list_numbers :
      {B : Type 0}
      → (List (Row B) → List (Row B))
      → PaginationParams
      → List (Row B)
      → PaginatedResponse (Row B)
  unfolding get_all
  list_numbers order p rows =
      let (items, total) = get_all (some tenant) order (skip p) (limit p) rows in
      record {
        items = items;
        total = total;
        page = p.page;
        per_page = p.per_page;
        pages = if ltb 0 total then (total + p.per_page - 1) / p.per_page else 0;
      }

  unfoldable pub list_contacts :
      (Contacts → Contacts) → PaginationParams → Contacts → PaginatedResponse (Row Contact)
  unfolding get_all
  list_contacts order p rows =
      let (items, total) = get_all (some tenant) order (skip p) (limit p) rows in
      record {
        items = items;
        total = total;
        page = p.page;
        per_page = p.per_page;
        pages = if p.per_page == 0 then 1 else (total + p.per_page - 1) / p.per_page;
      }
