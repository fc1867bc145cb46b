-- ===== src/Contacts.antt =====
-- Contacts: the table of apps/api/models/contact.py and the query of apps/api/repositories/contact_repo.py.
pub mod Service
mod Counts
mod Inversion
mod Changes
mod Tests
use calling_agent.Prelude.{ℕ, ◌==◌, String, Bool, ◌&&◌, Option, some, List, select, str_eq}
use calling_agent.Http.{Result}
use calling_agent.Json.{Fields}
use calling_agent.Repo.{Row, in_tenant, scalar_one_or_none}

pub record Contact : Type 0 where
  pub phone_number : String
  pub email : Option String
  pub first_name : Option String
  pub last_name : Option String
  pub company : Option String
  pub timezone : Option String
  pub tags : List String
  pub custom_fields : Fields
  pub notes : Option String
  pub status : String
  pub do_not_call : Bool
  pub last_contacted_at : Option ℕ
  pub total_calls : ℕ

abbrev pub Contacts : Type 0
Contacts = List (Row Contact)

-- The index `ix_contacts_phone_tenant`.
abbrev pub same_contact : Row Contact → Row Contact → Bool
same_contact x y = x.tenant_id == y.tenant_id && str_eq x.body.phone_number y.body.phone_number

-- The condition of `get_by_phone` on a row.
abbrev pub has_phone : ℕ → String → Row Contact → Bool
has_phone tenant phone r = str_eq r.body.phone_number phone && in_tenant (some tenant) r

unfoldable pub get_by_phone : ℕ → String → Contacts → Result (Option (Row Contact))
get_by_phone tenant phone rows = scalar_one_or_none (select (has_phone tenant phone) rows)
