-- ===== src/Compliance.antt =====
-- Whom a tenant may call: apps/api/services/compliance_service.py, apps/api/repositories/compliance_repo.py and
-- the table of apps/api/models/compliance.py.
pub mod Clock
pub mod Dnc
pub mod Hours
pub mod Import
pub mod Removal
mod Tests
use calling_agent.Prelude.{
  ℕ, suc, ◌+◌, ◌*◌, ltb, leb, ◌==◌, String, Bool, true, false, ◌&&◌, ◌||◌, Option, none, some, List,
  [], ◌∷◌, any, select, str_eq, if◌then◌else◌, is_some,
}
use calling_agent.Http.{Error, Result, ok, err, integrity, Action, pure, query, ◌>>=◌, ◌>>◌}
use calling_agent.Repo.{Row, Values, in_tenant, scalar_one_or_none, create, update}

pub record DncEntry : Type 0 where
  pub phone_number : String
  pub source : String
  pub reason : Option String
  pub is_active : Bool

abbrev pub Entries : Type 0
Entries = List (Row DncEntry)

-- The index `ix_dnc_phone_tenant`.
abbrev pub same_phone : Row DncEntry → Row DncEntry → Bool
same_phone x y = x.tenant_id == y.tenant_id && str_eq x.body.phone_number y.body.phone_number

-- `dnc_source_check`
abbrev pub valid_source : String → Bool
valid_source s = any (str_eq s) ("manual" ∷ "opt_out" ∷ "federal" ∷ "state" ∷ "imported" ∷ [])

-- The condition of `DNCRepository.get_by_phone`.
abbrev pub is_listed : ℕ → String → Row DncEntry → Bool
is_listed tenant phone r =
    str_eq r.body.phone_number phone && r.body.is_active && in_tenant (some tenant) r

unfoldable pub get_by_phone : ℕ → String → Entries → Result (Option (Row DncEntry))
get_by_phone tenant phone rows = scalar_one_or_none (select (is_listed tenant phone) rows)

-- A new row; `id` is the key that the database draws.
abbrev pub entry : ℕ → ℕ → String → String → Option String → Row DncEntry
entry tenant id phone source reason = record {
  id = id;
  tenant_id = tenant;
  body = record { phone_number = phone; source = source; reason = reason; is_active = true };
}

-- `create`, with the table's check on the source.
unfoldable pub create_entry :
    ℕ → ℕ → String → String → Option String → Action Entries (Row DncEntry)
create_entry tenant id phone source reason rows =
    if valid_source source
    then create same_phone (some tenant) (entry tenant id phone source reason) rows
    else (err integrity, rows)

abbrev pub not_found : Result (Option (Row DncEntry)) → Result Bool
not_found (ok none) = ok true
not_found (ok (some r)) = ok false
not_found (err e) = err e

-- The service is made for the tenant `own`; a check for another one makes another repository.
unfoldable pub check_can_call : ℕ → String → ℕ → Entries → Result Bool
check_can_call own phone tenant rows =
    not_found (get_by_phone (if tenant == own then own else tenant) phone rows)

abbrev pub unless_found :
    {A : Type 0}
    → Action Entries A
    → (Row DncEntry → Action Entries A)
    → Result (Option (Row DncEntry))
    → Action Entries A
unless_found m k (ok none) rows = m rows
unless_found m k (ok (some r)) rows = k r rows
unless_found m k (err e) rows = (err e, rows)

unfoldable pub add_to_dnc : ℕ → ℕ → String → String → Option String → Action Entries (Row DncEntry)
add_to_dnc tenant id phone source reason rows =
    unless_found (create_entry tenant id phone source reason) pure (get_by_phone tenant phone rows)
      rows

abbrev pub deactivate : Values DncEntry
deactivate = record { tenant = none; columns = λ b. record b { is_active = false } }

unfoldable pub remove_from_dnc : ℕ → String → Action Entries Bool
remove_from_dnc tenant phone rows =
    unless_found (pure false) (λ r. update (some tenant) r.id deactivate >> pure true)
      (get_by_phone tenant phone rows) rows

-- `import_dnc_list`; `ids` gives the key that the database draws for each new row.
unfoldable pub import_dnc_list : ℕ → (ℕ → ℕ) → String → ℕ → List String → Action Entries ℕ
import_dnc_list tenant ids source count [] rows = (ok count, rows)
import_dnc_list tenant ids source count (phone ∷ phones) rows =
    unless_found
      (create_entry tenant (ids count) phone source none
        >> import_dnc_list tenant ids source (count + 1) phones)
      (λ r. import_dnc_list tenant ids source count phones) (get_by_phone tenant phone rows) rows
