-- ===== src/Access/Tests.antt =====
-- Examples for apps/api/middleware/auth.py.
use calling_agent.Prelude.{
  ℕ, ◌≡◌, ◌↔◌, ◌⊎◌, refl, String, true, Option, none, some, List, [], ◌∷◌, str_eq, any, All,
  if◌then◌else◌,
}
use calling_agent.Http.{ok}
use calling_agent.Repo.{Row, get_by_id}
use calling_agent.Tenants.{Tenant, TenantStatus, active}
use calling_agent.Auth.{supervisor, platform_admin, User, get_tenant}
use calling_agent.Access.{
  role_permissions, get_current_user, require_permissions, get_current_user_sound,
  require_permissions_iff,
}

abbrev user : Row User
user = record {
  id = 1;
  tenant_id = 7;
  body = record {
    email = "a@b";
    password_hash = "h";
    first_name = none;
    last_name = none;
    role = supervisor;
    email_verified = true;
    is_active = true;
    last_login_at = none;
  };
}

abbrev tenants : List Tenant
tenants = record { id = 7; name = []; slug = []; business_name = []; status = active } ∷ []

abbrev decode : String → Option (Option ℕ)
decode token = if str_eq token "jwt" then some (some 1) else none

let_in : get_current_user decode "jwt" (user ∷ []) tenants ≡ ok user
unfolding get_current_user get_by_id get_tenant
let_in = refl

get_current_user_sound_example :
    (sub : ℕ) × (decode "jwt" ≡ some (some sub))
    × (get_by_id none sub (user ∷ []) ≡ ok (some user))
    × (user.body.is_active ≡ true)
    × (t : Tenant) × (get_tenant user.tenant_id tenants ≡ ok (some t))
    × (t.status ≡ TenantStatus.active)
get_current_user_sound_example = get_current_user_sound decode "jwt" (user ∷ []) tenants user let_in

require_permissions_iff_example :
    (require_permissions ("view_all" ∷ "manage_billing" ∷ []) user ≡ ok user) ↔ (
      (user.body.role ≡ platform_admin)
      ⊎ All
          (λ p. any (str_eq p) (role_permissions user.body.role) ≡ true)
          ("view_all" ∷ "manage_billing" ∷ []))
require_permissions_iff_example = require_permissions_iff ("view_all" ∷ "manage_billing" ∷ []) user
