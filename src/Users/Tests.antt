-- ===== src/Users/Tests.antt =====
-- A tenant's two users, one of whom is deactivated.
use calling_agent.Prelude.{
  ℕ, ◌≡◌, ◌≢◌, refl, String, true, false, Option, none, some, List, [], ◌∷◌, str_eq, if◌then◌else◌,
}
use calling_agent.Http.{http, ok, err}
use calling_agent.Repo.{Row, get_by_id}
use calling_agent.Tenants.{Tenant, active}
use calling_agent.Auth.{get_tenant, Role, supervisor, User}
use calling_agent.Access.{get_current_user}
use calling_agent.Users.{Users, create_user, change_role, deactivate_user}
use calling_agent.Users.Deactivation.{deactivated_refused}

abbrev user : ℕ → String → Row User
user id email = record {
  id = id;
  tenant_id = 7;
  body = record {
    email = email;
    password_hash = "h";
    first_name = none;
    last_name = none;
    role = supervisor;
    email_verified = true;
    is_active = true;
    last_login_at = none;
  };
}

abbrev users : Users
users = user 1 "a@b" ∷ user 2 "c@d" ∷ []

abbrev without_1 : Users
without_1 =
    record (user 1 "a@b") { body = record (user 1 "a@b").body { is_active = false } }
    ∷ user 2 "c@d"
    ∷ []

abbrev tenants : List Tenant
tenants = record { id = 7; name = []; slug = []; business_name = []; status = active } ∷ []

abbrev decode : String → Option (Option ℕ)
decode token = if str_eq token "jwt" then some (some 1) else none

refuses_known_email :
    (create_user 7 (λ password. password) (user 3 "a@b") "secret" users).0
    ≡ err (http 400 "Email already taken")
unfolding create_user
refuses_known_email = refl

refuses_other_tenant : (change_role 8 1 Role.analyst users).0 ≡ err (http 404 "User not found")
unfolding change_role
refuses_other_tenant = refl

let_in_before : get_current_user decode "jwt" users tenants ≡ ok (user 1 "a@b")
unfolding get_current_user get_by_id get_tenant
let_in_before = refl

deactivates : deactivate_user 7 1 users ≡ (
  ok (record (user 1 "a@b") { body = record (user 1 "a@b").body { is_active = false } }),
  without_1,
)
unfolding deactivate_user
deactivates = refl

deactivated_refused_example : get_current_user decode "jwt" without_1 tenants ≢ ok (user 1 "a@b")
deactivated_refused_example =
    deactivated_refused decode "jwt" 7 1 users without_1 tenants
      (record (user 1 "a@b") { body = record (user 1 "a@b").body { is_active = false } })
      (user 1 "a@b") refl deactivates
