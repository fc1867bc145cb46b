-- ===== src/Access.antt =====
-- Who may call what: apps/api/middleware/auth.py. `decode` stands for jose's check of a token; it gives
-- the subject of the claims, if they have one.
mod Tests
use calling_agent.Prelude.{
  ℕ, ◌≡◌, ◌↔◌, refl, ◌⊎◌, inl, inr, String, Bool, true, false, not, ◌&&◌, ◌||◌, Option, none, some,
  List, [], ◌∷◌, str_eq, eq_iff, arith, any, All, In, Bool-cases, if◌then◌else◌,
}
use calling_agent.Http.{Error, http, Result, ok, err, Found-cases}
use calling_agent.Repo.{Row, get_by_id}
use calling_agent.Tenants.{Tenant, TenantStatus}
use calling_agent.Auth.{
  Role, platform_admin, tenant_owner, tenant_admin, supervisor, agent_manager, campaign_manager,
  compliance_manager, contact_manager, analyst, read_only, User, get_tenant, is_active_tenant,
}

-- `ROLE_PERMISSIONS`
abbrev pub role_permissions : Role → List String
role_permissions platform_admin = "*" ∷ []
role_permissions tenant_owner =
    "manage_tenant" ∷ "manage_users" ∷ "manage_billing" ∷ "view_all" ∷ "edit_all" ∷ []
role_permissions tenant_admin = "manage_users" ∷ "view_all" ∷ "edit_all" ∷ []
role_permissions supervisor = "view_all" ∷ "manage_agents" ∷ []
role_permissions agent_manager = "manage_agents" ∷ "view_calls" ∷ []
role_permissions campaign_manager = "view_all" ∷ "manage_campaigns" ∷ []
role_permissions compliance_manager = "view_all" ∷ "manage_compliance" ∷ []
role_permissions contact_manager = "view_all" ∷ "manage_contacts" ∷ []
role_permissions analyst = "view_analytics" ∷ "view_calls" ∷ []
role_permissions read_only = "view_all" ∷ []

abbrev pub same_role : Role → Role → Bool
same_role platform_admin platform_admin = true
same_role tenant_owner tenant_owner = true
same_role tenant_admin tenant_admin = true
same_role supervisor supervisor = true
same_role agent_manager agent_manager = true
same_role campaign_manager campaign_manager = true
same_role compliance_manager compliance_manager = true
same_role contact_manager contact_manager = true
same_role analyst analyst = true
same_role read_only read_only = true
same_role _ _ = false

abbrev pub credentials_exception : Error
credentials_exception = http 401 "Could not validate credentials"

abbrev check_tenant : Row User → Result (Option Tenant) → Result (Row User)
check_tenant user (err e) = err e
check_tenant user (ok tenant) =
    if is_active_tenant tenant then ok user else err (http 403 "Tenant is inactive")

abbrev check_user : List Tenant → Result (Option (Row User)) → Result (Row User)
check_user tenants (err e) = err e
check_user tenants (ok none) = err credentials_exception
check_user tenants (ok (some user)) =
    if user.body.is_active
    then check_tenant user (get_tenant user.tenant_id tenants)
    else err (http 403 "Inactive user")

unfoldable pub get_current_user :
    (String → Option (Option ℕ)) → String → List (Row User) → List Tenant → Result (Row User)
get_current_user decode token users tenants = elim (decode token) [
  | none ↦ err credentials_exception
  | some none ↦ err credentials_exception
  | some (some sub) ↦ check_user tenants (get_by_id none sub users)
]

-- `role_checker`
unfoldable pub require_roles : List Role → Row User → Result (Row User)
require_roles allowed user =
    if not (any (same_role user.body.role) allowed) && not (same_role user.body.role platform_admin)
    then err (http 403 "Operation not permitted")
    else ok user

-- The first permission that is missing.
unfoldable pub missing : List String → List String → Option String
missing held [] = none
missing held (p ∷ ps) = if any (str_eq p) held then missing held ps else some p

-- `permission_checker`; the detail of the refusal is given without the permission's name.
unfoldable pub require_permissions : List String → Row User → Result (Row User)
unfolding missing
require_permissions permissions user =
    let held = role_permissions user.body.role in
    if any (str_eq "*") held then ok user else elim (missing held permissions) [
      | none ↦ ok user
      | some p ↦ err (http 403 "Missing required permission")
    ]

Subject-cases :
    (x : Option (Option ℕ)) → (x ≡ none) ⊎ (x ≡ some none) ⊎ ((sub : ℕ) × (x ≡ some (some sub)))
Subject-cases none = inl refl
Subject-cases (some none) = inr (inl refl)
Subject-cases (some (some sub)) = inr (inr (sub, refl))

-- A user who is let in has a valid token with his id, is active, and his tenant is there and active.
pub get_current_user_sound :
    (decode : String → Option (Option ℕ)) (token : String) (users : List (Row User))
    (tenants : List Tenant) (user : Row User)
    → get_current_user decode token users tenants ≡ ok user
    → (sub : ℕ) × (decode token ≡ some (some sub))
      × (get_by_id none sub users ≡ ok (some user))
      × (user.body.is_active ≡ true)
      × (t : Tenant) × (get_tenant user.tenant_id tenants ≡ ok (some t))
      × (t.status ≡ TenantStatus.active)
unfolding get_current_user
get_current_user_sound decode token users tenants user h = elim (Subject-cases (decode token)) [
  | inl e ↦ absurd (ground arith)
  | inr (inl e) ↦ absurd (ground arith)
  | inr (inr (sub, e)) ↦ elim (Found-cases (get_by_id none sub users)) [
    | inl e' ↦ absurd (ground arith)
    | inr (inl (x, e')) ↦ absurd (ground arith)
    | inr (inr (u, e')) ↦ elim (Found-cases (get_tenant u.tenant_id tenants)) [
      | inl e'' ↦ absurd (ground arith)
      | inr (inl (x, e'')) ↦ absurd (ground arith)
      | inr (inr (t, e'')) ↦ (sub, e, ground arith, ground arith, t, ground arith, ground arith)
    ]
  ]
]

missing-none :
    (held ps : List String) → (missing held ps ≡ none) ↔ All (λ p. any (str_eq p) held ≡ true) ps
unfolding missing
missing-none held [] = (λ _. tt, λ _. refl)
missing-none held (p ∷ ps) = ground (arith, missing-none held ps)

same_role_iff : (a b : Role) → (same_role a b ≡ true) ↔ (a ≡ b)
same_role_iff a b = ground arith

star_iff : (r : Role) → (any (str_eq "*") (role_permissions r) ≡ true) ↔ (r ≡ platform_admin)
star_iff platform_admin = (λ _. refl, λ _. refl)
star_iff r = ground arith

-- A user passes the check of permissions exactly if he is a platform administrator or his role holds
-- each of them.
pub require_permissions_iff :
    (ps : List String) (user : Row User)
    → (require_permissions ps user ≡ ok user) ↔ (
        (user.body.role ≡ platform_admin)
        ⊎ All (λ p. any (str_eq p) (role_permissions user.body.role) ≡ true) ps)
unfolding require_permissions
require_permissions_iff ps user =
    ground (arith, star_iff user.body.role, missing-none (role_permissions user.body.role) ps)

any-same_role : (r : Role) (rs : List Role) → (any (same_role r) rs ≡ true) ↔ In r rs
any-same_role r [] = (λ h. cc, λ h. absurd h)
any-same_role r (x ∷ rs) = ground (arith, same_role_iff r x, any-same_role r rs)

-- A user passes the check of roles exactly if his role is one of those allowed or he is a platform
-- administrator.
pub require_roles_iff :
    (allowed : List Role) (user : Row User)
    → (require_roles allowed user ≡ ok user)
      ↔ (In user.body.role allowed ⊎ (user.body.role ≡ platform_admin))
unfolding require_roles
require_roles_iff allowed user =
    ground
      (arith, any-same_role user.body.role allowed, same_role_iff user.body.role platform_admin)
