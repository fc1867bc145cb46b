-- ===== src/Auth.antt =====
-- apps/api/services/auth_service.py: `AuthService`, with apps/api/repositories/user_repo.py,
-- repositories/session_repo.py and utils/crypto.py. Times are seconds. The pause after a failed login
-- changes no state and is left out; an audit entry is written without fail, and its details are left out.
mod Model
pub mod Sessions
pub mod Login
mod Memory
mod Tests
unfoldable pub use Model.*
use calling_agent.Prelude.{
  ℕ, ◌+◌, ◌*◌, String, Bool, true, false, not, ◌&&◌, ◌||◌, Option, none, some, List, [], ◌∷◌, ◌++◌,
  ◌==◌, ltb, leb, str_eq, truthy, is_some, or_else, select, map_where, if◌then◌else◌,
}
use calling_agent.Http.{
  Error, http, Result, ok, err, Action, pure, raise, raise_if, gets, query, modify, zoom, ◌>>=◌,
  ◌>>◌,
}
use calling_agent.Repo.{Row, Values, scalar_one_or_none, first, get_by_id, create, update}
use calling_agent.Tenants.{Text, Tenant, TenantStatus}
use calling_agent.Tenants

-- `get_by_email_global`
unfoldable pub get_by_email_global : String → List (Row User) → Option (Row User)
get_by_email_global email users = first (select (λ u. str_eq u.body.email email) users)

-- `get_by_refresh_token_hash`
unfoldable pub get_by_refresh_token_hash :
    String → List (Row UserSession) → Result (Option (Row UserSession))
get_by_refresh_token_hash hash sessions =
    scalar_one_or_none (select (λ s. str_eq s.body.refresh_token_hash hash) sessions)

-- `revoke`
unfoldable pub revoke : ℕ → ℕ → List (Row UserSession) → List (Row UserSession)
revoke now id =
    map_where (λ s. s.id == id) (λ s. record s { body = record s.body { revoked_at = some now } })

-- `revoke_all_for_user`
unfoldable pub revoke_all_for_user : ℕ → ℕ → List (Row UserSession) → List (Row UserSession)
revoke_all_for_user now user_id =
    map_where (λ s. s.body.user_id == user_id && not (is_some s.body.revoked_at))
      (λ s. record s { body = record s.body { revoked_at = some now } })

-- `cleanup_expired`
unfoldable pub cleanup_expired : ℕ → List (Row UserSession) → List (Row UserSession)
cleanup_expired now = select (λ s. not (ltb s.body.expires_at now))

-- `TenantRepository.get_by_id`
unfoldable pub get_tenant : ℕ → List Tenant → Result (Option Tenant)
get_tenant id tenants = scalar_one_or_none (select (λ t. t.id == id) tenants)

abbrev pub generic_error : Error
generic_error = http 401 "Incorrect email or password"

abbrev pub is_active_tenant : Option Tenant → Bool
is_active_tenant none = false
is_active_tenant (some t) = elim t.status [ TenantStatus.active ↦ true | _ ↦ false ]

-- The unique constraint `uix_tenant_email`, and a table with no index of its own.
abbrev pub same_email : Row User → Row User → Bool
same_email x y = x.tenant_id == y.tenant_id && str_eq x.body.email y.body.email

abbrev pub no_index : Row UserSession → Row UserSession → Bool
no_index x y = false

module _ (c : Crypto) (R : Redis) where
  open R use {Store}

  abbrev pub Service : Type 0 → Type 0
  Service A = Action (State Store) A

  -- A call of a repository on its table.
  abbrev on_users : {A : Type 0} → Action (List (Row User)) A → Service A
  on_users = zoom (λ s. s.users) (λ t s. record s { users = t })

  abbrev on_sessions : {A : Type 0} → Action (List (Row UserSession)) A → Service A
  on_sessions = zoom (λ s. s.sessions) (λ t s. record s { sessions = t })

  abbrev log : AuditLog → Service (Unit {0})
  log entry = modify (λ s. record s { audit = s.audit ++ entry ∷ [] })

  -- `create_access_token`, a new session, and the answer: what every way to new tokens ends with.
  access_token : Call → Row User → String
  access_token k user = c.encode (record {
    sub = user.id;
    tenant_id = user.tenant_id;
    role = user.body.role;
    exp = k.now + c.access_token_expire_minutes * 60;
  })

  add_session : Call → Row User → Option String → Option String → Service (Row UserSession)
  unfolding create
  add_session k user ip user_agent = on_sessions (
      create no_index none (record {
        id = k.new_id;
        tenant_id = user.tenant_id;
        body = record {
          user_id = user.id;
          refresh_token_hash = c.hash_token k.refresh;
          expires_at = k.now + c.refresh_token_expire_days * 86400;
          revoked_at = none;
          ip_address = ip;
          user_agent = user_agent;
        };
      }))

  answer : Call → Row User → TokenResponse
  unfolding access_token
  answer k user = record {
    access_token = access_token k user;
    refresh_token = k.refresh;
    expires_in = c.access_token_expire_minutes * 60;
  }

  unfoldable pub register :
      (Text → Text)
      → (ℕ → Text)
      → ℕ
      → ℕ
      → Text
      → String
      → String
      → Option String
      → Option String
      → Call
      → Service TokenResponse
  unfolding get_by_email_global add_session answer create
  register lower str tenant_id user_id business_name email password first_name last_name k = do
    existing ← gets (λ s. get_by_email_global email s.users)
    raise_if (is_some existing)
        (http 400 "Registration cannot be completed with the provided information")
    tenant ←
        zoom (λ s. s.tenants) (λ t s. record s { tenants = t })
          (Tenants.create lower str tenant_id business_name business_name)
    user ← on_users (
        create same_email none (record {
          id = user_id;
          tenant_id = tenant.id;
          body = record {
            email = email;
            password_hash = c.hash_password k.salt password;
            first_name = first_name;
            last_name = last_name;
            role = Role.tenant_owner;
            email_verified = false;
            is_active = true;
            last_login_at = none;
          };
        }))
    add_session k user k.ip k.user_agent
    log (record {
      tenant_id = tenant.id;
      user_id = user.id;
      action = "USER_REGISTER";
      resource_type = "USER";
      resource_id = user.id;
      ip_address = k.ip;
    })
    pure (answer k user)

  -- The fifth failure within the window: the lock, and for a known user a mail to set a new password.
  lock_out : (ℕ → String) → String → Option (Row User) → Call → State Store → State Store
  lock_out str email none k s = record s {
    redis = R.delete (attempts email) (R.set_ex k.now (lockout email) "1" 900 s.redis);
  }
  lock_out str email (some user) k s = record s {
    redis =
        R.set_ex k.now (pwd_reset (c.hash_token k.reset)) (str user.id) 900
          (R.delete (attempts email) (R.set_ex k.now (lockout email) "1" 900 s.redis));
    outbox = s.outbox ++ (user.body.email, k.reset) ∷ [];
  }

  count_failure : (ℕ → String) → String → Option (Row User) → Call → State Store → State Store
  unfolding lock_out
  count_failure str email user k s =
      let (n, r) = R.incr k.now (attempts email) s.redis in
      let t : State Store = record s {
        redis = if n == 1 then R.expire k.now (attempts email) 900 r else r;
      } in
      if leb 5 n then lock_out str email user k t else t

  failed_login : Bool → (ℕ → String) → String → Option (Row User) → Call → Service (Row User)
  unfolding count_failure
  failed_login has_redis str email user k s =
      (err generic_error, if has_redis then count_failure str email user k s else s)

  check_password :
      Bool → (ℕ → String) → String → String → Call → Option (Row User) → Service (Row User)
  unfolding failed_login
  check_password has_redis str email password k none = failed_login has_redis str email none k
  check_password has_redis str email password k (some user) =
      if c.verify_password password user.body.password_hash
      then pure user
      else failed_login has_redis str email (some user) k

  -- `if await redis.get(lockout_key)`
  abbrev pub is_locked : Bool → String → ℕ → State Store → Bool
  is_locked has_redis email now s =
      has_redis && elim (R.get now (lockout email) s.redis) [ none ↦ false | some v ↦ truthy v ]

  abbrev forget_failures : Bool → String → State Store → State Store
  forget_failures has_redis email s =
      if has_redis
      then record s { redis = R.delete (lockout email) (R.delete (attempts email) s.redis) }
      else s

  abbrev set_user : (User → User) → Values User
  set_user f = record { tenant = none; columns = f }

  -- `check_needs_rehash`, then the hash of the password by the preferred scheme.
  rehash : String → Call → Row User → Service (Option (Row User))
  unfolding update
  rehash password k user =
      if c.needs_update user.body.password_hash
      then on_users (
          update none user.id
            (set_user (λ u. record u { password_hash = c.hash_password k.salt password })))
      else pure none

  unfoldable pub login : Bool → (ℕ → String) → String → String → Call → Service TokenResponse
  unfolding get_by_email_global check_password get_tenant rehash update add_session answer
  login has_redis str email password k = do
    locked ← gets (is_locked has_redis email k.now)
    raise_if locked generic_error
    found ← gets (λ s. get_by_email_global email s.users)
    user ← check_password has_redis str email password k found
    raise_if (not user.body.is_active) generic_error
    tenant ← query (λ s. get_tenant user.tenant_id s.tenants)
    raise_if (not (is_active_tenant tenant)) generic_error
    modify (forget_failures has_redis email)
    rehash password k user
    on_users (update none user.id (set_user (λ u. record u { last_login_at = some k.now })))
    add_session k user k.ip k.user_agent
    log (record {
      tenant_id = user.tenant_id;
      user_id = user.id;
      action = "USER_LOGIN";
      resource_type = "USER";
      resource_id = user.id;
      ip_address = k.ip;
    })
    pure (answer k user)

  abbrev or_error : {A : Type 0} → Error → Option A → Service A
  or_error e none = raise e
  or_error e (some a) = pure a

  abbrev is_dead : ℕ → UserSession → Bool
  is_dead now s = is_some s.revoked_at || ltb s.expires_at now

  abbrev is_inactive : Option (Row User) → Bool
  is_inactive none = true
  is_inactive (some u) = not u.body.is_active

  -- `user_repo.get_by_id`, and the refusal of a user who is missing or not active.
  active_user : ℕ → Service (Row User)
  unfolding get_by_id
  active_user id = do
    user ← query (λ s. get_by_id none id s.users)
    raise_if (is_inactive user) (http 403 "User account is inactive")
    or_error (http 403 "User account is inactive") user

  unfoldable pub refresh_token : String → Call → Service TokenResponse
  unfolding get_by_refresh_token_hash active_user revoke add_session answer
  refresh_token token k = do
    found ← query (λ s. get_by_refresh_token_hash (c.hash_token token) s.sessions)
    session ← or_error (http 401 "Invalid refresh token") found
    raise_if (is_dead k.now session.body) (http 401 "Refresh token expired or revoked")
    user ← active_user session.body.user_id
    modify (λ s. record s { sessions = revoke k.now session.id s.sessions })
    add_session k user (or_else k.ip session.body.ip_address)
        (or_else k.user_agent session.body.user_agent)
    pure (answer k user)

  abbrev is_live : Row UserSession → Bool
  is_live s = not (is_some s.body.revoked_at)

  end_session : Call → Option (Row UserSession) → Service (Unit {0})
  unfolding revoke
  end_session k none = pure tt
  end_session k (some session) =
      if is_live session
      then (do
        modify (λ s. record s { sessions = revoke k.now session.id s.sessions })
        log (record {
          tenant_id = session.tenant_id;
          user_id = session.body.user_id;
          action = "USER_LOGOUT";
          resource_type = "SESSION";
          resource_id = session.id;
          ip_address = k.ip;
        }))
      else pure tt

  unfoldable pub logout : String → Call → Service (Unit {0})
  unfolding get_by_refresh_token_hash end_session
  logout token k = do
    found ← query (λ s. get_by_refresh_token_hash (c.hash_token token) s.sessions)
    end_session k found

  end_all : Call → ℕ → Option (Row User) → Service (Unit {0})
  unfolding revoke_all_for_user
  end_all k user_id none = pure tt
  end_all k user_id (some user) = do
    modify (λ s. record s { sessions = revoke_all_for_user k.now user_id s.sessions })
    log (record {
      tenant_id = user.tenant_id;
      user_id = user.id;
      action = "USER_LOGOUT_ALL";
      resource_type = "USER";
      resource_id = user.id;
      ip_address = k.ip;
    })

  unfoldable pub logout_all : ℕ → Call → Service (Unit {0})
  unfolding get_by_id end_all
  logout_all user_id k = do
    user ← query (λ s. get_by_id none user_id s.users)
    end_all k user_id user
