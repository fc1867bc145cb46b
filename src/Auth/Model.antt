-- ===== src/Auth/Model.antt =====
-- The data of apps/api/models/user.py and models/session.py, and what apps/api/services/auth_service.py
-- uses of passlib, jose, hashlib and Redis, as parameters with the documented laws.
use calling_agent.Prelude.{ℕ, ◌+◌, ◌<◌, ◌≡◌, ◌≢◌, String, Bool, Option, some, List}
use calling_agent.Repo.{Row}
use calling_agent.Tenants.{Tenant}

-- The values that `user_role_check` allows.
pub data Role : Type 0 where
  platform_admin tenant_owner tenant_admin supervisor agent_manager : Role
  campaign_manager compliance_manager contact_manager analyst read_only : Role

pub record User : Type 0 where
  pub email : String
  pub password_hash : String
  pub first_name : Option String
  pub last_name : Option String
  pub role : Role
  pub email_verified : Bool
  pub is_active : Bool
  pub last_login_at : Option ℕ

pub record UserSession : Type 0 where
  pub user_id : ℕ
  pub refresh_token_hash : String
  pub expires_at : ℕ
  pub revoked_at : Option ℕ
  pub ip_address : Option String
  pub user_agent : Option String

pub record AuditLog : Type 0 where
  pub tenant_id : ℕ
  pub user_id : ℕ
  pub action : String
  pub resource_type : String
  pub resource_id : ℕ
  pub ip_address : Option String

pub record Claims : Type 0 where
  pub sub : ℕ
  pub tenant_id : ℕ
  pub role : Role
  pub exp : ℕ

-- passlib (with the salt it draws), hashlib and jose; the settings of the tokens' lives.
pub record Crypto : Type 0 where
  pub hash_password : String → String → String
  pub verify_password : String → String → Bool
  pub needs_update : String → Bool
  pub hash_token : String → String
  pub encode : Claims → String
  pub access_token_expire_minutes : ℕ
  pub refresh_token_expire_days : ℕ

-- The keys, by the text in front of the colon.
pub data Key : Type 0 where
  lockout attempts pwd_reset : String → Key

-- The commands of Redis that login sends, at a time in seconds. A value is gone when its time is over.
pub record Redis : Type 1 where
  pub Store : Type 0
  pub get : ℕ → Key → Store → Option String
  pub set_ex : ℕ → Key → String → ℕ → Store → Store
  pub incr : ℕ → Key → Store → ℕ × Store
  pub expire : ℕ → Key → ℕ → Store → Store
  pub delete : Key → Store → Store
  pub get-set_ex :
      (now t ttl : ℕ) (k : Key) (v : String) (s : Store)
      → t < now + ttl
      → get t k (set_ex now k v ttl s) ≡ some v
  pub get-set_ex_ne :
      (now t ttl : ℕ) (j k : Key) (v : String) (s : Store)
      → j ≢ k
      → get t j (set_ex now k v ttl s) ≡ get t j s
  pub get-delete_ne : (t : ℕ) (j k : Key) (s : Store) → j ≢ k → get t j (delete k s) ≡ get t j s
  pub get-incr_ne :
      (now t : ℕ) (j k : Key) (s : Store) → j ≢ k → get t j (incr now k s).1 ≡ get t j s
  pub get-expire_ne :
      (now t ttl : ℕ) (j k : Key) (s : Store) → j ≢ k → get t j (expire now k ttl s) ≡ get t j s

-- The tables that the service reads and writes, Redis, and the reset mails sent: address and token.
pub record State (S : Type 0) : Type 0 where
  pub users : List (Row User)
  pub tenants : List Tenant
  pub sessions : List (Row UserSession)
  pub audit : List AuditLog
  pub redis : S
  pub outbox : List (String × String)

-- What is drawn or read at a call: ids, random texts, the time, and the caller's address and agent.
pub record Call : Type 0 where
  pub now : ℕ
  pub new_id : ℕ
  pub salt : String
  pub refresh : String
  pub reset : String
  pub ip : Option String
  pub user_agent : Option String

pub record TokenResponse : Type 0 where
  pub access_token : String
  pub refresh_token : String
  pub expires_in : ℕ
