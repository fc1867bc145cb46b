-- ===== src/Auth/Tests.antt =====
-- Examples for apps/api/services/auth_service.py: a service over the Redis in memory, with one user
-- and his two sessions.
use calling_agent.Prelude.{
  ℕ, ◌≡◌, ◌≢◌, refl, inr, String, true, false, not, none, some, [], ◌∷◌, ◌==◌, select, str_eq,
  eq_iff, arith,
}
use calling_agent.Http.{http, ok, err}
use calling_agent.Repo.{Row, get_by_id}
use calling_agent.Tenants.{active}
use calling_agent.Auth.{
  Role, User, UserSession, Call, Crypto, State, TokenResponse, generic_error,
  get_by_refresh_token_hash, get_by_email_global, login, refresh_token, logout, logout_all,
}
use calling_agent.Auth.Memory.{Memory, memory, empty}
use calling_agent.Auth.Sessions.{refresh_once, logout_ends, logout_all_ends}
use calling_agent.Auth.Login.{login_locks_out, login_fails_alike, SameTables}

-- Passwords and tokens stand for themselves.
abbrev crypto : Crypto
crypto = record {
  hash_password = λ salt p. p;
  verify_password = λ p h. str_eq p h;
  needs_update = λ h. false;
  hash_token = λ t. t;
  encode = λ c. "jwt";
  access_token_expire_minutes = 30;
  refresh_token_expire_days = 7;
}

abbrev user : Row User
user = record {
  id = 1;
  tenant_id = 7;
  body = record {
    email = "a@b";
    password_hash = "secret";
    first_name = none;
    last_name = none;
    role = Role.tenant_owner;
    email_verified = true;
    is_active = true;
    last_login_at = none;
  };
}

abbrev session : ℕ → String → Row UserSession
session id token = record {
  id = id;
  tenant_id = 7;
  body = record {
    user_id = 1;
    refresh_token_hash = token;
    expires_at = 1000;
    revoked_at = none;
    ip_address = none;
    user_agent = none;
  };
}

abbrev state : State Memory
state = record {
  users = user ∷ [];
  tenants = record { id = 7; name = []; slug = []; business_name = []; status = active } ∷ [];
  sessions = session 1 "t1" ∷ session 2 "t2" ∷ [];
  audit = [];
  redis = empty;
  outbox = [];
}

abbrev call : ℕ → String → Call
call now refresh = record {
  now = now;
  new_id = 3;
  salt = "s";
  refresh = refresh;
  reset = "r";
  ip = none;
  user_agent = none;
}

-- After four failures.
abbrev tried : State Memory
tried = record state { redis = record empty { counter = λ k. 4 } }

abbrev refreshed : State Memory
refreshed = (refresh_token crypto memory "t1" (call 10 "t3") state).1

abbrev tokens : TokenResponse
tokens = record { access_token = "jwt"; refresh_token = "t3"; expires_in = 1800 }

refreshed_ok : refresh_token crypto memory "t1" (call 10 "t3") state ≡ (ok tokens, refreshed)
unfolding refresh_token
refreshed_ok = refl

t3_not_t1 : ◌≢◌ {A = String} "t3" "t1"
t3_not_t1 = ground (arith, eq_iff "t3" "t1")

refresh_once_example :
    refresh_token crypto memory "t1" (call 20 "t4") refreshed
    ≡ (err (http 401 "Refresh token expired or revoked"), refreshed)
refresh_once_example =
    refresh_once crypto memory "t1" (call 10 "t3") (call 20 "t4") state refreshed tokens
      refreshed_ok t3_not_t1

found_t1 : get_by_refresh_token_hash "t1" state.sessions ≡ ok (some (session 1 "t1"))
unfolding get_by_refresh_token_hash
found_t1 = refl

found_user : get_by_id none 1 state.users ≡ ok (some user)
unfolding get_by_id
found_user = refl

logout_ends_example :
    let s' = (logout crypto memory "t1" (call 10 "x") state).1 in
    refresh_token crypto memory "t1" (call 20 "y") s'
    ≡ (err (http 401 "Refresh token expired or revoked"), s')
logout_ends_example =
    logout_ends crypto memory "t1" (call 10 "x") (call 20 "y") state (session 1 "t1") found_t1

logout_all_ends_example :
    let s' = (logout_all crypto memory 1 (call 10 "x") state).1 in
    (refresh_token crypto memory "t1" (call 20 "y") s'
      ≡ (err (http 401 "Refresh token expired or revoked"), s'))
    × (select (λ y. not (y.body.user_id == 1)) s'.sessions
        ≡ select (λ y. not (y.body.user_id == 1)) state.sessions)
logout_all_ends_example =
    logout_all_ends crypto memory 1 "t1" (call 10 "x") (call 20 "y") state user (session 1 "t1")
      found_user found_t1 refl

str : ℕ → String
str n = "1"

wrong_password : get_by_email_global "a@b" tried.users ≡ some user
unfolding get_by_email_global
wrong_password = refl

login_locks_out_example :
    let s' = (login crypto memory true str "a@b" "guess" (call 10 "x") tried).1 in
    login crypto memory true str "a@b" "secret" (call 909 "y") s' ≡ (err generic_error, s')
login_locks_out_example =
    login_locks_out crypto memory str "a@b" "guess" "secret" (call 10 "x") (call 909 "y") tried refl
      (inr (user, wrong_password, refl)) (omega arith) (omega arith)

failed_state : State Memory
failed_state = (login crypto memory true str "a@b" "guess" (call 10 "x") state).1

failed :
    login crypto memory true str "a@b" "guess" (call 10 "x") state
    ≡ (err generic_error, failed_state)
unfolding login failed_state
failed = refl

login_fails_alike_example :
    (http 401 "Incorrect email or password" ≡ generic_error)
    × SameTables crypto memory str state failed_state
login_fails_alike_example =
    login_fails_alike crypto memory str true "a@b" "guess" (call 10 "x") state failed_state 401
      "Incorrect email or password" failed
