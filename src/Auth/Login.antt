-- ===== src/Auth/Login.antt =====
-- How a login fails (apps/api/services/auth_service.py): always with the same answer, without a trace
-- in the tables, and after the fifth failure for the next fifteen minutes.
use calling_agent.Prelude.{
  ℕ, ◌+◌, ◌≤◌, ◌<◌, ◌≡◌, ◌∙◌, ap, ◌⊎◌, inl, inr, String, Bool, true, false, Option, none, some,
  ◌==◌, arith, if◌then◌else◌,
}
use calling_agent.Http.{http, Result, err}
use calling_agent.Repo.{Row}
use calling_agent.Auth.{
  User, Call, Crypto, Redis, State, lockout, attempts, TokenResponse, generic_error,
  get_by_email_global, is_locked, count_failure, lock_out, login,
}

module _ (c : Crypto) (R : Redis) (str : ℕ → String) where
  open R use {Store}

  -- The email is unknown, or the password does not fit the user's hash.
  abbrev pub IsWrong : String → Option (Row User) → Type 0
  IsWrong password found =
      (found ≡ none)
      ⊎ ((u : Row User) × (found ≡ some u)
          × (c.verify_password password u.body.password_hash ≡ false))

  login_wrong :
      (email password : String) (k : Call) (s : State Store)
      → is_locked c R true email k.now s ≡ false
      → IsWrong password (get_by_email_global email s.users)
      → login c R true str email password k s
        ≡ (err generic_error, count_failure c R str email (get_by_email_global email s.users) k s)
  unfolding login
  login_wrong email password k s free (inl e) = ground arith
  login_wrong email password k s free (inr (u, e, w)) = ground arith

  -- A locked email is refused, whatever the password, and nothing changes.
  login_locked :
      (email password : String) (k : Call) (s : State Store)
      → is_locked c R true email k.now s ≡ true
      → login c R true str email password k s ≡ (err generic_error, s)
  unfolding login
  login_locked email password k s locked = ground arith

  lock_out-locks :
      (email : String) (user : Option (Row User)) (k : Call) (t : ℕ) (s : State Store)
      → t < k.now + 900
      → R.get t (lockout email) (lock_out c R str email user k s).redis ≡ some "1"
  unfolding lock_out
  lock_out-locks email none k t s soon =
      R.get-delete_ne t (lockout email) (attempts email) _ (λ e. cc)
      ∙ R.get-set_ex k.now t 900 (lockout email) "1" s.redis soon
  lock_out-locks email (some user) k t s soon =
      R.get-set_ex_ne k.now t 900 (lockout email) _ (str user.id) _ (λ e. cc)
      ∙ R.get-delete_ne t (lockout email) (attempts email) _ (λ e. cc)
      ∙ R.get-set_ex k.now t 900 (lockout email) "1" s.redis soon

  count_failure-locks :
      (email : String) (user : Option (Row User)) (k : Call) (t : ℕ) (s : State Store)
      → 5 ≤ (R.incr k.now (attempts email) s.redis).0
      → t < k.now + 900
      → R.get t (lockout email) (count_failure c R str email user k s).redis ≡ some "1"
  unfolding count_failure
  count_failure-locks email user k t s many soon =
      let (n, r) = R.incr k.now (attempts email) s.redis in
      let u : State Store = record s {
        redis = if n == 1 then R.expire k.now (attempts email) 900 r else r;
      } in
      ground (arith, lock_out-locks email user k t u soon)

  -- A fifth failure locks the email for 900 seconds: after a login with a wrong password, or for an
  -- unknown email, that Redis counts as at least the fifth, each login for this email before the
  -- 900 seconds are over is refused with the same answer, whatever its password, and changes nothing.
  pub login_locks_out :
      (email password password' : String) (k k' : Call) (s : State Store)
      → is_locked c R true email k.now s ≡ false
      → IsWrong password (get_by_email_global email s.users)
      → 5 ≤ (R.incr k.now (attempts email) s.redis).0
      → k'.now < k.now + 900
      → let s' = (login c R true str email password k s).1 in
        login c R true str email password' k' s' ≡ (err generic_error, s')
  login_locks_out email password password' k k' s free wrong many soon =
      let s' = (login c R true str email password k s).1 in
      let found = get_by_email_global email s.users in
      let counted : s' ≡ count_failure c R str email found k s =
        ap (λ (x : Result TokenResponse × State Store). x.1)
          (login_wrong email password k s free wrong) in
      let set : R.get k'.now (lockout email) s'.redis ≡ some "1" =
        ap (λ (x : State Store). R.get k'.now (lockout email) x.redis) counted
        ∙ count_failure-locks email found k k'.now s many soon in
      login_locked email password' k' s' (rw set)

  -- What a refused login leaves as it was.
  abbrev pub SameTables : State Store → State Store → Type 0
  SameTables s s' =
      (s'.users ≡ s.users)
      × (s'.tenants ≡ s.tenants)
      × (s'.sessions ≡ s.sessions)
      × (s'.audit ≡ s.audit)

  count_failure-SameTables :
      (email : String) (user : Option (Row User)) (k : Call) (s : State Store)
      → SameTables s (count_failure c R str email user k s)
  unfolding count_failure
  count_failure-SameTables email none k s = ground arith
  count_failure-SameTables email (some user) k s = ground arith

  -- A login that fails with an HTTP error has the one answer 401, "Incorrect email or password", on
  -- every path (locked, unknown email, wrong password, inactive user, missing or inactive tenant), and
  -- the tables are what they were.
  pub login_fails_alike :
      (has_redis : Bool) (email password : String) (k : Call) (s s' : State Store) (code : ℕ)
      (detail : String)
      → login c R has_redis str email password k s ≡ (err (http code detail), s')
      → (http code detail ≡ generic_error) × SameTables s s'
  unfolding login
  login_fails_alike has_redis email password k s s' code detail h = ground arith
