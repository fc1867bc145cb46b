-- ===== src/Auth/Sessions.antt =====
-- A refresh token is good for one use, and none of a user's after he logs out everywhere
-- (apps/api/services/auth_service.py, apps/api/repositories/session_repo.py).
use calling_agent.Prelude.{
  ℕ, ◌≡◌, ◌≢◌, ◌∙◌, refl, ap, inl, inr, String, Bool, true, false, not, ◌&&◌, none, some, List, [],
  ◌∷◌, ◌++◌, ◌==◌, ltb, ◌+◌, ◌*◌, or_else, str_eq, eq_iff, arith, is_some, select, select-append,
  map_where, Option-cases, if◌then◌else◌,
}
use calling_agent.Http.{http, ok, err, Found-cases}
use calling_agent.Repo.{Row, scalar-some, get_by_id}
use calling_agent.Auth.{
  User, UserSession, Call, Crypto, Redis, State, TokenResponse, get_by_refresh_token_hash, revoke,
  revoke_all_for_user, refresh_token, logout, logout_all,
}

abbrev with_hash : String → Row UserSession → Bool
with_hash h s = str_eq s.body.refresh_token_hash h

abbrev ended : ℕ → Row UserSession → Row UserSession
ended now s = record s { body = record s.body { revoked_at = some now } }

-- The sessions of one token's hash, after one of them is revoked.
select-revoke :
    (now id : ℕ) (h : String) (xs : List (Row UserSession))
    → select (with_hash h) (revoke now id xs)
      ≡ map_where (λ s. s.id == id) (ended now) (select (with_hash h) xs)
unfolding revoke
select-revoke now id h [] = refl
select-revoke now id h (x ∷ xs) = ground (arith, select-revoke now id h xs)

-- The session of a token after that session is revoked, and another with another hash is added.
found-revoke :
    (now : ℕ) (h : String) (x new : Row UserSession) (xs : List (Row UserSession))
    → get_by_refresh_token_hash h xs ≡ ok (some x)
    → str_eq new.body.refresh_token_hash h ≡ false
    → get_by_refresh_token_hash h (revoke now x.id xs ++ new ∷ []) ≡ ok (some (ended now x))
unfolding get_by_refresh_token_hash
found-revoke now h x new xs e other =
    rw
      (
        select-append (with_hash h) (revoke now x.id xs) (new ∷ []),
        select-revoke now x.id h xs,
        scalar-some _ x e,
        other,
      )
      (ground arith)

found-revoke_only :
    (now : ℕ) (h : String) (x : Row UserSession) (xs : List (Row UserSession))
    → get_by_refresh_token_hash h xs ≡ ok (some x)
    → get_by_refresh_token_hash h (revoke now x.id xs) ≡ ok (some (ended now x))
unfolding get_by_refresh_token_hash
found-revoke_only now h x xs e = rw (select-revoke now x.id h xs, scalar-some _ x e) (ground arith)

abbrev live_of : ℕ → Row UserSession → Bool
live_of user s = s.body.user_id == user && not (is_some s.body.revoked_at)

select-revoke_all :
    (now user : ℕ) (h : String) (xs : List (Row UserSession))
    → select (with_hash h) (revoke_all_for_user now user xs)
      ≡ map_where (live_of user) (ended now) (select (with_hash h) xs)
unfolding revoke_all_for_user
select-revoke_all now user h [] = refl
select-revoke_all now user h (x ∷ xs) = ground (arith, select-revoke_all now user h xs)

found-revoke_all :
    (now user : ℕ) (h : String) (x : Row UserSession) (xs : List (Row UserSession))
    → get_by_refresh_token_hash h xs ≡ ok (some x)
    → get_by_refresh_token_hash h (revoke_all_for_user now user xs)
      ≡ ok (some (if live_of user x then ended now x else x))
unfolding get_by_refresh_token_hash
found-revoke_all now user h x xs e = rw (select-revoke_all now user h xs, scalar-some _ x e) refl

others-revoke_all :
    (now user : ℕ) (xs : List (Row UserSession))
    → select (λ s. not (s.body.user_id == user)) (revoke_all_for_user now user xs)
      ≡ select (λ s. not (s.body.user_id == user)) xs
unfolding revoke_all_for_user
others-revoke_all now user [] = refl
others-revoke_all now user (x ∷ xs) = ground (arith, others-revoke_all now user xs)

module _ (c : Crypto) (R : Redis) where
  open R use {Store}

  -- The session that `refresh_token` adds for a user, from the session that it ends.
  abbrev renewed : Call → Row User → Row UserSession → Row UserSession
  renewed k user x = record {
    id = k.new_id;
    tenant_id = user.tenant_id;
    body = record {
      user_id = user.id;
      refresh_token_hash = c.hash_token k.refresh;
      expires_at = k.now + c.refresh_token_expire_days * 86400;
      revoked_at = none;
      ip_address = or_else k.ip x.body.ip_address;
      user_agent = or_else k.user_agent x.body.user_agent;
    };
  }

  -- What a successful refresh found and did to the sessions.
  refresh-inv :
      (token : String) (k : Call) (s s' : State Store) (r : TokenResponse)
      → refresh_token c R token k s ≡ (ok r, s')
      → (x : Row UserSession) × (user : Row User) × (get_by_refresh_token_hash
            (c.hash_token token)
            s.sessions
          ≡ ok (some x))
        × (get_by_id none x.body.user_id s.users ≡ ok (some user))
        × (user.body.is_active ≡ true)
        × (x.body.revoked_at ≡ none)
        × (ltb x.body.expires_at k.now ≡ false)
        × (s' ≡ record s { sessions = revoke k.now x.id s.sessions ++ renewed k user x ∷ [] })
  unfolding refresh_token
  refresh-inv token k s s' r h =
      elim (Found-cases (get_by_refresh_token_hash (c.hash_token token) s.sessions)) [
        | inl e ↦ absurd (ground arith)
        | inr (inl (z, e)) ↦ absurd (ground arith)
        | inr (inr (x, e)) ↦ elim (Found-cases (get_by_id none x.body.user_id s.users)) [
          | inl e' ↦ absurd (ground arith)
          | inr (inl (z, e')) ↦ absurd (ground arith)
          | inr (inr (user, e')) ↦
              (x, user, e, e', ground arith, ground arith, ground arith, ground arith)
        ]
      ]

  -- A session that is found revoked refuses its token, and nothing changes.
  refresh_revoked :
      (token : String) (k : Call) (s : State Store) (x : Row UserSession) (at : ℕ)
      → get_by_refresh_token_hash (c.hash_token token) s.sessions ≡ ok (some x)
      → x.body.revoked_at ≡ some at
      → refresh_token c R token k s ≡ (err (http 401 "Refresh token expired or revoked"), s)
  unfolding refresh_token
  refresh_revoked token k s x at e h = ground arith

  -- After a token has been used to refresh, it is refused at any later call, and nothing changes,
  -- provided that the hash of the new token is another.
  pub refresh_once :
      (token : String) (k k' : Call) (s s' : State Store) (r : TokenResponse)
      → refresh_token c R token k s ≡ (ok r, s')
      → c.hash_token k.refresh ≢ c.hash_token token
      → refresh_token c R token k' s' ≡ (err (http 401 "Refresh token expired or revoked"), s')
  refresh_once token k k' s s' r h other =
      let (x, user, e, _, _, _, _, done) = refresh-inv token k s s' r h in
      refresh_revoked token k' s' (ended k.now x) k.now
        (ap (λ (t : State Store). get_by_refresh_token_hash (c.hash_token token) t.sessions) done
          ∙ found-revoke k.now (c.hash_token token) x (renewed k user x) s.sessions e
              (ground (arith, eq_iff (c.hash_token k.refresh) (c.hash_token token))))
        refl

  logout-inv :
      (token : String) (k : Call) (s : State Store) (x : Row UserSession)
      → get_by_refresh_token_hash (c.hash_token token) s.sessions ≡ ok (some x)
      → (logout c R token k s).1.sessions
        ≡ (if is_some x.body.revoked_at then s.sessions else revoke k.now x.id s.sessions)
  unfolding logout
  logout-inv token k s x e = ground arith

  -- After a logout with a token that has a session, the token is refused at any later refresh, and
  -- that refresh changes nothing.
  pub logout_ends :
      (token : String) (k k' : Call) (s : State Store) (x : Row UserSession)
      → get_by_refresh_token_hash (c.hash_token token) s.sessions ≡ ok (some x)
      → let s' = (logout c R token k s).1 in
        refresh_token c R token k' s' ≡ (err (http 401 "Refresh token expired or revoked"), s')
  logout_ends token k k' s x e =
      let after = logout-inv token k s x e in
      let s' = (logout c R token k s).1 in
      elim (Option-cases x.body.revoked_at) [
        | inl live ↦
            let same : s'.sessions ≡ revoke k.now x.id s.sessions = ground arith in
            refresh_revoked token k' s' (ended k.now x) k.now
              (ap (get_by_refresh_token_hash (c.hash_token token)) same
                ∙ found-revoke_only k.now (c.hash_token token) x s.sessions e)
              refl
        | inr (at, gone) ↦
            let same : s'.sessions ≡ s.sessions = ground arith in
            refresh_revoked token k' s' x at
              (ap (get_by_refresh_token_hash (c.hash_token token)) same ∙ e) gone
      ]

  logout_all-inv :
      (user_id : ℕ) (k : Call) (s : State Store) (user : Row User)
      → get_by_id none user_id s.users ≡ ok (some user)
      → (logout_all c R user_id k s).1.sessions ≡ revoke_all_for_user k.now user_id s.sessions
  unfolding logout_all
  logout_all-inv user_id k s user e = ground arith

  -- After a known user logs out everywhere, every token of a session of his is refused at any later
  -- refresh, which changes nothing, and the sessions of the other users are as they were.
  pub logout_all_ends :
      (user_id : ℕ) (token : String) (k k' : Call) (s : State Store) (user : Row User)
      (x : Row UserSession)
      → get_by_id none user_id s.users ≡ ok (some user)
      → get_by_refresh_token_hash (c.hash_token token) s.sessions ≡ ok (some x)
      → x.body.user_id ≡ user_id
      → let s' = (logout_all c R user_id k s).1 in
        (refresh_token c R token k' s' ≡ (err (http 401 "Refresh token expired or revoked"), s'))
        × (select (λ y. not (y.body.user_id == user_id)) s'.sessions
            ≡ select (λ y. not (y.body.user_id == user_id)) s.sessions)
  logout_all_ends user_id token k k' s user x eu e his =
      let s' = (logout_all c R user_id k s).1 in
      let same = logout_all-inv user_id k s user eu in
      let now_found =
        ap (get_by_refresh_token_hash (c.hash_token token)) same
        ∙ found-revoke_all k.now user_id (c.hash_token token) x s.sessions e in
      (
        elim (Option-cases x.body.revoked_at) [
          | inl live ↦
              refresh_revoked token k' s' (ended k.now x) k.now (now_found ∙ ground arith) refl
          | inr (at, gone) ↦ refresh_revoked token k' s' x at (now_found ∙ ground arith) gone
        ],
        ap (select (λ y. not (y.body.user_id == user_id))) same
            ∙ others-revoke_all k.now user_id s.sessions,
      )
