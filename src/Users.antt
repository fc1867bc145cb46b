-- ===== src/Users.antt =====
-- The users of a tenant: apps/api/services/user_service.py without its listing. `hash_password` is an argument. A role is
-- one that the table allows, and an explicit null for `is_active` is not modelled. `UserUpdate` has no password, so that
-- the branch for one in `update_user` is never taken.
pub mod Deactivation
mod Tests
use calling_agent.Prelude.{ℕ, String, false, Option, some, none, List, is_some}
use calling_agent.Http.{Error, http, Action, pure, raise, raise_if, query, gets, ◌>>=◌, ◌>>◌}
use calling_agent.Repo.{Row, Values, get_by_id, create, update}
use calling_agent.Auth.{Role, User, get_by_email_global, same_email}

abbrev pub Users : Type 0
Users = List (Row User)

abbrev pub or_404 : Option (Row User) → Action Users (Row User)
or_404 none = raise (http 404 "User not found")
or_404 (some user) = pure user

-- The keyword arguments of an update that sets these columns.
abbrev pub sets : (User → User) → Values User
sets f = record { tenant = none; columns = f }

module _ (tenant : ℕ) where
  unfoldable pub create_user : (String → String) → Row User → String → Action Users (Row User)
  unfolding get_by_email_global create
  create_user hash_password new password = do
    existing ← gets (get_by_email_global new.body.email)
    raise_if (is_some existing) (http 400 "Email already taken")
    create same_email (some tenant)
        (record new { body = record new.body { password_hash = hash_password password } })

  unfoldable pub get_user : ℕ → Action Users (Row User)
  unfolding get_by_id
  get_user id = query (get_by_id (some tenant) id) >>= or_404

  unfoldable pub update_user : ℕ → (User → User) → Action Users (Row User)
  unfolding update
  update_user id f = update (some tenant) id (sets f) >>= or_404

  unfoldable pub change_role : ℕ → Role → Action Users (Row User)
  unfolding update
  change_role id new_role =
      update (some tenant) id (sets (λ u. record u { role = new_role })) >>= or_404

  unfoldable pub deactivate_user : ℕ → Action Users (Row User)
  unfolding update
  deactivate_user id =
      update (some tenant) id (sets (λ u. record u { is_active = false })) >>= or_404
