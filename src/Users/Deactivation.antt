-- ===== src/Users/Deactivation.antt =====
-- That a deactivated user is let in no more (apps/api/services/user_service.py and apps/api/middleware/auth.py).
use calling_agent.Prelude.{
  ℕ, ◌≡◌, ◌≢◌, refl, arith, String, false, Option, none, some, List, [], ◌∷◌, In, inl, inr, select,
  map_where,
}
use mathlib.Core.Path.{subst, sym}
use calling_agent.Http.{ok, Found-cases}
use calling_agent.Repo.{
  Row, Values, at_id, assign, get_by_id, update, scalar-some, scalar_one_or_none,
}
use calling_agent.Tenants.{Tenant}
use calling_agent.Auth.{User}
use calling_agent.Access.{get_current_user, get_current_user_sound}
use calling_agent.Users.{Users, sets, deactivate_user}

abbrev off : Values User
off = sets (λ u. record u { is_active = false })

inactive :
    (tenant id : ℕ) (rows : Users) (u : Row User)
    → In u (select (at_id (some tenant) id) (map_where (at_id (some tenant) id) (assign off) rows))
    → u.body.is_active ≡ false
inactive tenant id [] u h = absurd h
inactive tenant id (x ∷ rows) u h = ground (arith, inactive tenant id rows u)

by_id :
    (tenant id : ℕ) (rows : Users) (u : Row User)
    → In u (select (at_id (some tenant) id) rows)
    → In u (select (at_id none id) rows)
by_id tenant id [] u h = absurd h
by_id tenant id (x ∷ rows) u h = ground (arith, by_id tenant id rows u)

only_off :
    (tenant id : ℕ) (users : Users) (u : Row User)
    → select (at_id (some tenant) id) (map_where (at_id (some tenant) id) (assign off) users)
      ≡ u ∷ []
    → In u (select (at_id none id) (map_where (at_id (some tenant) id) (assign off) users))
      × (u.body.is_active ≡ false)
only_off tenant id users u e =
    let there : In u
        (select (at_id (some tenant) id) (map_where (at_id (some tenant) id) (assign off) users)) =
      subst (λ xs. In u xs) (sym e) (inl refl) in
    (by_id tenant id _ u there, inactive tenant id users u there)

-- After a user is deactivated, no token of his, however long it is still valid, lets him in.
pub deactivated_refused :
    (decode : String → Option (Option ℕ)) (token : String) (tenant id : ℕ) (users after : Users)
    (tenants : List Tenant) (done user : Row User)
    → decode token ≡ some (some id)
    → deactivate_user tenant id users ≡ (ok done, after)
    → get_current_user decode token after tenants ≢ ok user
unfolding deactivate_user get_by_id update
deactivated_refused decode token tenant id users after tenants done user is_his h let_in =
    let changed = map_where (at_id (some tenant) id) (assign off) users in
    elim (Found-cases (scalar_one_or_none (select (at_id (some tenant) id) changed))) [
      | inl e ↦ absurd (ground arith)
      | inr (inl (x, e)) ↦ absurd (ground arith)
      | inr (inr (u, e)) ↦
          let (sub, is_sub, found, active, _, _, _) =
            get_current_user_sound decode token after tenants user let_in in
          let same : sub ≡ id = ground arith in
          let by : after ≡ changed = ground arith in
          let (there, is_off) = only_off tenant id users u (scalar-some _ u e) in
          let here : In u (select (at_id none sub) after) = rw (by, same) there in
          let only = subst (λ xs. In u xs) (scalar-some _ user found) here in absurd (ground arith)
    ]
