-- ===== src/Repo.antt =====
-- apps/api/repositories/base.py: `BaseRepository`. A table is the list of its rows; a row is what
-- `TenantMixin` and the primary key give, with the other columns as its body.
pub mod Isolation
mod Tests
use calling_agent.Prelude.{
  ◌≡◌, refl, ℕ, ◌-◌, ◌*◌, ltb, length, Bool, true, false, ◌&&◌, ◌||◌, Option, none, some, List, [],
  ◌∷◌, ◌++◌, ◌==◌, any, select, map_where, take, drop, if◌then◌else◌,
}
use calling_agent.Http.{Result, ok, err, integrity, multiple_results, Action, pure, query, ◌>>=◌}

pub record Row (B : Type 0) : Type 0 where
  pub id : ℕ
  pub tenant_id : ℕ
  pub body : B

-- The keyword arguments of `create` and `update`: a tenant the caller may pass, and the others.
pub record Values (B : Type 0) : Type 0 where
  pub tenant : Option ℕ
  pub columns : B → B

-- `Result.scalar_one_or_none`
abbrev pub scalar_one_or_none : {A : Type 0} → List A → Result (Option A)
scalar_one_or_none [] = ok none
scalar_one_or_none (x ∷ []) = ok (some x)
scalar_one_or_none (x ∷ y ∷ xs) = err multiple_results

pub scalar-none : {A : Type 0} (xs : List A) → scalar_one_or_none xs ≡ ok none → xs ≡ []
scalar-none [] h = refl
scalar-none (x ∷ []) h = cc
scalar-none (x ∷ y ∷ xs) h = cc

pub scalar-some :
    {A : Type 0} (xs : List A) (a : A) → scalar_one_or_none xs ≡ ok (some a) → xs ≡ a ∷ []
scalar-some [] a h = cc
scalar-some (x ∷ []) a h = cc
scalar-some (x ∷ y ∷ xs) a h = cc

-- `Result.scalars().first()`
abbrev pub first : {A : Type 0} → List A → Option A
first [] = none
first (x ∷ xs) = some x

module _ {B : Type 0} where
  -- `_apply_tenant_filter`: the added condition on a row.
  abbrev pub in_tenant : Option ℕ → Row B → Bool
  in_tenant none r = true
  in_tenant (some t) r = r.tenant_id == t

  -- `where(model.id == id)` under the tenant filter.
  abbrev pub at_id : Option ℕ → ℕ → Row B → Bool
  at_id tenant id r = r.id == id && in_tenant tenant r

  unfoldable pub get_by_id : Option ℕ → ℕ → List (Row B) → Result (Option (Row B))
  get_by_id tenant id rows = scalar_one_or_none (select (at_id tenant id) rows)

  -- `order` is the ORDER BY that the sort parameters choose.
  unfoldable pub get_all :
      Option ℕ → (List (Row B) → List (Row B)) → ℕ → ℕ → List (Row B) → List (Row B) × ℕ
  get_all tenant order skip limit rows = (
    take limit (drop skip (order (select (in_tenant tenant) rows))),
    length (select (in_tenant tenant) rows),
  )

  -- `kwargs["tenant_id"] = self.tenant_id` where the repository has a tenant.
  abbrev pub stamp : Option ℕ → Row B → Row B
  stamp none r = r
  stamp (some t) r = record r { tenant_id = t }

  -- `session.add`, `session.flush`: the primary key and the table's unique index, `clash`, refuse a
  -- second row.
  unfoldable pub insert : (Row B → Row B → Bool) → Row B → Action (List (Row B)) (Row B)
  insert clash new rows =
      if any (λ x. x.id == new.id || clash x new) rows
      then (err integrity, rows)
      else (ok new, rows ++ new ∷ [])

  unfoldable pub create : (Row B → Row B → Bool) → Option ℕ → Row B → Action (List (Row B)) (Row B)
  unfolding insert
  create clash tenant r = insert clash (stamp tenant r)

  -- `kwargs.pop("tenant_id", None)`, then the assignment of the columns that are left.
  abbrev pub assign : Values B → Row B → Row B
  assign v r = record r { body = v.columns r.body }

  unfoldable pub update : Option ℕ → ℕ → Values B → Action (List (Row B)) (Option (Row B))
  update tenant id v rows =
      let changed = map_where (at_id tenant id) (assign v) rows in
      (scalar_one_or_none (select (at_id tenant id) changed), changed)

  unfoldable pub delete : Option ℕ → ℕ → Action (List (Row B)) Bool
  delete tenant id rows = (
    ok (ltb 0 (length (select (at_id tenant id) rows))),
    select (λ r. if at_id tenant id r then false else true) rows,
  )

-- The writes of a repository, for sequences of them.
pub data Write (B : Type 0) : Type 0 where
  creates : (Row B → Row B → Bool) → Row B → Write B
  updates : ℕ → Values B → Write B
  deletes : ℕ → Write B

module _ {B : Type 0} where
  unfoldable pub write : Option ℕ → Write B → List (Row B) → List (Row B)
  unfolding create update delete
  write tenant (creates clash r) rows = (create clash tenant r rows).1
  write tenant (updates id v) rows = (update tenant id v rows).1
  write tenant (deletes id) rows = (delete tenant id rows).1

  unfoldable pub write_all : Option ℕ → List (Write B) → List (Row B) → List (Row B)
  write_all tenant [] rows = rows
  write_all tenant (w ∷ ws) rows = write_all tenant ws (write tenant w rows)
