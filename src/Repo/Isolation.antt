-- ===== src/Repo/Isolation.antt =====
-- What a repository bound to a tenant does to the rows of the others (apps/api/repositories/base.py),
-- and to a row's tenant.
use calling_agent.Prelude.{
  ℕ, ◌≡◌, refl, Bool, true, false, Option, none, some, List, [], ◌∷◌, ◌++◌, arith, ◌∙◌, select,
  map_where, map, In, if◌then◌else◌,
}
use calling_agent.Http.{ok}
use calling_agent.Repo.{
  Row, Values, in_tenant, at_id, stamp, assign, scalar_one_or_none, get_by_id, update, delete,
  Write, creates, updates, deletes, write, write_all,
}

module _ {B : Type 0} where
  -- The rows that belong to other tenants, in their order.
  abbrev pub foreign : ℕ → List (Row B) → List (Row B)
  foreign t rows = select (λ r. if in_tenant (some t) r then false else true) rows

  select-at_id :
      (t id : ℕ) (rows : List (Row B)) (r : Row B)
      → In r (select (at_id (some t) id) rows)
      → (r.id ≡ id) × (r.tenant_id ≡ t) × In r rows
  select-at_id t id [] r h = absurd h
  select-at_id t id (x ∷ rows) r h = ground (arith, select-at_id t id rows r)

  one_of_scalar : (xs : List (Row B)) {r : Row B} → scalar_one_or_none xs ≡ ok (some r) → In r xs
  one_of_scalar [] h = cc
  one_of_scalar (x ∷ []) h = ground arith
  one_of_scalar (x ∷ y ∷ xs) h = cc

  foreign-map_where :
      (t id : ℕ) (v : Values B) (rows : List (Row B))
      → foreign t (map_where (at_id (some t) id) (assign v) rows) ≡ foreign t rows
  foreign-map_where t id v [] = refl
  foreign-map_where t id v (x ∷ rows) = ground (arith, foreign-map_where t id v rows)

  foreign-without :
      (t id : ℕ) (rows : List (Row B))
      → foreign t (select (λ r. if at_id (some t) id r then false else true) rows) ≡ foreign t rows
  foreign-without t id [] = refl
  foreign-without t id (x ∷ rows) = ground (arith, foreign-without t id rows)

  own-without :
      (t id : ℕ) (rows : List (Row B))
      → select (at_id (some t) id) (select (λ r. if at_id (some t) id r then false else true) rows)
        ≡ []
  own-without t id [] = refl
  own-without t id (x ∷ rows) = ground (arith, own-without t id rows)

  foreign-append_own :
      (t : ℕ) (rows : List (Row B)) (r : Row B)
      → r.tenant_id ≡ t
      → foreign t (rows ++ r ∷ []) ≡ foreign t rows
  foreign-append_own t [] r h = ground arith
  foreign-append_own t (x ∷ rows) r h = ground (arith, foreign-append_own t rows r h)

  tenants-map_where :
      (p : Row B → Bool) (v : Values B) (rows : List (Row B))
      → map (λ r. r.tenant_id) (map_where p (assign v) rows) ≡ map (λ r. r.tenant_id) rows
  tenants-map_where p v [] = refl
  tenants-map_where p v (x ∷ rows) = ground (arith, tenants-map_where p v rows)

  -- What a repository bound to tenant t reads by id has that id, belongs to t, and is in the table.
  pub get_by_id-isolated :
      (t id : ℕ) (rows : List (Row B)) (r : Row B)
      → get_by_id (some t) id rows ≡ ok (some r)
      → (r.id ≡ id) × (r.tenant_id ≡ t) × In r rows
  unfolding get_by_id
  get_by_id-isolated t id rows r h = select-at_id t id rows r (one_of_scalar _ h)

  -- An update through any repository, bound to a tenant or not, leaves every row's tenant as it was,
  -- also when the caller passes a tenant.
  update-keeps_tenants :
      (tenant : Option ℕ) (id : ℕ) (v : Values B) (rows : List (Row B))
      → map (λ r. r.tenant_id) (update tenant id v rows).1 ≡ map (λ r. r.tenant_id) rows
  unfolding update
  update-keeps_tenants tenant id v rows = tenants-map_where (at_id tenant id) v rows

  -- After a delete through the repository of tenant t, reading the same id finds nothing.
  get_by_id-delete :
      (t id : ℕ) (rows : List (Row B)) → get_by_id (some t) id (delete (some t) id rows).1 ≡ ok none
  unfolding get_by_id delete
  get_by_id-delete t id rows = rw (own-without t id rows)

  foreign-write :
      (t : ℕ) (w : Write B) (rows : List (Row B))
      → foreign t (write (some t) w rows) ≡ foreign t rows
  unfolding write
  foreign-write t (creates clash r) rows =
      ground (arith, foreign-append_own t rows (stamp (some t) r))
  foreign-write t (updates id v) rows = foreign-map_where t id v rows
  foreign-write t (deletes id) rows = foreign-without t id rows

  -- Whatever creates, updates and deletes run through a repository bound to tenant t, with whatever
  -- arguments, the rows of the other tenants are what they were, and in the same order.
  pub write_all-isolated :
      (t : ℕ) (ws : List (Write B)) (rows : List (Row B))
      → foreign t (write_all (some t) ws rows) ≡ foreign t rows
  unfolding write_all
  write_all-isolated t [] rows = refl
  write_all-isolated t (w ∷ ws) rows =
      write_all-isolated t ws (write (some t) w rows) ∙ foreign-write t w rows
