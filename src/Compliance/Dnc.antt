-- ===== src/Compliance/Dnc.antt =====
-- The list of the numbers that must not be called.
use calling_agent.Prelude.{
  ◌≡◌, refl, inl, inr, ℕ, ◌==◌, arith, String, Bool, true, false, ◌||◌, Option, none, List, [], ◌∷◌,
  ◌++◌, any, select, eq_iff, ==_refl, select-append, Bool-cases, if◌then◌else◌,
}
use calling_agent.Http.{ok, Found-cases}
use calling_agent.Repo.{Row, scalar-none, scalar-some, create, insert}
use calling_agent.Compliance.{
  DncEntry, Entries, same_phone, valid_source, is_listed, get_by_phone, create_entry, entry,
  check_can_call, add_to_dnc,
}

-- The list has one active entry of the tenant for the number.
abbrev pub Listed : ℕ → String → Entries → Type 0
Listed tenant phone rows = (r : Row DncEntry) × (select (is_listed tenant phone) rows ≡ r ∷ [])

either_tenant : (own tenant : ℕ) → (if tenant == own then own else tenant) ≡ tenant
either_tenant own tenant = ground arith

pub Listed-check_can_call :
    (own tenant : ℕ) (phone : String) (rows : Entries)
    → Listed tenant phone rows
    → check_can_call own phone tenant rows ≡ ok false
unfolding check_can_call get_by_phone
Listed-check_can_call own tenant phone rows (r, h) = rw (either_tenant own tenant, h)

pub Unlisted-check_can_call :
    (own tenant : ℕ) (phone : String) (rows : Entries)
    → select (is_listed tenant phone) rows ≡ []
    → check_can_call own phone tenant rows ≡ ok true
unfolding check_can_call get_by_phone
Unlisted-check_can_call own tenant phone rows h = rw (either_tenant own tenant, h)

insert-ok :
    {B : Type 0} (clash : Row B → Row B → Bool) (new r : Row B) (rows rows' : List (Row B))
    → insert clash new rows ≡ (ok r, rows')
    → (r ≡ new) × (rows' ≡ rows ++ new ∷ [])
unfolding insert
insert-ok clash new r rows rows' h =
    elim (Bool-cases (any (λ x. x.id == new.id || clash x new) rows)) [
      | inl e ↦ absurd (ground arith)
      | inr e ↦ (ground arith, ground arith)
    ]

pub create_entry-rows :
    (tenant id : ℕ) (phone source : String) (reason : Option String) (rows rows' : Entries)
    (r : Row DncEntry)
    → create_entry tenant id phone source reason rows ≡ (ok r, rows')
    → rows' ≡ rows ++ entry tenant id phone source reason ∷ []
unfolding create_entry create
create_entry-rows tenant id phone source reason rows rows' r k =
    elim (Bool-cases (valid_source source)) [
      | inl e ↦
          (insert-ok same_phone (entry tenant id phone source reason) r rows rows' (rw e at k)).1
      | inr e ↦ absurd (ground arith)
    ]

is_listed-entry :
    (tenant id : ℕ) (phone source : String) (reason : Option String)
    → is_listed tenant phone (entry tenant id phone source reason) ≡ true
is_listed-entry tenant id phone source reason = rw ((eq_iff phone phone).1 refl, ==_refl tenant)

-- A new entry is the one active entry if there was none.
pub created-Listed :
    (tenant id : ℕ) (phone source : String) (reason : Option String) (rows rows' : Entries)
    (r : Row DncEntry)
    → get_by_phone tenant phone rows ≡ ok none
    → create_entry tenant id phone source reason rows ≡ (ok r, rows')
    → Listed tenant phone rows'
unfolding get_by_phone
created-Listed tenant id phone source reason rows rows' r free k =
    let new = entry tenant id phone source reason in
    (
      new,
      rw (
        create_entry-rows tenant id phone source reason rows rows' r k,
        select-append (is_listed tenant phone) rows (new ∷ []),
        scalar-none _ free,
        is_listed-entry tenant id phone source reason,
      ),
    )

-- A number that a tenant has put on the list cannot be called by that tenant, whichever tenant's service
-- is asked.
pub add_blocks :
    (own tenant id : ℕ) (phone source : String) (reason : Option String) (rows rows' : Entries)
    (r : Row DncEntry)
    → add_to_dnc tenant id phone source reason rows ≡ (ok r, rows')
    → check_can_call own phone tenant rows' ≡ ok false
unfolding add_to_dnc get_by_phone
add_blocks own tenant id phone source reason rows rows' r h =
    Listed-check_can_call own tenant phone rows'
      (elim (Found-cases (get_by_phone tenant phone rows)) [
        | inl e ↦ created-Listed tenant id phone source reason rows rows' r e (rw e at h)
        | inr (inl (x, e)) ↦ absurd (ground arith)
        | inr (inr (u, e)) ↦
            let rest : rows ≡ rows' = ground arith in (u, rw (← rest) (scalar-some _ u e))
      ])
