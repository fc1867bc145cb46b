-- ===== src/Compliance/Import.antt =====
-- The import of a list of numbers.
use calling_agent.Prelude.{
  ◌≡◌, refl, ◌⊎◌, inl, inr, ℕ, ◌+◌, arith, String, false, none, List, [], ◌∷◌, select,
  select-append, length, length-append, All, str_eq, eq_iff, Bool-cases,
}
use calling_agent.Http.{ok, Found-cases, ok->>}
use calling_agent.Repo.{Row, scalar-none, scalar-some}
use calling_agent.Compliance.{
  DncEntry, Entries, is_listed, get_by_phone, create_entry, entry, check_can_call, import_dnc_list,
}
use calling_agent.Compliance.Dnc.{Listed, Listed-check_can_call, create_entry-rows, created-Listed}

Listed-create_entry :
    (tenant id : ℕ) (p q source : String) (rows rows' : Entries) (r : Row DncEntry)
    → get_by_phone tenant q rows ≡ ok none
    → create_entry tenant id q source none rows ≡ (ok r, rows')
    → Listed tenant p rows
    → Listed tenant p rows'
unfolding get_by_phone
Listed-create_entry tenant id p q source rows rows' r free k (u, one) =
    elim (Bool-cases (str_eq q p)) [
      | inl e ↦
          let empty : select (is_listed tenant p) rows ≡ [] =
            rw ((eq_iff q p).0 e) at (scalar-none _ free) in
          absurd (ground arith)
      | inr e ↦ (
        u,
        rw (
          create_entry-rows tenant id q source none rows rows' r k,
          select-append (is_listed tenant p) rows (entry tenant id q source none ∷ []),
          one,
          e,
        ),
      )
    ]

-- One phone of the list: the rows before the others, with the number listed, and what is counted.
import-first :
    (tenant : ℕ) (ids : ℕ → ℕ) (source phone : String) (phones : List String) (count n : ℕ)
    (rows rows' : Entries)
    → import_dnc_list tenant ids source count (phone ∷ phones) rows ≡ (ok n, rows')
    → (mid : Entries) × Listed tenant phone mid
      × ((p : String) → Listed tenant p rows → Listed tenant p mid)
      × (((import_dnc_list tenant ids source count phones mid ≡ (ok n, rows')) × (mid ≡ rows))
          ⊎ ((import_dnc_list tenant ids source (count + 1) phones mid ≡ (ok n, rows'))
              × (length mid ≡ length rows + 1)))
unfolding import_dnc_list get_by_phone
import-first tenant ids source phone phones count n rows rows' h =
    elim (Found-cases (get_by_phone tenant phone rows)) [
      | inl e ↦
          let (r, mid, k, rest) =
            ok->> (create_entry tenant (ids count) phone source none)
              (import_dnc_list tenant ids source (count + 1) phones) rows n rows' (rw e at h) in
          (
            mid,
            created-Listed tenant (ids count) phone source none rows mid r e k,
            λ p. Listed-create_entry tenant (ids count) p phone source rows mid r e k,
            inr (
              rest,
              rw (create_entry-rows tenant (ids count) phone source none rows mid r k)
                  (length-append rows _),
            ),
          )
      | inr (inl (x, e)) ↦ absurd (ground arith)
      | inr (inr (r, e)) ↦ (rows, (r, scalar-some _ r e), λ p l. l, inl (rw e at h, refl))
    ]

import-keeps :
    (tenant : ℕ) (ids : ℕ → ℕ) (source : String) (phones : List String) (count n : ℕ)
    (rows rows' : Entries)
    → import_dnc_list tenant ids source count phones rows ≡ (ok n, rows')
    → ((p : String) → Listed tenant p rows → Listed tenant p rows')
      × All (λ p. Listed tenant p rows') phones
      × (n + length rows ≡ count + length rows')
unfolding import_dnc_list
import-keeps tenant ids source [] count n rows rows' h =
    let same : rows ≡ rows' = ground arith in
    let counted : count ≡ n = ground arith in (λ p l. rw (← same) l, tt, rw (same, counted))
import-keeps tenant ids source (phone ∷ phones) count n rows rows' h =
    let (mid, listed, kept, how) =
      import-first tenant ids source phone phones count n rows rows' h in
    elim how [
      | inl (rest, same) ↦
          let ih = import-keeps tenant ids source phones count n mid rows' rest in
          (λ p l. ih.0 p (kept p l), (ih.0 phone listed, ih.1), rw same at ih.2)
      | inr (rest, longer) ↦
          let ih = import-keeps tenant ids source phones (count + 1) n mid rows' rest in
          (λ p l. ih.0 p (kept p l), (ih.0 phone listed, ih.1), omega (arith, ih.2))
    ]

-- After an import that returned, no number of the imported list can be called, and the count that it
-- returns is the number of the rows that it added.
pub import_blocks :
    (own tenant : ℕ) (ids : ℕ → ℕ) (source : String) (phones : List String) (n : ℕ)
    (rows rows' : Entries)
    → import_dnc_list tenant ids source 0 phones rows ≡ (ok n, rows')
    → All (λ p. check_can_call own p tenant rows' ≡ ok false) phones
      × (length rows' ≡ length rows + n)
import_blocks own tenant ids source phones n rows rows' h =
    let kept = import-keeps tenant ids source phones 0 n rows rows' h in
    (each phones kept.1, omega (arith, kept.2))
  where
    each :
        (ps : List String)
        → All (λ p. Listed tenant p rows') ps
        → All (λ p. check_can_call own p tenant rows' ≡ ok false) ps
    each [] all = tt
    each (p ∷ ps) all = (Listed-check_can_call own tenant p rows' all.0, each ps all.1)
