-- ===== src/Compliance/Removal.antt =====
-- Taking a number off the list, and putting it back.
use calling_agent.Prelude.{
  ◌≡◌, refl, ◌⊎◌, inl, inr, ℕ, ◌==◌, arith, String, Bool, true, false, ◌||◌, Option, some, [], ◌∷◌,
  any, select, map_where, All, In, eq_iff, Bool-cases,
}
use calling_agent.Http.{ok, err, integrity, Found-cases}
use calling_agent.Repo.{Row, at_id, assign, scalar-none, scalar-some, create, insert, update}
use calling_agent.Compliance.{
  DncEntry, Entries, same_phone, valid_source, is_listed, get_by_phone, create_entry, entry,
  check_can_call, add_to_dnc, deactivate, remove_from_dnc,
}
use calling_agent.Compliance.Dnc.{Unlisted-check_can_call}

abbrev without : ℕ → ℕ → Entries → Entries
without tenant id = map_where (at_id (some tenant) id) (assign deactivate)

select-without :
    (tenant id : ℕ) (phone : String) (rows : Entries)
    → All (λ r. r.id ≡ id) (select (is_listed tenant phone) rows)
    → select (is_listed tenant phone) (without tenant id rows) ≡ []
select-without tenant id phone [] h = refl
select-without tenant id phone (x ∷ rows) h = elim (Bool-cases (is_listed tenant phone x)) [
  | inl e ↦ ground (arith, select-without tenant id phone rows)
  | inr e ↦ ground (arith, select-without tenant id phone rows)
]

clash-without :
    (tenant id new : ℕ) (phone source : String) (reason : Option String) (rows : Entries)
    (r : Row DncEntry)
    → In r (select (is_listed tenant phone) rows)
    → any
        (λ x. x.id == new || same_phone x (entry tenant new phone source reason))
        (without tenant id rows)
      ≡ true
clash-without tenant id new phone source reason [] r h = absurd h
clash-without tenant id new phone source reason (x ∷ rows) r h = ground (
  arith,
  clash-without tenant id new phone source reason rows r,
  eq_iff x.body.phone_number phone,
)

-- The rows that a removal leaves: those before it where the number was not listed, and else those with
-- its one active entry deactivated.
removed :
    (tenant : ℕ) (phone : String) (rows rows' : Entries) (b : Bool)
    → remove_from_dnc tenant phone rows ≡ (ok b, rows')
    → ((b ≡ false) × (select (is_listed tenant phone) rows ≡ []) × (rows' ≡ rows))
      ⊎ ((r : Row DncEntry) × (select (is_listed tenant phone) rows ≡ r ∷ [])
          × (rows' ≡ without tenant r.id rows))
unfolding remove_from_dnc get_by_phone update
removed tenant phone rows rows' b h = elim (Found-cases (get_by_phone tenant phone rows)) [
  | inl e ↦ inl (ground arith, scalar-none _ e, ground arith)
  | inr (inl (x, e)) ↦ absurd (ground arith)
  | inr (inr (r, e)) ↦ inr (r, scalar-some _ r e, ground arith)
]

pub remove_allows :
    (own tenant : ℕ) (phone : String) (rows rows' : Entries) (b : Bool)
    → remove_from_dnc tenant phone rows ≡ (ok b, rows')
    → check_can_call own phone tenant rows' ≡ ok true
remove_allows own tenant phone rows rows' b h =
    Unlisted-check_can_call own tenant phone rows' (elim (removed tenant phone rows rows' b h) [
      | inl (f, none_listed, same) ↦ rw same none_listed
      | inr (r, one, left) ↦ rw left (select-without tenant r.id phone rows (rw one (refl, tt)))
    ])

-- A number that has been on the list and was taken off cannot be put on it again: the attempt raises the
-- database's integrity error and the number may still be called.
pub readd_fails :
    (own tenant id : ℕ) (phone source : String) (reason : Option String) (rows rows' : Entries)
    → remove_from_dnc tenant phone rows ≡ (ok true, rows')
    → (add_to_dnc tenant id phone source reason rows' ≡ (err integrity, rows'))
      × (check_can_call own phone tenant rows' ≡ ok true)
unfolding add_to_dnc get_by_phone create_entry create insert
readd_fails own tenant id phone source reason rows rows' h = (
  elim (removed tenant phone rows rows' true h) [
    | inl (f, none_listed, same) ↦ absurd (ground arith)
    | inr (r, one, left) ↦
        rw
          (
            left,
            select-without tenant r.id phone rows (rw one (refl, tt)),
            clash-without tenant r.id id phone source reason rows r (rw one (inl refl)),
          )
          (elim (Bool-cases (valid_source source)) [ inl e ↦ rw e | inr e ↦ rw e ])
  ],
  remove_allows own tenant phone rows rows' true h,
)
