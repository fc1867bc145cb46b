-- ===== src/Contacts/Inversion.antt =====
-- What an addition to a list and a removal from it have done when they return.
use calling_agent.Prelude.{
  ◌≡◌, ◌⊎◌, inl, inr, ◌≤◌, arith, ℕ, ◌+◌, ◌-◌, ◌==◌, ltb, Bool, false, ◌||◌, none, some, [], ◌∷◌,
  ◌++◌, any, select, length, Bool-cases, if◌then◌else◌,
}
use calling_agent.Http.{ok, Found-cases}
use calling_agent.Repo.{Row, insert}
use calling_agent.Contacts.Service.{
  ContactList, ContactListMember, Db, same_member, has_parents, set_count, new_member, find_list,
  in_list, add_to_list, remove_from_list,
}
use calling_agent.Contacts.Counts.{left}

module _ (tenant list contact : ℕ) (db : Db) where
  abbrev pub with_member : ℕ → Db
  with_member drawn = record db {
    members = db.members ++ new_member tenant drawn list contact ∷ [];
  }

  abbrev pub without : Db
  without = record db { members = left tenant list contact db.members }

  abbrev pub clashes : ℕ → Bool
  clashes drawn =
      any (λ x. x.id == drawn || same_member x (new_member tenant drawn list contact)) db.members

  pub add-inv :
      (drawn : ℕ) (r : Row ContactListMember) (db' : Db)
      → add_to_list tenant drawn list contact db ≡ (ok r, db')
      → (clashes drawn ≡ false)
        × (((find_list tenant list db ≡ ok none) × (db' ≡ with_member drawn))
            ⊎ ((l : Row ContactList) × (find_list tenant list db ≡ ok (some l))
                × (db' ≡ set_count l.id (λ n. n + 1) (with_member drawn))))
  unfolding add_to_list insert
  add-inv drawn r db' h = elim (Bool-cases (has_parents list contact db)) [
    | inr p ↦ absurd (ground arith)
    | inl p ↦ elim (Bool-cases (clashes drawn)) [
      | inl c ↦ absurd (ground arith)
      | inr c ↦ elim (Found-cases (find_list tenant list db)) [
        | inl e ↦ (c, inl (e, ground arith))
        | inr (inl (x, e)) ↦ absurd (ground arith)
        | inr (inr (l, e)) ↦ (c, inr (l, e, ground arith))
      ]
    ]
  ]

  pub remove-inv :
      (r : Bool) (db' : Db)
      → remove_from_list tenant list contact db ≡ (ok r, db')
      → let gone = length (select (in_list tenant list contact) db.members) in
        ((gone ≡ 0) × (db' ≡ without))
        ⊎ ((find_list tenant list db ≡ ok none) × (db' ≡ without))
        ⊎ ((l : Row ContactList) × (find_list tenant list db ≡ ok (some l))
            × (1 ≤ gone)
            × (db' ≡ (
                if ltb 0 l.body.contact_count
                then set_count l.id (λ n. n - 1) without
                else without)))
  unfolding remove_from_list
  remove-inv r db' h =
      elim (Bool-cases (ltb 0 (length (select (in_list tenant list contact) db.members)))) [
        | inr p ↦ inl (ground arith)
        | inl p ↦ elim (Found-cases (find_list tenant list db)) [
          | inl e ↦ inr (inl (e, ground arith))
          | inr (inl (x, e)) ↦ absurd (ground arith)
          | inr (inr (l, e)) ↦ inr (inr (l, e, ground arith, ground arith))
        ]
      ]
