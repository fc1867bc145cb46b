-- ===== src/Contacts/Counts.antt =====
-- That a list's `contact_count` is the number of its members.
use calling_agent.Prelude.{
  ◌≡◌, sym, inl, inr, ◌≤◌, arith, ℕ, ◌+◌, ◌-◌, ◌==◌, ==_iff, ==_refl, Bool, true, false, not, ◌&&◌,
  some, List, [], ◌∷◌, ◌++◌, All, In, select, map_where, length, Bool-cases, if◌then◌else◌,
}
use mathlib.Core.Path.{subst}
use calling_agent.Repo.{Row, at_id}
use calling_agent.Contacts.Service.{
  ContactList, ContactListMember, Db, recount, is_pair, new_member, in_list,
}

abbrev pub Members : Type 0
Members = List (Row ContactListMember)

-- The members of a list, in the tenant.
abbrev pub member_of : ℕ → ℕ → Row ContactListMember → Bool
member_of tenant list m = m.body.contact_list_id == list && m.tenant_id == tenant

abbrev pub IsCounted : ℕ → Members → Row ContactList → Type 0
IsCounted tenant ms l =
    l.tenant_id ≡ tenant → l.body.contact_count ≡ length (select (member_of tenant l.id) ms)

-- Each list of the tenant has the count of its members, and no list has a contact twice.
abbrev pub IsValid : ℕ → Db → Type 0
IsValid tenant db =
    All (IsCounted tenant db.members) db.lists
    × ((list contact : ℕ) → length (select (is_pair list contact) db.members) ≤ 1)

module _ (p q : Row ContactListMember → Bool) where
  pub select_one_more :
      (ms : Members) (m : Row ContactListMember)
      → length (select p (ms ++ m ∷ [])) ≡ length (select p ms) + (if p m then 1 else 0)
  select_one_more [] m = ground arith
  select_one_more (x ∷ ms) m = ground (arith, select_one_more ms m)

  select_out :
      (ms : Members)
      → ((m : Row ContactListMember) → p m ≡ true → q m ≡ true)
      → length (select q (select (λ m. not (p m)) ms)) + length (select p ms) ≡ length (select q ms)
  select_out [] h = ground arith
  select_out (x ∷ ms) h = ground (arith, h x, select_out ms h)

  select_apart :
      (ms : Members)
      → ((m : Row ContactListMember) → p m ≡ true → q m ≡ false)
      → length (select q (select (λ m. not (p m)) ms)) ≡ length (select q ms)
  select_apart [] h = ground arith
  select_apart (x ∷ ms) h = ground (arith, h x, select_apart ms h)

  pub select_fewer :
      (ms : Members)
      → ((m : Row ContactListMember) → p m ≡ true → q m ≡ true)
      → length (select p ms) ≤ length (select q ms)
  select_fewer [] h = ground arith
  select_fewer (x ∷ ms) h = ground (arith, h x, select_fewer ms h)

pub select_left :
    (p q : Row ContactListMember → Bool) (ms : Members)
    → length (select q (select p ms)) ≤ length (select q ms)
select_left p q [] = ground arith
select_left p q (x ∷ ms) = ground (arith, select_left p q ms)

pub All-map_where :
    {A : Type 0} (P Q : A → Type 0) (p : A → Bool) (f : A → A) (xs : List A)
    → ((x : A) → P x → Q (if p x then f x else x))
    → All P xs
    → All Q (map_where p f xs)
All-map_where P Q p f [] h a = tt
All-map_where P Q p f (x ∷ xs) h (a, rest) = (h x a, All-map_where P Q p f xs h rest)

pub All-In : {A : Type 0} (P : A → Type 0) (x : A) (xs : List A) → All P xs → In x xs → P x
All-In P x [] a h = absurd h
All-In P x (y ∷ ys) (a, rest) (inl e) = subst P (sym e) a
All-In P x (y ∷ ys) (a, rest) (inr h) = All-In P x ys rest h

module _ (tenant list contact : ℕ) where
  -- The count of a list when a member comes.
  pub one_more :
      (ms : Members) (drawn : ℕ) (l : Row ContactList)
      → IsCounted tenant ms l
      → IsCounted tenant
          (ms ++ new_member tenant drawn list contact ∷ [])
          (if l.id == list then recount (λ n. n + 1) l else l)
  one_more ms drawn l h = elim (Bool-cases (l.id == list)) [
    | inl e ↦ rw e (λ own.
        let more =
          select_one_more (member_of tenant l.id) (member_of tenant l.id) ms
            (new_member tenant drawn list contact) in
        let before = h own in ground (arith, ==_refl tenant, ==_iff l.id list, ==_iff list l.id))
    | inr e ↦ rw e (λ own.
        let more =
          select_one_more (member_of tenant l.id) (member_of tenant l.id) ms
            (new_member tenant drawn list contact) in
        let before = h own in ground (arith, ==_refl tenant, ==_iff l.id list, ==_iff list l.id))
  ]

  -- The list is not there: no list of the tenant changes.
  pub none_more :
      (ms : Members) (drawn : ℕ) (ls : List (Row ContactList))
      → select (at_id (some tenant) list) ls ≡ []
      → All (IsCounted tenant ms) ls
      → All (IsCounted tenant (ms ++ new_member tenant drawn list contact ∷ [])) ls
  none_more ms drawn [] e a = tt
  none_more ms drawn (l ∷ ls) e (a, rest) = elim (Bool-cases (at_id (some tenant) list l)) [
    | inl f ↦ absurd (ground arith)
    | inr f ↦ (
      λ own.
          let more =
            select_one_more (member_of tenant l.id) (member_of tenant l.id) ms
              (new_member tenant drawn list contact) in
          let before = a own in
          ground (arith, ==_iff l.tenant_id tenant, ==_iff l.id list, ==_iff list l.id),
      none_more ms drawn ls (ground arith) rest,
    )
  ]

  -- One member goes.
  abbrev pub left : Members → Members
  left ms = select (λ m. not (in_list tenant list contact m)) ms

  pub own_pair :
      (id : ℕ) (m : Row ContactListMember)
      → id ≡ list
      → in_list tenant list contact m ≡ true
      → member_of tenant id m ≡ true
  own_pair id m e h =
      ground (arith, ==_iff m.body.contact_list_id list, ==_iff m.body.contact_list_id id)

  other_pair :
      (id : ℕ) (m : Row ContactListMember)
      → (id == list) ≡ false
      → in_list tenant list contact m ≡ true
      → member_of tenant id m ≡ false
  other_pair id m e h =
      ground (
        arith,
        ==_iff m.body.contact_list_id list,
        ==_iff m.body.contact_list_id id,
        ==_iff id list,
      )

  pub one_less :
      (ms : Members) (l : Row ContactList)
      → length (select (in_list tenant list contact) ms) ≡ 1
      → IsCounted tenant ms l
      → IsCounted tenant (left ms) (if l.id == list then recount (λ n. n - 1) l else l)
  one_less ms l one h = elim (Bool-cases (l.id == list)) [
    | inl e ↦ rw e (λ own.
        let less =
          select_out (in_list tenant list contact) (member_of tenant l.id) ms
            (λ m. own_pair l.id m ((==_iff l.id list).0 e)) in
        let before = h own in ground arith)
    | inr e ↦ rw e (λ own.
        let same =
          select_apart (in_list tenant list contact) (member_of tenant l.id) ms
            (λ m. other_pair l.id m e) in
        let before = h own in ground arith)
  ]

  pub none_less :
      (ms : Members) (ls : List (Row ContactList))
      → select (at_id (some tenant) list) ls ≡ []
      → All (IsCounted tenant ms) ls
      → All (IsCounted tenant (left ms)) ls
  none_less ms [] e a = tt
  none_less ms (l ∷ ls) e (a, rest) = elim (Bool-cases (at_id (some tenant) list l)) [
    | inl f ↦ absurd (ground arith)
    | inr f ↦ (
      λ own.
          let apart : (l.id == list) ≡ false = ground (arith, ==_iff l.tenant_id tenant) in
          let same =
            select_apart (in_list tenant list contact) (member_of tenant l.id) ms
              (λ m. other_pair l.id m apart) in
          let before = a own in ground arith,
      none_less ms ls (ground arith) rest,
    )
  ]
