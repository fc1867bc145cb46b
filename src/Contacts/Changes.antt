-- ===== src/Contacts/Changes.antt =====
-- Additions to and removals from the lists of one tenant, each in its transaction.
use calling_agent.Prelude.{
  ◌≡◌, refl, inl, inr, ◌≤◌, arith, ℕ, ◌+◌, ◌-◌, ◌==◌, ==_iff, ltb, Bool, true, false, not, ◌||◌,
  none, some, List, [], ◌∷◌, In, any, select, length, Bool-cases,
}
use calling_agent.Http.{get_db, get_db_rule, ok}
use calling_agent.Repo.{Row, at_id, get_by_id, scalar-none}
use calling_agent.Repo.Isolation.{get_by_id-isolated}
use calling_agent.Contacts.Service.{
  ContactList, ContactListMember, Db, recount, is_pair, same_member, new_member, find_list, in_list,
  add_to_list, remove_from_list,
}
use calling_agent.Contacts.Counts.{
  Members, IsCounted, IsValid, select_one_more, select_fewer, select_left, All-map_where, All-In,
  one_more, none_more, own_pair, one_less, none_less,
}
use calling_agent.Contacts.Inversion.{with_member, without, clashes, add-inv, remove-inv}

none_gone :
    (p : Row ContactListMember → Bool) (ms : Members)
    → length (select p ms) ≡ 0
    → select (λ m. not (p m)) ms ≡ ms
none_gone p [] h = refl
none_gone p (x ∷ ms) h = ground (arith, none_gone p ms)

module _ (tenant list contact : ℕ) (db : Db) where
  IsOnce : Members → Type 0
  IsOnce ms = (a b : ℕ) → length (select (is_pair a b) ms) ≤ 1

  clash_free :
      (drawn a b : ℕ) (ms : Members)
      → any (λ x. x.id == drawn || same_member x (new_member tenant drawn list contact)) ms ≡ false
      → is_pair a b (new_member tenant drawn list contact) ≡ true
      → length (select (is_pair a b) ms) ≡ 0
  clash_free drawn a b [] h e = refl
  clash_free drawn a b (x ∷ ms) h e =
      ground (arith, ==_iff list a, ==_iff contact b, clash_free drawn a b ms)

  with_member-IsOnce :
      (drawn : ℕ)
      → clashes tenant list contact db drawn ≡ false
      → IsOnce db.members
      → IsOnce (with_member tenant list contact db drawn).members
  unfolding IsOnce
  with_member-IsOnce drawn free once a b =
      let m = new_member tenant drawn list contact in
      let more = select_one_more (is_pair a b) (is_pair a b) db.members m in
      let few = once a b in
      elim (Bool-cases (is_pair a b m)) [
        | inl e ↦ let none_there = clash_free drawn a b db.members free e in ground arith
        | inr e ↦ ground arith
      ]

  without-IsOnce : IsOnce db.members → IsOnce (without tenant list contact db).members
  unfolding IsOnce
  without-IsOnce once a b =
      let less = select_left (λ m. not (in_list tenant list contact m)) (is_pair a b) db.members in
      let few = once a b in ground arith

  found :
      (l : Row ContactList)
      → find_list tenant list db ≡ ok (some l)
      → (l.id ≡ list) × (l.tenant_id ≡ tenant) × In l db.lists
  found l e = get_by_id-isolated tenant list db.lists l e

  missing : find_list tenant list db ≡ ok none → select (at_id (some tenant) list) db.lists ≡ []
  unfolding get_by_id
  missing e = scalar-none _ e

  add-IsValid :
      (drawn : ℕ) (r : Row ContactListMember) (db' : Db)
      → IsValid tenant db
      → add_to_list tenant drawn list contact db ≡ (ok r, db')
      → IsValid tenant db'
  unfolding IsOnce
  add-IsValid drawn r db' (counted, once) h =
      let (free, outcome) = add-inv tenant list contact db drawn r db' h in
      elim outcome [
        | inl (e, done) ↦ rw done (
          none_more tenant list contact db.members drawn db.lists (missing e) counted,
          with_member-IsOnce drawn free once,
        )
        | inr (l, e, done) ↦
            let (own, _, _) = found l e in
            rw (done, own)
              (
                All-map_where (IsCounted tenant db.members)
                    (IsCounted tenant (with_member tenant list contact db drawn).members)
                    (λ x. x.id == list) (recount (λ n. n + 1)) db.lists
                    (one_more tenant list contact db.members drawn) counted,
                with_member-IsOnce drawn free once,
              )
      ]

  -- A list from which a member goes had one.
  one_gone :
      (l : Row ContactList)
      → IsValid tenant db
      → find_list tenant list db ≡ ok (some l)
      → 1 ≤ length (select (in_list tenant list contact) db.members)
      → (length (select (in_list tenant list contact) db.members) ≡ 1)
        × (ltb 0 l.body.contact_count ≡ true)
  one_gone l (counted, once) e some_gone =
      let (own, mine, there) = found l e in
      let count = All-In (IsCounted tenant db.members) l db.lists counted there mine in
      let few = once list contact in
      let at_most =
        select_fewer (in_list tenant list contact) (is_pair list contact) db.members
          (λ m h. ground arith) in
      let at_least =
        select_fewer (in_list tenant list contact) _ db.members
          (λ m. own_pair tenant list contact l.id m own) in
      (ground arith, ground arith)

  remove-IsValid :
      (r : Bool) (db' : Db)
      → IsValid tenant db
      → remove_from_list tenant list contact db ≡ (ok r, db')
      → IsValid tenant db'
  unfolding IsOnce
  remove-IsValid r db' (counted, once) h = elim (remove-inv tenant list contact db r db' h) [
    | inl (e, done) ↦
        rw (done, none_gone (in_list tenant list contact) db.members e) (counted, once)
    | inr (inl (e, done)) ↦
        rw done (
          none_less tenant list contact db.members db.lists (missing e) counted,
          without-IsOnce once,
        )
    | inr (inr (l, e, some_gone, done)) ↦
        let (own, _, _) = found l e in
        let (one, positive) = one_gone l (counted, once) e some_gone in
        rw (done, positive, own)
          (
            All-map_where (IsCounted tenant db.members)
                (IsCounted tenant (without tenant list contact db).members) (λ x. x.id == list)
                (recount (λ n. n - 1)) db.lists (λ x. one_less tenant list contact db.members x one)
                counted,
            without-IsOnce once,
          )
  ]

pub data Change : Type 0 where
  adds : ℕ → ℕ → ℕ → Change
  removes : ℕ → ℕ → Change

-- The requests of one tenant, each in its transaction.
unfoldable pub change_all : ℕ → List Change → Db → Db
change_all tenant [] db = db
change_all tenant (adds drawn list contact ∷ cs) db =
    change_all tenant cs (get_db (add_to_list tenant drawn list contact) db).1
change_all tenant (removes list contact ∷ cs) db =
    change_all tenant cs (get_db (remove_from_list tenant list contact) db).1

-- From a state in which each list of the tenant has the count of its members and no list has a contact
-- twice, any sequence of additions and removals of the tenant, also those that raise, ends in such a state.
pub contact_counts_stay :
    (tenant : ℕ) (cs : List Change) (db : Db)
    → IsValid tenant db
    → IsValid tenant (change_all tenant cs db)
unfolding change_all
contact_counts_stay tenant [] db valid = valid
contact_counts_stay tenant (adds drawn list contact ∷ cs) db valid =
    contact_counts_stay tenant cs _ (
      get_db_rule (IsValid tenant) (add_to_list tenant drawn list contact) db valid
        (λ r db' e. add-IsValid tenant list contact db drawn r db' valid e))
contact_counts_stay tenant (removes list contact ∷ cs) db valid = contact_counts_stay tenant cs _ (
    get_db_rule (IsValid tenant) (remove_from_list tenant list contact) db valid
      (λ r db' e. remove-IsValid tenant list contact db r db' valid e))
