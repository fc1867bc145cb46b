-- ===== src/Tools/Kept.antt =====
-- What a step on the contacts leaves: every contact that the call may not change.
use calling_agent.Prelude.{
  ◌≡◌, ◌≢◌, refl, sym, ap, ◌∙◌, ◌⊎◌, inl, inr, arith, ℕ, ◌==◌, ◌++◌, String, Bool, true, false,
  ◌||◌, Option, none, some, List, [], ◌∷◌, any, select, map_where, In, str_eq, Bool-cases,
}
use calling_agent.Http.{Error, Result, ok, err, Action, ◌>>=◌}
use calling_agent.Json.{Json, Fields}
use calling_agent.Repo.{
  Row, Values, at_id, stamp, assign, get_by_id, create, insert, update, scalar-some,
}
use calling_agent.Contacts.{Contact, Contacts, same_contact, has_phone, get_by_phone}
use calling_agent.Tools.Definitions.{in_context}
use calling_agent.Tools.Customers.{Outside, is_allowed, parsed, attempt}

-- A step that keeps what holds of the state.
pub keeps-bind :
    {S A B : Type 0} (P : S → Type 0) (m : Action S A) (k : A → Action S B) (s : S)
    → P (m s).1
    → ((a : A) (t : S) → m s ≡ (ok a, t) → P t → P (k a t).1)
    → P ((m >>= k) s).1
keeps-bind {S} {A} {B} P m k s h next = go (m s) refl h
  where
    go :
        (x : Result A × S)
        → m s ≡ x
        → P x.1
        → P (let y : Result B × S = elim x.0 [ ok a ↦ k a x.1 | err e ↦ (err e, x.1) ] in y.1)
    go (ok a, t) e p = next a t e p
    go (err x, t) e p = p

pub keeps-attempt :
    (P : Contacts → Type 0) (answer : Error → Json) (m : Action Contacts Json) (s : Contacts)
    → P s
    → P (m s).1
    → P (attempt answer m s).1
keeps-attempt P answer m s h k = go (m s) k
  where
    go :
        (x : Result Json × Contacts)
        → P x.1
        → P (
            let y : Result Json × Contacts = elim x.0 [
              | ok v ↦ (ok v, x.1)
              | err e ↦ (ok (answer e), s)
            ] in
            y.1)
    go (ok a, t) p = p
    go (err x, t) p = h

In-append : {A : Type 0} (r : A) (xs ys : List A) → In r xs → In r (xs ++ ys)
In-append r [] ys h = absurd h
In-append r (x ∷ xs) ys (inl e) = inl e
In-append r (x ∷ xs) ys (inr h) = inr (In-append r xs ys h)

In-map_where :
    {A : Type 0} (p : A → Bool) (f : A → A) (r : A) (xs : List A)
    → p r ≡ false
    → In r xs
    → In r (map_where p f xs)
In-map_where p f r [] e h = h
In-map_where p f r (x ∷ xs) e (inl same) = inl (ground (arith))
In-map_where p f r (x ∷ xs) e (inr h) = inr (In-map_where p f r xs e h)

In-select :
    {A : Type 0} (p : A → Bool) (r : A) (xs : List A) → p r ≡ true → In r xs → In r (select p xs)
In-select p r [] e h = h
In-select p r (x ∷ xs) e (inl same) = ground arith
In-select p r (x ∷ xs) e (inr h) = ground (arith, In-select p r xs e h)

pub keeps-create :
    (tenant : Option ℕ) (new : Row Contact) (r : Row Contact) (rows : Contacts)
    → In r rows
    → In r (create same_contact tenant new rows).1
unfolding create insert
keeps-create tenant new r rows h =
    elim (Bool-cases
      (any (λ x. x.id == (stamp tenant new).id || same_contact x (stamp tenant new)) rows)) [
        | inl e ↦ rw e h
        | inr e ↦ rw e (In-append r rows (stamp tenant new ∷ []) h)
      ]

pub keeps-update :
    (tenant id : ℕ) (v : Values Contact) (r : Row Contact) (rows : Contacts)
    → at_id (some tenant) id r ≡ false
    → In r rows
    → In r (update (some tenant) id v rows).1
unfolding update
keeps-update tenant id v r rows e h = In-map_where (at_id (some tenant) id) (assign v) r rows e h

-- A contact that the call may not change: another tenant's, or one with neither number of the call.
abbrev pub Protected : Outside → String → String → String → Row Contact → Type 0
Protected o tenant_id from to r =
    (o.uuid tenant_id ≢ some r.tenant_id)
    ⊎ ((str_eq r.body.phone_number from ≡ false) × (str_eq r.body.phone_number to ≡ false))

-- No two rows have the same primary key.
abbrev pub HasKeys : Contacts → Type 0
HasKeys rows = (a b : Row Contact) → In a rows → In b rows → a.id ≡ b.id → a ≡ b

-- The arguments of a handler, with the context that the executor sets.
abbrev pub InCall : String → String → String → Fields → Type 0
InCall tenant_id from to args =
    ((s : String) → is_allowed args s ≡ (str_eq from s || str_eq to s))
    × (in_context "from_number" args ≡ some from)
    × ((t : String) → in_context "tenant_id" args ≡ some t → t ≡ tenant_id)

-- The keys under which a tenant's contact with a number of the call stands are not those of a protected one.
pub other_key :
    (o : Outside) (tenant_id from to : String) (rows : Contacts) (r c : Row Contact) (tenant : ℕ)
    → HasKeys rows
    → Protected o tenant_id from to r
    → In r rows
    → In c rows
    → o.uuid tenant_id ≡ some tenant
    → (str_eq c.body.phone_number from || str_eq c.body.phone_number to) ≡ true
    → at_id (some tenant) c.id r ≡ false
other_key o tenant_id from to rows r c tenant keys safe h k e allowed =
    elim (Bool-cases (at_id (some tenant) c.id r)) [
      | inr q ↦ q
      | inl q ↦
          let same : r ≡ c = keys r c h k (ground arith) in
          let own : r.tenant_id ≡ tenant = ground arith in
          elim safe [
            | inl n ↦ absurd (n (e ∙ ap some (sym own)))
            | inr (a, b) ↦
                let a' : str_eq c.body.phone_number from ≡ false =
                  ap (λ z. str_eq z.body.phone_number from) (sym same) ∙ a in
                let b' : str_eq c.body.phone_number to ≡ false =
                  ap (λ z. str_eq z.body.phone_number to) (sym same) ∙ b in
                absurd (ground arith)
          ]
    ]

pub found_id :
    (tenant id : ℕ) (rows : Contacts) (c : Row Contact)
    → get_by_id (some tenant) id rows ≡ ok (some c)
    → In c rows × (c.id ≡ id)
unfolding get_by_id
found_id tenant id rows c h = one rows (scalar-some _ c h)
  where
    one : (xs : Contacts) → select (at_id (some tenant) id) xs ≡ c ∷ [] → In c xs × (c.id ≡ id)
    one [] e = absurd (ground arith)
    one (x ∷ xs) e = elim (Bool-cases (at_id (some tenant) id x)) [
      | inl p ↦ ground arith
      | inr p ↦ let (a, b) = one xs (ground arith) in (inr a, b)
    ]

pub found_phone :
    (tenant : ℕ) (phone : String) (rows : Contacts) (c : Row Contact)
    → get_by_phone tenant phone rows ≡ ok (some c)
    → In c rows × (str_eq c.body.phone_number phone ≡ true)
unfolding get_by_phone
found_phone tenant phone rows c h = one rows (scalar-some _ c h)
  where
    one :
        (xs : Contacts)
        → select (has_phone tenant phone) xs ≡ c ∷ []
        → In c xs × (str_eq c.body.phone_number phone ≡ true)
    one [] e = absurd (ground arith)
    one (x ∷ xs) e = elim (Bool-cases (has_phone tenant phone x)) [
      | inl p ↦ ground arith
      | inr p ↦ let (a, b) = one xs (ground arith) in (inr a, b)
    ]

pub parsed-ok : (x : Option ℕ) (n : ℕ) → parsed x ≡ ok n → x ≡ some n
parsed-ok none n h = absurd (ground arith)
parsed-ok (some m) n h = ground arith
