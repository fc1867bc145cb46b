-- ===== src/Tools/Steps.antt =====
-- That each session of the tools for customers and appointments keeps a protected contact.
use calling_agent.Prelude.{
  ◌≡◌, refl, sym, ap, ◌∙◌, inl, inr, arith, ℕ, String, true, ◌||◌, Option, none, some, In, str_eq,
  eq_iff, truthy, Bool-cases,
}
use calling_agent.Http.{ok, pure, query, ◌>>=◌, ◌>>◌, Found-cases, Result-cases}
use calling_agent.Json.{
  Json, null, bool, number, object, end, field, text, array, Items, Fields, put,
}
use calling_agent.Repo.{Row, Values, get_by_id, create, update}
use calling_agent.Contacts.{Contact, Contacts, same_contact, get_by_phone}
use calling_agent.Tools.Customers.{
  Outside, is_allowed, optional, column, parsed, parsed_value, find_contact, names, look_up,
  make_lead, add_lead, lead, values_of, change_customer, alter_customer,
}
use calling_agent.Tools.Appointments.{
  persist, add_appointment, with_appointment, set_custom, cancel, cancel_for, cancel_in,
  write_cancelled, cancelled, cancel_under,
}
use calling_agent.Tools.Kept.{
  keeps-bind, keeps-create, keeps-update, other_key, found_id, found_phone, parsed-ok, Protected,
  HasKeys, InCall,
}

module _ (o : Outside) (tenant_id from to : String) (args : Fields)
    (context : InCall tenant_id from to args) (rows : Contacts) (keys : HasKeys rows)
    (r : Row Contact) (safe : Protected o tenant_id from to r) (here : In r rows) where
  updated :
      (tenant : ℕ) (c : Row Contact) (v : Values Contact) (j : Json)
      → o.uuid tenant_id ≡ some tenant
      → In c rows
      → (str_eq c.body.phone_number from || str_eq c.body.phone_number to) ≡ true
      → In r ((update (some tenant) c.id v >> pure j) rows).1
  updated tenant c v j e k allowed =
      keeps-bind (In r) (update (some tenant) c.id v) (λ _. pure j) rows
        (keeps-update tenant c.id v r rows
          (other_key o tenant_id from to rows r c tenant keys safe here k e allowed) here)
        (λ _ t _ h. h)

  created :
      (tenant : ℕ) (new : Row Contact) (f : Row Contact → Json)
      → In r ((create same_contact (some tenant) new >>= λ c. pure (f c)) rows).1
  created tenant new f =
      keeps-bind (In r) (create same_contact (some tenant) new) (λ c. pure (f c)) rows
        (keeps-create (some tenant) new r rows here) (λ _ t _ h. h)

  change_customer-keeps :
      (customer_id updates : Json) (tenant : ℕ) (c : Row Contact)
      → o.uuid tenant_id ≡ some tenant
      → In c rows
      → In r (change_customer o args customer_id updates tenant c.id (some c) rows).1
  change_customer-keeps customer_id updates tenant c e k =
      elim (Bool-cases (is_allowed args c.body.phone_number)) [
        | inr p ↦ rw p here
        | inl p ↦ elim (Result-cases (values_of o updates)) [
          | inr (x, q) ↦ rw (p, q) here
          | inl (v, q) ↦
              let own = context.0 c.body.phone_number in
              rw (p, q)
                (updated tenant c v _ e k (
                  ground (
                    arith,
                    eq_iff from c.body.phone_number,
                    eq_iff to c.body.phone_number,
                    eq_iff c.body.phone_number from,
                    eq_iff c.body.phone_number to,
                  )))
        ]
      ]

  pub alter_customer-keeps :
      (customer_id updates : Json)
      → In r (alter_customer o args customer_id updates tenant_id rows).1
  unfolding get_by_id
  alter_customer-keeps customer_id updates = elim (Result-cases (parsed (o.uuid tenant_id))) [
    | inr (x, p) ↦ rw p here
    | inl (tenant, p) ↦ elim (Result-cases (parsed_value o customer_id)) [
      | inr (x, q) ↦ rw (p, q) here
      | inl (id, q) ↦ elim (Found-cases (get_by_id (some tenant) id rows)) [
        | inl f ↦ rw (p, q, f) here
        | inr (inl (x, f)) ↦ rw (p, q, f) here
        | inr (inr (c, f)) ↦
            let (k, same) = found_id tenant id rows c f in
            rw (p, q, f, sym same)
              (change_customer-keeps customer_id updates tenant c (parsed-ok _ tenant p) k)
      ]
    ]
  ]

  add_lead-keeps :
      (tenant : ℕ) (phone : Option String) (name : String × String)
      (existing : Option (Row Contact))
      → In r (add_lead o args tenant phone name existing rows).1
  add_lead-keeps tenant phone name (some c) = here
  add_lead-keeps tenant phone name none = elim (Result-cases (column (optional "email" args))) [
    | inr (x, p) ↦ rw p here
    | inl (email, p) ↦ elim (Result-cases (column (optional "notes" args))) [
      | inr (x, q) ↦ rw (p, q) here
      | inl (notes, q) ↦ rw (p, q) (created tenant _ (lead o))
    ]
  ]

  pub make_lead-keeps : In r (make_lead o args tenant_id rows).1
  make_lead-keeps = elim (Result-cases (parsed (o.uuid tenant_id))) [
    | inr (x, p) ↦ rw p here
    | inl (tenant, p) ↦ elim (Result-cases (names o "Lead" (optional "name" args))) [
      | inr (x, q) ↦ rw (p, q) here
      | inl (name, q) ↦ elim (Result-cases (column (optional "phone_number" args))) [
        | inr (x, f) ↦ rw (p, q, f) here
        | inl (phone, f) ↦ elim (Result-cases (find_contact tenant phone rows)) [
          | inr (x, g) ↦ rw (p, q, f, ◌>>=◌, query, g) here
          | inl (existing, g) ↦
              rw (p, q, f, ◌>>=◌, query, g) (add_lead-keeps tenant phone name existing)
        ]
      ]
    ]
  ]

  pub look_up-keeps :
      (name : Contact → String) (phone : Option String)
      → In r (look_up o name tenant_id phone rows).1
  look_up-keeps name phone = elim (Result-cases (parsed (o.uuid tenant_id))) [
    | inr (x, p) ↦ rw p here
    | inl (tenant, p) ↦ elim (Result-cases (find_contact tenant phone rows)) [
      | inr (x, q) ↦ rw (p, ◌>>=◌, query, q) here
      | inl (c, q) ↦ rw (p, ◌>>=◌, query, q) here
    ]
  ]

  add_appointment-keeps :
      (tenant : ℕ) (phone : String) (a : Json) (found : Option (Row Contact))
      → o.uuid tenant_id ≡ some tenant
      → ((c : Row Contact) → found ≡ some c → In c rows × (str_eq c.body.phone_number from ≡ true))
      → In r (add_appointment o args tenant phone a found rows).1
  add_appointment-keeps tenant phone a none e own =
      elim (Result-cases (names o "Customer" (optional "customer_name" args))) [
        | inr (x, p) ↦ rw p here
        | inl (name, p) ↦ rw p (created tenant _ (λ c. null))
      ]
  add_appointment-keeps tenant phone a (some c) e own =
      elim (Result-cases (with_appointment c.body.custom_fields a)) [
        | inr (x, p) ↦ rw p here
        | inl (custom, p) ↦
            let (k, q) = own c refl in
            rw p (updated tenant c (set_custom custom) null e k (ground arith))
      ]

  -- The contact that is found under the caller's number.
  callers_own :
      (tenant : ℕ) (phone : String) (found : Option (Row Contact))
      → phone ≡ from
      → get_by_phone tenant phone rows ≡ ok found
      → (c : Row Contact) → found ≡ some c
      → In c rows × (str_eq c.body.phone_number from ≡ true)
  callers_own tenant phone found same h c e =
      let (k, q) = found_phone tenant phone rows c (h ∙ ap ok e) in
      (k, ap (str_eq c.body.phone_number) (sym same) ∙ q)

  pub persist-keeps :
      (a : Json) (phone : String) → phone ≡ from → In r (persist o args a tenant_id phone rows).1
  unfolding get_by_phone
  persist-keeps a phone same = elim (Result-cases (parsed (o.uuid tenant_id))) [
    | inr (x, p) ↦ rw p here
    | inl (tenant, p) ↦ elim (Result-cases (get_by_phone tenant phone rows)) [
      | inr (x, q) ↦ rw (p, q) here
      | inl (found, q) ↦
          rw (p, q)
            (add_appointment-keeps tenant phone a found (parsed-ok _ tenant p)
              (callers_own tenant phone found same q))
    ]
  ]

  write_cancelled-keeps :
      (tenant : ℕ) (c : Row Contact) (id : Json) (left : Option Items)
      → o.uuid tenant_id ≡ some tenant
      → In c rows
      → (str_eq c.body.phone_number from || str_eq c.body.phone_number to) ≡ true
      → In r (write_cancelled tenant c id left rows).1
  write_cancelled-keeps tenant c id none e k q = here
  write_cancelled-keeps tenant c id (some vs) e k q =
      updated tenant c (set_custom (put "appointments" (array vs) c.body.custom_fields))
        (cancelled id) e k q

  cancel_under-keeps :
      (tenant : ℕ) (id reason : Json) (c : Row Contact) (v : Option Json)
      → o.uuid tenant_id ≡ some tenant
      → In c rows
      → (str_eq c.body.phone_number from || str_eq c.body.phone_number to) ≡ true
      → In r (cancel_under o tenant id reason c v rows).1
  cancel_under-keeps tenant id reason c none e k q = here
  cancel_under-keeps tenant id reason c (some (array vs)) e k q =
      elim (Result-cases (cancel_in o id reason vs)) [
        | inl (left, p) ↦ rw p (write_cancelled-keeps tenant c id left e k q)
        | inr (x, p) ↦ rw p here
      ]
  cancel_under-keeps tenant id reason c (some (text s)) e k q = elim (Bool-cases (truthy s)) [
    | inl p ↦ rw p here
    | inr p ↦ rw p here
  ]
  cancel_under-keeps tenant id reason c (some null) e k q = here
  cancel_under-keeps tenant id reason c (some (bool b)) e k q = here
  cancel_under-keeps tenant id reason c (some (number n)) e k q = here
  cancel_under-keeps tenant id reason c (some (object end)) e k q = here
  cancel_under-keeps tenant id reason c (some (object (field k' v d))) e k q = here

  cancel_for-keeps :
      (tenant : ℕ) (id reason : Json) (found : Option (Row Contact))
      → o.uuid tenant_id ≡ some tenant
      → ((c : Row Contact) → found ≡ some c → In c rows × (str_eq c.body.phone_number from ≡ true))
      → In r (cancel_for o tenant id reason found rows).1
  cancel_for-keeps tenant id reason none e own = here
  cancel_for-keeps tenant id reason (some c) e own =
      let (k, q) = own c refl in cancel_under-keeps tenant id reason c _ e k (ground arith)

  pub cancel-keeps : (id reason : Json) → In r (cancel o id reason tenant_id from rows).1
  unfolding get_by_phone
  cancel-keeps id reason = elim (Result-cases (parsed (o.uuid tenant_id))) [
    | inr (x, p) ↦ rw p here
    | inl (tenant, p) ↦ elim (Result-cases (get_by_phone tenant from rows)) [
      | inr (x, q) ↦ rw (p, q) here
      | inl (found, q) ↦
          rw (p, q)
            (cancel_for-keeps tenant id reason found (parsed-ok _ tenant p)
              (callers_own tenant from found refl q))
    ]
  ]
