-- ===== src/Tools/Customers.antt =====
-- The handlers of apps/api/tools/definitions/contact.py, over the tenant's contacts. The answers are given
-- without the numbers and names in their texts.
use calling_agent.Prelude.{
  ℕ, String, Bool, true, false, not, ◌&&◌, ◌||◌, Option, none, some, List, [], ◌∷◌, truthy, is_some,
  if◌then◌else◌,
}
use calling_agent.Http.{Error, other, Result, ok, err, Action, pure, query, ◌>>=◌}
use calling_agent.Json.{Json, null, bool, text, object, Fields, end, field, get, is_truthy}
use calling_agent.Repo.{Row, Values, get_by_id, create, update}
use calling_agent.Contacts.{Contact, Contacts, same_contact, get_by_phone}
use calling_agent.Tools.Definitions.{required, in_context, is_number}

-- What the handlers take from outside: `uuid.UUID` and `str` of a UUID, `str.split` and `" ".join`, the
-- columns that `values(**updates)` sets (`none`: it raises), `==` of JSON values, `str` of an
-- exception, the UUIDs that are drawn and the clock's text.
pub record Outside : Type 0 where
  pub uuid : String → Option ℕ
  pub show : ℕ → String
  pub split : String → List String
  pub join : List String → String
  pub values : Fields → Option (Contact → Contact)
  pub same : Json → Json → Bool
  pub detail : Error → String
  pub contact_id : ℕ
  pub appointment_id : String
  pub clock : String

-- `_context.get(key)`, where the executor has set it.
abbrev pub context_value : String → Fields → Option Json
context_value key args = elim (get "_context" args) [ some (object d) ↦ get key d | _ ↦ none ]

abbrev pub is_the : String → Option Json → Bool
is_the s none = false
is_the s (some v) = is_number s v

-- `phone_number in allowed_numbers`
abbrev pub is_allowed : Fields → String → Bool
is_allowed args s =
    is_the s (context_value "from_number" args) || is_the s (context_value "to_number" args)

abbrev pub is_allowed_value : Fields → Json → Bool
is_allowed_value args (text s) = is_allowed args s
is_allowed_value args _ = false

-- An optional argument of a handler; the default is None.
abbrev pub optional : String → Fields → Json
optional key args = elim (get key args) [ none ↦ null | some v ↦ v ]

-- A value for a text column: a text or null.
abbrev pub column : Json → Result (Option String)
column null = ok none
column (text s) = ok (some s)
column _ = err (other "DataError")

-- `uuid.UUID(s)`
abbrev pub parsed : Option ℕ → Result ℕ
parsed none = err (other "ValueError")
parsed (some n) = ok n

-- The `try` around a session: what was not committed is rolled back.
abbrev pub attempt : (Error → Json) → Action Contacts Json → Action Contacts Json
attempt answer m s = let (r, t) = m s in elim r [ ok v ↦ (ok v, t) | err e ↦ (ok (answer e), s) ]

-- `select` with a phone number that may be None, which no row has.
abbrev pub find_contact : ℕ → Option String → Contacts → Result (Option (Row Contact))
find_contact tenant none rows = ok none
find_contact tenant (some phone) rows = get_by_phone tenant phone rows

-- First and last name: the first word, and the others.
abbrev pub named : Outside → List String → Result (String × String)
named o [] = err (other "IndexError")
named o (w ∷ ws) = ok (w, o.join ws)

abbrev pub names : Outside → String → Json → Result (String × String)
names o default (text s) = if truthy s then named o (o.split s) else ok (default, "")
names o default v = if is_truthy v then err (other "AttributeError") else ok (default, "")

abbrev pub new_contact :
    Outside → ℕ → String → String × String → Option String → Option String → Fields → Row Contact
new_contact o tenant phone name email notes custom = record {
  id = o.contact_id;
  tenant_id = tenant;
  body = record {
    phone_number = phone;
    email = email;
    first_name = some name.0;
    last_name = some name.1;
    company = none;
    timezone = none;
    tags = [];
    custom_fields = custom;
    notes = notes;
    status = "active";
    do_not_call = false;
    last_contacted_at = none;
    total_calls = 0;
  };
}

abbrev pub refusal : String → String → Json
refusal key message = object (field key (bool false) (field "message" (text message) end))

abbrev pub failure : Outside → String → Error → Json
failure o key e = object (field key (bool false) (field "error" (text (o.detail e)) end))

abbrev pub optional_text : Option String → Json
optional_text none = null
optional_text (some s) = text s

-- `f"{first_name or ''} {last_name or ''}".strip() or "Customer"` is the argument `name`.
abbrev pub customer : Outside → (Contact → String) → Row Contact → Json
customer o name c = object (
    field "found" (bool true) (
      field "customer"
        (object (
          field "name" (text (name c.body)) (
            field "phone_number" (text c.body.phone_number) (
              field "email" (optional_text c.body.email) (
                field "company" (optional_text c.body.company) (
                  field "customer_id" (text (o.show c.id)) (
                    field "notes" (optional_text c.body.notes)
                      (field "do_not_call" (bool c.body.do_not_call) end))))))))
        end))

abbrev pub found_customer : Outside → (Contact → String) → Option (Row Contact) → Json
found_customer o name none = refusal "found" "No customer found"
found_customer o name (some c) = customer o name c

-- An exception is answered as an unknown number.
abbrev pub look_up : Outside → (Contact → String) → String → Option String → Action Contacts Json
look_up o name tenant_id phone = do
  tenant ← query (λ rows. parsed (o.uuid tenant_id))
  c ← query (λ rows. find_contact tenant phone rows)
  pure (found_customer o name c)

abbrev pub phone_text : Json → Option String
phone_text (text s) = some s
phone_text _ = none

unfoldable pub get_customer : Outside → (Contact → String) → Fields → Action Contacts Json
unfolding get_by_phone
get_customer o name args = required "phone_number" args λ phone.
    elim (in_context "tenant_id" args) [
      | none ↦ pure (refusal "found" "No tenant context available")
      | some tenant_id ↦
          if is_allowed_value args phone
          then attempt (λ e. refusal "found" "No customer found")
              (look_up o name tenant_id (phone_text phone))
          else pure (refusal "found" "Unauthorized: Can only retrieve info for the active caller.")
    ]

abbrev pub lead : Outside → Row Contact → Json
lead o c = object (field "created" (bool true) (field "lead_id" (text (o.show c.id)) end))

-- `phone_number or "+10000000000"`
abbrev pub or_placeholder : Option String → String
or_placeholder none = "+10000000000"
or_placeholder (some s) = if truthy s then s else "+10000000000"

abbrev pub add_lead :
    Outside
    → Fields
    → ℕ
    → Option String
    → String × String
    → Option (Row Contact)
    → Action Contacts Json
add_lead o args tenant phone name (some c) = pure (lead o c)
add_lead o args tenant phone name none = do
  email ← query (λ rows. column (optional "email" args))
  notes ← query (λ rows. column (optional "notes" args))
  c ←
      create same_contact (some tenant)
        (new_contact o tenant (or_placeholder phone) name email notes end)
  pure (lead o c)

abbrev pub make_lead : Outside → Fields → String → Action Contacts Json
make_lead o args tenant_id = do
  tenant ← query (λ rows. parsed (o.uuid tenant_id))
  name ← query (λ rows. names o "Lead" (optional "name" args))
  phone ← query (λ rows. column (optional "phone_number" args))
  existing ← query (λ rows. find_contact tenant phone rows)
  add_lead o args tenant phone name existing

abbrev pub lead_for : Outside → Fields → Option String → Action Contacts Json
lead_for o args none = pure (refusal "created" "Missing tenant context")
lead_for o args (some tenant_id) =
    let phone = optional "phone_number" args in
    if is_truthy phone && not (is_allowed_value args phone)
    then pure (refusal "created" "Unauthorized: Can only create lead for active caller.")
    else attempt (failure o "created") (make_lead o args tenant_id)

unfoldable pub create_lead : Outside → Fields → Action Contacts Json
unfolding get_by_phone create
create_lead o args = lead_for o args (in_context "tenant_id" args)

-- `**updates`; `id` and `self` are taken by the call itself.
abbrev pub values_of : Outside → Json → Result (Values Contact)
values_of o (object d) =
    if is_some (get "id" d) || is_some (get "self" d)
    then err (other "TypeError")
    else elim (o.values d) [
      | none ↦ err (other "StatementError")
      | some f ↦ ok (record { tenant = none; columns = f })
    ]
values_of o _ = err (other "TypeError")

abbrev pub change_customer :
    Outside → Fields → Json → Json → ℕ → ℕ → Option (Row Contact) → Action Contacts Json
change_customer o args customer_id updates tenant id none =
    pure (refusal "updated" "Unauthorized: Can only update active caller's record.")
change_customer o args customer_id updates tenant id (some c) =
    if is_allowed args c.body.phone_number
    then (do
      v ← query (λ rows. values_of o updates)
      _ ← update (some tenant) id v
      pure (object (field "updated" (bool true) (field "customer_id" customer_id end))))
    else pure (refusal "updated" "Unauthorized: Can only update active caller's record.")

-- `uuid.UUID(customer_id)` raises for what is no text.
abbrev pub parsed_value : Outside → Json → Result ℕ
parsed_value o (text s) = parsed (o.uuid s)
parsed_value o _ = err (other "AttributeError")

abbrev pub alter_customer : Outside → Fields → Json → Json → String → Action Contacts Json
alter_customer o args customer_id updates tenant_id = do
  tenant ← query (λ rows. parsed (o.uuid tenant_id))
  id ← query (λ rows. parsed_value o customer_id)
  existing ← query (λ rows. get_by_id (some tenant) id rows)
  change_customer o args customer_id updates tenant id existing

unfoldable pub update_customer : Outside → Fields → Action Contacts Json
unfolding get_by_id update
update_customer o args = required "customer_id" args λ customer_id.
    required "updates" args λ updates. elim (in_context "tenant_id" args) [
      | none ↦ pure (refusal "updated" "Missing tenant context")
      | some tenant_id ↦
          attempt (failure o "updated") (alter_customer o args customer_id updates tenant_id)
    ]
