-- ===== src/Tools/Appointments.antt =====
-- The handlers of apps/api/tools/definitions/appointment.py: an appointment is an entry of a contact's
-- `custom_fields`. The answers are given without the times in their texts.
use calling_agent.Prelude.{
  ℕ, String, Bool, true, false, not, ◌&&◌, Option, none, some, truthy, if◌then◌else◌,
}
use calling_agent.Http.{other, Result, ok, err, Action, pure, raise, query, ◌>>=◌, ◌>>◌}
use calling_agent.Json.{
  Json, null, bool, number, text, array, object, Items, nil, cons, Fields, end, field, get, put,
  is_truthy,
}
use calling_agent.Repo.{Row, Values, create, update}
use calling_agent.Contacts.{Contact, Contacts, same_contact, get_by_phone}
use calling_agent.Tools.Definitions.{required, in_context, is_number}
use calling_agent.Tools.Customers.{Outside, optional, parsed, attempt, names, new_contact}

-- `v or default`
abbrev pub or_text : Json → String → Json
or_text v default = if is_truthy v then v else text default

abbrev pub slot : Json → String → String → Json
slot date default time = object (
    field "date" (or_text date default)
      (field "time" (text time) (field "duration_minutes" (number "30") end)))

unfoldable pub check_availability : {W : Type 0} → Fields → Action W Json
check_availability args =
    let date = optional "date" args in
    pure (
      object (
        field "available" (bool true) (
          field "slots"
            (array (
              cons (slot date "2026-09-10" "10:00 AM") (
                cons (slot date "2026-09-10" "2:00 PM")
                  (cons (slot date "2026-09-11" "11:00 AM") nil))))
            (field "message" (text "Found available slots") end))))

abbrev pub appointment : Outside → Json → Json → Fields → Json
appointment o date time args = object (
    field "id" (text o.appointment_id) (
      field "date" date (
        field "time" time (
          field "service" (or_text (optional "service" args) "General Consultation") (
            field "notes" (or_text (optional "notes" args) "")
              (field "created_at" (text o.clock) (field "status" (text "confirmed") end)))))))

abbrev pub append : Items → Json → Items
append nil v = cons v nil
append (cons w vs) v = cons w (append vs v)

-- `c_fields.get("appointments", [])`, with the new one; `append` raises for what is no list.
abbrev pub with_appointment : Fields → Json → Result Fields
with_appointment custom a = elim (get "appointments" custom) [
  | none ↦ ok (put "appointments" (array (cons a nil)) custom)
  | some (array vs) ↦ ok (put "appointments" (array (append vs a)) custom)
  | some _ ↦ err (other "AttributeError")
]

abbrev pub set_custom : Fields → Values Contact
set_custom custom = record { tenant = none; columns = λ c. record c { custom_fields = custom } }

abbrev pub add_appointment :
    Outside → Fields → ℕ → String → Json → Option (Row Contact) → Action Contacts Json
add_appointment o args tenant phone a none = do
  name ← query (λ rows. names o "Customer" (optional "customer_name" args))
  c ←
      create same_contact (some tenant)
        (new_contact o tenant phone name none none (field "appointments" (array (cons a nil)) end))
  pure null
add_appointment o args tenant phone a (some c) = do
  custom ← query (λ rows. with_appointment c.body.custom_fields a)
  _ ← update (some tenant) c.id (set_custom custom)
  pure null

abbrev pub booked : Outside → Json → Json → Fields → Json
booked o date time args = object (
    field "booked" (bool true) (
      field "appointment_id" (text o.appointment_id) (
        field "date" date (
          field "time" time
            (field "service" (or_text (optional "service" args) "General Consultation") end)))))

abbrev pub mismatch : Json
mismatch = object (
    field "booked" (bool false)
      (field "error" (text "You can only book appointments for your own phone number.") end))

abbrev pub persist : Outside → Fields → Json → String → String → Action Contacts Json
persist o args a tenant_id phone = do
  tenant ← query (λ rows. parsed (o.uuid tenant_id))
  c ← query (λ rows. get_by_phone tenant phone rows)
  add_appointment o args tenant phone a c

-- `if tenant_id_str and customer_phone`; the query raises for a number that is no text. An exception is
-- logged, and the answer is the same.
abbrev pub book : Outside → Fields → Json → Option String → Json → Action Contacts Json
book o args a (some tenant_id) (text phone) =
    if truthy phone then attempt (λ e. null) (persist o args a tenant_id phone) else pure null
book o args a _ _ = pure null

-- `customer_phone and actual_caller_phone and customer_phone != actual_caller_phone`
abbrev pub is_mismatch : Json → Option String → Bool
is_mismatch phone none = false
is_mismatch phone (some caller) = is_truthy phone && not (is_number caller phone)

unfoldable pub book_appointment : Outside → Fields → Action Contacts Json
unfolding get_by_phone create update
book_appointment o args = required "date" args λ date. required "time" args λ time.
    let phone = optional "customer_phone" args in
    if is_mismatch phone (in_context "from_number" args)
    then pure mismatch
    else (book o args (appointment o date time args) (in_context "tenant_id" args) phone
        >> pure (booked o date time args))

-- The entries with the one that is cancelled; `none` where no entry has the id.
abbrev pub cancel_in : Outside → Json → Json → Items → Result (Option Items)
cancel_in o id reason nil = ok none
cancel_in o id reason (cons (object d) vs) =
    let rest = cancel_in o id reason vs in
    if o.same (optional "id" d) id
    then ok (
        some
          (cons (object (put "cancellation_reason" reason (put "status" (text "cancelled") d))) vs))
    else elim rest [
      | ok (some ws) ↦ ok (some (cons (object d) ws))
      | ok none ↦ ok none
      | err e ↦ err e
    ]
cancel_in o id reason (cons v vs) = err (other "AttributeError")

abbrev pub cancelled : Json → Json
cancelled id = object (field "cancelled" (bool true) (field "appointment_id" id end))

abbrev pub not_cancelled : String → Json
not_cancelled error = object (field "cancelled" (bool false) (field "error" (text error) end))

abbrev pub no_caller : Json
no_caller = not_cancelled "Could not identify caller context to cancel appointment."

abbrev pub write_cancelled : ℕ → Row Contact → Json → Option Items → Action Contacts Json
write_cancelled tenant c id none = pure (not_cancelled "Appointment not found for this caller.")
write_cancelled tenant c id (some vs) =
    update (some tenant) c.id (set_custom (put "appointments" (array vs) c.body.custom_fields))
    >> pure (cancelled id)

-- A text or an object with nothing in it, through which the loop goes without a step.
abbrev pub is_void : Json → Bool
is_void (text s) = not (truthy s)
is_void (object end) = true
is_void _ = false

-- The loop over what is under "appointments"; it raises for what is no list and not empty.
abbrev pub cancel_under :
    Outside → ℕ → Json → Json → Row Contact → Option Json → Action Contacts Json
cancel_under o tenant id reason c none = pure no_caller
cancel_under o tenant id reason c (some (array vs)) =
    query (λ rows. cancel_in o id reason vs) >>= write_cancelled tenant c id
cancel_under o tenant id reason c (some v) =
    if is_void v
    then pure (not_cancelled "Appointment not found for this caller.")
    else raise (other "TypeError")

abbrev pub cancel_for : Outside → ℕ → Json → Json → Option (Row Contact) → Action Contacts Json
cancel_for o tenant id reason none = pure no_caller
cancel_for o tenant id reason (some c) =
    cancel_under o tenant id reason c (get "appointments" c.body.custom_fields)

abbrev pub cancel : Outside → Json → Json → String → String → Action Contacts Json
cancel o id reason tenant_id caller = do
  tenant ← query (λ rows. parsed (o.uuid tenant_id))
  c ← query (λ rows. get_by_phone tenant caller rows)
  cancel_for o tenant id reason c

abbrev pub cancel_known :
    Outside → Json → Json → Option String → Option String → Action Contacts Json
cancel_known o id reason (some tenant_id) (some caller) =
    attempt (λ e. not_cancelled "Internal database error") (cancel o id reason tenant_id caller)
cancel_known o id reason _ _ = pure no_caller

unfoldable pub cancel_appointment : Outside → Fields → Action Contacts Json
unfolding get_by_phone update
cancel_appointment o args = required "appointment_id" args λ id.
    cancel_known o id (optional "reason" args) (in_context "tenant_id" args)
      (in_context "from_number" args)
