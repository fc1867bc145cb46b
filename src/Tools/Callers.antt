-- ===== src/Tools/Callers.antt =====
-- Which contacts the AI's tools for customers and appointments can change.
use calling_agent.Prelude.{
  ◌≡◌, refl, sym, ◌∙◌, inl, inr, arith, String, Bool, true, false, not, ◌&&◌, Option, none, some,
  In, eq_iff, truthy, Bool-cases, Option-cases, if◌then◌else◌,
}
use calling_agent.Http.{Action, pure}
use calling_agent.Json.{Json, null, bool, number, object, text, array, Fields, get, put, is_truthy}
use calling_agent.Repo.{Row}
use calling_agent.Contacts.{Contact, Contacts}
use calling_agent.Tools.Definitions.{required, in_context}
use calling_agent.Tools.Customers.{
  Outside, context_value, is_allowed_value, optional, look_up, get_customer, make_lead, create_lead,
  lead_for, phone_text, alter_customer, update_customer,
}
use calling_agent.Tools.Appointments.{
  check_availability, persist, book, appointment, booked, book_appointment, cancel,
  cancel_appointment, is_mismatch,
}
use calling_agent.Tools.{
  ToolDefinition, Registry, find_tool, Executor, Stamp, Python, context, run_handler, execute,
}
use calling_agent.Tools.Guard.{execute_guarded}
use calling_agent.Tools.Sms.{get-put_same}
use calling_agent.Tools.Kept.{keeps-attempt, keeps-bind, Protected, HasKeys, InCall}
use calling_agent.Tools.Steps.{
  alter_customer-keeps, make_lead-keeps, look_up-keeps, persist-keeps, cancel-keeps,
}

-- The tools, and their handlers; `name` is the full name that `get_customer` gives.
pub data CrmTool : Type 0 where
  looks_up creates_lead updates_customer checks books cancels : CrmTool

abbrev pub handler : Outside → (Contact → String) → CrmTool → Fields → Action Contacts Json
handler o name looks_up args = get_customer o name args
handler o name creates_lead args = create_lead o args
handler o name updates_customer args = update_customer o args
handler o name checks args = check_availability args
handler o name books args = book_appointment o args
handler o name cancels args = cancel_appointment o args

module _ (o : Outside) (tenant_id from to : String) (args : Fields)
    (context : InCall tenant_id from to args) (rows : Contacts) (keys : HasKeys rows)
    (r : Row Contact) (safe : Protected o tenant_id from to r) (here : In r rows) where
  get_customer-keeps : (name : Contact → String) → In r (get_customer o name args rows).1
  unfolding get_customer
  get_customer-keeps name = elim (Option-cases (get "phone_number" args)) [
    | inl e ↦ rw (e, required) here
    | inr (phone, e) ↦ elim (Option-cases (in_context "tenant_id" args)) [
      | inl f ↦ rw (e, f, required) here
      | inr (t, f) ↦
          let same = context.2 t f in
          elim (Bool-cases (is_allowed_value args phone)) [
            | inl a ↦
                rw (e, f, same, a, required)
                  (keeps-attempt (In r) _ (look_up o name tenant_id (phone_text phone)) rows here (
                    look_up-keeps o tenant_id from to args context rows keys r safe here name
                      (phone_text phone)))
            | inr a ↦ rw (e, f, same, a, required) here
          ]
    ]
  ]

  lead_for-keeps :
      (t : Option String)
      → ((u : String) → t ≡ some u → u ≡ tenant_id)
      → In r (lead_for o args t rows).1
  lead_for-keeps none own = here
  lead_for-keeps (some t) own =
      elim (Bool-cases (
        is_truthy (optional "phone_number" args)
        && not (is_allowed_value args (optional "phone_number" args)))) [
          | inl a ↦ rw a here
          | inr a ↦
              rw (a, own t refl)
                (keeps-attempt (In r) _ (make_lead o args tenant_id) rows here
                  (make_lead-keeps o tenant_id from to args context rows keys r safe here))
        ]

  create_lead-keeps : In r (create_lead o args rows).1
  unfolding create_lead
  create_lead-keeps = lead_for-keeps (in_context "tenant_id" args) context.2

  update_customer-keeps : In r (update_customer o args rows).1
  unfolding update_customer
  update_customer-keeps = elim (Option-cases (get "customer_id" args)) [
    | inl e ↦ rw (e, required) here
    | inr (id, e) ↦ elim (Option-cases (get "updates" args)) [
      | inl g ↦ rw (e, g, required) here
      | inr (updates, g) ↦ elim (Option-cases (in_context "tenant_id" args)) [
        | inl f ↦ rw (e, g, f, required) here
        | inr (t, f) ↦
            let same = context.2 t f in
            rw (e, g, f, same, required)
              (keeps-attempt (In r) _ (alter_customer o args id updates tenant_id) rows here (
                alter_customer-keeps o tenant_id from to args context rows keys r safe here id
                  updates))
      ]
    ]
  ]

  cancel_appointment-keeps : In r (cancel_appointment o args rows).1
  unfolding cancel_appointment
  cancel_appointment-keeps = elim (Option-cases (get "appointment_id" args)) [
    | inl e ↦ rw (e, required) here
    | inr (id, e) ↦ elim (Option-cases (in_context "tenant_id" args)) [
      | inl f ↦ rw (e, f, required) here
      | inr (t, f) ↦
          let same = context.2 t f in
          rw (e, f, same, context.1, required)
            (keeps-attempt (In r) _ (cancel o id (optional "reason" args) tenant_id from) rows here
              (cancel-keeps o tenant_id from to args context rows keys r safe here id
                (optional "reason" args)))
    ]
  ]

  book-keeps :
      (a phone : Json)
      → is_mismatch phone (some from) ≡ false
      → In r (book o args a (some tenant_id) phone rows).1
  book-keeps a (text phone) own = elim (Bool-cases (truthy phone)) [
    | inl e ↦ rw e (
        keeps-attempt (In r) _ (persist o args a tenant_id phone) rows here (
          persist-keeps o tenant_id from to args context rows keys r safe here a phone
            (ground (arith, eq_iff phone from))))
    | inr e ↦ rw e here
  ]
  book-keeps a null own = here
  book-keeps a (bool b) own = here
  book-keeps a (number n) own = here
  book-keeps a (array vs) own = here
  book-keeps a (object d) own = here

  book_for-keeps :
      (a : Json) (t : Option String)
      → ((u : String) → t ≡ some u → u ≡ tenant_id)
      → (phone : Json) → is_mismatch phone (some from) ≡ false
      → In r (book o args a t phone rows).1
  book_for-keeps a none own phone e = here
  book_for-keeps a (some t) own phone e = rw (own t refl) (book-keeps a phone e)

  book_appointment-keeps : In r (book_appointment o args rows).1
  unfolding book_appointment
  book_appointment-keeps = elim (Option-cases (get "date" args)) [
    | inl e ↦ rw (e, required) here
    | inr (date, e) ↦ elim (Option-cases (get "time" args)) [
      | inl g ↦ rw (e, g, required) here
      | inr (time, g) ↦
          elim (Bool-cases (is_mismatch (optional "customer_phone" args) (some from))) [
            | inl a ↦ rw (e, g, context.1, a, required) here
            | inr a ↦
                rw (e, g, context.1, a, required)
                  (keeps-bind (In r)
                    (book o args (appointment o date time args) (in_context "tenant_id" args)
                      (optional "customer_phone" args))
                    (λ _. pure (booked o date time args)) rows
                    (book_for-keeps (appointment o date time args) _ context.2 _ a) (λ _ t _ h. h))
          ]
    ]
  ]

  handler-keeps :
      (name : Contact → String) (tool : CrmTool) → In r (handler o name tool args rows).1
  unfolding check_availability
  handler-keeps name looks_up = get_customer-keeps name
  handler-keeps name creates_lead = create_lead-keeps
  handler-keeps name updates_customer = update_customer-keeps
  handler-keeps name checks = here
  handler-keeps name books = book_appointment-keeps
  handler-keeps name cancels = cancel_appointment-keeps

-- The context of the executor says whose call it is.
context-InCall :
    (x : Executor) (t : Stamp) (args : Fields)
    → truthy x.from_number ≡ true
    → InCall x.tenant_id x.from_number x.to_number (put "_context" (context x t) args)
context-InCall x t args h = (
  λ s. rw (get-put_same "_context" (context x t) args, context_value) refl,
  rw (get-put_same "_context" (context x t) args, in_context) (rw h),
  λ u e.
      only (truthy x.tenant_id)
        (sym (rw (get-put_same "_context" (context x t) args, in_context) refl) ∙ e),
)
  where
    only :
        (b : Bool) {u : String} → (if b then some x.tenant_id else none) ≡ some u → u ≡ x.tenant_id
    only true e = ground arith
    only false e = absurd (ground arith)

run_handler-keeps :
    (o : Outside) (name : Contact → String) (kind : CrmTool) (x : Executor) (t : Stamp)
    (tool : ToolDefinition Contacts) (args : Json) (rows : Contacts) (r : Row Contact)
    → tool.handler ≡ handler o name kind
    → truthy x.from_number ≡ true
    → HasKeys rows
    → Protected o x.tenant_id x.from_number x.to_number r
    → In r rows
    → In r (run_handler x t tool args rows).1
unfolding run_handler
run_handler-keeps o name kind x t tool (object args) rows r e known keys safe here = rw e (
    handler-keeps o x.tenant_id x.from_number x.to_number (put "_context" (context x t) args)
      (context-InCall x t args known) rows keys r safe here name kind)
run_handler-keeps o name kind x t tool null rows r e known keys safe here = here
run_handler-keeps o name kind x t tool (bool b) rows r e known keys safe here = here
run_handler-keeps o name kind x t tool (number n) rows r e known keys safe here = here
run_handler-keeps o name kind x t tool (text s) rows r e known keys safe here = here
run_handler-keeps o name kind x t tool (array v) rows r e known keys safe here = here

-- When the caller's number is known, a call of one of the AI's tools for customers and appointments,
-- whatever its arguments are, leaves each contact as it was that is another tenant's or has neither of the
-- call's two numbers. No two contacts have the same primary key.
pub tools_keep_others :
    (o : Outside) (name : Contact → String) (kind : CrmTool) (py : Python)
    (registry : Registry Contacts) (tool : ToolDefinition Contacts) (t : Stamp)
    (tool_name arguments : String) (x : Executor) (rows : Contacts) (r : Row Contact)
    → find_tool tool_name registry ≡ some tool
    → tool.handler ≡ handler o name kind
    → truthy x.from_number ≡ true
    → HasKeys rows
    → Protected o x.tenant_id x.from_number x.to_number r
    → In r rows
    → In r (execute py registry t tool_name arguments x rows).2
tools_keep_others o name kind py registry tool t tool_name arguments x rows r found e known keys
      safe here =
    elim (execute_guarded py registry t tool_name arguments x rows) [
      | inl (a, b, c) ↦ rw b here
      | inr (u, f, p, args, q, ran) ↦
          rw ran.0 (run_handler-keeps o name kind x t u args rows r (cc) known keys safe here)
    ]
