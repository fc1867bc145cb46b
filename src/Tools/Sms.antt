-- ===== src/Tools/Sms.antt =====
-- Where a text message of `send_sms` (apps/api/tools/definitions/transfer.py) can go.
use calling_agent.Prelude.{
  ◌≡◌, ap, inl, inr, arith, String, true, some, Option-cases, Bool-cases, truthy, eq_iff,
}
use calling_agent.Http.{Result, ok, err}
use calling_agent.Json.{Json, null, bool, number, array, text, object, Fields, end, field, get, put}
use calling_agent.Tools.{
  ToolDefinition, Registry, find_tool, Executor, Stamp, Python, context, run_handler, execute,
}
use calling_agent.Tools.Definitions.{
  Sms, Messaging, answer_sent, sender, has_slices, deliver, send_checked, required, send_sms,
  in_context, is_number,
}
use calling_agent.Tools.Guard.{execute_guarded}

pub get-put_same : (k : String) (v : Json) (d : Fields) → get k (put k v d) ≡ some v
get-put_same k v end = ground (arith, eq_iff k k)
get-put_same k v (field k' v' rest) = ground (arith, eq_iff k k, eq_iff k' k, get-put_same k v rest)

-- The caller that a handler sees is the executor's, whatever `_context` the arguments hold.
caller_is_known :
    (x : Executor) (t : Stamp) (args : Fields)
    → truthy x.from_number ≡ true
    → in_context "from_number" (put "_context" (context x t) args) ≡ some x.from_number
caller_is_known x t args h = rw (get-put_same "_context" (context x t) args, in_context) (rw h)

module _ {W : Type 0} (m : Messaging W) (P : W → Type 0) where
  answer_sent-state : (x : Result String × W) → P x.1 → P (answer_sent m x).1
  answer_sent-state (ok sid, w) h = h
  answer_sent-state (err e, w) h = h

  -- The message that `deliver` hands to Twilio.
  abbrev message : Json → Json → Fields → Sms
  message to body args = record {
    to = to;
    from = sender (in_context "to_number" args);
    body = body;
  }

  deliver-keeps :
      (to body : Json) (args : Fields) (w : W)
      → P w
      → P (m.create (message to body args) w).1
      → P (deliver m to body args w).1
  deliver-keeps to body args w before after = elim (Bool-cases (truthy m.twilio_account_sid)) [
    | inl e ↦ elim (Bool-cases (truthy m.twilio_auth_token)) [
      | inl e' ↦ rw (e, e') (answer_sent-state (m.create (message to body args) w) after)
      | inr e' ↦ rw (e, e') before
    ]
    | inr e ↦ rw e before
  ]

  is_number-text : (n : String) (v : Json) → is_number n v ≡ true → v ≡ text n
  is_number-text n (text s) h = ap text ((eq_iff s n).0 h)
  is_number-text n null h = cc
  is_number-text n (bool b) h = cc
  is_number-text n (number s) h = cc
  is_number-text n (array v) h = cc
  is_number-text n (object v) h = cc

  send_checked-keeps :
      (caller : String) (to body : Json) (args : Fields) (w : W)
      → ((sms : Sms) → sms.to ≡ text caller → P (m.create sms w).1)
      → P w
      → P (send_checked m to body args (some caller) w).1
  send_checked-keeps caller to body args w keeps before = elim (Bool-cases (is_number caller to)) [
    | inl e ↦ rw e (
        deliver-keeps to body args w before
          (keeps (message to body args) (is_number-text caller to e)))
    | inr e ↦ rw e before
  ]

  send_sms-keeps :
      (caller : String) (args : Fields) (w : W)
      → in_context "from_number" args ≡ some caller
      → ((sms : Sms) → sms.to ≡ text caller → P (m.create sms w).1)
      → P w
      → P (send_sms m args w).1
  unfolding send_sms
  send_sms-keeps caller args w known keeps before = elim (Option-cases (get "to_number" args)) [
    | inl e ↦ rw (e, required) before
    | inr (to, e) ↦ elim (Option-cases (get "message" args)) [
      | inl e' ↦ rw (e, e', required) before
      | inr (body, e') ↦ elim (Bool-cases (has_slices body)) [
        | inl s ↦
            rw (e, e', s, known, required) (send_checked-keeps caller to body args w keeps before)
        | inr s ↦ rw (e, e', s, required) before
      ]
    ]
  ]

  run_handler-sms :
      (x : Executor) (t : Stamp) (tool : ToolDefinition W) (args : Json) (w : W)
      → tool.handler ≡ send_sms m
      → truthy x.from_number ≡ true
      → ((sms : Sms) → sms.to ≡ text x.from_number → P (m.create sms w).1)
      → P w
      → P (run_handler x t tool args w).1
  unfolding run_handler
  run_handler-sms x t tool (object args) w e known keeps before =
      rw e (send_sms-keeps x.from_number _ w (caller_is_known x t args known) keeps before)
  run_handler-sms x t tool null w e known keeps before = before
  run_handler-sms x t tool (bool b) w e known keeps before = before
  run_handler-sms x t tool (number n) w e known keeps before = before
  run_handler-sms x t tool (text s) w e known keeps before = before
  run_handler-sms x t tool (array v) w e known keeps before = before

  -- When the caller's number is known, a call of `send_sms` hands Twilio a message to that number only,
  -- whatever the arguments are that the AI gives, `_context` among them: a property of what is outside
  -- that every message to the caller keeps is kept by the execution.
  pub sms_only_to_caller :
      (py : Python) (registry : Registry W) (tool : ToolDefinition W) (t : Stamp)
      (arguments : String) (x : Executor) (w : W)
      → find_tool "send_sms" registry ≡ some tool
      → tool.handler ≡ send_sms m
      → truthy x.from_number ≡ true
      → ((sms : Sms) → sms.to ≡ text x.from_number → P (m.create sms w).1)
      → P w
      → P (execute py registry t "send_sms" arguments x w).2
  sms_only_to_caller py registry tool t arguments x w found e known keeps before =
      elim (execute_guarded py registry t "send_sms" arguments x w) [
        | inl (a, b, c) ↦ rw b before
        | inr (u, f, p, args, q, ran) ↦
            rw ran.0 (run_handler-sms x t u args w (cc) known keeps before)
      ]
