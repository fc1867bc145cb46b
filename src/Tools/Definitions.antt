-- ===== src/Tools/Definitions.antt =====
-- The handlers of apps/api/tools/definitions/transfer.py that need no database: `transfer_call`,
-- `end_call` and `send_sms`.
use calling_agent.Prelude.{
  String, Bool, true, false, Option, none, some, str_eq, truthy, if◌then◌else◌,
}
use calling_agent.Http.{Error, other, Result, ok, err, Action, pure, raise}
use calling_agent.Json.{Json, bool, text, array, object, Fields, end, field, get}

-- A required argument of a handler, or `TypeError` where it is not among the keyword arguments.
abbrev pub required : {W : Type 0} → String → Fields → (Json → Action W Json) → Action W Json
required key args k = elim (get key args) [ none ↦ raise (other "TypeError") | some v ↦ k v ]

unfoldable pub transfer_call : {W : Type 0} → Fields → Action W Json
transfer_call args = required "reason" args λ reason. pure (
    object (
      field "transfer_initiated" (bool true)
        (field "reason" reason (field "message" (text "Transfer initiated") end))))

unfoldable pub end_call : {W : Type 0} → Fields → Action W Json
end_call args = required "reason" args λ reason. pure (
    object (
      field "call_ending" (bool true)
        (field "reason" reason (field "message" (text "Call is ending") end))))

-- The text under a key of `_context`, if it is there and not empty.
abbrev pub in_context : String → Fields → Option String
in_context key args = elim (get "_context" args) [
  | some (object d) ↦ elim (get key d) [
    | some (text s) ↦ if truthy s then some s else none
    | _ ↦ none
  ]
  | _ ↦ none
]

pub record Sms : Type 0 where
  pub to : Json
  pub from : String
  pub body : Json

-- The parts of the settings that `send_sms` reads, and Twilio's `messages.create`, which gives the
-- message's sid or raises.
pub record Messaging (W : Type 0) : Type 0 where
  pub twilio_account_sid : String
  pub twilio_auth_token : String
  pub create : Sms → Action W String
  pub detail : Error → String

abbrev pub is_number : String → Json → Bool
is_number n (text s) = str_eq s n
is_number n _ = false

-- `message[:20]` raises unless the message is a text or an array.
abbrev pub has_slices : Json → Bool
has_slices (text s) = true
has_slices (array vs) = true
has_slices _ = false

abbrev pub not_sent : String → Json
not_sent error = object (field "sent" (bool false) (field "error" (text error) end))

abbrev pub mocked : Json
mocked = object (
    field "sent" (bool true) (
      field "mock" (bool true)
        (field "message" (text "SMS recorded (Twilio credentials not set)") end)))

abbrev pub sent : String → Json
sent sid = object (
    field "sent" (bool true) (
      field "message_sid" (text sid)
        (field "message" (text "SMS sent successfully to recipient") end)))

abbrev pub answer_sent : {W : Type 0} → Messaging W → Result String × W → Result Json × W
answer_sent m (ok sid, w) = (ok (sent sid), w)
answer_sent m (err e, w) = (ok (not_sent (m.detail e)), w)

abbrev pub sender : Option String → String
sender none = "+18005550199"
sender (some n) = n

abbrev pub deliver : {W : Type 0} → Messaging W → Json → Json → Fields → Action W Json
deliver m to body args w =
    if truthy m.twilio_account_sid
    then (if truthy m.twilio_auth_token
        then answer_sent m (
            m.create (record { to = to; from = sender (in_context "to_number" args); body = body })
              w)
        else (ok mocked, w))
    else (ok mocked, w)

-- The test of the recipient against the caller, where the caller is known.
abbrev pub send_checked :
    {W : Type 0} → Messaging W → Json → Json → Fields → Option String → Action W Json
send_checked m to body args none w = deliver m to body args w
send_checked m to body args (some caller) w =
    if is_number caller to
    then deliver m to body args w
    else (ok (not_sent "Can only send SMS to the active caller's phone number."), w)

unfoldable pub send_sms : {W : Type 0} → Messaging W → Fields → Action W Json
send_sms m args = required "to_number" args λ to. required "message" args λ message w.
    if has_slices message
    then send_checked m to message args (in_context "from_number" args) w
    else (err (other "TypeError"), w)
