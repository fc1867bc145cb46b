-- ===== src/Calls.antt =====
-- The webhooks of apps/api/routers/voice.py. Redis is missing where `app.state.redis` is None.
mod Model
pub mod Stream
pub mod Outbound
mod Keys
mod Inversion
pub mod Events
pub mod Admission
pub mod Limit
mod Sets
pub mod Connect
pub mod Placing
mod Tests
unfoldable pub use Model.*
use calling_agent.Prelude.{
  ℕ, String, Bool, true, false, not, ◌&&◌, ◌||◌, Option, none, some, List, [], ◌∷◌, any, str_eq,
  truthy, is_some, or_else, if◌then◌else◌,
}
use calling_agent.Http.{http, Result, ok, err}
use calling_agent.Repo.{Row, get_by_id}
use calling_agent.Agents.{Agent, AgentStatus}
use calling_agent.Sessions.{
  CallSession, Python, Kwarg, Redis, Dict, text_or, create_pending_session, get_session,
  update_session,
}

-- `_get_provider_for_request`
unfoldable pub get_provider_for_request : Request → Provider
get_provider_for_request r =
    if is_some r.twilio_signature
    then Provider.twilio
    else if is_some r.plivo_signature_v2 || is_some r.plivo_signature
    then Provider.plivo
    else Provider.twilio

abbrev pub check_signature : Bool → String → Result (Unit {0})
check_signature valid detail = if valid then ok tt else err (http 403 detail)

-- `validate_webhook_signature` of TwilioVoiceProvider and PlivoVoiceProvider.
unfoldable pub validate_webhook_signature : World → Provider → String → Dict → Option String → Bool
validate_webhook_signature w Provider.twilio url params signature =
    w.twilio_validate url params signature
validate_webhook_signature w Provider.plivo url params signature =
    if truthy w.settings.plivo_auth_token
    then elim (w.plivo_verify url params signature w.settings.plivo_auth_token) [
      | none ↦ true
      | some valid ↦ valid
    ]
    else true

-- `_verify_webhook_request`
unfoldable pub verify_webhook_request : World → Request → Result (Unit {0})
unfolding validate_webhook_signature
verify_webhook_request w r =
    if is_some r.twilio_signature
    then (if truthy w.settings.twilio_auth_token
        then check_signature
            (validate_webhook_signature w Provider.twilio r.url r.form r.twilio_signature)
            "Invalid Twilio signature"
        else ok tt)
    else if is_some r.plivo_signature_v2 || is_some r.plivo_signature
    then (if truthy w.settings.plivo_auth_token
        then check_signature
            (validate_webhook_signature w Provider.plivo r.url r.form
              (or_else r.plivo_signature_v2 r.plivo_signature))
            "Invalid Plivo signature"
        else ok tt)
    else ok tt

-- The parameters that the stream hands back in its start event.
abbrev pub stream_parameters : World → String → ℕ → ℕ → Request → Dict
stream_parameters w call_id agent_id tenant_id r =
    ("call_id", call_id)
    ∷ ("agent_id", w.show agent_id)
    ∷ ("tenant_id", w.show tenant_id)
    ∷ ("direction", "inbound")
    ∷ ("from_number", text_or r.form "From" "")
    ∷ ("to_number", text_or r.form "To" "")
    ∷ []

-- `agent.is_active` and `agent.status == "published"`
abbrev pub takes_calls : Agent → Bool
takes_calls a = a.is_active && elim a.status [ AgentStatus.published ↦ true | _ ↦ false ]

-- The statuses after which a call is over.
abbrev pub is_final : String → Bool
is_final status =
    any (str_eq status) ("completed" ∷ "busy" ∷ "no-answer" ∷ "failed" ∷ "canceled" ∷ "hangup" ∷ [])

abbrev pub call_status : Request → String
call_status r = elim (get_provider_for_request r) [
  | Provider.twilio ↦ text_or r.form "CallStatus" ""
  | Provider.plivo ↦
      let s = text_or r.form "CallStatus" "" in if truthy s then s else text_or r.form "status" ""
]

module _ (py : Python) (R : Redis) (w : World) where
  open R use {Store}

  -- The tenant of a call that waits for its stream is written where there is a Redis.
  abbrev pub pending : String → ℕ → Option Store → Option Store
  pending call_id tenant_id none = none
  pending call_id tenant_id (some s) =
      some (create_pending_session py R call_id (w.show tenant_id) s)

  abbrev pub answer_inbound :
      Request → ℕ → ℕ → Result (Option (Row Agent)) → Option Store → Result Xml × Option Store
  answer_inbound r agent_id drawn (err e) s = (err e, s)
  answer_inbound r agent_id drawn (ok none) s = (ok Xml.sorry, s)
  answer_inbound r agent_id drawn (ok (some agent)) s =
      if takes_calls agent.body
      then (
        ok (
            Xml.connect (Url.stream_url (w.show drawn))
              (stream_parameters w (w.show drawn) agent_id agent.tenant_id r)),
        pending (w.show drawn) agent.tenant_id s,
      )
      else (ok Xml.sorry, s)

  abbrev pub receive_inbound :
      Request → ℕ → ℕ → Result (Unit {0}) → Option Store → Result Xml × Option Store
  receive_inbound r agent_id drawn (err e) s = (err e, s)
  receive_inbound r agent_id drawn (ok _) s =
      answer_inbound r agent_id drawn (get_by_id none agent_id w.db.agents) s

  -- `drawn` is the UUID that the call gets.
  unfoldable pub inbound_call_webhook : Request → ℕ → ℕ → Option Store → Result Xml × Option Store
  inbound_call_webhook r agent_id drawn s =
      receive_inbound r agent_id drawn (verify_webhook_request w r) s

  -- `{"status": "received"}` is the empty tuple.
  abbrev pub update_status :
      String → String → Result (Option CallSession) → Store → Result (Unit {0}) × Option Store
  update_status call_id status (err e) s = (err e, some s)
  update_status call_id status (ok none) s = (ok tt, some s)
  update_status call_id status (ok (some session)) s =
      if is_final (w.lower status)
      then (
        ok tt,
        some (update_session py R w.clock call_id (("state", Kwarg.text "completed") ∷ []) s),
      )
      else (ok tt, some s)

  abbrev pub receive_status :
      String → Request → Result (Unit {0}) → Option Store → Result (Unit {0}) × Option Store
  receive_status call_id r (err e) s = (err e, s)
  receive_status call_id r (ok _) none = (ok tt, none)
  receive_status call_id r (ok _) (some s) =
      update_status call_id (call_status r) (get_session py R w.clock call_id s) s

  unfoldable pub call_status_callback :
      String → Request → Option Store → Result (Unit {0}) × Option Store
  call_status_callback call_id r s = receive_status call_id r (verify_webhook_request w r) s
