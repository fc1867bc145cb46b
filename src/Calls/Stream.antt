-- ===== src/Calls/Stream.antt =====
-- The media stream of a call, `voice_stream_websocket` of apps/api/routers/voice.py, up to the start of
-- its bridge.
use calling_agent.Prelude.{
  not, arith, ◌≡◌, refl, ℕ, leb, String, Bool, true, false, Option, none, some, [], ◌∷◌, str_eq,
  truthy, if◌then◌else◌,
}
use calling_agent.Http.{Error, other, Result, ok, err}
use calling_agent.Json.{end}
use calling_agent.Repo.{Row, get_by_id}
use calling_agent.Agents.{Agent, AgentVersion}
use calling_agent.Billing.{check_usage_limit}
use calling_agent.Sessions.{
  CallSession, Python, Kwarg, Redis, Dict, text_or, create_session, get_pending_tenant,
  delete_pending_session, update_session, get_active_sessions_count,
}
use calling_agent.Calls.{World}

-- A message of Twilio: it does not come or is no JSON object, or it has an event, the start's data and
-- the custom parameters.
pub record Start : Type 0 where
  pub event : String
  pub start : Dict
  pub custom : Dict

abbrev pub Frame : Type 0
Frame = Option Start

-- How the route ends without a bridge: closed, closed with the code of a violation, closed after the
-- message that the monthly limit is reached, or with an exception that it logs.
pub data Refusal : Type 0 where
  closed violated limited : Refusal
  logged : Error → Refusal

pub data Outcome : Type 0 where
  refused : Refusal → Outcome
  bridged : Row AgentVersion → CallSession → Outcome

-- A check ends the route or lets it go on.
pub data Check (A : Type 0) : Type 0 where
  stop : Refusal → Check A
  go : A → Check A

infixl 5 ◌>>=◌ ◌>>◌
abbrev pub ◌>>=◌ : {A B : Type 0} → Check A → (A → Check B) → Check B
stop r >>= k = stop r
go a >>= k = k a

abbrev pub ◌>>◌ : {A B : Type 0} → Check A → Check B → Check B
m >> k = m >>= λ _. k

pub go->>= :
    {A B : Type 0} (m : Check A) (k : A → Check B) (b : B)
    → (m >>= k) ≡ go b
    → (a : A) × (m ≡ go a) × (k a ≡ go b)
go->>= (stop r) k b h = absurd (ground arith)
go->>= (go a) k b h = (a, refl, h)

abbrev pub require : Bool → Check (Unit {0})
require b = if b then go tt else stop Refusal.closed

abbrev pub parsed : Option ℕ → Check ℕ
parsed none = stop (Refusal.logged (other "ValueError"))
parsed (some n) = go n

abbrev pub found : {A : Type 0} → Result (Option A) → Check A
found (err e) = stop (Refusal.logged e)
found (ok none) = stop Refusal.closed
found (ok (some a)) = go a

abbrev pub present : {A : Type 0} → Option A → Check A
present none = stop Refusal.closed
present (some a) = go a

abbrev pub within_usage : Result Bool → Check (Unit {0})
within_usage (err e) = stop (Refusal.logged e)
within_usage (ok true) = stop Refusal.limited
within_usage (ok false) = go tt

-- `get_by_id(uuid.UUID(agent_id) if agent_id else None)`; no row has the key NULL.
abbrev pub agent_of : World → ℕ → String → Check (Row Agent)
agent_of w tenant agent_id =
    if truthy agent_id
    then (parsed (w.uuid agent_id) >>= λ a. found (get_by_id (some tenant) a w.db.agents))
    else stop Refusal.closed

module _ (py : Python) (R : Redis) (w : World) where
  open R use {Store}

  -- The checks between the pending session and the call session: agent, version, number of calls, usage.
  unfoldable pub admit : String → String → Store → Check (Row AgentVersion)
  admit tenant_id agent_id s = do
    tenant ← parsed (w.uuid tenant_id)
    agent ← agent_of w tenant agent_id
    version_id ← present agent.body.published_version_id
    version ← found (get_by_id (some tenant) version_id w.db.versions)
    _ ← require (
        not (
          leb w.settings.call_max_concurrent_per_tenant
            (get_active_sessions_count py R tenant_id s)))
    _ ← within_usage (check_usage_limit tenant w.now w.month w.subscriptions w.usage)
    go version

  abbrev pub call_session : String → Start → Row AgentVersion → CallSession
  call_session call_id f version = record {
    call_id = call_id;
    tenant_id = text_or f.custom "tenant_id" "";
    agent_id = text_or f.custom "agent_id" "";
    agent_version_id = w.show version.id;
    direction = text_or f.custom "direction" "inbound";
    from_number = text_or f.custom "from_number" "";
    to_number = text_or f.custom "to_number" "";
    provider_call_id = text_or f.start "callSid" "";
    stream_sid = text_or f.start "streamSid" "";
    language = if truthy version.body.config.language then version.body.config.language else "en";
    state = "connecting";
    start_time = w.clock;
    last_activity = w.clock;
    current_assistant_item_id = "";
    played_audio_ms = 0;
    tool_calls_count = 0;
    transfer_status = "";
    metadata = end;
  }

  -- `create_session`, then the update before the bridge starts.
  abbrev pub open_session : String → Start → CallSession → Store → Store
  open_session call_id f session s =
      update_session py R w.clock call_id
        (("stream_sid", Kwarg.text session.stream_sid)
          ∷ ("provider_call_id", Kwarg.text session.provider_call_id)
          ∷ [])
        (create_session py R session s)

  abbrev pub start_bridge : String → Start → Store → Check (Row AgentVersion) → Outcome × Store
  start_bridge call_id f s (stop r) = (Outcome.refused r, s)
  start_bridge call_id f s (go version) =
      let session = call_session call_id f version in
      (Outcome.bridged version session, open_session call_id f session s)

  -- The tenant of the start event is the one that the webhook has left for the call.
  abbrev pub is_verified : Option String → String → Bool
  is_verified none tenant_id = false
  is_verified (some verified) tenant_id = str_eq verified tenant_id

  abbrev pub stream_started : String → Start → Store → Outcome × Store
  stream_started call_id f s =
      let tenant_id = text_or f.custom "tenant_id" "" in
      if is_verified (get_pending_tenant py R call_id s) tenant_id
      then (let t = delete_pending_session py R call_id s in
          start_bridge call_id f t (admit tenant_id (text_or f.custom "agent_id" "") t))
      else (Outcome.refused Refusal.violated, s)

  abbrev pub second_frame : String → Frame → Store → Outcome × Store
  second_frame call_id none s = (Outcome.refused (Refusal.logged (other "frame")), s)
  second_frame call_id (some f) s =
      if str_eq f.event "start"
      then stream_started call_id f s
      else (Outcome.refused Refusal.closed, s)

  abbrev pub first_frame : String → Frame → Frame → Store → Outcome × Store
  first_frame call_id none second s = (Outcome.refused (Refusal.logged (other "frame")), s)
  first_frame call_id (some f) second s = second_frame call_id second s

  abbrev pub keep : Outcome × Store → Outcome × Option Store
  keep x = (x.0, some x.1)

  -- The first message may have any event.
  unfoldable pub voice_stream_websocket :
      String → Frame → Frame → Option Store → Outcome × Option Store
  unfolding admit
  voice_stream_websocket call_id first second none = (Outcome.refused Refusal.closed, none)
  voice_stream_websocket call_id first second (some s) = keep (first_frame call_id first second s)
