-- ===== src/Calls/Tests.antt =====
-- The routes of a call at concrete inputs.
use calling_agent.Prelude.{
  length, ◌++◌, ◌≡◌, ◌≢◌, ◌⊎◌, ◌≤◌, refl, ap, arith, ℕ, zero, suc, String, true, false, Option,
  none, some, List, [], ◌∷◌, All, In, truthy,
}
use calling_agent.Http.{ok}
use calling_agent.Json.{end}
use calling_agent.Repo.{Row, get_by_id}
use calling_agent.Agents.{Agent, AgentStatus, AgentVersion, VersionStatus, default_config}
use calling_agent.Auth.{Role, User}
use calling_agent.Billing.{get_by_tenant, check_usage_limit}
use calling_agent.Compliance.{is_listed, get_by_phone}
use calling_agent.Sessions.{
  CallSession, Python, Key, Dict, create_pending_session, delete_pending_session,
  get_pending_tenant, get_active_sessions_count,
}
use calling_agent.Sessions.Memory.{Memory, memory, empty}
use calling_agent.Calls.{
  World, Request, Xml, Url, OutboundCallRequest, OutboundCall, takes_calls, verify_webhook_request,
  stream_parameters, inbound_call_webhook,
}
use calling_agent.Calls.Stream.{Start, Outcome, call_session, voice_stream_websocket}
use calling_agent.Calls.Outbound.{State, at_limit, initiate_outbound_call}
use calling_agent.Calls.Inversion.{Admitted}
use calling_agent.Calls.Admission.{stream_admission, stream_once}
use calling_agent.Calls.Events.{Event, happen}
use calling_agent.Calls.Limit.{running_after, follow, running_calls-within}
use calling_agent.Calls.Connect.{inbound_call_bridged}
use calling_agent.Calls.Placing.{callers, outbound_call_cleared}

-- UUIDs as texts of one letter.
abbrev show : ℕ → String
show zero = String.◌∷◌ "x" String.[]
show (suc n) = String.◌∷◌ "x" (show n)

abbrev next : Option ℕ → Option ℕ
next none = some 0
next (some n) = some (suc n)

abbrev uuid : String → Option ℕ
uuid String.[] = none
uuid (String.◌∷◌ c s) = next (uuid s)

uuid-show : (n : ℕ) → uuid (show n) ≡ some n
uuid-show zero = refl
uuid-show (suc n) = ap next (uuid-show n)

show-full : (n : ℕ) → truthy (show n) ≡ true
show-full zero = refl
show-full (suc n) = refl

abbrev python : Python
python = record { str = λ n. "0"; int = λ s. some 0; dumps = λ d. "{}"; loads = λ s. some end }

abbrev agent : Row Agent
agent = record {
  id = 1;
  tenant_id = 2;
  body = record {
    info = record { name = "Ann"; description = none };
    status = AgentStatus.published;
    is_active = true;
    published_version_id = some 3;
  };
}

abbrev version : Row AgentVersion
version = record {
  id = 3;
  tenant_id = 2;
  body = record {
    agent_id = 1;
    version_number = 1;
    status = VersionStatus.published;
    config = default_config "Ann";
    published_at = some 10;
    published_by = some 9;
  };
}

abbrev world : World
world = record {
  settings = record {
    twilio_auth_token = "secret";
    plivo_auth_token = "";
    call_max_concurrent_per_tenant = 1;
  };
  db = record { agents = agent ∷ []; versions = version ∷ [] };
  subscriptions = [];
  usage = [];
  dnc =
      (record {
        id = 1;
        tenant_id = 2;
        body = record {
          phone_number = "+15550009";
          source = "opt_out";
          reason = none;
          is_active = true;
        };
      })
      ∷ [];
  phone_numbers = [];
  now = 100;
  month = 30;
  clock = "2024-05-01T10:00:00";
  uuid = uuid;
  show = show;
  lower = λ s. s;
  twilio_validate = λ url form s. true;
  plivo_verify = λ url form s token. none;
  answer = λ c. ok "CA2";
}

abbrev request : Request
request = record {
  twilio_signature = some "signature";
  plivo_signature_v2 = none;
  plivo_signature = none;
  url = "https://api.example.com/api/v1/voice/inbound/xx";
  form = ("CallSid", "CA1") ∷ ("From", "+15550001") ∷ ("To", "+15550002") ∷ [];
}

abbrev connected : Start
connected = record { event = "connected"; start = []; custom = [] }

abbrev start_data : Dict
start_data = ("streamSid", "MZ1") ∷ ("callSid", "CA1") ∷ []

-- The start event for the call with the UUID 4.
abbrev started : Start
started = record {
  event = "start";
  start = start_data;
  custom = stream_parameters world (show 4) 1 2 request;
}

-- Redis when the webhook of this call has answered.
abbrev waiting : Memory
waiting = create_pending_session python memory (show 4) (show 2) empty

abbrev session : CallSession
session = call_session python memory world (show 4) started version

abbrev after : Option Memory
after =
    (voice_stream_websocket python memory world (show 4) (some connected) (some started)
      (some waiting)).1

is_bridged :
    voice_stream_websocket python memory world
      (show 4)
      (some connected)
      (some started)
      (some waiting)
    ≡ (Outcome.bridged version session, after)
unfolding voice_stream_websocket get_pending_tenant create_pending_session delete_pending_session
    get_active_sessions_count get_by_id check_usage_limit get_by_tenant
is_bridged = refl

stream_admission_example :
    (s : Memory) × (some waiting ≡ some s)
    × (get_pending_tenant python memory (show 4) s ≡ some session.tenant_id)
    × Admitted python memory world session.tenant_id session.agent_id s version
    × (session.call_id ≡ show 4)
stream_admission_example =
    stream_admission python memory world (show 4) (some connected) (some started) (some waiting)
      version session after is_bridged

stream_once_example :
    voice_stream_websocket python memory world (show 4) (some connected) (some started) after
    ≢ (Outcome.bridged version session, after)
stream_once_example =
    stream_once python memory world (show 4) (some connected) (some started) (some connected)
      (some started) (some waiting) version version session session after after is_bridged

abbrev events : List Event
events =
    Event.calls_in world request 1 4
    ∷ Event.streams world (show 4) (some connected) (some started)
    ∷ Event.calls_in world request 1 5
    ∷ Event.streams world (show 5) (some connected) (some started)
    ∷ Event.reports world (show 4) request
    ∷ Event.drops (Key.call_session (show 4))
    ∷ []

-- The second stream is refused, as the limit is 1; one call runs.
one_runs : running_after python memory events (some empty) (λ t. []) (show 2) ≡ show 4 ∷ []
unfolding running_after follow happen inbound_call_webhook voice_stream_websocket
    verify_webhook_request get_by_id get_pending_tenant create_pending_session
    get_active_sessions_count delete_pending_session check_usage_limit get_by_tenant
    calling_agent.Sessions.update_session calling_agent.Sessions.create_session
one_runs = refl

running_calls-within_example :
    length (
      running_after python memory
        (events ++ Event.ends (show 4) (show 2) ∷ events)
        (some empty)
        (λ t. [])
        (show 2))
    ≤ 1
running_calls-within_example =
    running_calls-within python memory 1 (events ++ Event.ends (show 4) (show 2) ∷ events)
      (some empty) (ground arith) (λ t. refl) (show 2)

inbound_call_bridged_example :
    (parameters : Dict) × (t : Memory) × (inbound_call_webhook python memory world request 1 4
        (some empty)
      ≡ (ok (Xml.connect (Url.stream_url (show 4)) parameters), some t))
    × (s : CallSession) × ((voice_stream_websocket python memory world
          (show 4)
          (some connected)
          (some (record { event = "start"; start = start_data; custom = parameters }))
          (some t)).0
        ≡ Outcome.bridged version s)
    × (s.tenant_id ≡ show 2)
    × (s.from_number ≡ "+15550001")
unfolding verify_webhook_request get_by_id check_usage_limit get_by_tenant get_active_sessions_count
inbound_call_bridged_example =
    inbound_call_bridged python memory world request 1 4 3 agent version empty connected start_data
      uuid-show show-full refl refl refl refl refl (ground arith) refl

abbrev manager : Row User
manager = record {
  id = 9;
  tenant_id = 2;
  body = record {
    email = "a@b";
    password_hash = "h";
    first_name = none;
    last_name = none;
    role = Role.agent_manager;
    email_verified = true;
    is_active = true;
    last_login_at = none;
  };
}

abbrev wanted : String → OutboundCallRequest
wanted number = record { agent_id = 1; to_number = number; from_number = "+15550002" }

abbrev idle : State Memory
idle = record { redis = some empty; asked = [] }

asked_once :
    (initiate_outbound_call python memory world manager 2 (wanted "+15550001") 4 idle).1.asked ≢ []
unfolding initiate_outbound_call get_by_id get_active_sessions_count get_by_phone
asked_once e = absurd (ground arith)

listed_number :
    (initiate_outbound_call python memory world manager 2 (wanted "+15550009") 4 idle).1.asked ≡ []
unfolding initiate_outbound_call get_by_id get_active_sessions_count get_by_phone
listed_number = refl

outbound_call_cleared_example :
    ((initiate_outbound_call python memory world manager 2 (wanted "+15550001") 4 idle).1.asked
      ≡ [])
    ⊎ ((In Role.agent_manager (callers python memory world)
          ⊎ (Role.agent_manager ≡ Role.platform_admin))
        × (a : Row Agent) × (get_by_id (some 2) 1 world.db.agents ≡ ok (some a))
        × (takes_calls a.body ≡ true)
        × (v : ℕ) × (a.body.published_version_id ≡ some v)
        × (at_limit python memory world 2 (some empty) ≡ false)
        × All (λ r. is_listed 2 "+15550001" r ≡ false) world.dnc
        × (c : OutboundCall) × (c.to_number ≡ "+15550001")
        × ((initiate_outbound_call python memory world manager 2
              (wanted "+15550001")
              4
              idle).1.asked
            ≡ c ∷ []))
outbound_call_cleared_example =
    outbound_call_cleared python memory world manager 2 (wanted "+15550001") 4 idle
