-- ===== src/Sessions/Tests.antt =====
-- The call sessions at concrete inputs.
use calling_agent.Prelude.{
  ◌≡◌, refl, ◌==◌, String, none, some, List, [], ◌∷◌, str_eq, if◌then◌else◌,
}
use calling_agent.Http.{ok}
use calling_agent.Json.{Fields, end, field, text}
use calling_agent.Sessions.{
  CallSession, Python, Kwarg, Key, get_session, create_session, get_active_sessions_count,
}
use calling_agent.Sessions.Memory.{memory, empty}
use calling_agent.Sessions.RoundTrip.{get_session-create_session}
use calling_agent.Sessions.Count.{Op, act_all, active_count-register_all}

-- Two numbers and the JSON of two objects are enough here.
abbrev vip : Fields
vip = field "segment" (text "vip") end

abbrev python : Python
python = record {
  str = λ n. if n == 0 then "0" else "1500";
  int = λ s. if str_eq s "0" then some 0 else if str_eq s "1500" then some 1500 else none;
  dumps = λ d. elim d [ end ↦ "{}" | field k v rest ↦ "{\"segment\": \"vip\"}" ];
  loads = λ s. if str_eq s "{}" then some end else some vip;
}

abbrev session : String → String → CallSession
session call_id tenant_id = record {
  call_id = call_id;
  tenant_id = tenant_id;
  agent_id = "a1";
  agent_version_id = "v1";
  direction = "inbound";
  from_number = "+15550001";
  to_number = "+15550002";
  provider_call_id = "CA1";
  stream_sid = "";
  language = "en";
  state = "active";
  start_time = "2024-05-01T10:00:00";
  last_activity = "2024-05-01T10:01:00";
  current_assistant_item_id = "item_1";
  played_audio_ms = 1500;
  tool_calls_count = 0;
  transfer_status = "";
  metadata = vip;
}

get_session-create_session_example :
    get_session python memory "later" "c1" (create_session python memory (session "c1" "t1") empty)
    ≡ ok (some (session "c1" "t1"))
get_session-create_session_example =
    get_session-create_session python memory "later" (session "c1" "t1") empty (refl, refl, refl)
      refl refl refl

abbrev history : List Op
history =
    Op.creates_pending "c1" "t1"
    ∷ Op.creates (session "c1" "t1")
    ∷ Op.creates (session "c2" "t1")
    ∷ Op.creates (session "c3" "t2")
    ∷ Op.creates (session "c2" "t1")
    ∷ Op.updates "later" "c1" (("state", Kwarg.text "active") ∷ [])
    ∷ Op.drops (Key.call_session "c1")
    ∷ Op.deletes "c2" (some "t1")
    ∷ []

active_count-register_all_example :
    get_active_sessions_count python memory "t1" (act_all python memory history empty) ≡ 1
active_count-register_all_example =
    active_count-register_all python memory history empty "t1" (λ t. refl)
