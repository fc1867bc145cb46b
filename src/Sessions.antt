-- ===== src/Sessions.antt =====
-- The state of live calls in Redis: apps/api/realtime/session_manager.py. Redis is an argument: its keys hold
-- values, and each command has the documented effect on the value of its key. A key whose time is over
-- is as good as deleted.
mod Model
pub mod RoundTrip
pub mod Count
pub mod Memory
mod Tests
unfoldable pub use Model.*
use calling_agent.Prelude.{
  ℕ, String, Bool, true, false, not, ◌||◌, Option, none, some, List, [], ◌∷◌, any, length, str_eq,
  truthy, if◌then◌else◌,
}
use calling_agent.Http.{Result, ok, err, other}
use calling_agent.Json.{Fields, end}

-- `SESSION_TTL`
abbrev pub session_ttl : ℕ
session_ttl = 7200

abbrev pub text_or : Dict → String → String → String
text_or d key default = elim (lookup key d) [ none ↦ default | some s ↦ s ]

-- `to_dict`
unfoldable pub to_dict : Python → CallSession → Dict
to_dict py s =
    ("call_id", s.call_id)
    ∷ ("tenant_id", s.tenant_id)
    ∷ ("agent_id", s.agent_id)
    ∷ ("agent_version_id", s.agent_version_id)
    ∷ ("direction", s.direction)
    ∷ ("from_number", s.from_number)
    ∷ ("to_number", s.to_number)
    ∷ ("provider_call_id", s.provider_call_id)
    ∷ ("stream_sid", s.stream_sid)
    ∷ ("language", s.language)
    ∷ ("state", s.state)
    ∷ ("start_time", s.start_time)
    ∷ ("last_activity", s.last_activity)
    ∷ ("current_assistant_item_id", s.current_assistant_item_id)
    ∷ ("played_audio_ms", py.str s.played_audio_ms)
    ∷ ("tool_calls_count", py.str s.tool_calls_count)
    ∷ ("transfer_status", s.transfer_status)
    ∷ ("metadata", py.dumps s.metadata)
    ∷ []

-- The parameters of `__init__`; those without a default come first.
abbrev pub required_fields : List String
required_fields =
    "call_id" ∷ "tenant_id" ∷ "agent_id" ∷ "agent_version_id" ∷ "direction" ∷ "from_number"
    ∷ "to_number" ∷ []

abbrev pub optional_fields : List String
optional_fields =
    "provider_call_id" ∷ "stream_sid" ∷ "language" ∷ "state" ∷ "start_time" ∷ "last_activity"
    ∷ "current_assistant_item_id" ∷ "played_audio_ms" ∷ "tool_calls_count" ∷ "transfer_status"
    ∷ "metadata" ∷ []

abbrev pub is_field : String → Bool
is_field key = any (str_eq key) required_fields || any (str_eq key) optional_fields

abbrev pub is_missing : Dict → String → Bool
is_missing d key = elim (lookup key d) [ none ↦ true | some s ↦ false ]

-- `int(data.get(key, 0))`, and the parsed metadata.
abbrev pub int_of : Python → Option String → Option ℕ
int_of py none = some 0
int_of py (some s) = py.int s

abbrev pub metadata_of : Python → Option String → Option Fields
metadata_of py none = some end
metadata_of py (some s) = py.loads s

-- `start_time or datetime.now(...)`
abbrev pub or_now : String → String → String
or_now now s = if truthy s then s else now

-- `cls(**data)`, after the conversions.
abbrev pub init : String → Dict → Option ℕ → Option ℕ → Option Fields → Result CallSession
init now d (some played) (some calls) (some extra) =
    if any (is_missing d) required_fields || any (λ x. not (is_field x.0)) d
    then err (other "TypeError")
    else ok (record {
      call_id = text_or d "call_id" "";
      tenant_id = text_or d "tenant_id" "";
      agent_id = text_or d "agent_id" "";
      agent_version_id = text_or d "agent_version_id" "";
      direction = text_or d "direction" "";
      from_number = text_or d "from_number" "";
      to_number = text_or d "to_number" "";
      provider_call_id = text_or d "provider_call_id" "";
      stream_sid = text_or d "stream_sid" "";
      language = text_or d "language" "en";
      state = text_or d "state" "connecting";
      start_time = or_now now (text_or d "start_time" "");
      last_activity = or_now now (text_or d "last_activity" "");
      current_assistant_item_id = text_or d "current_assistant_item_id" "";
      played_audio_ms = played;
      tool_calls_count = calls;
      transfer_status = text_or d "transfer_status" "";
      metadata = extra;
    })
init now d _ _ _ = err (other "ValueError")

-- `from_dict`
unfoldable pub from_dict : Python → String → Dict → Result CallSession
from_dict py now d =
    init now d (int_of py (lookup "played_audio_ms" d)) (int_of py (lookup "tool_calls_count" d))
      (metadata_of py (lookup "metadata" d))

-- `None` for a missing key and for an empty text.
abbrev pub tenant_of : Value → Option String
tenant_of (Value.text t) = if truthy t then some t else none
tenant_of _ = none

module _ (py : Python) (R : Redis) where
  open R use {Store, value, hset, set, delete, expire, sadd, srem}

  unfoldable pub create_session : CallSession → Store → Store
  unfolding to_dict
  create_session session s =
      let hash =
        expire (Key.call_session session.call_id) session_ttl
          (hset (Key.call_session session.call_id) (to_dict py session) s) in
      expire (Key.tenant_sessions session.tenant_id) session_ttl
        (sadd (Key.tenant_sessions session.tenant_id) session.call_id hash)

  unfoldable pub create_pending_session : String → String → Store → Store
  create_pending_session call_id tenant_id s = set (Key.pending_session call_id) tenant_id 300 s

  unfoldable pub get_pending_tenant : String → Store → Option String
  get_pending_tenant call_id s = tenant_of (value (Key.pending_session call_id) s)

  unfoldable pub delete_pending_session : String → Store → Store
  delete_pending_session call_id s = delete (Key.pending_session call_id) s

  -- `if not data: return None`, then `from_dict`.
  unfoldable pub read_session : String → Dict → Result (Option CallSession)
  unfolding from_dict
  read_session now [] = ok none
  read_session now (x ∷ d) = elim (from_dict py now (x ∷ d)) [
    | ok session ↦ ok (some session)
    | err e ↦ err e
  ]

  unfoldable pub get_session : String → String → Store → Result (Option CallSession)
  get_session now call_id s = read_session now (fields_of (value (Key.call_session call_id) s))

  -- A keyword argument as it is stored.
  abbrev pub stored : Kwarg → String
  stored (Kwarg.text t) = t
  stored (Kwarg.int n) = py.str n
  stored (Kwarg.metadata m) = py.dumps m

  abbrev pub stored_all : List (String × Kwarg) → Dict
  stored_all [] = []
  stored_all ((k, v) ∷ kwargs) = (k, stored v) ∷ stored_all kwargs

  unfoldable pub update_session : String → String → List (String × Kwarg) → Store → Store
  update_session now call_id kwargs s =
      hset (Key.call_session call_id) (put "last_activity" now (stored_all kwargs)) s

  unfoldable pub delete_session : String → Option String → Store → Store
  delete_session call_id none s = delete (Key.call_session call_id) s
  delete_session call_id (some tenant_id) s =
      let left = if truthy tenant_id then srem (Key.tenant_sessions tenant_id) call_id s else s in
      delete (Key.call_session call_id) left

  unfoldable pub get_active_sessions_count : String → Store → ℕ
  get_active_sessions_count tenant_id s =
      length (members_of (value (Key.tenant_sessions tenant_id) s))
