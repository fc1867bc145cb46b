-- ===== src/Sessions/Model.antt =====
-- `CallSession` of apps/api/realtime/session_manager.py, the keys it uses, and what it relies on: Redis'
-- commands, and Python's conversions between numbers or JSON and text.
use calling_agent.Prelude.{
  ℕ, ◌≡◌, String, Bool, false, not, Option, none, some, List, [], ◌∷◌, select, any, str_eq,
  if◌then◌else◌,
}
use calling_agent.Json.{Fields}

pub record CallSession : Type 0 where
  pub call_id : String
  pub tenant_id : String
  pub agent_id : String
  pub agent_version_id : String
  pub direction : String
  pub from_number : String
  pub to_number : String
  pub provider_call_id : String
  pub stream_sid : String
  pub language : String
  pub state : String
  pub start_time : String
  pub last_activity : String
  pub current_assistant_item_id : String
  pub played_audio_ms : ℕ
  pub tool_calls_count : ℕ
  pub transfer_status : String
  pub metadata : Fields

-- `str` and `int`, `json.dumps` and `json.loads`.
pub record Python : Type 0 where
  pub str : ℕ → String
  pub int : String → Option ℕ
  pub dumps : Fields → String
  pub loads : String → Option Fields

-- A keyword argument of `update_session`.
pub data Kwarg : Type 0 where
  text : String → Kwarg
  int : ℕ → Kwarg
  metadata : Fields → Kwarg

abbrev pub Dict : Type 0
Dict = List (String × String)

abbrev pub lookup : String → Dict → Option String
lookup key [] = none
lookup key (x ∷ d) = if str_eq x.0 key then some x.1 else lookup key d

-- `d[key] = v`
abbrev pub put : String → String → Dict → Dict
put key v [] = (key, v) ∷ []
put key v (x ∷ d) = if str_eq x.0 key then (key, v) ∷ d else x ∷ put key v d

-- `d.update(new)`
abbrev pub merge : Dict → Dict → Dict
merge d [] = d
merge d (x ∷ new) = merge (put x.0 x.1 d) new

-- The keys, by the text in front of the colon.
pub data Key : Type 0 where
  call_session pending_session tenant_sessions : String → Key

abbrev pub same_key : Key → Key → Bool
same_key (Key.call_session a) (Key.call_session b) = str_eq a b
same_key (Key.pending_session a) (Key.pending_session b) = str_eq a b
same_key (Key.tenant_sessions a) (Key.tenant_sessions b) = str_eq a b
same_key _ _ = false

pub data Value : Type 0 where
  missing : Value
  text : String → Value
  hash : Dict → Value
  members : List String → Value

-- HGETALL and SMEMBERS.
abbrev pub fields_of : Value → Dict
fields_of (Value.hash d) = d
fields_of _ = []

abbrev pub members_of : Value → List String
members_of (Value.members ms) = ms
members_of _ = []

-- The effect of HSET, SADD and SREM on the value of the key; a command of another type raises and
-- leaves the value.
abbrev pub with_fields : Dict → Value → Value
with_fields new Value.missing = Value.hash (merge [] new)
with_fields new (Value.hash d) = Value.hash (merge d new)
with_fields new v = v

abbrev pub add_member : String → List String → List String
add_member m ms = if any (str_eq m) ms then ms else m ∷ ms

abbrev pub drop_member : String → List String → List String
drop_member m ms = select (λ x. not (str_eq m x)) ms

abbrev pub with_member : String → Value → Value
with_member m Value.missing = Value.members (m ∷ [])
with_member m (Value.members ms) = Value.members (add_member m ms)
with_member m v = v

abbrev pub without_member : String → Value → Value
without_member m (Value.members ms) = Value.members (drop_member m ms)
without_member m v = v

-- The commands, each on one key. `expire` sets the time after which the key is deleted.
pub record Redis : Type 1 where
  pub Store : Type 0
  pub value : Key → Store → Value
  pub hset : Key → Dict → Store → Store
  pub set : Key → String → ℕ → Store → Store
  pub delete : Key → Store → Store
  pub expire : Key → ℕ → Store → Store
  pub sadd : Key → String → Store → Store
  pub srem : Key → String → Store → Store
  pub value-hset :
      (j k : Key) (d : Dict) (s : Store)
      → value j (hset k d s) ≡ (if same_key j k then with_fields d (value j s) else value j s)
  pub value-set :
      (j k : Key) (v : String) (ttl : ℕ) (s : Store)
      → value j (set k v ttl s) ≡ (if same_key j k then Value.text v else value j s)
  pub value-delete :
      (j k : Key) (s : Store)
      → value j (delete k s) ≡ (if same_key j k then Value.missing else value j s)
  pub value-expire : (j k : Key) (ttl : ℕ) (s : Store) → value j (expire k ttl s) ≡ value j s
  pub value-sadd :
      (j k : Key) (m : String) (s : Store)
      → value j (sadd k m s) ≡ (if same_key j k then with_member m (value j s) else value j s)
  pub value-srem :
      (j k : Key) (m : String) (s : Store)
      → value j (srem k m s) ≡ (if same_key j k then without_member m (value j s) else value j s)
