-- ===== src/Voice.antt =====
-- The bridge between Twilio's media stream and OpenAI's realtime session: apps/api/realtime/voice_bridge.py.
-- This file has the state and what goes out; the children have the handlers and the run of a call.
pub mod Handlers
pub mod Cleanup
pub mod Run
pub mod Billing
pub mod BargeIn
pub mod Transfer
mod Tests
use calling_agent.Prelude.{ℕ, String, Bool, List, [], ◌∷◌, ◌++◌, Option, none, some}
use calling_agent.Http.{Error, Result, ok, err, Action}
use calling_agent.Json.{Json}
use calling_agent.Tools.{Executor, LogEntry}
use calling_agent.Tools.Definitions.{Sms}

-- The parts of `CallSession` that the bridge reads.
pub record CallSession : Type 0 where
  pub call_id : String
  pub tenant_id : String
  pub agent_id : String
  pub agent_version_id : String
  pub direction : String
  pub from_number : String
  pub to_number : String
  pub provider_call_id : String

-- A dialogue turn.
pub record Segment : Type 0 where
  pub speaker : String
  pub text : String

pub record CallLog : Type 0 where
  pub tenant_id : String
  pub call_id : String
  pub direction : String
  pub from_number : String
  pub to_number : String
  pub status : String
  pub provider_call_sid : String
  pub duration_seconds : ℕ
  pub transcript : List Segment
  pub sentiment : String
  pub cost_cents : ℕ
  pub tool_calls : List LogEntry

pub record UsageRecord : Type 0 where
  pub tenant_id : String
  pub call_id : String
  pub metric : String
  pub quantity : ℕ
  pub unit_cost_cents : ℕ
  pub total_cost_cents : ℕ
  pub duration_seconds : ℕ

-- What goes out: frames to Twilio's socket (`media`, `clear`), messages to OpenAI, updates of the live
-- call by Twilio's REST API, writes to Redis, the transaction that adds a call log and a usage record,
-- the webhook and the background task.
pub data Output : Type 0 where
  media : String → String → Output
  clear : String → Output
  connect : List Json → Output
  inject_context : String → Output
  request_response : Output
  send_audio : String → Output
  cancel_response : Output
  truncate_audio : String → ℕ → Output
  send_tool_result : String → Json → Output
  disconnect : Output
  dial : Json → Output
  complete : Output
  fallback : Output
  sms : Sms → Output
  update_session : List (String × String) → Output
  delete_session : String → String → Output
  persist : CallLog → UsageRecord → Output
  dispatch_event : String → ℕ → String → Output
  post_call : Output

pub record Bridge : Type 0 where
  pub tool_executor : Executor
  pub stream_sid : String
  pub is_active : Bool
  -- Whether the loop over Twilio's messages still runs.
  pub is_listening : Bool
  pub current_assistant_item_id : String
  pub current_ai_text : String
  pub played_audio_bytes : ℕ
  pub transcript_segments : List Segment
  pub outputs : List Output

-- What is outside answers an output, given those before it, with an exception or nothing.
abbrev pub Outside : Type 0
Outside = List Output → Output → Option Error

-- An output is on record even if it raises.
unfoldable pub emit : Outside → Output → Action Bridge (Unit {0})
emit outside o b = (
  elim (outside b.outputs o) [ none ↦ ok tt | some e ↦ err e ],
  record b { outputs = b.outputs ++ o ∷ [] },
)

-- `try: … except Exception: log`
unfoldable pub attempt : Action Bridge (Unit {0}) → Action Bridge (Unit {0})
attempt m b = (ok tt, (m b).1)
