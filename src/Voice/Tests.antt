-- ===== src/Voice/Tests.antt =====
-- The bridge at concrete inputs.
use calling_agent.Prelude.{
  ℤ, ◌≡◌, refl, ◌≤◌, ◌<◌, ◌*◌, ◌-◌, ◌/◌, arith, String, true, false, none, some, List, [], ◌∷◌,
  ◌++◌, In,
}
use calling_agent.Http.{other}
use calling_agent.Json.{bool, text, object, end, field}
use calling_agent.Tools.{ToolDefinition, find_tool, Stamp, Python}
use calling_agent.Tools.Definitions.{transfer_call}
use calling_agent.Voice.{Bridge, CallSession, Output}
use calling_agent.Voice.Handlers.{Voice, on_tool_call}
use calling_agent.Voice.Cleanup.{Ending, duration_secs, billable_minutes, call_log, usage_record}
use calling_agent.Voice.Run.{Event, Message, AiEvent, loop, run}
use calling_agent.Voice.Billing.{usage-minutes, conversation, last_outputs, run_writes, run_bills}
use calling_agent.Voice.BargeIn.{deltas, frames, audio_bytes, barge_in_truncates}
use calling_agent.Voice.Transfer.{NoDial, transfer_never_dials}

abbrev call_session : CallSession
call_session = record {
  call_id = "c1";
  tenant_id = "t1";
  agent_id = "a1";
  agent_version_id = "";
  direction = "inbound";
  from_number = "+15550001";
  to_number = "+15550002";
  provider_call_id = "CA1";
}

abbrev transfer_tool : ToolDefinition (List Output)
transfer_tool = record {
  name = "transfer_call";
  description = "Transfer the current call to a human agent or department";
  parameters = object end;
  handler = transfer_call;
  requires_confirmation = false;
  category = "transfer";
}

abbrev python : Python
python = record {
  loads = λ s.
      some (object (field "reason" (text "sales") (field "phone_number" (text "+15550003") end)));
  str = λ v. "value";
  detail = λ e. "failed";
}

abbrev voice : Voice
voice = record {
  outside = λ outs o. none;
  call_session = call_session;
  python = python;
  registry = ("transfer_call", transfer_tool) ∷ [];
  twilio_account_sid = "AC1";
  played_ms = λ n. n * 1000 / 8000;
}

-- Nothing outside works.
abbrev broken : Voice
broken = record voice { outside = λ outs o. some (other "down") }

abbrev bridge : Bridge
bridge = record {
  tool_executor = record {
    tenant_id = "t1";
    agent_id = "a1";
    call_id = "c1";
    tool_permissions = field "transfer_call" (bool true) end;
    to_number = "+15550002";
    from_number = "+15550001";
    execution_log = [];
  };
  stream_sid = "MZ1";
  is_active = false;
  is_listening = false;
  current_assistant_item_id = "";
  current_ai_text = "";
  played_audio_bytes = 0;
  transcript_segments = [];
  outputs = [];
}

abbrev ending : Ending
ending = record { elapsed = some (ℤ.pos 61); is_uuid = λ s. true }

abbrev stamp : Stamp
stamp = record { execution_id = "e1"; start_time = "0"; duration = "1" }

abbrev events : List Event
events =
    Event.ai (AiEvent.user_transcript " Hi ")
    ∷ Event.ai (AiEvent.transcript_delta "Hello")
    ∷ Event.ai AiEvent.response_done
    ∷ Event.twilio Message.stop
    ∷ []

two_minutes : (usage_record call_session (duration_secs (some (ℤ.pos 61)))).quantity ≡ 2
unfolding usage_record duration_secs billable_minutes
two_minutes = refl

usage-minutes_example :
    let d = duration_secs (some (ℤ.pos 61)) in
    let u = usage_record call_session d in
    (1 ≤ d)
    × (1 ≤ u.quantity)
    × (d ≤ 60 * u.quantity)
    × (60 * (u.quantity - 1) < d)
    × (u.total_cost_cents ≡ u.quantity * u.unit_cost_cents)
    × ((call_log call_session d bridge).cost_cents ≡ u.total_cost_cents)
    × ((call_log call_session d bridge).duration_seconds ≡ d)
usage-minutes_example = usage-minutes call_session (some (ℤ.pos 61)) bridge

run_writes_example :
    (run voice ending (some "Hello") events bridge).outputs
    ≡ (conversation voice (some "Hello") events bridge).outputs
      ++ last_outputs voice ending (conversation voice (some "Hello") events bridge)
run_writes_example = run_writes voice ending (some "Hello") events bridge (λ outs o. refl) refl

run_bills_example :
    In
      (Output.persist
        (call_log call_session
          (duration_secs (some (ℤ.pos 61)))
          (conversation broken none events bridge))
        (usage_record call_session (duration_secs (some (ℤ.pos 61)))))
      (run broken ending none events bridge).outputs
run_bills_example = run_bills broken ending none events bridge refl

abbrev sound : List String
sound = "AAAAAAAA" ∷ "BBBB" ∷ []

barge_in_truncates_example :
    let after =
      loop voice
        (Event.ai (AiEvent.output_item_added "message" "assistant" "item1") ∷ deltas sound
          ++ Event.ai AiEvent.speech_started ∷ [])
        bridge in
    (after.outputs
      ≡ frames "MZ1" sound
        ++ Output.cancel_response
          ∷ Output.truncate_audio "item1" (audio_bytes sound * 1000 / 8000)
          ∷ Output.clear "MZ1"
          ∷ [])
    × (after.current_assistant_item_id ≡ "")
    × (after.played_audio_bytes ≡ 0)
barge_in_truncates_example =
    barge_in_truncates voice refl "item1" sound bridge refl refl (refl, (refl, tt)) (omega arith)

transfer_never_dials_example :
    NoDial (on_tool_call voice stamp "transfer_call" "{}" "f1" bridge).1.outputs
unfolding find_tool
transfer_never_dials_example =
    transfer_never_dials voice transfer_tool stamp "{}" "f1" bridge refl refl tt
