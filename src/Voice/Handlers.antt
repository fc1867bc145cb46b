-- ===== src/Voice/Handlers.antt =====
-- The handlers of OpenAI's events and of Twilio's messages. `Voice` holds what they read of the settings
-- and of the world; a float product is rounded by its `played_ms`.
use calling_agent.Prelude.{
  ℕ, ◌+◌, ◌*◌, ◌/◌, ltb, leb, ◌==◌, String, Bool, false, ◌&&◌, ◌||◌, none, some, List, [], ◌∷◌,
  ◌++◌, str_eq, truthy, if◌then◌else◌,
}
use Prim.Native.String.{count, ◌++◌ as concat}
use Prim.Native.Char.{Char, code}
use calling_agent.Http.{ok, Action, pure, modify, ◌>>◌, ◌>>=◌}
use calling_agent.Json.{Json, Fields, end, get, flag}
use calling_agent.Tools.{Registry, Python, Stamp, ToolExecutionResult, execute, to_json}
use calling_agent.Voice.{Bridge, CallSession, Output, Outside, emit}

-- The handlers of tools act on the list of what went out.
pub record Voice : Type 0 where
  pub outside : Outside
  -- The bridge never changes it.
  pub call_session : CallSession
  pub python : Python
  pub registry : Registry (List Output)
  pub twilio_account_sid : String
  -- `int((n / 8000) * 1000)`, in floats.
  pub played_ms : ℕ → ℕ

-- `str.isspace` of one character.
abbrev pub is_space : Char → Bool
is_space c =
    let n = code c in
    (leb 9 n && leb n 13)
    || (leb 28 n && leb n 32)
    || n == 133
    || n == 160
    || n == 5760
    || (leb 8192 n && leb n 8202)
    || n == 8232
    || n == 8233
    || n == 8239
    || n == 8287
    || n == 12288

abbrev pub lstrip : String → String
lstrip String.[] = String.[]
lstrip (String.◌∷◌ c s) = let rest = lstrip s in if is_space c then rest else String.◌∷◌ c s

abbrev pub rstrip : String → String
rstrip String.[] = String.[]
rstrip (String.◌∷◌ c s) =
    let rest = rstrip s in
    if truthy rest
    then String.◌∷◌ c rest
    else if is_space c
    then String.[]
    else String.◌∷◌ c String.[]

abbrev pub strip : String → String
strip s = rstrip (lstrip s)

abbrev pub when : Bool → Action Bridge (Unit {0}) → Action Bridge (Unit {0})
when c m b = if c then m b else (ok tt, b)

abbrev pub stop_tracking : Bridge → Bridge
stop_tracking b = record b { current_assistant_item_id = ""; played_audio_bytes = 0 }

abbrev pub forget_turn : Bridge → Bridge
forget_turn b = record b {
  current_assistant_item_id = "";
  played_audio_bytes = 0;
  current_ai_text = "";
}

module _ (v : Voice) where
  -- `_on_ai_audio`: `delta` is base64, thus as long as it has characters.
  unfoldable pub on_ai_audio : String → Action Bridge (Unit {0})
  on_ai_audio audio b =
      when (truthy audio && truthy b.stream_sid)
        (emit v.outside (Output.media b.stream_sid audio)
          >> modify
              λ b. record b { played_audio_bytes = b.played_audio_bytes + count audio * 3 / 4 })
        b

  -- `_on_output_item_added`: the item's type, role and id.
  unfoldable pub on_output_item_added : String → String → String → Action Bridge (Unit {0})
  on_output_item_added type role id =
      when (str_eq type "message" && str_eq role "assistant")
        (modify λ b. record b { current_assistant_item_id = id; played_audio_bytes = 0 })

  abbrev pub truncate : Action Bridge (Unit {0})
  truncate b =
      when (truthy b.current_assistant_item_id && ltb 0 b.played_audio_bytes)
        (emit v.outside
          (Output.truncate_audio b.current_assistant_item_id (v.played_ms b.played_audio_bytes)))
        b

  abbrev pub clear_twilio : Action Bridge (Unit {0})
  clear_twilio b = when (truthy b.stream_sid) (emit v.outside (Output.clear b.stream_sid)) b

  -- `_on_speech_started`
  unfoldable pub on_speech_started : Action Bridge (Unit {0})
  on_speech_started =
      emit v.outside Output.cancel_response >> truncate >> clear_twilio >> modify stop_tracking

  abbrev pub dial_target : Json → Action Bridge (Unit {0})
  dial_target target b =
      when (truthy v.twilio_account_sid && truthy v.call_session.provider_call_id)
        (emit v.outside (Output.dial target)) b

  -- `_handle_transfer`: `target_number` counts if Python holds it for true.
  unfoldable pub handle_transfer : Fields → Action Bridge (Unit {0})
  handle_transfer d =
      emit v.outside (Output.update_session (("transfer_status", "initiated") ∷ []))
      >> when (flag "phone_number" d)
          (elim (get "phone_number" d) [ none ↦ pure tt | some target ↦ dial_target target ])

  -- `_handle_call_end`
  unfoldable pub handle_call_end : Action Bridge (Unit {0})
  handle_call_end b =
      (modify (λ b. record b { is_active = false })
          >> when (truthy v.twilio_account_sid && truthy v.call_session.provider_call_id)
              (emit v.outside Output.complete))
        b

  -- `tool_executor.execute`: it acts on the log and on what is outside.
  abbrev pub run_tool : Stamp → String → String → Action Bridge ToolExecutionResult
  run_tool t name arguments b =
      let (r, x, out) = execute v.python v.registry t name arguments b.tool_executor b.outputs in
      (ok r, record b { tool_executor = x; outputs = out })

  -- The special results.
  abbrev pub handle_special : Fields → Action Bridge (Unit {0})
  handle_special d b =
      if flag "transfer_initiated" d
      then handle_transfer d b
      else when (flag "call_ending" d) handle_call_end b

  abbrev pub result_data : ToolExecutionResult → Fields
  result_data r = if r.success then r.content else end

  -- The part of `_on_tool_call` after the execution.
  unfoldable pub use_result : String → ToolExecutionResult → Action Bridge (Unit {0})
  use_result call_id r =
      emit v.outside (Output.send_tool_result call_id (to_json r))
      >> handle_special (result_data r)
      >> modify forget_turn

  -- `_on_tool_call`
  unfoldable pub on_tool_call : Stamp → String → String → String → Action Bridge (Unit {0})
  unfolding use_result
  on_tool_call t name arguments call_id = run_tool t name arguments >>= use_result call_id

  -- `_on_ai_transcript`
  unfoldable pub on_ai_transcript : String → Action Bridge (Unit {0})
  on_ai_transcript delta =
      when (truthy delta)
        (modify λ b. record b { current_ai_text = concat b.current_ai_text delta })

  abbrev pub add_segment : String → String → Bridge → Bridge
  add_segment speaker s b = record b {
    transcript_segments = b.transcript_segments ++ (record { speaker = speaker; text = s }) ∷ [];
  }

  -- `_on_user_transcript`
  unfoldable pub on_user_transcript : String → Action Bridge (Unit {0})
  on_user_transcript transcript =
      when (truthy (strip transcript)) (modify (add_segment "customer" (strip transcript)))

  -- `_on_response_done`
  unfoldable pub on_response_done : Action Bridge (Unit {0})
  on_response_done b =
      when (truthy (strip b.current_ai_text))
        (modify (add_segment "agent" (strip b.current_ai_text))
          >> modify λ b. record b { current_ai_text = "" })
        b
