-- ===== src/Voice/Run.antt =====
-- `start` and the two loops it gathers. A call is the sequence of the events that its loops take, in the
-- order in which they take them; a handler runs without another between its steps.
use calling_agent.Prelude.{
  String, true, false, Option, none, some, List, [], ◌∷◌, truthy, if◌then◌else◌,
}
use calling_agent.Http.{Result, ok, err, Action, pure, modify, ◌>>◌}
use calling_agent.Tools.{Stamp, get_openai_tools}
use calling_agent.Voice.{Bridge, Output, emit}
use calling_agent.Voice.Handlers.{
  Voice, on_ai_audio, on_output_item_added, on_speech_started, on_tool_call, on_ai_transcript,
  on_user_transcript, on_response_done, when,
}
use calling_agent.Voice.Cleanup.{Ending, cleanup}

-- A message of Twilio's stream. `malformed` is one that `json.loads` or a subscript refuses.
pub data Message : Type 0 where
  connected dtmf mark stop unknown malformed disconnected : Message
  start : String → String → Message
  media : String → Message

-- An event of OpenAI's session that has a handler.
pub data AiEvent : Type 0 where
  audio_delta transcript_delta user_transcript : String → AiEvent
  output_item_added : String → String → String → AiEvent
  function_call : Stamp → String → String → String → AiEvent
  speech_started speech_stopped response_done error : AiEvent

pub data Event : Type 0 where
  twilio : Message → Event
  ai : AiEvent → Event

module _ (v : Voice) where
  -- The handlers that `_register_openai_handlers` registers.
  unfoldable pub handle_ai : AiEvent → Action Bridge (Unit {0})
  handle_ai (AiEvent.audio_delta s) = on_ai_audio v s
  handle_ai (AiEvent.transcript_delta s) = on_ai_transcript v s
  handle_ai (AiEvent.user_transcript s) = on_user_transcript v s
  handle_ai (AiEvent.output_item_added type role id) = on_output_item_added v type role id
  handle_ai (AiEvent.function_call t name arguments id) = on_tool_call v t name arguments id
  handle_ai AiEvent.speech_started = on_speech_started v
  handle_ai AiEvent.speech_stopped = pure tt
  handle_ai AiEvent.response_done = on_response_done v
  handle_ai AiEvent.error = pure tt

  abbrev pub hang_up : Bridge → Bridge
  hang_up b = record b { is_active = false }

  -- One round of `_handle_twilio_messages`, before its `except`s.
  unfoldable pub handle_message : Message → Action Bridge (Unit {0})
  handle_message (Message.start stream call) =
      modify (λ b. record b { stream_sid = stream })
      >> emit v.outside
          (Output.update_session (("stream_sid", stream) ∷ ("provider_call_id", call) ∷ []))
  handle_message (Message.media payload) = emit v.outside (Output.send_audio payload)
  handle_message Message.stop = modify hang_up
  handle_message Message.malformed = modify hang_up
  handle_message Message.disconnected = modify hang_up
  handle_message Message.connected = pure tt
  handle_message Message.dtmf = pure tt
  handle_message Message.mark = pure tt
  handle_message Message.unknown = pure tt

  -- Any exception ends the loop; else `while self.is_active` is read again.
  abbrev pub next_round : Result (Unit {0}) × Bridge → Bridge
  next_round (ok _, b) = record b { is_listening = b.is_active }
  next_round (err _, b) = record b { is_active = false; is_listening = false }

  -- An event: a handler's exception is logged by `receive_events`, and no message is read once the loop
  -- over them has ended.
  unfoldable pub step : Event → Bridge → Bridge
  unfolding handle_message handle_ai
  step (Event.ai e) b = (handle_ai e b).1
  step (Event.twilio m) b = if b.is_listening then next_round (handle_message m b) else b

  unfoldable pub loop : List Event → Bridge → Bridge
  loop [] b = b
  loop (e ∷ es) b = loop es (step e b)

  -- The steps of `start` up to the loops; the greeting is what `build_greeting_message` gives.
  unfoldable pub set_up : Option String → Action Bridge (Unit {0})
  set_up greeting b =
      (emit v.outside
            (Output.connect (get_openai_tools b.tool_executor.tool_permissions v.registry))
          >> elim greeting [
            | none ↦ pure tt
            | some g ↦
                when (truthy g) (
                  emit v.outside (Output.inject_context g)
                  >> emit v.outside Output.request_response)
          ]
          >> emit v.outside (Output.update_session (("state", "active") ∷ [])))
        b

  -- `_send_fallback_to_twilio`
  unfoldable pub send_fallback : Action Bridge (Unit {0})
  send_fallback b =
      when (if truthy v.twilio_account_sid then truthy v.call_session.provider_call_id else false)
        (emit v.outside Output.fallback) b

  -- The body of the `try` of `start`, and its `except`.
  abbrev pub converse : List Event → Result (Unit {0}) × Bridge → Bridge
  converse events (ok _, b) = loop events (record b { is_listening = b.is_active })
  converse events (err _, b) = (send_fallback b).1

  -- `start`, with the `finally`.
  unfoldable pub run : Ending → Option String → List Event → Bridge → Bridge
  unfolding set_up send_fallback loop cleanup
  run e greeting events b =
      (cleanup v.outside e v.call_session
        (converse events (set_up greeting (record b { is_active = true })))).1
