-- ===== src/Voice/Cleanup.antt =====
-- `_cleanup`: what is written when a call ends. `Ending` is what the clock and `uuid.UUID` say.
use calling_agent.Prelude.{
  ℤ, ℕ, ◌+◌, ◌*◌, ◌/◌, max, ltb, String, Bool, true, false, ◌&&◌, Option, none, some, [], ◌∷◌,
  length, truthy, if◌then◌else◌,
}
use calling_agent.Http.{err, Action, modify, other, ◌>>◌}
use calling_agent.Voice.{Bridge, CallSession, CallLog, UsageRecord, Output, Outside, emit, attempt}

-- `(now - start_dt).total_seconds()` as an integer; the clock may have gone back.
pub record Ending : Type 0 where
  -- `none` where the session's start time does not parse.
  pub elapsed : Option ℤ
  pub is_uuid : String → Bool

-- `max(1, int(…))`
unfoldable pub duration_secs : Option ℤ → ℕ
duration_secs none = 1
duration_secs (some (ℤ.pos n)) = max 1 n
duration_secs (some (ℤ.negsuc n)) = 1

-- `max(1, math.ceil(d / 60))`; the float's quotient rounds up to the same integer below 2 ^ 46 seconds.
unfoldable pub billable_minutes : ℕ → ℕ
billable_minutes d = max 1 ((d + 59) / 60)

unfoldable pub cost_cents : ℕ → ℕ
cost_cents minutes = minutes * 5

abbrev pub sentiment : Bridge → String
sentiment b = if ltb 2 (length b.transcript_segments) then "positive" else "neutral"

unfoldable pub call_log : CallSession → ℕ → Bridge → CallLog
unfolding billable_minutes cost_cents
call_log s d b = record {
  tenant_id = s.tenant_id;
  call_id = s.call_id;
  direction = s.direction;
  from_number = s.from_number;
  to_number = s.to_number;
  status = "completed";
  provider_call_sid = s.provider_call_id;
  duration_seconds = d;
  transcript = b.transcript_segments;
  sentiment = sentiment b;
  cost_cents = cost_cents (billable_minutes d);
  tool_calls = b.tool_executor.execution_log;
}

unfoldable pub usage_record : CallSession → ℕ → UsageRecord
unfolding billable_minutes cost_cents
usage_record s d = record {
  tenant_id = s.tenant_id;
  call_id = s.call_id;
  metric = "voice_minutes";
  quantity = billable_minutes d;
  unit_cost_cents = 5;
  total_cost_cents = cost_cents (billable_minutes d);
  duration_seconds = d;
}

-- `uuid.UUID(s) if s else None` does not raise.
abbrev pub optional_uuid : Ending → String → Bool
optional_uuid e id = if truthy id then e.is_uuid id else true

abbrev pub uuids_parse : Ending → CallSession → Bool
uuids_parse e s =
    e.is_uuid s.tenant_id && optional_uuid e s.agent_id && optional_uuid e s.agent_version_id

module _ (outside : Outside) (e : Ending) (s : CallSession) where
  -- The third `try`: the rows, then the webhook.
  unfoldable pub persist_call : Action Bridge (Unit {0})
  unfolding duration_secs call_log usage_record
  persist_call b =
      let d = duration_secs e.elapsed in
      if uuids_parse e s
      then (emit outside (Output.persist (call_log s d b) (usage_record s d))
            >> emit outside (Output.dispatch_event "call.completed" d (sentiment b)))
          b
      else (err (other "ValueError"), b)

  unfoldable pub close_session : Action Bridge (Unit {0})
  close_session b =
      (emit outside (Output.update_session (("state", "completed") ∷ []))
          >> emit outside (Output.delete_session s.call_id s.tenant_id))
        b

  unfoldable pub cleanup : Action Bridge (Unit {0})
  unfolding attempt
  cleanup =
      modify (λ b. record b { is_active = false })
      >> attempt (emit outside Output.disconnect)
      >> attempt close_session
      >> attempt persist_call
      >> attempt (emit outside Output.post_call)
