-- ===== src/Voice/Billing.antt =====
-- What a call costs, and what is written when it ends.
use calling_agent.Prelude.{
  ℤ, ◌≡◌, refl, ap, ◌∙◌, inl, inr, In, Option-cases, ◌≤◌, ◌<◌, ℕ, ◌-◌, ◌*◌, arith, true, false,
  String, Option, none, some, List, [], ◌∷◌, ◌++◌,
}
use mathlib.Core.List.{append_assoc}
use mathlib.Core.Path.{subst}
use calling_agent.Voice.{Bridge, CallSession, Output, Outside, emit, attempt}
use calling_agent.Voice.Handlers.{Voice}
use calling_agent.Voice.Cleanup.{
  Ending, duration_secs, billable_minutes, cost_cents, call_log, usage_record, sentiment,
  uuids_parse, persist_call, close_session, cleanup,
}
use calling_agent.Voice.Run.{Event, set_up, converse, run}

-- A call is billed by the least number of whole minutes that covers its duration, one at least; the log
-- and the usage record have the same cost, five cents for each of these minutes.
pub usage-minutes :
    (s : CallSession) (elapsed : Option ℤ) (b : Bridge)
    → let d = duration_secs elapsed in
      let u = usage_record s d in
      (1 ≤ d)
      × (1 ≤ u.quantity)
      × (d ≤ 60 * u.quantity)
      × (60 * (u.quantity - 1) < d)
      × (u.total_cost_cents ≡ u.quantity * u.unit_cost_cents)
      × ((call_log s d b).cost_cents ≡ u.total_cost_cents)
      × ((call_log s d b).duration_seconds ≡ d)
unfolding usage_record call_log duration_secs billable_minutes cost_cents
usage-minutes s none b = (ground arith, ground arith, ground arith, ground arith, refl, refl, refl)
usage-minutes s (some (ℤ.pos n)) b =
    (omega arith, omega arith, omega arith, omega arith, refl, refl, refl)
usage-minutes s (some (ℤ.negsuc n)) b =
    (ground arith, ground arith, ground arith, ground arith, refl, refl, refl)

-- What goes out when a call ends.
abbrev pub last_outputs : Voice → Ending → Bridge → List Output
last_outputs v e b =
    let d = duration_secs e.elapsed in
    Output.disconnect
    ∷ Output.update_session (("state", "completed") ∷ [])
    ∷ Output.delete_session v.call_session.call_id v.call_session.tenant_id
    ∷ Output.persist (call_log v.call_session d b) (usage_record v.call_session d)
    ∷ Output.dispatch_event "call.completed" d (sentiment b)
    ∷ Output.post_call
    ∷ []

-- The state at the end of the conversation, before `_cleanup`.
unfoldable pub conversation : Voice → Option String → List Event → Bridge → Bridge
conversation v greeting events b =
    converse v events (set_up v greeting (record b { is_active = true }))

cleanup-accepted :
    (e : Ending) (s : CallSession) (b : Bridge)
    → uuids_parse e s ≡ true
    → (cleanup (λ outs o. none) e s b).1.outputs
      ≡ b.outputs
        ++ Output.disconnect
          ∷ Output.update_session (("state", "completed") ∷ [])
          ∷ Output.delete_session s.call_id s.tenant_id
          ∷ Output.persist
              (call_log s (duration_secs e.elapsed) b)
              (usage_record s (duration_secs e.elapsed))
          ∷ Output.dispatch_event "call.completed" (duration_secs e.elapsed) (sentiment b)
          ∷ Output.post_call
          ∷ []
unfolding cleanup attempt emit close_session persist_call call_log
cleanup-accepted e s b parse = rw parse (simp (append_assoc))

-- A call whose ids parse, with everything outside in order, ends with these six outputs after those of
-- the conversation: OpenAI is left, the session in Redis is completed and deleted, the call log of the
-- conversation and its usage are written together, and the webhook and the background task are started.
pub run_writes :
    (v : Voice) (e : Ending) (greeting : Option String) (events : List Event) (b : Bridge)
    → ((outs : List Output) (o : Output) → v.outside outs o ≡ none)
    → uuids_parse e v.call_session ≡ true
    → (run v e greeting events b).outputs
      ≡ (conversation v greeting events b).outputs
        ++ last_outputs v e (conversation v greeting events b)
unfolding run conversation
run_writes v e greeting events b accepts parse =
    let accepting : v.outside ≡ (λ outs o. none) = λ i outs o. accepts outs o i in
    let c = converse v events (set_up v greeting (record b { is_active = true })) in
    ap (λ f. (cleanup f e v.call_session c).1.outputs) accepting
    ∙ cleanup-accepted e v.call_session c parse

abbrev Written : CallSession → ℕ → Bridge → Output
Written s d b = Output.persist (call_log s d b) (usage_record s d)

In-last : (o : Output) (xs : List Output) → In o (xs ++ o ∷ [])
In-last o [] = inl refl
In-last o (x ∷ xs) = inr (In-last o xs)

In-append : (o y : Output) (xs : List Output) → In o xs → In o (xs ++ y ∷ [])
In-append o y [] h = absurd h
In-append o y (x ∷ xs) (inl e) = inl e
In-append o y (x ∷ xs) (inr h) = inr (In-append o y xs h)

module _ (outside : Outside) (e : Ending) (s : CallSession) where
  -- Leaving the session writes neither the transcript nor the tools' log.
  close_session-call_log :
      (d : ℕ) (b : Bridge) → call_log s d (close_session outside e s b).1 ≡ call_log s d b
  unfolding close_session emit call_log
  close_session-call_log d b =
      elim (Option-cases
        (outside b.outputs (Output.update_session (("state", "completed") ∷ [])))) [
          | inl h ↦ rw h
          | inr (x, h) ↦ rw h
        ]

  persist_call-In :
      (b : Bridge)
      → uuids_parse e s ≡ true
      → In (Written s (duration_secs e.elapsed) b) (persist_call outside e s b).1.outputs
  unfolding persist_call emit
  persist_call-In b parse =
      let d = duration_secs e.elapsed in
      elim (Option-cases (outside b.outputs (Written s d b))) [
        | inl h ↦
            rw (parse, h)
              (In-append (Written s d b) (Output.dispatch_event "call.completed" d (sentiment b)) _
                (In-last (Written s d b) b.outputs))
        | inr (x, h) ↦ rw (parse, h) (In-last (Written s d b) b.outputs)
      ]

  cleanup-In :
      (b : Bridge)
      → uuids_parse e s ≡ true
      → In (Written s (duration_secs e.elapsed) b) (cleanup outside e s b).1.outputs
  unfolding cleanup attempt emit call_log
  cleanup-In b parse =
      let d = duration_secs e.elapsed in
      let left : Bridge = record b {
        is_active = false;
        outputs = b.outputs ++ Output.disconnect ∷ [];
      } in
      let closed = (close_session outside e s left).1 in
      In-append (Written s d b) Output.post_call _ (
        subst
          (λ l.
            In (Output.persist l (usage_record s d)) (persist_call outside e s closed).1.outputs)
          (close_session-call_log d left) (persist_call-In closed parse))

-- Whatever fails of the connection to OpenAI, of Redis, of the webhook or of the handlers, a call whose
-- ids parse has the call log of its conversation and its usage handed to the database when it ends.
pub run_bills :
    (v : Voice) (e : Ending) (greeting : Option String) (events : List Event) (b : Bridge)
    → uuids_parse e v.call_session ≡ true
    → In
        (Output.persist
          (call_log v.call_session (duration_secs e.elapsed) (conversation v greeting events b))
          (usage_record v.call_session (duration_secs e.elapsed)))
        (run v e greeting events b).outputs
unfolding run conversation
run_bills v e greeting events b parse = cleanup-In v.outside e v.call_session _ parse
