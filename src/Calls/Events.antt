-- ===== src/Calls/Events.antt =====
-- What the routes of a call, the ends of calls and the loss of keys do to the sets of live calls in Redis.
use calling_agent.Prelude.{
  ◌≡◌, refl, inl, inr, ◌≤◌, ℕ, String, false, true, Option, none, some, List, Bool-cases,
}
use calling_agent.Http.{Result, ok, err}
use calling_agent.Repo.{Row, get_by_id}
use calling_agent.Agents.{Agent}
use calling_agent.Sessions.{
  CallSession, Python, Kwarg, Redis, Key, Value, create_pending_session, update_session,
  delete_session, get_session, delete_pending_session,
}
use calling_agent.Calls.{
  World, Request, verify_webhook_request, takes_calls, pending, answer_inbound, receive_inbound,
  update_status, receive_status, call_status, is_final, inbound_call_webhook, call_status_callback,
}
use calling_agent.Calls.Stream.{Frame, voice_stream_websocket}

-- The events at Redis. A call ends with the cleanup of its bridge.
pub data Event : Type 0 where
  calls_in : World → Request → ℕ → ℕ → Event
  streams : World → String → Frame → Frame → Event
  reports : World → String → Request → Event
  ends : String → String → Event
  drops : Key → Event

-- The limit that holds when a stream comes; a key that is lost is not a set of live calls.
abbrev pub IsUnder : ℕ → Event → Type 0
IsUnder limit (streams w call_id first second) = w.settings.call_max_concurrent_per_tenant ≤ limit
IsUnder limit (drops (Key.tenant_sessions t)) = false ≡ true
IsUnder limit _ = Unit

module _ (py : Python) (R : Redis) where
  open R use {Store, value, delete}

  abbrev pub in_redis : (Store → Store) → Option Store → Option Store
  in_redis f none = none
  in_redis f (some s) = some (f s)

  unfoldable pub happen : Event → Option Store → Option Store
  unfolding inbound_call_webhook voice_stream_websocket call_status_callback delete_session
  happen (calls_in w r agent_id drawn) s = (inbound_call_webhook py R w r agent_id drawn s).1
  happen (streams w call_id first second) s =
      (voice_stream_websocket py R w call_id first second s).1
  happen (reports w call_id r) s = (call_status_callback py R w call_id r s).1
  happen (ends call_id tenant) s = in_redis (delete_session py R call_id (some tenant)) s
  happen (drops k) s = in_redis (delete k) s

  -- What the key of a tenant's live calls holds.
  abbrev pub calls_of : String → Option Store → Value
  calls_of tenant none = Value.missing
  calls_of tenant (some s) = value (Key.tenant_sessions tenant) s

  pub set-delete_pending :
      (tenant call_id : String) (s : Store)
      → value (Key.tenant_sessions tenant) (delete_pending_session py R call_id s)
        ≡ value (Key.tenant_sessions tenant) s
  unfolding delete_pending_session
  set-delete_pending tenant call_id s = simp (R.value-delete)

  set-create_pending :
      (tenant call_id t : String) (s : Store)
      → value (Key.tenant_sessions tenant) (create_pending_session py R call_id t s)
        ≡ value (Key.tenant_sessions tenant) s
  unfolding create_pending_session
  set-create_pending tenant call_id t s = simp (R.value-set)

  pub set-update :
      (tenant now call_id : String) (kwargs : List (String × Kwarg)) (s : Store)
      → value (Key.tenant_sessions tenant) (update_session py R now call_id kwargs s)
        ≡ value (Key.tenant_sessions tenant) s
  unfolding update_session
  set-update tenant now call_id kwargs s = simp (R.value-hset)

  calls-answer :
      (w : World) (r : Request) (agent_id drawn : ℕ) (found : Result (Option (Row Agent)))
      (s : Option Store) (tenant : String)
      → calls_of tenant (answer_inbound py R w r agent_id drawn found s).1 ≡ calls_of tenant s
  calls-answer w r agent_id drawn (err e) s tenant = refl
  calls-answer w r agent_id drawn (ok none) s tenant = refl
  calls-answer w r agent_id drawn (ok (some agent)) s tenant =
      elim (Bool-cases (takes_calls agent.body)) [
        | inl e ↦ rw e (calls-pending s)
        | inr e ↦ rw e refl
      ]
    where
      calls-pending :
          (s : Option Store)
          → calls_of tenant (pending py R w (w.show drawn) agent.tenant_id s) ≡ calls_of tenant s
      calls-pending none = refl
      calls-pending (some s) = set-create_pending tenant (w.show drawn) (w.show agent.tenant_id) s

  calls-receive_inbound :
      (w : World) (r : Request) (agent_id drawn : ℕ) (verified : Result (Unit {0}))
      (s : Option Store) (tenant : String)
      → calls_of tenant (receive_inbound py R w r agent_id drawn verified s).1 ≡ calls_of tenant s
  calls-receive_inbound w r agent_id drawn (err e) s tenant = refl
  calls-receive_inbound w r agent_id drawn (ok u) s tenant =
      calls-answer w r agent_id drawn (get_by_id none agent_id w.db.agents) s tenant

  pub calls_of-calls_in :
      (w : World) (r : Request) (agent_id drawn : ℕ) (s : Option Store) (tenant : String)
      → calls_of tenant (inbound_call_webhook py R w r agent_id drawn s).1 ≡ calls_of tenant s
  unfolding inbound_call_webhook
  calls_of-calls_in w r agent_id drawn s tenant =
      calls-receive_inbound w r agent_id drawn (verify_webhook_request w r) s tenant

  calls-update_status :
      (w : World) (call_id status : String) (found : Result (Option CallSession)) (s : Store)
      (tenant : String)
      → calls_of tenant (update_status py R w call_id status found s).1
        ≡ value (Key.tenant_sessions tenant) s
  calls-update_status w call_id status (err e) s tenant = refl
  calls-update_status w call_id status (ok none) s tenant = refl
  calls-update_status w call_id status (ok (some session)) s tenant =
      elim (Bool-cases (is_final (w.lower status))) [
        | inl e ↦ rw e (set-update tenant w.clock call_id _ s)
        | inr e ↦ rw e refl
      ]

  calls-receive :
      (w : World) (call_id : String) (r : Request) (verified : Result (Unit {0})) (s : Option Store)
      (tenant : String)
      → calls_of tenant (receive_status py R w call_id r verified s).1 ≡ calls_of tenant s
  calls-receive w call_id r (err e) s tenant = refl
  calls-receive w call_id r (ok u) none tenant = refl
  calls-receive w call_id r (ok u) (some s) tenant =
      calls-update_status w call_id (call_status r) (get_session py R w.clock call_id s) s tenant

  pub calls_of-reports :
      (w : World) (call_id : String) (r : Request) (s : Option Store) (tenant : String)
      → calls_of tenant (call_status_callback py R w call_id r s).1 ≡ calls_of tenant s
  unfolding call_status_callback
  calls_of-reports w call_id r s tenant =
      calls-receive w call_id r (verify_webhook_request w r) s tenant
