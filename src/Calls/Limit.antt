-- ===== src/Calls/Limit.antt =====
-- That the running calls of a tenant stay within the limit, over any sequence of the webhooks, of the streams, of
-- the ends of calls and of keys whose time is over, one after the other.
use calling_agent.Prelude.{
  sym, length, truthy, if◌then◌else◌, ◌≡◌, refl, inl, inr, ◌≤◌, ◌<◌, arith, ℕ, String, Bool, false,
  true, Option, none, some, List, [], ◌∷◌, All, str_eq, eq_iff, Bool-cases,
}
use calling_agent.Repo.{Row}
use calling_agent.Agents.{AgentVersion}
use calling_agent.Sessions.{
  add_member, drop_member, CallSession, Python, Redis, Key, Value, text_or, create_session,
  delete_session, get_pending_tenant, delete_pending_session, get_active_sessions_count,
}
use calling_agent.Calls.{World}
use mathlib.Core.Path.{subst}
use calling_agent.Sessions.Count.{Register, changed, created_members, deleted_members, kept_members}
use calling_agent.Calls.Sets.{
  Covers, Covers-length, Covers-with_member, Covers-drop, Covers-without_member,
}
use calling_agent.Calls.Events.{
  Event, calls_in, streams, reports, ends, drops, IsUnder, in_redis, happen, calls_of,
  set-delete_pending, set-update, calls_of-calls_in, calls_of-reports,
}
use calling_agent.Calls.Inversion.{admit-go}
use calling_agent.Calls.Stream.{
  Start, Frame, Check, stop, go, admit, call_session, start_bridge, is_verified, stream_started,
  second_frame, Outcome, voice_stream_websocket,
}

-- The bridges that run, by tenant and call: a bridged stream starts one, and its end stops it.
abbrev after_stream : Outcome → Register → Register
after_stream (Outcome.refused why) r = r
after_stream (Outcome.bridged version session) r =
    changed session.tenant_id (add_member session.call_id) r

module _ (py : Python) (R : Redis) where
  open R use {Store, value, delete}

  unfoldable pub follow : Event → Option Store → Register → Register
  unfolding voice_stream_websocket
  follow (streams w call_id first second) s r =
      after_stream (voice_stream_websocket py R w call_id first second s).0 r
  follow (ends call_id tenant) s r = changed tenant (drop_member call_id) r
  follow _ s r = r

  -- The calls that run after a sequence of events.
  unfoldable pub running_after : List Event → Option Store → Register → Register
  unfolding follow happen
  running_after [] s r = r
  running_after (e ∷ events) s r = running_after events (happen py R e s) (follow e s r)

  abbrev Holds : ℕ → Register → Option Store → Type 0
  Holds limit r s = (tenant : String) → Covers limit (r tenant) (calls_of py R tenant s)

  -- One tenant changes and the others stay.
  if-Covers :
      (limit : ℕ) (b : Bool) (xs ys : List String) (v w : Value)
      → Covers limit xs v
      → Covers limit ys w
      → Covers limit (if b then ys else xs) (if b then w else v)
  if-Covers limit true xs ys v w h k = k
  if-Covers limit false xs ys v w h k = h

  Covers-≡ :
      (limit : ℕ) (xs : List String) (v w : Value) → v ≡ w → Covers limit xs w → Covers limit xs v
  Covers-≡ limit xs v w e h = subst (Covers limit xs) (sym e) h

  module _ (w : World) (limit : ℕ) (under : w.settings.call_max_concurrent_per_tenant ≤ limit) where
    create-Holds :
        (session : CallSession) (r : Register) (s : Store)
        → Holds limit r (some s)
        → get_active_sessions_count py R session.tenant_id s < limit
        → Holds limit
            (changed session.tenant_id (add_member session.call_id) r)
            (some (create_session py R session s))
    unfolding get_active_sessions_count
    create-Holds session r s h room tenant =
        Covers-≡ limit _ _ _ (created_members py R session s tenant)
          (elim (Bool-cases (str_eq tenant session.tenant_id)) [
            | inl e ↦
                let same : tenant ≡ session.tenant_id = (eq_iff tenant session.tenant_id).0 e in
                rw e (Covers-with_member limit session.call_id _ _ (h tenant) (rw same room))
            | inr e ↦ rw e (h tenant)
          ])

    start_bridge-Holds :
        (call_id : String) (f : Start) (r : Register) (s : Store) (c : Check (Row AgentVersion))
        → admit py R w (text_or f.custom "tenant_id" "") (text_or f.custom "agent_id" "") s ≡ c
        → Holds limit r (some s)
        → let x = start_bridge py R w call_id f s c in Holds limit (after_stream x.0 r) (some x.1)
    start_bridge-Holds call_id f r s (stop why) e h tenant = h tenant
    start_bridge-Holds call_id f r s (go version) e h tenant =
        let (t, p0, p1, p2, p3, p4, p5, p6, p7, few, p8) =
          admit-go py R w (text_or f.custom "tenant_id" "") (text_or f.custom "agent_id" "") s
            version e in
        Covers-≡ limit _ _ _ (set-update py R tenant w.clock call_id _ _)
          (create-Holds (call_session py R w call_id f version) r s h (ground arith) tenant)

    started-Holds :
        (call_id : String) (f : Start) (r : Register) (s : Store)
        → Holds limit r (some s)
        → let x = stream_started py R w call_id f s in Holds limit (after_stream x.0 r) (some x.1)
    started-Holds call_id f r s h =
        elim (Bool-cases (
          is_verified py R w (get_pending_tenant py R call_id s)
            (text_or f.custom "tenant_id" ""))) [
              | inl e ↦ rw e (
                  start_bridge-Holds call_id f r (delete_pending_session py R call_id s) _ refl
                    (λ t. Covers-≡ limit _ _ _ (set-delete_pending py R t call_id s) (h t)))
              | inr e ↦ rw e h
            ]

    second-Holds :
        (call_id : String) (second : Frame) (r : Register) (s : Store)
        → Holds limit r (some s)
        → let x = second_frame py R w call_id second s in
          Holds limit (after_stream x.0 r) (some x.1)
    second-Holds call_id none r s h = h
    second-Holds call_id (some f) r s h = elim (Bool-cases (str_eq f.event "start")) [
      | inl e ↦ rw e (started-Holds call_id f r s h)
      | inr e ↦ rw e h
    ]

    stream-Holds :
        (call_id : String) (first second : Frame) (r : Register) (s : Option Store)
        → Holds limit r s
        → let x = voice_stream_websocket py R w call_id first second s in
          Holds limit (after_stream x.0 r) x.1
    unfolding voice_stream_websocket
    stream-Holds call_id first second r none h = h
    stream-Holds call_id none second r (some s) h = h
    stream-Holds call_id (some x) second r (some s) h = second-Holds call_id second r s h

  end-Holds :
      (limit : ℕ) (call_id t : String) (r : Register) (s : Option Store)
      → Holds limit r s
      → Holds limit
          (changed t (drop_member call_id) r)
          (in_redis py R (delete_session py R call_id (some t)) s)
  unfolding delete_session
  end-Holds limit call_id t r none h tenant = elim (Bool-cases (str_eq tenant t)) [
    | inl e ↦ rw e (Covers-drop limit call_id _ Value.missing (h tenant))
    | inr e ↦ rw e (h tenant)
  ]
  end-Holds limit call_id t r (some s) h tenant = elim (Bool-cases (truthy t)) [
    | inl full ↦ Covers-≡ limit _ _ _ (deleted_members py R call_id t s tenant full) (
        if-Covers limit (str_eq tenant t) _ _ _ _ (h tenant)
          (Covers-without_member limit call_id _ _ (h tenant)))
    | inr bare ↦
        Covers-≡ limit _ _ _ (kept_members py R call_id t s tenant bare)
          (elim (Bool-cases (str_eq tenant t)) [
            | inl e ↦
                rw e (Covers-drop limit call_id _ (value (Key.tenant_sessions tenant) s) (h tenant))
            | inr e ↦ rw e (h tenant)
          ])
  ]

  happen-Holds :
      (limit : ℕ) (e : Event) (r : Register) (s : Option Store)
      → IsUnder limit e
      → Holds limit r s
      → Holds limit (follow e s r) (happen py R e s)
  unfolding happen follow
  happen-Holds limit (calls_in w x agent_id drawn) r s under h tenant =
      Covers-≡ limit _ _ _ (calls_of-calls_in py R w x agent_id drawn s tenant) (h tenant)
  happen-Holds limit (streams w call_id first second) r s under h tenant =
      stream-Holds w limit under call_id first second r s h tenant
  happen-Holds limit (reports w call_id x) r s under h tenant =
      Covers-≡ limit _ _ _ (calls_of-reports py R w call_id x s tenant) (h tenant)
  happen-Holds limit (ends call_id t) r s under h tenant = end-Holds limit call_id t r s h tenant
  happen-Holds limit (drops k) r none under h tenant = h tenant
  happen-Holds limit (drops (Key.tenant_sessions t)) r (some s) under h tenant = cc
  happen-Holds limit (drops (Key.call_session c)) r (some s) under h tenant =
      Covers-≡ limit _ _ _ (R.value-delete (Key.tenant_sessions tenant) _ s) (h tenant)
  happen-Holds limit (drops (Key.pending_session c)) r (some s) under h tenant =
      Covers-≡ limit _ _ _ (R.value-delete (Key.tenant_sessions tenant) _ s) (h tenant)

  running-Holds :
      (limit : ℕ) (events : List Event) (r : Register) (s : Option Store)
      → All (IsUnder limit) events
      → Holds limit r s
      → (tenant : String) → length (running_after events s r tenant) ≤ limit
  unfolding running_after
  running-Holds limit [] r s under h tenant = Covers-length limit _ _ (h tenant)
  running-Holds limit (e ∷ events) r s (u, under) h tenant =
      running-Holds limit events (follow e s r) (happen py R e s) under
        (happen-Holds limit e r s u h) tenant

  -- From a Redis without live calls, and while no set of live calls is lost, no tenant has more than `limit`
  -- bridges of different calls running after any sequence of webhooks, streams, ends of calls and losses of
  -- other keys, each of which is over before the next one, where the streams come under settings of at most
  -- this limit.
  pub running_calls-within :
      (limit : ℕ) (events : List Event) (s : Option Store)
      → All (IsUnder limit) events
      → ((t : String) → calls_of py R t s ≡ Value.missing)
      → (tenant : String) → length (running_after events s (λ t. []) tenant) ≤ limit
  running_calls-within limit events s under free =
      running-Holds limit events (λ t. []) s under
        (λ t. Covers-≡ limit [] _ Value.missing (free t) (refl, tt, tt, ground arith))
