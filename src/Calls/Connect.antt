-- ===== src/Calls/Connect.antt =====
-- That an inbound call which its webhook accepts gets its bridge.
use calling_agent.Prelude.{
  ◌≡◌, refl, ap, ◌<◌, arith, ℕ, leb, String, true, false, none, some, List, [], ◌∷◌, select, eq_iff,
  ==_refl, truthy,
}
use calling_agent.Http.{ok}
use calling_agent.Repo.{Row, at_id, get_by_id, scalar_one_or_none, scalar-some}
use calling_agent.Agents.{Agent, AgentVersion}
use calling_agent.Billing.{check_usage_limit}
use calling_agent.Sessions.{
  CallSession, Python, Redis, Dict, text_or, create_pending_session, get_pending_tenant,
  delete_pending_session, get_active_sessions_count,
}
use calling_agent.Calls.{
  World, Request, Xml, Url, verify_webhook_request, takes_calls, stream_parameters,
  inbound_call_webhook,
}
use calling_agent.Calls.Keys.{count-create_pending, count-delete_pending, pending-create_pending}
use calling_agent.Calls.Stream.{
  Start, Outcome, go, found, admit, call_session, is_verified, stream_started,
  voice_stream_websocket,
}

-- A row that is found by its key alone is found in its tenant.
get_by_id-own :
    {B : Type 0} (id : ℕ) (rows : List (Row B)) (r : Row B)
    → get_by_id none id rows ≡ ok (some r)
    → get_by_id (some r.tenant_id) id rows ≡ ok (some r)
unfolding get_by_id
get_by_id-own {B} id rows r h = ap scalar_one_or_none (narrow rows (scalar-some _ r h))
  where
    empty :
        (t : ℕ) (xs : List (Row B))
        → select (at_id none id) xs ≡ []
        → select (at_id (some t) id) xs ≡ []
    empty t [] e = refl
    empty t (x ∷ xs) e = ground (arith, empty t xs)

    narrow :
        (xs : List (Row B))
        → select (at_id none id) xs ≡ r ∷ []
        → select (at_id (some r.tenant_id) id) xs ≡ r ∷ []
    narrow [] e = ground arith
    narrow (x ∷ xs) e = ground (arith, empty r.tenant_id xs, narrow xs, ==_refl r.tenant_id)

module _ (py : Python) (R : Redis) (w : World) where
  open R use {Store}

  admit-goes :
      (tenant a v : ℕ) (agent : Row Agent) (version : Row AgentVersion) (s : Store)
      → w.uuid (w.show tenant) ≡ some tenant
      → w.uuid (w.show a) ≡ some a
      → truthy (w.show a) ≡ true
      → get_by_id (some tenant) a w.db.agents ≡ ok (some agent)
      → agent.body.published_version_id ≡ some v
      → get_by_id (some tenant) v w.db.versions ≡ ok (some version)
      → get_active_sessions_count py R (w.show tenant) s < w.settings.call_max_concurrent_per_tenant
      → check_usage_limit tenant w.now w.month w.subscriptions w.usage ≡ ok false
      → admit py R w (w.show tenant) (w.show a) s ≡ go version
  unfolding admit
  admit-goes tenant a v agent version s p0 p1 p2 p3 p4 p5 p6 p7 =
      let room : leb w.settings.call_max_concurrent_per_tenant
            (get_active_sessions_count py R (w.show tenant) s)
          ≡ false =
        ground arith in
      rw (p0, p2, p1, p3, p4, p5, room, p7) refl

  start_bridged :
      (call_id : String) (f : Start) (s : Store) (version : Row AgentVersion)
      → is_verified py R w (get_pending_tenant py R call_id s) (text_or f.custom "tenant_id" "")
        ≡ true
      → admit py R w
          (text_or f.custom "tenant_id" "")
          (text_or f.custom "agent_id" "")
          (delete_pending_session py R call_id s)
        ≡ go version
      → (stream_started py R w call_id f s).0
        ≡ Outcome.bridged version (call_session py R w call_id f version)
  start_bridged call_id f s version h k = rw (h, k) refl

  -- A verified inbound call for an active published agent is answered with a stream, and the stream that
  -- hands the answer's parameters back is bridged, to the version that the agent has published: where this
  -- version is the tenant's, the tenant has fewer live calls than the limit and minutes left. A UUID is
  -- read back from its text, which is not empty.
  pub inbound_call_bridged :
      (r : Request) (a drawn v : ℕ) (agent : Row Agent) (version : Row AgentVersion) (s : Store)
      (first : Start) (start : Dict)
      → ((n : ℕ) → w.uuid (w.show n) ≡ some n)
      → ((n : ℕ) → truthy (w.show n) ≡ true)
      → verify_webhook_request w r ≡ ok tt
      → get_by_id none a w.db.agents ≡ ok (some agent)
      → takes_calls agent.body ≡ true
      → agent.body.published_version_id ≡ some v
      → get_by_id (some agent.tenant_id) v w.db.versions ≡ ok (some version)
      → get_active_sessions_count py R (w.show agent.tenant_id) s
        < w.settings.call_max_concurrent_per_tenant
      → check_usage_limit agent.tenant_id w.now w.month w.subscriptions w.usage ≡ ok false
      → (parameters : Dict) × (t : Store) × (inbound_call_webhook py R w r a drawn (some s)
          ≡ (ok (Xml.connect (Url.stream_url (w.show drawn)) parameters), some t))
        × (session : CallSession) × ((voice_stream_websocket py R w
              (w.show drawn)
              (some first)
              (some (record { event = "start"; start = start; custom = parameters }))
              (some t)).0
            ≡ Outcome.bridged version session)
        × (session.tenant_id ≡ w.show agent.tenant_id)
        × (session.from_number ≡ text_or r.form "From" "")
  unfolding inbound_call_webhook voice_stream_websocket
  inbound_call_bridged r a drawn v agent version s first start read full verified found live point
        own room left =
      let id = w.show drawn in
      let parameters = stream_parameters w id a agent.tenant_id r in
      let t = create_pending_session py R id (w.show agent.tenant_id) s in
      let f : Start = record { event = "start"; start = start; custom = parameters } in
      (
        parameters,
        t,
        rw (verified, found, live) refl,
        call_session py R w id f version,
        start_bridged id f t version
            (rw (pending-create_pending py R id (w.show agent.tenant_id) s (full agent.tenant_id))
              ((eq_iff (w.show agent.tenant_id) (w.show agent.tenant_id)).1 refl))
            (admit-goes agent.tenant_id a v agent version _ (read agent.tenant_id) (read a) (full a)
              (own_agent) point own few left),
        refl,
        refl,
      )
    where
      own_agent : get_by_id (some agent.tenant_id) a w.db.agents ≡ ok (some agent)
      own_agent = get_by_id-own a w.db.agents agent found

      few :
          get_active_sessions_count py R (w.show agent.tenant_id) (
            delete_pending_session py R
              (w.show drawn)
              (create_pending_session py R (w.show drawn) (w.show agent.tenant_id) s))
          < w.settings.call_max_concurrent_per_tenant
      few = rw (count-delete_pending, count-create_pending) room
