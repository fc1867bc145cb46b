-- ===== src/Calls/Admission.antt =====
-- What must hold before a media stream is bridged.
use calling_agent.Prelude.{◌≡◌, ◌≢◌, sym, ap, ◌∙◌, arith, String, Option, none, some}
use calling_agent.Repo.{Row}
use calling_agent.Agents.{AgentVersion}
use calling_agent.Sessions.{CallSession, Python, Redis, get_pending_tenant}
use calling_agent.Calls.{World}
use calling_agent.Calls.Keys.{pending-update, pending-create, pending-delete}
use calling_agent.Calls.Inversion.{Admitted, route-bridged}
use calling_agent.Calls.Stream.{Frame, Outcome, voice_stream_websocket}

module _ (py : Python) (R : Redis) (w : World) where
  open R use {Store}

  -- A media stream is bridged only if a webhook has left this call's id with the tenant that the stream
  -- names, the agent is that tenant's and has a published version, also the tenant's, the tenant has fewer live
  -- calls than the limit, and his minutes are not used up. The session of the bridge bears this call's id.
  pub stream_admission :
      (call_id : String) (first second : Frame) (redis : Option Store) (version : Row AgentVersion)
      (session : CallSession) (after : Option Store)
      → voice_stream_websocket py R w call_id first second redis
        ≡ (Outcome.bridged version session, after)
      → (s : Store) × (redis ≡ some s)
        × (get_pending_tenant py R call_id s ≡ some session.tenant_id)
        × Admitted py R w session.tenant_id session.agent_id s version
        × (session.call_id ≡ call_id)
  stream_admission call_id first second redis version session after h =
      let (s, a, f, t, b, c, d, e, g) =
        route-bridged py R w call_id first second redis version session after h in
      (s, a, c, d, e)

  -- The id is used up: the pending tenant is gone from the store of a bridged stream.
  used_up :
      (call_id : String) (first second : Frame) (redis : Option Store) (version : Row AgentVersion)
      (session : CallSession) (t : Store)
      → voice_stream_websocket py R w call_id first second redis
        ≡ (Outcome.bridged version session, some t)
      → get_pending_tenant py R call_id t ≡ none
  used_up call_id first second redis version session t h =
      let (s, a, f, u, b, c, d, e, g) =
        route-bridged py R w call_id first second redis version session (some t) h in
      let same : t ≡ u = cc in
      ap (get_pending_tenant py R call_id) (same ∙ g)
      ∙ pending-update py R call_id w.clock call_id _ _
      ∙ pending-create py R call_id session _
      ∙ pending-delete py R call_id s

  -- After a stream of a call is bridged, no second stream with the id of that call is, whatever messages it
  -- sends.
  pub stream_once :
      (call_id : String) (first second first' second' : Frame) (redis : Option Store)
      (version version' : Row AgentVersion) (session session' : CallSession)
      (after after' : Option Store)
      → voice_stream_websocket py R w call_id first second redis
        ≡ (Outcome.bridged version session, after)
      → voice_stream_websocket py R w call_id first' second' after
        ≢ (Outcome.bridged version' session', after')
  stream_once call_id first second first' second' redis version version' session session' after
        after' h h' =
      let (s, a, b, c, d) =
        stream_admission call_id first' second' after version' session' after' h' in
      let gone = used_up call_id first second redis version session s (rw (sym a) h) in
      absurd (ground arith)
