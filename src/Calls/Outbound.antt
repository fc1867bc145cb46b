-- ===== src/Calls/Outbound.antt =====
-- Calls that a user of a tenant places, `initiate_outbound_call`, and the listing of live calls, of
-- apps/api/routers/voice.py.
use calling_agent.Prelude.{
  ℕ, leb, String, Bool, false, not, ◌&&◌, ◌||◌, Option, none, some, List, [], ◌∷◌, ◌++◌, select,
  str_eq, if◌then◌else◌,
}
use calling_agent.Http.{
  http, Result, ok, err, Action, pure, raise, raise_if, query, gets, modify, ◌>>=◌,
}
use calling_agent.Repo.{Row, in_tenant, get_by_id, scalar_one_or_none}
use calling_agent.Agents.{Agent}
use calling_agent.Auth.{User, Role}
use calling_agent.Access.{require_roles}
use calling_agent.Compliance.{check_can_call}
use calling_agent.Sessions.{
  Python, Redis, Key, Dict, lookup, text_or, fields_of, get_active_sessions_count,
}
use calling_agent.Calls.{
  World, Provider, PhoneNumber, OutboundCallRequest, OutboundCall, CallStatusResponse, Url,
  takes_calls, pending,
}

-- `get_by_number`
unfoldable pub get_by_number :
    Option ℕ → String → List (Row PhoneNumber) → Result (Option (Row PhoneNumber))
get_by_number tenant number rows =
    scalar_one_or_none (select (λ r. str_eq r.body.number number && in_tenant tenant r) rows)

-- `d.get(key) == s`
abbrev pub has_text : Dict → String → String → Bool
has_text d key s = elim (lookup key d) [ none ↦ false | some t ↦ str_eq t s ]

-- Redis, and the calls that the providers were asked to place.
pub record State (S : Type 0) : Type 0 where
  pub redis : Option S
  pub asked : List OutboundCall

module _ (py : Python) (R : Redis) (w : World) where
  open R use {Store, value}

  abbrev pub provider_of : Option (Row PhoneNumber) → Provider
  provider_of none = Provider.twilio
  provider_of (some r) =
      if str_eq (w.lower r.body.provider) "plivo" then Provider.plivo else Provider.twilio

  -- No limit where there is no Redis.
  abbrev pub at_limit : ℕ → Option Store → Bool
  at_limit tenant none = false
  at_limit tenant (some s) =
      leb w.settings.call_max_concurrent_per_tenant
        (get_active_sessions_count py R (w.show tenant) s)

  abbrev pub published : Option (Row Agent) → Action (State Store) (Row Agent)
  published none = raise (http 404 "Published agent not found")
  published (some a) =
      if takes_calls a.body then pure a else raise (http 404 "Published agent not found")

  abbrev pub has_version : Option ℕ → Action (State Store) (Unit {0})
  has_version none = raise (http 400 "Agent has no published version")
  has_version (some v) = pure tt

  abbrev pub call_of : OutboundCallRequest → String → Option (Row PhoneNumber) → OutboundCall
  call_of wanted call_id phone = record {
    provider = provider_of phone;
    to_number = wanted.to_number;
    from_number = wanted.from_number;
    webhook_url = Url.inbound_url wanted.agent_id;
    status_callback_url = Url.status_url call_id;
    call_id = call_id;
  }

  abbrev pub answered : Result String → Result String
  answered (ok sid) = ok sid
  answered (err e) = err (http 502 "Failed to initiate call")

  abbrev pub place : OutboundCall → Action (State Store) String
  place c st = (answered (w.answer c), record st { asked = st.asked ++ c ∷ [] })

  -- The details of the refusals are given without the number and the exception.
  unfoldable pub initiate_outbound_call :
      Row User → ℕ → OutboundCallRequest → ℕ → Action (State Store) CallStatusResponse
  unfolding require_roles check_can_call get_by_number
  initiate_outbound_call user tenant wanted drawn = do
    _ ←
        query (λ st.
          require_roles (Role.tenant_owner ∷ Role.tenant_admin ∷ Role.agent_manager ∷ []) user)
    found ← query (λ st. get_by_id (some tenant) wanted.agent_id w.db.agents)
    agent ← published found
    _ ← has_version agent.body.published_version_id
    full ← gets (λ st. at_limit tenant st.redis)
    _ ← raise_if full (http 429 "Concurrent call limit exceeded")
    can_call ← query (λ st. check_can_call tenant wanted.to_number tenant w.dnc)
    _ ← raise_if (not can_call) (http 400 "Cannot call")
    _ ← modify (λ st. record st { redis = pending py R w (w.show drawn) tenant st.redis })
    phone ← query (λ st. get_by_number (some tenant) wanted.from_number w.phone_numbers)
    _ ← place (call_of wanted (w.show drawn) phone)
    pure (record {
      call_id = w.show drawn;
      status = "initiated";
      agent_id = some (w.show wanted.agent_id);
      direction = some "outbound";
    })

  abbrev pub is_active_call : ℕ → Dict → Bool
  is_active_call tenant d =
      has_text d "tenant_id" (w.show tenant)
      && (has_text d "state" "connecting" || has_text d "state" "active")

  abbrev pub status_of : Dict → CallStatusResponse
  status_of d = record {
    call_id = text_or d "call_id" "";
    status = text_or d "state" "";
    agent_id = lookup "agent_id" d;
    direction = lookup "direction" d;
  }

  -- The loop over the keys that `scan_iter` gives.
  unfoldable pub active_calls : ℕ → List String → Store → List CallStatusResponse
  active_calls tenant [] s = []
  active_calls tenant (id ∷ ids) s =
      let rest = active_calls tenant ids s in
      let d = fields_of (value (Key.call_session id) s) in
      if is_active_call tenant d then status_of d ∷ rest else rest

  -- `scan_iter` is the scan for the keys of call sessions.
  unfoldable pub list_active_calls :
      (Store → List String) → Row User → ℕ → Option Store → Result (List CallStatusResponse)
  list_active_calls scan_iter user tenant s =
      elim (require_roles (Role.tenant_owner ∷ Role.tenant_admin ∷ Role.supervisor ∷ []) user) [
        | err e ↦ err e
        | ok _ ↦ elim s [ none ↦ ok [] | some t ↦ ok (active_calls tenant (scan_iter t) t) ]
      ]
