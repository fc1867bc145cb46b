-- ===== src/Calls/Inversion.antt =====
-- What a check of a media stream that passed has found, and what a bridged stream has read and written.
use calling_agent.Prelude.{
  ◌≡◌, refl, sym, ap, ◌∙◌, ◌<◌, arith, ℕ, leb, String, Bool, true, false, not, Option, none, some,
  str_eq, eq_iff, truthy, if◌then◌else◌,
}
use mathlib.Core.Path.{subst}
use calling_agent.Http.{Result, ok, err}
use calling_agent.Repo.{Row, get_by_id}
use calling_agent.Agents.{Agent, AgentVersion}
use calling_agent.Billing.{check_usage_limit}
use calling_agent.Sessions.{
  CallSession, Python, Redis, text_or, get_pending_tenant, delete_pending_session,
  get_active_sessions_count,
}
use calling_agent.Calls.{World}
use calling_agent.Calls.Keys.{count-delete_pending}
use calling_agent.Calls.Stream.{
  Start, Frame, Refusal, Outcome, Check, stop, go, go->>=, require, parsed, found, present,
  within_usage, agent_of, admit, call_session, open_session, start_bridge, is_verified,
  stream_started, keep, voice_stream_websocket,
}

parsed-go : (x : Option ℕ) (n : ℕ) → parsed x ≡ go n → x ≡ some n
parsed-go none n h = absurd (ground arith)
parsed-go (some m) n h = ground arith

found-go : {A : Type 0} (x : Result (Option A)) (a : A) → found x ≡ go a → x ≡ ok (some a)
found-go (err e) a h = absurd (ground arith)
found-go (ok none) a h = absurd (ground arith)
found-go (ok (some b)) a h = ground arith

present-go : {A : Type 0} (x : Option A) (a : A) → present x ≡ go a → x ≡ some a
present-go none a h = absurd (ground arith)
present-go (some b) a h = ground arith

require-go : (b : Bool) (u : Unit {0}) → require b ≡ go u → b ≡ true
require-go true u h = refl
require-go false u h = absurd (ground arith)

within_usage-go : (x : Result Bool) (u : Unit {0}) → within_usage x ≡ go u → x ≡ ok false
within_usage-go (err e) u h = absurd (ground arith)
within_usage-go (ok true) u h = absurd (ground arith)
within_usage-go (ok false) u h = refl

if-go :
    {A : Type 0} (b : Bool) (m : Check A) (a : A)
    → (if b then m else stop Refusal.closed) ≡ go a
    → m ≡ go a
if-go true m a h = h
if-go false m a h = absurd (ground arith)

agent_of-go :
    (w : World) (tenant : ℕ) (agent_id : String) (agent : Row Agent)
    → agent_of w tenant agent_id ≡ go agent
    → (a : ℕ) × (w.uuid agent_id ≡ some a)
      × (get_by_id (some tenant) a w.db.agents ≡ ok (some agent))
agent_of-go w tenant agent_id agent h =
    let (a, p, q) = go->>= (parsed (w.uuid agent_id)) _ agent (if-go (truthy agent_id) _ agent h) in
    (a, parsed-go _ a p, found-go _ agent q)

module _ (py : Python) (R : Redis) (w : World) where
  open R use {Store}

  -- The checks of a stream, passed: the tenant, his agent with a published version that is the
  -- tenant's too, fewer calls than the limit, and minutes left.
  abbrev pub Admitted : String → String → Store → Row AgentVersion → Type 0
  Admitted tenant_id agent_id s version =
      (tenant : ℕ) × (w.uuid tenant_id ≡ some tenant)
      × (a : ℕ) × (w.uuid agent_id ≡ some a)
      × (agent : Row Agent) × (get_by_id (some tenant) a w.db.agents ≡ ok (some agent))
      × (v : ℕ) × (agent.body.published_version_id ≡ some v)
      × (get_by_id (some tenant) v w.db.versions ≡ ok (some version))
      × (get_active_sessions_count py R tenant_id s < w.settings.call_max_concurrent_per_tenant)
      × (check_usage_limit tenant w.now w.month w.subscriptions w.usage ≡ ok false)

  pub admit-go :
      (tenant_id agent_id : String) (s : Store) (version : Row AgentVersion)
      → admit py R w tenant_id agent_id s ≡ go version
      → Admitted tenant_id agent_id s version
  unfolding admit
  admit-go tenant_id agent_id s version h =
      let (tenant, a, h1) = go->>= (parsed (w.uuid tenant_id)) _ version h in
      let (agent, b, h2) = go->>= (agent_of w tenant agent_id) _ version h1 in
      let (v, c, h3) = go->>= (present agent.body.published_version_id) _ version h2 in
      let (ver, d, h4) = go->>= (found (get_by_id (some tenant) v w.db.versions)) _ version h3 in
      let (_, e, h5) =
        go->>=
          (require (
            not (
              leb w.settings.call_max_concurrent_per_tenant
                (get_active_sessions_count py R tenant_id s))))
          _ version h4 in
      let (_, f, h6) =
        go->>= (within_usage (check_usage_limit tenant w.now w.month w.subscriptions w.usage)) _
          version h5 in
      let (n, p, q) = agent_of-go w tenant agent_id agent b in
      (
        tenant,
        parsed-go _ tenant a,
        n,
        p,
        agent,
        q,
        v,
        present-go _ v c,
        let x = found-go _ ver d in cc,
        let y = require-go _ _ e in ground arith,
        within_usage-go _ _ f,
      )

  start_bridge-bridged :
      (call_id : String) (f : Start) (s : Store) (c : Check (Row AgentVersion))
      (version : Row AgentVersion) (session : CallSession) (t : Store)
      → start_bridge py R w call_id f s c ≡ (Outcome.bridged version session, t)
      → (c ≡ go version)
        × (session ≡ call_session py R w call_id f version)
        × (t ≡ open_session py R w call_id f session s)
  start_bridge-bridged call_id f s (stop r) version session t h = absurd (ground arith)
  start_bridge-bridged call_id f s (go x) version session t h =
      let e : x ≡ version = cc in
      let e' : call_session py R w call_id f x ≡ session = cc in
      let e'' : open_session py R w call_id f (call_session py R w call_id f x) s ≡ t = cc in
      (
        ap go e,
        sym e' ∙ ap (call_session py R w call_id f) e,
        sym e'' ∙ ap (λ z. open_session py R w call_id f z s) e',
      )

  is_verified-some :
      (p : Option String) (tenant_id : String)
      → is_verified py R w p tenant_id ≡ true
      → p ≡ some tenant_id
  is_verified-some none tenant_id h = absurd (ground arith)
  is_verified-some (some verified) tenant_id h = ap some ((eq_iff verified tenant_id).0 h)

  if-bridged :
      (b : Bool) (x : Outcome × Store) (s : Store) (version : Row AgentVersion)
      (session : CallSession) (t : Store)
      → (if b then x else (Outcome.refused Refusal.violated, s))
        ≡ (Outcome.bridged version session, t)
      → (b ≡ true) × (x ≡ (Outcome.bridged version session, t))
  if-bridged true x s version session t h = (refl, h)
  if-bridged false x s version session t h = absurd (ground arith)

  Admitted-delete :
      (call_id tenant_id agent_id : String) (s : Store) (version : Row AgentVersion)
      → Admitted tenant_id agent_id (delete_pending_session py R call_id s) version
      → Admitted tenant_id agent_id s version
  Admitted-delete call_id tenant_id agent_id s version (t, a, n, b, agent, c, v, d, e, f, g) =
      (t, a, n, b, agent, c, v, d, e, rw (sym (count-delete_pending py R tenant_id call_id s)) f, g)

  -- What a bridged stream has found, and what it has written.
  stream_started-bridged :
      (call_id : String) (f : Start) (s : Store) (version : Row AgentVersion)
      (session : CallSession) (t : Store)
      → stream_started py R w call_id f s ≡ (Outcome.bridged version session, t)
      → (get_pending_tenant py R call_id s ≡ some session.tenant_id)
        × Admitted session.tenant_id session.agent_id s version
        × (session.call_id ≡ call_id)
        × (t ≡ open_session py R w call_id f session (delete_pending_session py R call_id s))
  stream_started-bridged call_id f s version session t h =
      let tenant_id = text_or f.custom "tenant_id" "" in
      let agent_id = text_or f.custom "agent_id" "" in
      let pending = get_pending_tenant py R call_id s in
      let left = delete_pending_session py R call_id s in
      let (verified, started) =
        if-bridged (is_verified py R w pending tenant_id) _ s version session t h in
      let (admitted, opened, written) =
        start_bridge-bridged call_id f left (admit py R w tenant_id agent_id left) version session t
          started in
      (
        is_verified-some pending tenant_id verified ∙ ap (λ z. some z.tenant_id) (sym opened),
        subst (λ z. Admitted z.tenant_id z.agent_id s version) (sym opened)
            (Admitted-delete call_id tenant_id agent_id s version
              (admit-go tenant_id agent_id left version admitted)),
        ap (λ z. z.call_id) opened,
        written,
      )

  started-bridged :
      (b : Bool) (x : Outcome × Store) (s : Store) (version : Row AgentVersion)
      (session : CallSession) (after : Option Store)
      → keep py R w (if b then x else (Outcome.refused Refusal.closed, s))
        ≡ (Outcome.bridged version session, after)
      → (t : Store) × (x ≡ (Outcome.bridged version session, t)) × (after ≡ some t)
  started-bridged true (o, t) s version session after h = (t, cc, cc)
  started-bridged false x s version session after h = absurd (ground arith)

  -- A bridged stream has had its Redis and its two messages.
  pub route-bridged :
      (call_id : String) (first second : Frame) (redis : Option Store) (version : Row AgentVersion)
      (session : CallSession) (after : Option Store)
      → voice_stream_websocket py R w call_id first second redis
        ≡ (Outcome.bridged version session, after)
      → (s : Store) × (redis ≡ some s)
        × (f : Start) × (t : Store) × (after ≡ some t)
        × (get_pending_tenant py R call_id s ≡ some session.tenant_id)
        × Admitted session.tenant_id session.agent_id s version
        × (session.call_id ≡ call_id)
        × (t ≡ open_session py R w call_id f session (delete_pending_session py R call_id s))
  unfolding voice_stream_websocket
  route-bridged call_id first second none version session after h = absurd (ground arith)
  route-bridged call_id none second (some s) version session after h = absurd (ground arith)
  route-bridged call_id (some x) none (some s) version session after h = absurd (ground arith)
  route-bridged call_id (some x) (some f) (some s) version session after h =
      let (t, started, e) =
        started-bridged (str_eq f.event "start") (stream_started py R w call_id f s) s version
          session after h in
      let (a, b, c, d) = stream_started-bridged call_id f s version session t started in
      (s, refl, f, t, e, a, b, c, d)
