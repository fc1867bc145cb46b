-- ===== src/Calls/Placing.antt =====
-- What must hold before a provider is asked to place a call.
use calling_agent.Prelude.{
  ◌≡◌, refl, ap, ◌∙◌, ◌⊎◌, inl, inr, arith, ℕ, ==_refl, String, Bool, true, false, Option, some,
  List, [], ◌∷◌, ◌++◌, All, In, select, Bool-cases, Option-cases,
}
use calling_agent.Http.{ok, pure, ◌>>=◌, Found-cases, Result-cases}
use calling_agent.Repo.{Row, get_by_id, scalar-none}
use calling_agent.Agents.{Agent}
use calling_agent.Auth.{User, Role}
use calling_agent.Access.{require_roles, require_roles_iff}
use calling_agent.Compliance.{check_can_call, is_listed, get_by_phone}
use calling_agent.Sessions.{Python, Redis}
use calling_agent.Calls.{World, OutboundCallRequest, OutboundCall, CallStatusResponse, takes_calls}
use calling_agent.Calls.Outbound.{
  State, at_limit, call_of, place, get_by_number, initiate_outbound_call,
}

module _ (py : Python) (R : Redis) (w : World) where
  open R use {Store}

  abbrev pub callers : List Role
  callers = Role.tenant_owner ∷ Role.tenant_admin ∷ Role.agent_manager ∷ []

  abbrev pub Cleared : Row User → ℕ → OutboundCallRequest → Option Store → Type 0
  Cleared user tenant wanted redis =
      (require_roles callers user ≡ ok user)
      × (agent : Row Agent) × (get_by_id (some tenant) wanted.agent_id w.db.agents
          ≡ ok (some agent))
      × (takes_calls agent.body ≡ true)
      × (v : ℕ) × (agent.body.published_version_id ≡ some v)
      × (at_limit py R w tenant redis ≡ false)
      × (check_can_call tenant wanted.to_number tenant w.dnc ≡ ok true)

  -- What the request has done to the calls that were asked for.
  abbrev Asks : Row User → ℕ → OutboundCallRequest → State Store → State Store → Type 0
  Asks user tenant wanted st t =
      (t.asked ≡ st.asked)
      ⊎ (Cleared user tenant wanted st.redis
          × (c : OutboundCall) × (c.to_number ≡ wanted.to_number)
          × (t.asked ≡ st.asked ++ c ∷ []))

  require_roles-ok :
      (roles : List Role) (user u : Row User) → require_roles roles user ≡ ok u → u ≡ user
  unfolding require_roles
  require_roles-ok roles user u h = ground arith

  place-asks :
      (c : OutboundCall) (response : CallStatusResponse) (st : State Store)
      → ((place py R w c >>= λ _. pure response) st).1.asked ≡ st.asked ++ c ∷ []
  place-asks c response st = elim (Result-cases (w.answer c)) [
    | inl (sid, e) ↦ rw (e, ◌>>=◌) refl
    | inr (x, e) ↦ rw (e, ◌>>=◌) refl
  ]

  placing :
      (user : Row User) (tenant : ℕ) (wanted : OutboundCallRequest) (drawn : ℕ) (st : State Store)
      → Asks user tenant wanted st (initiate_outbound_call py R w user tenant wanted drawn st).1
  unfolding initiate_outbound_call
  placing user tenant wanted drawn st = elim (Result-cases (require_roles callers user)) [
    | inr (e, p) ↦ rw p (inl refl)
    | inl (u, p) ↦ elim (Found-cases (get_by_id (some tenant) wanted.agent_id w.db.agents)) [
      | inl q ↦ rw (p, q) (inl refl)
      | inr (inl (e, q)) ↦ rw (p, q) (inl refl)
      | inr (inr (agent, q)) ↦ elim (Bool-cases (takes_calls agent.body)) [
        | inr a ↦ rw (p, q, a) (inl refl)
        | inl a ↦ elim (Option-cases agent.body.published_version_id) [
          | inl b ↦ rw (p, q, a, b) (inl refl)
          | inr (v, b) ↦ elim (Bool-cases (at_limit py R w tenant st.redis)) [
            | inl c ↦ rw (p, q, a, b, c) (inl refl)
            | inr c ↦ elim (Result-cases (check_can_call tenant wanted.to_number tenant w.dnc)) [
              | inr (e, d) ↦ rw (p, q, a, b, c, d) (inl refl)
              | inl (false, d) ↦ rw (p, q, a, b, c, d) (inl refl)
              | inl (true, d) ↦
                  let cleared : Cleared user tenant wanted st.redis =
                    (p ∙ ap ok (require_roles-ok callers user u p), agent, q, a, v, b, c, d) in
                  elim (Result-cases
                    (get_by_number (some tenant) wanted.from_number w.phone_numbers)) [
                      | inr (e, f) ↦ rw (p, q, a, b, c, d, f) (inl refl)
                      | inl (phone, f) ↦
                          let call = call_of py R w wanted (w.show drawn) phone in
                          inr (cleared, call, refl, rw (p, q, a, b, c, d, f) (place-asks call _ _))
                    ]
            ]
          ]
        ]
      ]
    ]
  ]

  select-none :
      {A : Type 0} (p : A → Bool) (xs : List A) → select p xs ≡ [] → All (λ x. p x ≡ false) xs
  select-none p [] h = tt
  select-none p (x ∷ xs) h = elim (Bool-cases (p x)) [
    | inl e ↦ absurd (ground arith)
    | inr e ↦ (e, select-none p xs (ground arith))
  ]

  may_call :
      (tenant : ℕ) (phone : String)
      → check_can_call tenant phone tenant w.dnc ≡ ok true
      → All (λ r. is_listed tenant phone r ≡ false) w.dnc
  unfolding check_can_call get_by_phone
  may_call tenant phone h = elim (Found-cases (get_by_phone tenant phone w.dnc)) [
    | inl e ↦ select-none (is_listed tenant phone) w.dnc (scalar-none _ e)
    | inr (inl (x, e)) ↦ absurd (ground (arith, ==_refl tenant))
    | inr (inr (r, e)) ↦ absurd (ground (arith, ==_refl tenant))
  ]

  -- Whatever a request for an outbound call ends with, it asks the provider for no call, or for one call, to
  -- the number of the request; and then the user has one of the three roles or is a platform
  -- administrator, the agent is the tenant's, active and published with a version, the tenant is below
  -- the limit of live calls, and no active entry of the tenant's do-not-call list has the number.
  pub outbound_call_cleared :
      (user : Row User) (tenant : ℕ) (wanted : OutboundCallRequest) (drawn : ℕ) (st : State Store)
      → ((initiate_outbound_call py R w user tenant wanted drawn st).1.asked ≡ st.asked)
        ⊎ ((In user.body.role callers ⊎ (user.body.role ≡ Role.platform_admin))
            × (agent : Row Agent) × (get_by_id (some tenant) wanted.agent_id w.db.agents
                ≡ ok (some agent))
            × (takes_calls agent.body ≡ true)
            × (v : ℕ) × (agent.body.published_version_id ≡ some v)
            × (at_limit py R w tenant st.redis ≡ false)
            × All (λ r. is_listed tenant wanted.to_number r ≡ false) w.dnc
            × (c : OutboundCall) × (c.to_number ≡ wanted.to_number)
            × ((initiate_outbound_call py R w user tenant wanted drawn st).1.asked
                ≡ st.asked ++ c ∷ []))
  outbound_call_cleared user tenant wanted drawn st = elim (placing user tenant wanted drawn st) [
    | inl e ↦ inl e
    | inr ((p, agent, q, a, v, b, c, d), call, e, f) ↦ inr (
      (require_roles_iff callers user).0 p,
      agent,
      q,
      a,
      v,
      b,
      c,
      may_call tenant wanted.to_number d,
      call,
      e,
      f,
    )
  ]
