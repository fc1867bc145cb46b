-- ===== src/Sessions/Count.antt =====
-- What the count of a tenant's live calls promises: the number of the calls in an abstract register, over
-- any history of the manager's calls and of keys that Redis drops.
use calling_agent.Prelude.{
  ◌≡◌, refl, sym, String, Bool, true, false, Option, none, some, List, [], ◌∷◌, length, str_eq,
  truthy, Bool-cases, ◌⊎◌, inl, inr, if◌then◌else◌,
}
use mathlib.Core.Path.{subst}
use calling_agent.Sessions.{
  CallSession, Python, Kwarg, Key, Value, Redis, add_member, drop_member, with_member,
  without_member, create_session, create_pending_session, delete_pending_session, update_session,
  delete_session, get_active_sessions_count,
}

-- The calls of the session manager that write, and the loss of a key.
pub data Op : Type 0 where
  creates : CallSession → Op
  creates_pending deletes_pending : String → String → Op
  updates : String → String → List (String × Kwarg) → Op
  deletes : String → Option String → Op
  drops : Key → Op

-- The register: for each tenant, the live calls.
abbrev pub Register : Type 0
Register = String → List String

abbrev pub changed : String → (List String → List String) → Register → Register
changed tenant f r t = if str_eq t tenant then f (r t) else r t

-- What each call does to the register; pending sessions and updates do nothing.
abbrev pub register : Op → Register → Register
register (creates session) r = changed session.tenant_id (add_member session.call_id) r
register (deletes call_id (some tenant)) r =
    if truthy tenant then changed tenant (drop_member call_id) r else r
register (drops (Key.tenant_sessions tenant)) r = changed tenant (λ ms. []) r
register _ r = r

abbrev pub register_all : List Op → Register → Register
register_all [] r = r
register_all (o ∷ ops) r = register_all ops (register o r)

module _ (py : Python) (R : Redis) where
  open R use {Store, value, delete}

  unfoldable pub act : Op → Store → Store
  unfolding create_session create_pending_session delete_pending_session update_session
      delete_session
  act (creates session) s = create_session py R session s
  act (creates_pending call_id tenant) s = create_pending_session py R call_id tenant s
  act (deletes_pending call_id tenant) s = delete_pending_session py R call_id s
  act (updates now call_id kwargs) s = update_session py R now call_id kwargs s
  act (deletes call_id tenant) s = delete_session py R call_id tenant s
  act (drops k) s = delete k s

  unfoldable pub act_all : List Op → Store → Store
  act_all [] s = s
  act_all (o ∷ ops) s = act_all ops (act o s)

  -- What the key of a tenant's calls holds: the set of the calls, or nothing where there are none.
  abbrev IsSetOf : List String → Value → Type 0
  IsSetOf ms v = ((v ≡ Value.missing) × (ms ≡ [])) ⊎ (v ≡ Value.members ms)

  abbrev Holds : Register → Store → Type 0
  Holds r s = (tenant : String) → IsSetOf (r tenant) (value (Key.tenant_sessions tenant) s)

  with_member-IsSetOf :
      (m : String) (ms : List String) (v : Value)
      → IsSetOf ms v
      → IsSetOf (add_member m ms) (with_member m v)
  with_member-IsSetOf m ms v (inl (e, f)) = rw (e, f) (inr refl)
  with_member-IsSetOf m ms v (inr e) = rw (e) (inr refl)

  without_member-IsSetOf :
      (m : String) (ms : List String) (v : Value)
      → IsSetOf ms v
      → IsSetOf (drop_member m ms) (without_member m v)
  without_member-IsSetOf m ms v (inl (e, f)) = rw (e, f) (inl (refl, refl))
  without_member-IsSetOf m ms v (inr e) = rw (e) (inr refl)

  -- One key changes and the others keep their values.
  if-IsSetOf :
      (b : Bool) (ms ns : List String) (v w : Value)
      → IsSetOf ms v
      → IsSetOf ns w
      → IsSetOf (if b then ns else ms) (if b then w else v)
  if-IsSetOf true ms ns v w h k = k
  if-IsSetOf false ms ns v w h k = h

  pub created_members :
      (session : CallSession) (s : Store) (tenant : String)
      → value (Key.tenant_sessions tenant) (create_session py R session s) ≡ (
          if str_eq tenant session.tenant_id
          then with_member session.call_id (value (Key.tenant_sessions tenant) s)
          else value (Key.tenant_sessions tenant) s)
  unfolding create_session
  created_members session s tenant = simp (R.value-expire, R.value-sadd, R.value-hset)

  pub deleted_members :
      (call_id t : String) (s : Store) (tenant : String)
      → truthy t ≡ true
      → value (Key.tenant_sessions tenant) (delete_session py R call_id (some t) s) ≡ (
          if str_eq tenant t
          then without_member call_id (value (Key.tenant_sessions tenant) s)
          else value (Key.tenant_sessions tenant) s)
  unfolding delete_session
  deleted_members call_id t s tenant h = rw (h, delete_session) simp (R.value-delete, R.value-srem)

  pub kept_members :
      (call_id t : String) (s : Store) (tenant : String)
      → truthy t ≡ false
      → value (Key.tenant_sessions tenant) (delete_session py R call_id (some t) s)
        ≡ value (Key.tenant_sessions tenant) s
  unfolding delete_session
  kept_members call_id t s tenant h = rw (h, delete_session) simp (R.value-delete)

  IsSetOf-≡ : (ms : List String) (v w : Value) → v ≡ w → IsSetOf ms w → IsSetOf ms v
  IsSetOf-≡ ms v w e h = subst (IsSetOf ms) (sym e) h

  act-Holds : (o : Op) (r : Register) (s : Store) → Holds r s → Holds (register o r) (act o s)
  unfolding act create_pending_session delete_pending_session update_session delete_session
  act-Holds (creates session) r s h tenant = IsSetOf-≡ _ _ _ (created_members session s tenant) (
      if-IsSetOf (str_eq tenant session.tenant_id) _ _ _ _ (h tenant)
        (with_member-IsSetOf session.call_id _ _ (h tenant)))
  act-Holds (creates_pending call_id t) r s h tenant =
      rw (R.value-set (Key.tenant_sessions tenant)) (h tenant)
  act-Holds (deletes_pending call_id t) r s h tenant =
      rw (R.value-delete (Key.tenant_sessions tenant)) (h tenant)
  act-Holds (updates now call_id kwargs) r s h tenant =
      rw (R.value-hset (Key.tenant_sessions tenant)) (h tenant)
  act-Holds (deletes call_id none) r s h tenant =
      rw (R.value-delete (Key.tenant_sessions tenant)) (h tenant)
  act-Holds (deletes call_id (some t)) r s h tenant = elim (Bool-cases (truthy t)) [
    | inl e ↦ rw (e) (
        IsSetOf-≡ _ _ _ (deleted_members call_id t s tenant e) (
          if-IsSetOf (str_eq tenant t) _ _ _ _ (h tenant)
            (without_member-IsSetOf call_id _ _ (h tenant))))
    | inr e ↦ rw (e) (IsSetOf-≡ _ _ _ (kept_members call_id t s tenant e) (h tenant))
  ]
  act-Holds (drops (Key.tenant_sessions t)) r s h tenant =
      IsSetOf-≡ _ _ _ (R.value-delete (Key.tenant_sessions tenant) (Key.tenant_sessions t) s)
        (if-IsSetOf (str_eq tenant t) _ _ _ _ (h tenant) (inl (refl, refl)))
  act-Holds (drops (Key.call_session t)) r s h tenant =
      rw (R.value-delete (Key.tenant_sessions tenant)) (h tenant)
  act-Holds (drops (Key.pending_session t)) r s h tenant =
      rw (R.value-delete (Key.tenant_sessions tenant)) (h tenant)

  act_all-Holds :
      (ops : List Op) (r : Register) (s : Store)
      → Holds r s
      → Holds (register_all ops r) (act_all ops s)
  unfolding act_all
  act_all-Holds [] r s h = h
  act_all-Holds (o ∷ ops) r s h = act_all-Holds ops (register o r) (act o s) (act-Holds o r s h)

  -- From a store without live calls, and whatever calls of the manager follow and whatever keys are
  -- lost, the count for a tenant is the number of calls that the register of these events holds.
  pub active_count-register_all :
      (ops : List Op) (s : Store) (tenant : String)
      → ((t : String) → value (Key.tenant_sessions t) s ≡ Value.missing)
      → get_active_sessions_count py R tenant (act_all ops s)
        ≡ length (register_all ops (λ t. []) tenant)
  unfolding get_active_sessions_count
  active_count-register_all ops s tenant free =
      elim (act_all-Holds ops (λ t. []) s (λ t. inl (free t, refl)) tenant) [
        | inl (e, f) ↦ rw (e, f) refl
        | inr e ↦ rw (e) refl
      ]
