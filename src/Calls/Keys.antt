-- ===== src/Calls/Keys.antt =====
-- What the session manager's writes leave of the keys that they do not name.
use calling_agent.Prelude.{◌≡◌, refl, String, true, none, some, List, eq_iff, truthy}
use calling_agent.Sessions.{
  CallSession, Python, Kwarg, Redis, create_session, create_pending_session, delete_pending_session,
  update_session, get_pending_tenant, get_active_sessions_count,
}

module _ (py : Python) (R : Redis) where
  open R use {Store, value}

  pub count-delete_pending :
      (tenant call_id : String) (s : Store)
      → get_active_sessions_count py R tenant (delete_pending_session py R call_id s)
        ≡ get_active_sessions_count py R tenant s
  unfolding get_active_sessions_count delete_pending_session
  count-delete_pending tenant call_id s = simp (R.value-delete)

  pub count-create_pending :
      (tenant call_id t : String) (s : Store)
      → get_active_sessions_count py R tenant (create_pending_session py R call_id t s)
        ≡ get_active_sessions_count py R tenant s
  unfolding get_active_sessions_count create_pending_session
  count-create_pending tenant call_id t s = simp (R.value-set)

  pub pending-delete :
      (call_id : String) (s : Store)
      → get_pending_tenant py R call_id (delete_pending_session py R call_id s) ≡ none
  unfolding get_pending_tenant delete_pending_session
  pending-delete call_id s = simp (R.value-delete, (eq_iff call_id call_id).1 refl)

  pub pending-create_pending :
      (call_id tenant : String) (s : Store)
      → truthy tenant ≡ true
      → get_pending_tenant py R call_id (create_pending_session py R call_id tenant s) ≡ some tenant
  unfolding get_pending_tenant create_pending_session
  pending-create_pending call_id tenant s h = simp (R.value-set, (eq_iff call_id call_id).1 refl, h)

  pub pending-update :
      (call_id now id : String) (kwargs : List (String × Kwarg)) (s : Store)
      → get_pending_tenant py R call_id (update_session py R now id kwargs s)
        ≡ get_pending_tenant py R call_id s
  unfolding get_pending_tenant update_session
  pending-update call_id now id kwargs s = simp (R.value-hset)

  pub pending-create :
      (call_id : String) (session : CallSession) (s : Store)
      → get_pending_tenant py R call_id (create_session py R session s)
        ≡ get_pending_tenant py R call_id s
  unfolding get_pending_tenant create_session
  pending-create call_id session s = simp (R.value-expire, R.value-sadd, R.value-hset)
