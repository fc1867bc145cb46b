-- ===== src/Sessions/RoundTrip.antt =====
-- That a call session is read back as it was stored.
use calling_agent.Prelude.{◌≡◌, refl, ap, ◌∙◌, String, true, some, eq_iff, truthy}
use calling_agent.Http.{ok}
use calling_agent.Sessions.{
  CallSession, Python, Key, Value, Redis, fields_of, to_dict, from_dict, create_session,
  get_session, read_session,
}

-- Python reads back the numbers and the metadata of a session that it has printed.
abbrev pub ReadsBack : Python → CallSession → Type 0
ReadsBack py session =
    (py.int (py.str session.played_audio_ms) ≡ some session.played_audio_ms)
    × (py.int (py.str session.tool_calls_count) ≡ some session.tool_calls_count)
    × (py.loads (py.dumps session.metadata) ≡ some session.metadata)

from_dict-to_dict :
    (py : Python) (now : String) (session : CallSession)
    → ReadsBack py session
    → truthy session.start_time ≡ true
    → truthy session.last_activity ≡ true
    → from_dict py now (to_dict py session) ≡ ok session
unfolding from_dict to_dict
from_dict-to_dict py now session (a, b, c) h k = rw (a, b, c, h, k)

module _ (py : Python) (R : Redis) where
  open R use {Store, value}

  created_value :
      (session : CallSession) (s : Store)
      → value (Key.call_session session.call_id) s ≡ Value.missing
      → value (Key.call_session session.call_id) (create_session py R session s)
        ≡ Value.hash (to_dict py session)
  unfolding create_session to_dict
  created_value session s free = simp (
    R.value-expire,
    R.value-sadd,
    R.value-hset,
    (eq_iff session.call_id session.call_id).1 refl,
    free,
  )

  -- A session that is created under a free call id is read back whole: every field, the numbers and the
  -- metadata included. Its times are not empty, as `__init__` leaves them, and Python reads back the
  -- session's two numbers and its metadata from what it printed.
  pub get_session-create_session :
      (now : String) (session : CallSession) (s : Store)
      → ReadsBack py session
      → value (Key.call_session session.call_id) s ≡ Value.missing
      → truthy session.start_time ≡ true
      → truthy session.last_activity ≡ true
      → get_session py R now session.call_id (create_session py R session s) ≡ ok (some session)
  unfolding get_session to_dict read_session
  get_session-create_session now session s back free h k =
      ap (λ v. read_session py R now (fields_of v)) (created_value session s free)
      ∙ rw (from_dict-to_dict py now session back h k) refl
