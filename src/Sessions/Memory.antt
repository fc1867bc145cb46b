-- ===== src/Sessions/Memory.antt =====
-- A Redis in memory, which meets the laws that `Redis` states, for the examples of the sessions.
use calling_agent.Prelude.{refl, if◌then◌else◌}
use calling_agent.Sessions.{Key, same_key, Value, with_fields, with_member, without_member, Redis}

abbrev pub Memory : Type 0
Memory = Key → Value

abbrev pub change : (Value → Value) → Key → Memory → Memory
change f k m j = if same_key j k then f (m j) else m j

abbrev pub memory : Redis
memory = record {
  Store = Memory;
  value = λ k m. m k;
  hset = λ k d. change (with_fields d) k;
  set = λ k v ttl. change (λ x. Value.text v) k;
  delete = λ k. change (λ x. Value.missing) k;
  expire = λ k ttl m. m;
  sadd = λ k x. change (with_member x) k;
  srem = λ k x. change (without_member x) k;
  value-hset = λ j k d s. refl;
  value-set = λ j k v ttl s. refl;
  value-delete = λ j k s. refl;
  value-expire = λ j k ttl s. refl;
  value-sadd = λ j k m s. refl;
  value-srem = λ j k m s. refl;
}

abbrev pub empty : Memory
empty k = Value.missing
