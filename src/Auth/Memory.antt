-- ===== src/Auth/Memory.antt =====
-- A Redis in memory, which meets the laws that `Redis` states, for the examples of
-- apps/api/services/auth_service.py.
use calling_agent.Prelude.{
  ℕ, ◌+◌, ◌<◌, ◌≡◌, ◌≢◌, String, Bool, true, false, Option, none, some, ltb, str_eq, eq_iff, arith,
  if◌then◌else◌,
}
use calling_agent.Auth.{Key, lockout, attempts, pwd_reset, Redis}

abbrev pub same_key : Key → Key → Bool
same_key (lockout a) (lockout b) = str_eq a b
same_key (attempts a) (attempts b) = str_eq a b
same_key (pwd_reset a) (pwd_reset b) = str_eq a b
same_key _ _ = false

-- A value at each time, and the counters.
pub record Memory : Type 0 where
  pub value : ℕ → Key → Option String
  pub counter : Key → ℕ

abbrev pub get : ℕ → Key → Memory → Option String
get t k m = m.value t k

abbrev pub set_ex : ℕ → Key → String → ℕ → Memory → Memory
set_ex now k v ttl m = record m {
  value = λ t j. if same_key j k then (if ltb t (now + ttl) then some v else none) else m.value t j;
}

abbrev pub incr : ℕ → Key → Memory → ℕ × Memory
incr now k m = (
  m.counter k + 1,
  record {
    value = λ t j. if same_key j k then some "counted" else m.value t j;
    counter = λ j. if same_key j k then m.counter k + 1 else m.counter j;
  },
)

abbrev pub expire : ℕ → Key → ℕ → Memory → Memory
expire now k ttl m = record m {
  value = λ t j.
      if same_key j k then (if ltb t (now + ttl) then m.value t j else none) else m.value t j;
}

abbrev pub delete : Key → Memory → Memory
delete k m = record {
  value = λ t j. if same_key j k then none else m.value t j;
  counter = λ j. if same_key j k then 0 else m.counter j;
}

same_key_refl : (k : Key) → same_key k k ≡ true
same_key_refl (lockout a) = ground (arith, eq_iff a a)
same_key_refl (attempts a) = ground (arith, eq_iff a a)
same_key_refl (pwd_reset a) = ground (arith, eq_iff a a)

same_key_ne : (j k : Key) → j ≢ k → same_key j k ≡ false
same_key_ne (lockout a) (lockout b) h = ground (arith, eq_iff a b)
same_key_ne (attempts a) (attempts b) h = ground (arith, eq_iff a b)
same_key_ne (pwd_reset a) (pwd_reset b) h = ground (arith, eq_iff a b)
same_key_ne j k h = ground arith

pub get-set_ex :
    (now t ttl : ℕ) (k : Key) (v : String) (m : Memory)
    → t < now + ttl
    → get t k (set_ex now k v ttl m) ≡ some v
get-set_ex now t ttl k v m h = rw (same_key_refl k) (ground arith)

pub get-set_ex_ne :
    (now t ttl : ℕ) (j k : Key) (v : String) (m : Memory)
    → j ≢ k
    → get t j (set_ex now k v ttl m) ≡ get t j m
get-set_ex_ne now t ttl j k v m h = rw (same_key_ne j k h)

pub get-delete_ne : (t : ℕ) (j k : Key) (m : Memory) → j ≢ k → get t j (delete k m) ≡ get t j m
get-delete_ne t j k m h = rw (same_key_ne j k h)

pub get-incr_ne :
    (now t : ℕ) (j k : Key) (m : Memory) → j ≢ k → get t j (incr now k m).1 ≡ get t j m
get-incr_ne now t j k m h = rw (same_key_ne j k h)

pub get-expire_ne :
    (now t ttl : ℕ) (j k : Key) (m : Memory) → j ≢ k → get t j (expire now k ttl m) ≡ get t j m
get-expire_ne now t ttl j k m h = rw (same_key_ne j k h)

abbrev pub memory : Redis
memory = record {
  Store = Memory;
  get = get;
  set_ex = set_ex;
  incr = incr;
  expire = expire;
  delete = delete;
  get-set_ex = get-set_ex;
  get-set_ex_ne = get-set_ex_ne;
  get-delete_ne = get-delete_ne;
  get-incr_ne = get-incr_ne;
  get-expire_ne = get-expire_ne;
}

abbrev pub empty : Memory
empty = record { value = λ t k. none; counter = λ k. 0 }
