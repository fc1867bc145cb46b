-- ===== src/Compliance/Clock.antt =====
-- `check_calling_hours` of apps/api/services/compliance_service.py. A time of day is the list of its characters'
-- codes, which are ASCII; the zones of the system and the clock are arguments.
use calling_agent.Prelude.{
  ℤ, pos, negsuc, ℕ, zero, suc, ◌+◌, ◌-◌, ◌*◌, ltb, leb, ◌==◌, String, Bool, true, false, ◌&&◌,
  ◌||◌, Option, none, some, List, [], ◌∷◌, if◌then◌else◌,
}
use mathlib.Core.List.{reverse}
use calling_agent.Http.{Error, Result, ok, err}
use calling_agent.Tenants.{Text}

abbrev pub colon : ℕ
colon = 58

abbrev pub cons_first : ℕ → List Text → List Text
cons_first c [] = (c ∷ []) ∷ []
cons_first c (part ∷ parts) = (c ∷ part) ∷ parts

-- `s.split(":")`
unfoldable pub split : Text → List Text
split [] = [] ∷ []
split (c ∷ s) = let parts = split s in if c == colon then [] ∷ parts else cons_first c parts

-- The spaces that `int` skips.
abbrev pub is_space : ℕ → Bool
is_space c = (leb 9 c && leb c 13) || c == 32

abbrev pub is_digit : ℕ → Bool
is_digit c = leb b'0' c && leb c b'9'

unfoldable pub strip_left : Text → Text
strip_left [] = []
strip_left (c ∷ s) = let rest = strip_left s in if is_space c then rest else c ∷ s

unfoldable pub strip : Text → Text
unfolding strip_left
strip s = reverse (strip_left (reverse (strip_left s)))

-- Digits with single underscores between them; `after_digit` tells what came before.
unfoldable pub digits_from : Bool → ℕ → Text → Option ℕ
digits_from after_digit acc [] = if after_digit then some acc else none
digits_from after_digit acc (c ∷ s) = elim (is_digit c) [
  | true ↦ digits_from true (acc * 10 + (c - b'0')) s
  | false ↦ elim (c == b'_' && after_digit) [ true ↦ digits_from false acc s | false ↦ none ]
]

abbrev pub plus : Option ℕ → Option ℤ
plus none = none
plus (some n) = some (pos n)

abbrev pub minus : Option ℕ → Option ℤ
minus none = none
minus (some zero) = some (pos 0)
minus (some (suc n)) = some (negsuc n)

unfoldable pub signed : Text → Option ℤ
unfolding digits_from
signed [] = none
signed (c ∷ s) =
    if c == b'-'
    then minus (digits_from false 0 s)
    else if c == b'+'
    then plus (digits_from false 0 s)
    else plus (digits_from false 0 (c ∷ s))

-- `int(s)`, with `none` where it raises.
unfoldable pub int : Text → Option ℤ
unfolding strip signed
int s = signed (strip s)

-- `datetime.time(hour, minute)` in microseconds since midnight, or its exception.
abbrev pub time : ℤ → ℤ → Option ℕ
time (pos h) (pos m) = if ltb h 24 && ltb m 60 then some ((h * 60 + m) * 60000000) else none
time _ _ = none

abbrev pub time_of_both : Option ℤ → Option ℤ → Option ℕ
time_of_both (some h) (some m) = time h m
time_of_both _ _ = none

-- `hour, min = map(int, parts)`, then the time.
unfoldable pub time_of_parts : List Text → Option ℕ
unfolding int
time_of_parts (h ∷ m ∷ []) = time_of_both (int h) (int m)
time_of_parts _ = none

unfoldable pub time_of : Text → Option ℕ
unfolding split time_of_parts
time_of s = time_of_parts (split s)

abbrev pub in_window : ℕ → ℕ → ℕ → Bool
in_window start end now =
    if leb start end then leb start now && leb now end else leb start now || leb now end

abbrev pub in_hours : ℕ → Option ℕ → Option ℕ → Bool
in_hours now (some s) (some e) = in_window s e now
in_hours now _ _ = false

-- What `ZoneInfo` does: a zone, `ZoneInfoNotFoundError`, or another exception.
pub data Lookup (Zone : Type 0) : Type 0 where
  found : Zone → Lookup Zone
  not_found : Lookup Zone
  raises : Error → Lookup Zone

module _ {Zone : Type 0} (zone_info : String → Lookup Zone) (utc : Zone) where
  abbrev pub zone_of : Lookup Zone → Result Zone
  zone_of (found z) = ok z
  zone_of not_found = ok utc
  zone_of (raises e) = err e

  -- `time_in` is `datetime.now(tz).time()`, in microseconds since midnight.
  unfoldable pub check_calling_hours : (Zone → ℕ) → String → Text → Text → Result Bool
  unfolding time_of
  check_calling_hours time_in contact_timezone start_time end_time =
      elim (zone_of (zone_info contact_timezone)) [
        | ok tz ↦ ok (in_hours (time_in tz) (time_of start_time) (time_of end_time))
        | err e ↦ err e
      ]
