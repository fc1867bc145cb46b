-- ===== src/Compliance/Hours.antt =====
-- The calling window of apps/api/services/compliance_service.py.
use calling_agent.Prelude.{
  Bool, Option, none, ◌&&◌, pos, ◌-◌, ◌∙◌, ap, ◌≡◌, refl, ◌↔◌, ◌≤◌, ◌<◌, ◌⊎◌, inl, inr, ℕ, ◌+◌, ◌*◌,
  ◌/◌, ◌%◌, ◌==◌, String, [], ◌∷◌, ◌++◌, arith, true, false, some,
}
use calling_agent.Http.{ok}
use calling_agent.Tenants.{Text}
use calling_agent.Compliance.Clock.{
  zone_of, Lookup, found, not_found, int, strip, strip_left, signed, digits_from, split, time_of,
  time_of_parts, is_space, is_digit, colon, check_calling_hours,
}

abbrev pub two_digits : ℕ → Text
two_digits n = (b'0' + n / 10) ∷ (b'0' + n % 10) ∷ []

-- `HH:MM`
abbrev pub hh_mm : ℕ → ℕ → Text
hh_mm h m = two_digits h ++ colon ∷ two_digits m

digit :
    (n : ℕ)
    → n < 10
    → (is_space (b'0' + n) ≡ false) × (is_digit (b'0' + n) ≡ true) × ((b'0' + n == colon) ≡ false)
digit n h = (ground arith, ground arith, ground arith)

spaces : (a b : ℕ) → is_space a ≡ false → is_space b ≡ false → strip (a ∷ b ∷ []) ≡ a ∷ b ∷ []
unfolding strip strip_left
spaces a b h k = rw (h, k) refl

digits-digit :
    (after_digit : Bool) (acc c : ℕ) (s : Text)
    → is_digit c ≡ true
    → digits_from after_digit acc (c ∷ s) ≡ digits_from true (acc * 10 + (c - b'0')) s
unfolding digits_from
digits-digit after_digit acc c s e = go (is_digit c) e
  where
    go :
        (b : Bool)
        → b ≡ true
        → (elim b as (λ x. Option ℕ) [
          | true ↦ digits_from true (acc * 10 + (c - b'0')) s
          | false ↦ elim (c == b'_' && after_digit) as (λ x. Option ℕ) [
            | true ↦ digits_from false acc s
            | false ↦ none
          ]
        ])
          ≡ digits_from true (acc * 10 + (c - b'0')) s
    go true h = refl
    go false h = cc

digits_two :
    (a b : ℕ)
    → a < 10
    → b < 10
    → digits_from false 0 ((b'0' + a) ∷ (b'0' + b) ∷ []) ≡ some (a * 10 + b)
unfolding digits_from
digits_two a b h k =
    let value : (0 * 10 + (b'0' + a - b'0')) * 10 + (b'0' + b - b'0') ≡ a * 10 + b = omega arith in
    digits-digit false 0 (b'0' + a) ((b'0' + b) ∷ []) (digit a h).1
    ∙ digits-digit true (0 * 10 + (b'0' + a - b'0')) (b'0' + b) [] (digit b k).1
    ∙ ap some value

read_two :
    (a b : ℕ) → a < 10 → b < 10 → signed ((b'0' + a) ∷ (b'0' + b) ∷ []) ≡ some (pos (a * 10 + b))
unfolding signed
read_two a b h k =
    let no_minus : ((b'0' + a) == b'-') ≡ false = ground arith in
    let no_plus : ((b'0' + a) == b'+') ≡ false = ground arith in
    rw (no_minus, no_plus, digits_two a b h k) refl

int-two_digits : (n : ℕ) → n < 100 → int (two_digits n) ≡ some (pos n)
unfolding int
int-two_digits n h =
    let tens : n / 10 < 10 = omega arith in
    let ones : n % 10 < 10 = omega arith in
    let whole : n / 10 * 10 + n % 10 ≡ n = omega arith in
    rw (spaces (b'0' + n / 10) (b'0' + n % 10) (digit _ tens).0 (digit _ ones).0)
      (read_two (n / 10) (n % 10) tens ones ∙ ap (λ n. some (pos n)) whole)

split-hh_mm : (h m : ℕ) → h < 100 → m < 100 → split (hh_mm h m) ≡ two_digits h ∷ two_digits m ∷ []
unfolding split
split-hh_mm h m p q =
    rw
      (
        (digit (h / 10) (omega arith)).2,
        (digit (h % 10) (omega arith)).2,
        (digit (m / 10) (omega arith)).2,
        (digit (m % 10) (omega arith)).2,
      )
      refl

time_of-hh_mm : (h m : ℕ) → h < 24 → m < 60 → time_of (hh_mm h m) ≡ some ((h * 60 + m) * 60000000)
unfolding time_of time_of_parts
time_of-hh_mm h m p q =
    rw
      (
        split-hh_mm h m (omega arith) (omega arith),
        int-two_digits h (omega arith),
        int-two_digits m (omega arith),
      )
      (ground arith)

in_zone :
    {Zone : Type 0} (zone_info : String → Lookup Zone) (utc tz : Zone) (x : Lookup Zone)
    → (x ≡ found tz) ⊎ ((x ≡ not_found) × (tz ≡ utc))
    → zone_of zone_info utc x ≡ ok tz
in_zone zone_info utc tz x (inl e) = rw e refl
in_zone zone_info utc tz x (inr (e, is_utc)) = rw (e, is_utc) refl

-- With times of day written `HH:MM`, a call may be made exactly if the time in the contact's zone, or in UTC where the
-- system has no such zone, is between the two where the first is not after the second, and if it is not strictly
-- between the second and the first where it is.
pub check_calling_hours_iff :
    {Zone : Type 0} (zone_info : String → Lookup Zone) (utc : Zone) (time_in : Zone → ℕ)
    (name : String) (tz : Zone) (h m h' m' : ℕ)
    → ((zone_info name ≡ found tz) ⊎ ((zone_info name ≡ not_found) × (tz ≡ utc)))
    → h < 24
    → m < 60
    → h' < 24
    → m' < 60
    → let start = (h * 60 + m) * 60000000 in
      let end = (h' * 60 + m') * 60000000 in
      let now = time_in tz in
      (check_calling_hours zone_info utc time_in name (hh_mm h m) (hh_mm h' m') ≡ ok true) ↔ (
        ((start ≤ end) × (start ≤ now) × (now ≤ end))
        ⊎ ((end < start) × ((start ≤ now) ⊎ (now ≤ end))))
unfolding check_calling_hours
check_calling_hours_iff zone_info utc time_in name tz h m h' m' zone p q p' q' =
    rw
      (
        check_calling_hours,
        in_zone zone_info utc tz (zone_info name) zone,
        time_of-hh_mm h m p q,
        time_of-hh_mm h' m' p' q',
      )
      (ground arith)
