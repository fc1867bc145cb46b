-- ===== src/Compliance/Tests.antt =====
-- The list of the numbers that must not be called, at concrete inputs.
use calling_agent.Prelude.{
  arith, ℕ, inr, str_eq, if◌then◌else◌, ◌≡◌, refl, ◌↔◌, ◌≤◌, ◌<◌, ◌⊎◌, ◌+◌, String, true, false,
  none, List, [], ◌∷◌, ◌++◌, All, length,
}
use calling_agent.Http.{ok, err, integrity, other}
use calling_agent.Repo.{create, insert, update}
use calling_agent.Compliance.{
  Entries, entry, get_by_phone, create_entry, check_can_call, add_to_dnc, remove_from_dnc,
  import_dnc_list,
}
use calling_agent.Compliance.Dnc.{add_blocks}
use calling_agent.Compliance.Removal.{readd_fails}
use calling_agent.Compliance.Import.{import_blocks}
use calling_agent.Compliance.Clock.{
  Lookup, found, not_found, raises, colon, time_of, split, time_of_parts, int, strip, strip_left,
  signed, digits_from, check_calling_hours,
}
use calling_agent.Compliance.Hours.{hh_mm, check_calling_hours_iff}

abbrev phone : String
phone = "+15550001"

abbrev listed : Entries
listed = entry 7 1 phone "manual" none ∷ []

-- The number after it was taken off.
abbrev unlisted : Entries
unlisted =
    (record (entry 7 1 phone "manual" none) {
      body = record { phone_number = phone; source = "manual"; reason = none; is_active = false };
    })
    ∷ []

added : add_to_dnc 7 1 phone "manual" none [] ≡ (ok (entry 7 1 phone "manual" none), listed)
unfolding add_to_dnc get_by_phone create_entry create insert
added = refl

taken_off : remove_from_dnc 7 phone listed ≡ (ok true, unlisted)
unfolding remove_from_dnc get_by_phone update
taken_off = refl

add_blocks_example : check_can_call 8 phone 7 listed ≡ ok false
add_blocks_example =
    add_blocks 8 7 1 phone "manual" none [] listed (entry 7 1 phone "manual" none) added

readd_fails_example :
    (add_to_dnc 7 2 phone "manual" none unlisted ≡ (err integrity, unlisted))
    × (check_can_call 7 phone 7 unlisted ≡ ok true)
readd_fails_example = readd_fails 7 7 2 phone "manual" none listed unlisted taken_off

abbrev phones : List String
phones = phone ∷ "+15550002" ∷ "+15550002" ∷ []

abbrev imported_rows : Entries
imported_rows = listed ++ entry 7 10 "+15550002" "imported" none ∷ []

imported : import_dnc_list 7 (λ n. n + 10) "imported" 0 phones listed ≡ (ok 1, imported_rows)
unfolding import_dnc_list get_by_phone create_entry create insert
imported = refl

import_blocks_example :
    All (λ p. check_can_call 7 p 7 imported_rows ≡ ok false) phones
    × (length imported_rows ≡ length listed + 1)
import_blocks_example =
    import_blocks 7 7 (λ n. n + 10) "imported" phones 1 listed imported_rows imported

-- Two zones, by their distance from UTC, and an hour past midnight in UTC.
abbrev zone_info : String → Lookup ℕ
zone_info name =
    if str_eq name "Asia/Kolkata"
    then found 19800000000
    else if str_eq name "../etc"
    then raises (other "ValueError")
    else not_found

abbrev time_in : ℕ → ℕ
time_in offset = 3600000000 + offset

refuses_path :
    check_calling_hours zone_info 0 time_in "../etc" (hh_mm 9 0) (hh_mm 17 30)
    ≡ err (other "ValueError")
unfolding check_calling_hours
refuses_path = refl

-- 6:30 in Kolkata; "6:3_0" is read as well, "6" and "24:00" are not.
reads_loosely :
    check_calling_hours zone_info 0 time_in "Asia/Kolkata"
      (b' ' ∷ b'6' ∷ colon ∷ b'3' ∷ b'_' ∷ b'0' ∷ [])
      (hh_mm 7 0)
    ≡ ok true
unfolding check_calling_hours time_of split time_of_parts int strip strip_left signed digits_from
reads_loosely = refl

no_minutes :
    check_calling_hours zone_info 0 time_in "Asia/Kolkata" (b'6' ∷ []) (hh_mm 7 0) ≡ ok false
unfolding check_calling_hours time_of split time_of_parts int strip strip_left signed digits_from
no_minutes = refl

no_hour_24 :
    check_calling_hours zone_info 0 time_in "Asia/Kolkata" (hh_mm 6 0) (hh_mm 24 0) ≡ ok false
unfolding check_calling_hours time_of split time_of_parts int strip strip_left signed digits_from
no_hour_24 = refl

check_calling_hours_iff_example :
    (check_calling_hours zone_info 0 time_in "Mars" (hh_mm 21 0) (hh_mm 8 30) ≡ ok true) ↔ (
      ((75600000000 ≤ 30600000000) × (75600000000 ≤ 3600000000) × (3600000000 ≤ 30600000000))
      ⊎ ((30600000000 < 75600000000) × ((75600000000 ≤ 3600000000) ⊎ (3600000000 ≤ 30600000000))))
check_calling_hours_iff_example =
    check_calling_hours_iff zone_info 0 time_in "Mars" 0 21 0 8 30 (inr (refl, refl)) (ground arith)
      (ground arith) (ground arith) (ground arith)
