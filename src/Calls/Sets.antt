-- ===== src/Calls/Sets.antt =====
-- Lists of calls beside the set of calls that Redis has for a tenant.
use calling_agent.Prelude.{
  ◌≡◌, refl, inl, inr, ◌≤◌, ◌<◌, arith, ℕ, String, Bool, true, false, List, [], ◌∷◌, All, any,
  length, str_eq, eq_iff, Bool-cases,
}
use calling_agent.Sessions.{Value, members_of, add_member, drop_member, with_member, without_member}

abbrev pub has : String → List String → Bool
has m ms = any (str_eq m) ms

abbrev pub Distinct : List String → Type 0
Distinct [] = Unit
Distinct (x ∷ xs) = (has x xs ≡ false) × Distinct xs

abbrev pub Sub : List String → List String → Type 0
Sub xs ms = All (λ x. has x ms ≡ true) xs

has-drop :
    (x m : String) (ms : List String)
    → has x ms ≡ true
    → str_eq m x ≡ false
    → has x (drop_member m ms) ≡ true
has-drop x m [] h e = cc
has-drop x m (y ∷ ms) h e = ground (arith, has-drop x m ms, eq_iff x y, eq_iff m y, eq_iff m x)

lacks-drop : (x m : String) (ms : List String) → has x ms ≡ false → has x (drop_member m ms) ≡ false
lacks-drop x m [] h = refl
lacks-drop x m (y ∷ ms) h = ground (arith, lacks-drop x m ms)

length-drop_le : (m : String) (ms : List String) → length (drop_member m ms) ≤ length ms
length-drop_le m [] = ground arith
length-drop_le m (x ∷ ms) = ground (arith, length-drop_le m ms)

length-drop_lt :
    (m : String) (ms : List String) → has m ms ≡ true → length (drop_member m ms) < length ms
length-drop_lt m [] h = absurd (ground arith)
length-drop_lt m (x ∷ ms) h = ground (arith, length-drop_le m ms, length-drop_lt m ms)

-- A member that the list lacks may go from the set.
Sub-lacking :
    (m : String) (xs ms : List String) → has m xs ≡ false → Sub xs ms → Sub xs (drop_member m ms)
Sub-lacking m [] ms h s = tt
Sub-lacking m (x ∷ xs) ms h (a, s) =
    (has-drop x m ms a (ground arith), Sub-lacking m xs ms (ground arith) s)

-- Distinct calls of a set are not more than the set has.
length-Sub : (xs ms : List String) → Distinct xs → Sub xs ms → length xs ≤ length ms
length-Sub [] ms d s = ground arith
length-Sub (x ∷ xs) ms (lacks, d) (a, s) =
    let fewer = length-Sub xs (drop_member x ms) d (Sub-lacking x xs ms lacks s) in
    let less = length-drop_lt x ms a in ground arith

has-add : (x m : String) (ms : List String) → has x ms ≡ true → has x (add_member m ms) ≡ true
has-add x m ms h = ground arith

has_added : (m : String) (ms : List String) → has m (add_member m ms) ≡ true
has_added m ms = ground (arith, eq_iff m m)

Sub-grown : (m : String) (xs ms : List String) → Sub xs ms → Sub xs (add_member m ms)
Sub-grown m [] ms s = tt
Sub-grown m (x ∷ xs) ms (a, s) = (has-add x m ms a, Sub-grown m xs ms s)

Sub-add : (m : String) (xs ms : List String) → Sub xs ms → Sub (add_member m xs) (add_member m ms)
Sub-add m xs ms s = elim (Bool-cases (has m xs)) [
  | inl e ↦ rw e (Sub-grown m xs ms s)
  | inr e ↦ rw e (has_added m ms, Sub-grown m xs ms s)
]

Distinct-add : (m : String) (xs : List String) → Distinct xs → Distinct (add_member m xs)
Distinct-add m xs d = elim (Bool-cases (has m xs)) [ inl e ↦ rw e d | inr e ↦ rw e (e, d) ]

Distinct-drop : (m : String) (xs : List String) → Distinct xs → Distinct (drop_member m xs)
Distinct-drop m [] d = tt
Distinct-drop m (x ∷ xs) (lacks, d) = elim (Bool-cases (str_eq m x)) [
  | inl e ↦ rw e (Distinct-drop m xs d)
  | inr e ↦ rw e (lacks-drop x m xs lacks, Distinct-drop m xs d)
]

Sub-dropped : (m : String) (xs ms : List String) → Sub xs ms → Sub (drop_member m xs) ms
Sub-dropped m [] ms s = tt
Sub-dropped m (x ∷ xs) ms (a, s) = elim (Bool-cases (str_eq m x)) [
  | inl e ↦ rw e (Sub-dropped m xs ms s)
  | inr e ↦ rw e (a, Sub-dropped m xs ms s)
]

Sub-drop :
    (m : String) (xs ms : List String) → Sub xs ms → Sub (drop_member m xs) (drop_member m ms)
Sub-drop m [] ms s = tt
Sub-drop m (x ∷ xs) ms (a, s) = elim (Bool-cases (str_eq m x)) [
  | inl e ↦ rw e (Sub-drop m xs ms s)
  | inr e ↦ rw e (has-drop x m ms a e, Sub-drop m xs ms s)
]

-- The key holds a set of calls, which may be empty.
abbrev pub is_set : Value → Bool
is_set Value.missing = true
is_set (Value.members ms) = true
is_set _ = false

-- The key has each of the calls of a list, which has none of them twice, and at most `limit` calls.
abbrev pub Covers : ℕ → List String → Value → Type 0
Covers limit xs v =
    (is_set v ≡ true) × Distinct xs × Sub xs (members_of v) × (length (members_of v) ≤ limit)

module _ (limit : ℕ) where
  pub Covers-length : (xs : List String) (v : Value) → Covers limit xs v → length xs ≤ limit
  Covers-length xs v (is, d, s, few) = let fewer = length-Sub xs (members_of v) d s in ground arith

  pub Covers-with_member :
      (m : String) (xs : List String) (v : Value)
      → Covers limit xs v
      → length (members_of v) < limit
      → Covers limit (add_member m xs) (with_member m v)
  Covers-with_member m xs Value.missing (is, d, s, few) room =
      (refl, Distinct-add m xs d, Sub-add m xs [] s, ground arith)
  Covers-with_member m xs (Value.members ms) (is, d, s, few) room =
      (refl, Distinct-add m xs d, Sub-add m xs ms s, ground arith)
  Covers-with_member m xs (Value.text t) (is, _, _, _) room = cc
  Covers-with_member m xs (Value.hash h) (is, _, _, _) room = cc

  pub Covers-drop :
      (m : String) (xs : List String) (v : Value)
      → Covers limit xs v
      → Covers limit (drop_member m xs) v
  Covers-drop m xs v (is, d, s, few) = (is, Distinct-drop m xs d, Sub-dropped m xs _ s, few)

  pub Covers-without_member :
      (m : String) (xs : List String) (v : Value)
      → Covers limit xs v
      → Covers limit (drop_member m xs) (without_member m v)
  Covers-without_member m xs (Value.members ms) (is, d, s, few) =
      let fewer = length-drop_le m ms in
      (refl, Distinct-drop m xs d, Sub-drop m xs ms s, ground arith)
  Covers-without_member m xs Value.missing c = Covers-drop m xs Value.missing c
  Covers-without_member m xs (Value.text t) c = Covers-drop m xs (Value.text t) c
  Covers-without_member m xs (Value.hash h) c = Covers-drop m xs (Value.hash h) c
