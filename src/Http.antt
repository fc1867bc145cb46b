-- ===== src/Http.antt =====
-- How a handler of the API ends and what it does to the state: `fastapi.HTTPException`, the errors
-- that the database raises, and the state monad of a request.
use calling_agent.Prelude.{
  ◌≡◌, refl, ◌⊎◌, inl, inr, Option, none, some, ℕ, String, Bool, true, false, arith, if◌then◌else◌,
}

-- An exception: one that carries an HTTP status, the two that SQLAlchemy raises in the modelled
-- code, and any other.
pub data Error : Type 0 where
  http : ℕ → String → Error
  integrity : Error
  multiple_results : Error
  other : String → Error

pub data Result (A : Type 0) : Type 0 where
  ok : A → Result A
  err : Error → Result A

-- The state comes back after a raise too: what was written before stays written, until the caller
-- rolls the transaction back.
abbrev pub Action : Type 0 → Type 0 → Type 0
Action S A = S → Result A × S

module _ {S A : Type 0} where
  abbrev pub pure : A → Action S A
  pure a s = (ok a, s)

  abbrev pub raise : Error → Action S A
  raise e s = (err e, s)

  abbrev pub gets : (S → A) → Action S A
  gets f s = (ok (f s), s)

  abbrev pub query : (S → Result A) → Action S A
  query f s = (f s, s)

infixl 5 ◌>>=◌ ◌>>◌
abbrev pub ◌>>=◌ : {S A B : Type 0} → Action S A → (A → Action S B) → Action S B
◌>>=◌ m f s = let (r, t) = m s in elim r [ ok a ↦ f a t | err e ↦ (err e, t) ]

abbrev pub ◌>>◌ : {S A B : Type 0} → Action S A → Action S B → Action S B
m >> k = m >>= λ _. k

abbrev pub modify : {S : Type 0} → (S → S) → Action S (Unit {0})
modify f s = (ok tt, f s)

abbrev pub raise_if : {S : Type 0} → Bool → Error → Action S (Unit {0})
raise_if c e s = (if c then err e else ok tt, s)

-- An action on a part of the state.
abbrev pub zoom : {S T A : Type 0} → (S → T) → (T → S → S) → Action T A → Action S A
zoom get put m s = let (r, t) = m (get s) in (r, put t s)

pub Found-cases :
    {A : Type 0} (r : Result (Option A))
    → (r ≡ ok none) ⊎ ((e : Error) × (r ≡ err e)) ⊎ ((a : A) × (r ≡ ok (some a)))
Found-cases (ok none) = inl refl
Found-cases (ok (some a)) = inr (inr (a, refl))
Found-cases (err e) = inr (inl (e, refl))

pub Result-cases :
    {A : Type 0} (r : Result A) → ((a : A) × (r ≡ ok a)) ⊎ ((e : Error) × (r ≡ err e))
Result-cases (ok a) = inl (a, refl)
Result-cases (err e) = inr (e, refl)

pub pair-cases :
    {S A : Type 0} (x : Result A × S)
    → ((a : A) × (s : S) × (x ≡ (ok a, s))) ⊎ ((e : Error) × (s : S) × (x ≡ (err e, s)))
pair-cases (ok a, s) = inl (a, s, refl)
pair-cases (err e, s) = inr (e, s, refl)

abbrev and_then : {S A B : Type 0} → Action S B → Result A × S → Result B × S
and_then k x = elim x.0 [ ok a ↦ k x.1 | err e ↦ (err e, x.1) ]

and_then-ok :
    {S A B : Type 0} (k : Action S B) (x : Result A × S) (b : B) (u : S)
    → and_then k x ≡ (ok b, u)
    → (a : A) × (t : S) × (x ≡ (ok a, t)) × (k t ≡ (ok b, u))
and_then-ok k (ok a, t) b u h = (a, t, refl, h)
and_then-ok k (err e, t) b u h = absurd (ground arith)

-- A sequence that returned is two steps that returned.
pub ok->> :
    {S A B : Type 0} (m : Action S A) (k : Action S B) (s : S) (b : B) (u : S)
    → (m >> k) s ≡ (ok b, u)
    → (a : A) × (t : S) × (m s ≡ (ok a, t)) × (k t ≡ (ok b, u))
ok->> m k s b u h = and_then-ok k (m s) b u h

abbrev pub is_ok : {A : Type 0} → Result A → Bool
is_ok (ok _) = true
is_ok (err _) = false

-- `get_db`: commit when the handler returns, roll back when it raises.
unfoldable pub get_db : {S A : Type 0} → Action S A → Action S A
get_db m s = let (r, t) = m s in elim r [ ok a ↦ (ok a, t) | err e ↦ (err e, s) ]

-- What holds before a request and after each way it can commit holds after the request.
pub get_db_rule :
    {S A : Type 0} (P : S → Type 0) (m : Action S A) (s : S)
    → P s
    → ((a : A) (t : S) → m s ≡ (ok a, t) → P t)
    → P (get_db m s).1
unfolding get_db
get_db_rule {S} {A} P m s before after = go (m s) refl
  where
    go :
        (x : Result A × S)
        → m s ≡ x
        → P (let y : Result A × S = elim x.0 [ ok a ↦ (ok a, x.1) | err e ↦ (err e, s) ] in y.1)
    go (ok a, t) e = after a t e
    go (err x, t) e = before
