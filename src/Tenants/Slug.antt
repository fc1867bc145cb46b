-- ===== src/Tenants/Slug.antt =====
-- The loop that makes a slug unique (`TenantRepository.create`) ends, at a slug that no tenant has.
use calling_agent.Prelude.{
  ℕ, zero, suc, ◌+◌, ◌≤◌, ◌<◌, ◌≡◌, refl, ap, ◌⊎◌, inl, inr, true, false, ◌||◌, none, some, List,
  [], ◌∷◌, ◌++◌, ◌==◌, arith, any, length, length-append, select, Bool-cases, if◌then◌else◌,
}
use mathlib.Core.Path.{subst}
use calling_agent.Http.{ok}
use calling_agent.Tenants.{
  Text, Tenant, same_text, has_slug, get_by_slug, numbered, free_slug, generate_slug, create,
  active, dash,
}

same_text→eq : (s t : Text) → same_text s t ≡ true → s ≡ t
same_text→eq [] [] h = refl
same_text→eq [] (b ∷ t) h = cc
same_text→eq (a ∷ s) [] h = cc
same_text→eq (a ∷ s) (b ∷ t) h = ground (arith, same_text→eq s t)

same_text_refl : (s : Text) → same_text s s ≡ true
same_text_refl [] = refl
same_text_refl (a ∷ s) = ground (arith, same_text_refl s)

-- Slugs are unique, as the table's index has it.
abbrev pub HasUniqueSlugs : List Tenant → Type 0
HasUniqueSlugs [] = Unit
HasUniqueSlugs (t ∷ ts) = (any (has_slug t.slug) ts ≡ false) × HasUniqueSlugs ts

-- The tenants without those of one slug.
without : Text → List Tenant → List Tenant
without slug [] = []
without slug (t ∷ ts) = if has_slug slug t then without slug ts else t ∷ without slug ts

any-without :
    (slug other : Text) (ts : List Tenant)
    → any (has_slug other) ts ≡ true
    → same_text slug other ≡ false
    → any (has_slug other) (without slug ts) ≡ true
unfolding without
any-without slug other [] h e = cc
any-without slug other (t ∷ ts) h e =
    ground (arith, any-without slug other ts, same_text→eq t.slug slug, same_text→eq t.slug other)

length-without : (slug : Text) (ts : List Tenant) → length (without slug ts) ≤ length ts
unfolding without
length-without slug [] = omega arith
length-without slug (t ∷ ts) = ground (arith, length-without slug ts)

length-without_lt :
    (slug : Text) (ts : List Tenant)
    → any (has_slug slug) ts ≡ true
    → length (without slug ts) < length ts
unfolding without
length-without_lt slug [] h = absurd (ground arith)
length-without_lt slug (t ∷ ts) h =
    ground (arith, length-without slug ts, length-without_lt slug ts)

select-free :
    (slug : Text) (ts : List Tenant)
    → any (has_slug slug) ts ≡ false
    → select (has_slug slug) ts ≡ []
select-free slug [] h = refl
select-free slug (t ∷ ts) h = ground (arith, select-free slug ts)

select-taken :
    (slug : Text) (ts : List Tenant)
    → HasUniqueSlugs ts
    → any (has_slug slug) ts ≡ true
    → (t : Tenant) × (select (has_slug slug) ts ≡ t ∷ [])
select-taken slug [] u h = absurd (ground arith)
select-taken slug (t ∷ ts) u h = elim (Bool-cases (has_slug slug t)) [
  | inl here ↦ (
    t,
    rw here (
        ap (λ (l : List Tenant). t ∷ l)
          (select-free slug ts
            (subst (λ x. any (has_slug x) ts ≡ false) (same_text→eq t.slug slug here) u.0))),
  )
  | inr later ↦ let (x, e) = select-taken slug ts u.1 (ground arith) in (x, rw later e)
]

abbrev Taken : Text → List Tenant → Type 0
Taken slug ts = (t : Tenant) × (get_by_slug slug ts ≡ ok (some t)) × (any (has_slug slug) ts ≡ true)

abbrev Free : Text → List Tenant → Type 0
Free slug ts = (get_by_slug slug ts ≡ ok none) × (any (has_slug slug) ts ≡ false)

get_by_slug-cases :
    (slug : Text) (ts : List Tenant) → HasUniqueSlugs ts → Taken slug ts ⊎ Free slug ts
unfolding get_by_slug
get_by_slug-cases slug ts u = elim (Bool-cases (any (has_slug slug) ts)) [
  | inl h ↦ let (t, e) = select-taken slug ts u h in inl (t, rw e, h)
  | inr h ↦ inr (rw (select-free slug ts h), h)
]

append_cancel : (base s t : Text) → base ++ s ≡ base ++ t → s ≡ t
append_cancel [] s t h = h
append_cancel (c ∷ base) s t h = append_cancel base s t (cc)

-- The numbered slugs differ from one another and from the base, as `str` of a number is injective.
module _ (str : ℕ → Text) (str_injective : (i j : ℕ) → str i ≡ str j → i ≡ j) (base : Text)
    (ts : List Tenant) (unique : HasUniqueSlugs ts) where
  numbered_injective :
      (i j : ℕ) → i < j → same_text (numbered str base i) (numbered str base j) ≡ false
  numbered_injective i j h =
      elim (Bool-cases (same_text (numbered str base i) (numbered str base j))) [
        | inl e ↦
            let tails : dash ∷ str i ≡ dash ∷ str j = append_cancel base _ _ (same_text→eq _ _ e) in
            absurd (omega (arith, str_injective i j (cc)))
        | inr e ↦ e
      ]

  base-ne-numbered : (j : ℕ) → same_text base (numbered str base j) ≡ false
  base-ne-numbered j = elim (Bool-cases (same_text base (numbered str base j))) [
    | inl e ↦
        let same : base ≡ numbered str base j = same_text→eq _ _ e in
        absurd (omega (arith, ap (λ (s : Text). length s) same, length-append base (dash ∷ str j)))
    | inr e ↦ e
  ]

  free_slug_total :
      (fuel : ℕ) (rest : List Tenant) (slug : Text) (counter : ℕ)
      → length rest < fuel
      → ((j : ℕ)
          → counter ≤ j
          → any (has_slug (numbered str base j)) ts ≡ true
          → any (has_slug (numbered str base j)) rest ≡ true)
      → (any (has_slug slug) ts ≡ true → any (has_slug slug) rest ≡ true)
      → ((j : ℕ) → counter ≤ j → same_text slug (numbered str base j) ≡ false)
      → (s : Text) × (free_slug str base ts fuel slug counter ≡ some (ok s))
        × (any (has_slug s) ts ≡ false)
  unfolding free_slug
  free_slug_total zero rest slug counter room later now apart = elim room [ ]
  free_slug_total (suc fuel) rest slug counter room later now apart =
      elim (get_by_slug-cases slug ts unique) [
        | inr (e, free) ↦ (slug, ground arith, free)
        | inl (t, e, taken) ↦
            let (s, ends, free) =
              free_slug_total fuel (without slug rest) (numbered str base counter) (counter + 1)
                (omega (arith, length-without_lt slug rest (now taken)))
                (λ j le h.
                  any-without slug _ rest (later j (omega arith) h) (apart j (omega arith)))
                (λ h.
                  any-without slug _ rest (later counter (omega arith) h)
                    (apart counter (omega arith)))
                (λ j le. numbered_injective counter j (omega arith)) in
            (s, ground arith, free)
      ]

any-or :
    (id : ℕ) (slug : Text) (ts : List Tenant)
    → any (λ t. t.id == id) ts ≡ false
    → any (has_slug slug) ts ≡ false
    → any (λ t. t.id == id || has_slug slug t) ts ≡ false
any-or id slug [] h k = refl
any-or id slug (t ∷ ts) h k = ground (arith, any-or id slug ts)

same_text_symm : (s t : Text) → same_text s t ≡ same_text t s
same_text_symm [] [] = refl
same_text_symm [] (b ∷ t) = refl
same_text_symm (a ∷ s) [] = refl
same_text_symm (a ∷ s) (b ∷ t) = ground (arith, same_text_symm s t)

unique-append :
    (ts : List Tenant) (t : Tenant)
    → HasUniqueSlugs ts
    → any (has_slug t.slug) ts ≡ false
    → HasUniqueSlugs (ts ++ t ∷ [])
unique-append [] t u h = (refl, tt)
unique-append (x ∷ ts) t u h = (
  any-append x.slug ts t u.0 (ground (arith, same_text_symm x.slug t.slug)),
  unique-append ts t u.1 (ground arith),
)
  where
    any-append :
        (s : Text) (l : List Tenant) (t : Tenant)
        → any (has_slug s) l ≡ false
        → same_text t.slug s ≡ false
        → any (has_slug s) (l ++ t ∷ []) ≡ false
    any-append s [] t h e = rw e
    any-append s (y ∷ l) t h e = ground (arith, any-append s l t)

-- With unique slugs, an injective rendering of numbers and a fresh id, creating a tenant returns a
-- tenant whose slug no other has, adds just it, and keeps the slugs unique: the loop ends within
-- its fuel and the index never refuses the row.
pub create_succeeds :
    (lower : Text → Text) (str : ℕ → Text) (id : ℕ) (name business_name : Text) (ts : List Tenant)
    → ((i j : ℕ) → str i ≡ str j → i ≡ j)
    → HasUniqueSlugs ts
    → any (λ t. t.id == id) ts ≡ false
    → (t : Tenant) × (create lower str id name business_name ts ≡ (ok t, ts ++ t ∷ []))
      × (any (has_slug t.slug) ts ≡ false)
      × HasUniqueSlugs (ts ++ t ∷ [])
unfolding create
create_succeeds lower str id name business_name ts injective unique fresh =
    let base : Text = generate_slug lower name in
    let (s, ends, free) =
      free_slug_total str injective base ts unique (suc (length ts)) ts base 1 (omega arith)
        (λ j le h. h) (λ h. h) (λ j le. base-ne-numbered str injective base ts unique j) in
    let t : Tenant = record {
      id = id;
      name = name;
      slug = s;
      business_name = business_name;
      status = active;
    } in
    (t, ground (arith, ends, any-or id s ts fresh free), free, unique-append ts t unique free)
