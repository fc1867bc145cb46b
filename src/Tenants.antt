-- ===== src/Tenants.antt =====
-- Tenants: apps/api/models/tenant.py and apps/api/repositories/tenant_repo.py, with the choice of a
-- free slug. A slug is the list of its characters' codes. Python's `str.lower` and `str` of a number
-- are arguments.
pub mod Slug
mod Tests
use calling_agent.Prelude.{
  ℕ, zero, suc, ◌+◌, ◌≡◌, Bool, true, false, not, ◌&&◌, ◌||◌, Option, none, some, List, [], ◌∷◌,
  ◌++◌, ◌==◌, leb, any, length, select, is_some, if◌then◌else◌,
}
use mathlib.Core.List.{reverse}
use calling_agent.Http.{Result, ok, err, integrity, other, Action}
use calling_agent.Repo.{scalar_one_or_none}

abbrev pub Text : Type 0
Text = List ℕ

abbrev pub same_text : Text → Text → Bool
same_text [] [] = true
same_text (a ∷ s) (b ∷ t) = a == b && same_text s t
same_text _ _ = false

pub data TenantStatus : Type 0 where
  active suspended cancelled : TenantStatus

pub record Tenant : Type 0 where
  pub id : ℕ
  pub name : Text
  pub slug : Text
  pub business_name : Text
  pub status : TenantStatus

-- The class `[a-zA-Z0-9]`.
abbrev pub is_alnum : ℕ → Bool
is_alnum c = (leb b'a' c && leb c b'z') || (leb b'A' c && leb c b'Z') || (leb b'0' c && leb c b'9')

abbrev pub dash : ℕ
dash = 45

-- `re.sub(r"[^a-zA-Z0-9]+", "-", s)`; `run` tells that the character before was replaced.
unfoldable pub collapse : Bool → Text → Text
collapse run [] = []
collapse run (c ∷ s) =
    let rest = collapse (not (is_alnum c)) s in
    if is_alnum c then c ∷ rest else if run then rest else dash ∷ rest

unfoldable pub strip_left : Text → Text
strip_left [] = []
strip_left (c ∷ s) = let rest = strip_left s in if c == dash then rest else c ∷ s

-- `s.strip("-")`
unfoldable pub strip : Text → Text
unfolding strip_left
strip s = reverse (strip_left (reverse (strip_left s)))

unfoldable pub generate_slug : (Text → Text) → Text → Text
unfolding collapse strip
generate_slug lower name = strip (collapse false (lower name))

abbrev pub has_slug : Text → Tenant → Bool
has_slug slug t = same_text t.slug slug

unfoldable pub get_by_slug : Text → List Tenant → Result (Option Tenant)
get_by_slug slug tenants = scalar_one_or_none (select (has_slug slug) tenants)

-- `f"{base_slug}-{counter}"`
abbrev pub numbered : (ℕ → Text) → Text → ℕ → Text
numbered str base counter = base ++ dash ∷ str counter

-- The loop `while await self.get_by_slug(slug)`, with `none` where the fuel runs out.
unfoldable pub free_slug : (ℕ → Text) → Text → List Tenant → ℕ → Text → ℕ → Option (Result Text)
free_slug str base tenants zero slug counter = none
free_slug str base tenants (suc fuel) slug counter =
    let next = free_slug str base tenants fuel (numbered str base counter) (counter + 1) in
    elim (get_by_slug slug tenants) [
      | ok none ↦ some (ok slug)
      | ok (some t) ↦ next
      | err e ↦ some (err e)
    ]

-- `TenantRepository.create` without a slug: the fuel is one round for each tenant, and one more.
-- The unique index of the slugs refuses a slug that is taken.
unfoldable pub create : (Text → Text) → (ℕ → Text) → ℕ → Text → Text → Action (List Tenant) Tenant
create lower str id name business_name tenants =
    let base = generate_slug lower name in
    elim (free_slug str base tenants (suc (length tenants)) base 1) [
      | none ↦ (err (other "out of fuel"), tenants)
      | some (err e) ↦ (err e, tenants)
      | some (ok slug) ↦
          let new : Tenant = record {
            id = id;
            name = name;
            slug = slug;
            business_name = business_name;
            status = active;
          } in
          if any (λ t. t.id == id || has_slug slug t) tenants
          then (err integrity, tenants)
          else (ok new, tenants ++ new ∷ [])
    ]
