-- ===== src/Tenants/Tests.antt =====
-- Examples for apps/api/repositories/tenant_repo.py.
use calling_agent.Prelude.{ℕ, zero, suc, ◌≡◌, refl, ap, false, some, [], ◌∷◌, any}
use calling_agent.Http.{ok}
use calling_agent.Tenants.{
  Text, Tenant, active, has_slug, generate_slug, get_by_slug, free_slug, create,
}
use calling_agent.Tenants.Slug.{HasUniqueSlugs, create_succeeds}

-- Numbers in unary, by the letter i, render injectively.
abbrev tally : ℕ → Text
tally zero = []
tally (suc n) = b'i' ∷ tally n

tally_injective : (i j : ℕ) → tally i ≡ tally j → i ≡ j
tally_injective zero zero h = refl
tally_injective zero (suc j) h = cc
tally_injective (suc i) zero h = cc
tally_injective (suc i) (suc j) h = ap suc (tally_injective i j (cc))

-- "a b" and "a-b-i"
abbrev spaced : Text
spaced = b'a' ∷ b' ' ∷ b' ' ∷ b'b' ∷ b'!' ∷ []

abbrev taken : Tenant
taken = record {
  id = 1;
  name = spaced;
  slug = b'a' ∷ b'-' ∷ b'b' ∷ [];
  business_name = spaced;
  status = active;
}

slug_of_spaced : generate_slug (λ s. s) spaced ≡ b'a' ∷ b'-' ∷ b'b' ∷ []
unfolding generate_slug
slug_of_spaced = refl

next_slug :
    free_slug tally (b'a' ∷ b'-' ∷ b'b' ∷ []) (taken ∷ []) 2 (b'a' ∷ b'-' ∷ b'b' ∷ []) 1
    ≡ some (ok (b'a' ∷ b'-' ∷ b'b' ∷ b'-' ∷ b'i' ∷ []))
unfolding free_slug get_by_slug
next_slug = refl

create_succeeds_example :
    (t : Tenant) × (create (λ s. s) tally 2 spaced spaced (taken ∷ []) ≡ (ok t, taken ∷ t ∷ []))
    × (any (has_slug t.slug) (taken ∷ []) ≡ false)
    × HasUniqueSlugs (taken ∷ t ∷ [])
create_succeeds_example =
    create_succeeds (λ s. s) tally 2 spaced spaced (taken ∷ []) tally_injective (refl, tt) refl
