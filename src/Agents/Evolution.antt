-- ===== src/Agents/Evolution.antt =====
-- How the row of a version may change under apps/api/services/agent_service.py, and which updates by
-- id respect that.
use calling_agent.Prelude.{
  ℕ, ◌≡◌, ◌∙◌, refl, inl, inr, false, List, [], ◌∷◌, ◌++◌, ==_refl, arith, In,
}
use calling_agent.Repo.{Row}
use calling_agent.Agents.{AgentVersion, is_draft, on_id}
use calling_agent.Agents.Published.{IsFresh, HasDistinctIds, fresh-In}

-- A version keeps its identity; once it is no draft it stays so, with its configuration.
pub record Evolves (x y : Row AgentVersion) : Type 0 where
  pub same_id : y.id ≡ x.id
  pub same_tenant : y.tenant_id ≡ x.tenant_id
  pub same_agent : y.body.agent_id ≡ x.body.agent_id
  pub same_number : y.body.version_number ≡ x.body.version_number
  pub frozen :
      is_draft x.body.status ≡ false
      → (is_draft y.body.status ≡ false) × (y.body.config ≡ x.body.config)

-- Each old row has evolved in its place; new rows stand behind.
abbrev pub AllEvolve : List (Row AgentVersion) → List (Row AgentVersion) → Type 0
AllEvolve [] ys = Unit
AllEvolve (x ∷ xs) [] = ⊥
AllEvolve (x ∷ xs) (y ∷ ys) = Evolves x y × AllEvolve xs ys

pub Evolves-refl : (x : Row AgentVersion) → Evolves x x
Evolves-refl x = record {
  same_id = refl;
  same_tenant = refl;
  same_agent = refl;
  same_number = refl;
  frozen = λ h. (h, refl);
}

pub Evolves-trans : (x y z : Row AgentVersion) → Evolves x y → Evolves y z → Evolves x z
Evolves-trans x y z p q = record {
  same_id = q.same_id ∙ p.same_id;
  same_tenant = q.same_tenant ∙ p.same_tenant;
  same_agent = q.same_agent ∙ p.same_agent;
  same_number = q.same_number ∙ p.same_number;
  frozen = λ h. let (d, c) = p.frozen h in let (d', c') = q.frozen d in (d', c' ∙ c);
}

pub AllEvolve-append : (xs ys : List (Row AgentVersion)) → AllEvolve xs (xs ++ ys)
AllEvolve-append [] ys = tt
AllEvolve-append (x ∷ xs) ys = (Evolves-refl x, AllEvolve-append xs ys)

pub AllEvolve-refl : (xs : List (Row AgentVersion)) → AllEvolve xs xs
AllEvolve-refl [] = tt
AllEvolve-refl (x ∷ xs) = (Evolves-refl x, AllEvolve-refl xs)

pub AllEvolve-trans :
    (xs ys zs : List (Row AgentVersion)) → AllEvolve xs ys → AllEvolve ys zs → AllEvolve xs zs
AllEvolve-trans [] ys zs p q = tt
AllEvolve-trans (x ∷ xs) [] zs p q = absurd p
AllEvolve-trans (x ∷ xs) (y ∷ ys) [] p q = absurd q
AllEvolve-trans (x ∷ xs) (y ∷ ys) (z ∷ zs) p q =
    (Evolves-trans x y z p.0 q.0, AllEvolve-trans xs ys zs p.1 q.1)

-- A change of status away from draft, which keeps everything else that is frozen.
pub AllEvolve-on_id :
    (id : ℕ) (f : AgentVersion → AgentVersion)
    → ((x : Row AgentVersion) → Evolves x (record x { body = f x.body }))
    → (xs : List (Row AgentVersion)) → AllEvolve xs (on_id id f xs)
AllEvolve-on_id id f step [] = tt
AllEvolve-on_id id f step (x ∷ xs) =
    (ground (arith, step x, Evolves-refl x), AllEvolve-on_id id f step xs)

on_id-fresh :
    (id : ℕ) (f : AgentVersion → AgentVersion) (xs : List (Row AgentVersion))
    → IsFresh id xs
    → on_id id f xs ≡ xs
on_id-fresh id f [] h = refl
on_id-fresh id f (x ∷ xs) h = ground (arith, on_id-fresh id f xs)

-- A change of the one row with that id, which may need that this row is a draft.
pub AllEvolve-on_row :
    (v : Row AgentVersion) (f : AgentVersion → AgentVersion)
    → Evolves v (record v { body = f v.body })
    → (xs : List (Row AgentVersion)) → HasDistinctIds xs
    → In v xs
    → AllEvolve xs (on_id v.id f xs)
AllEvolve-on_row v f step [] d i = absurd i
AllEvolve-on_row v f step (x ∷ xs) d (inl same) =
    (rw (← same, ==_refl) step, ground (arith, on_id-fresh v.id f xs, AllEvolve-refl xs))
AllEvolve-on_row v f step (x ∷ xs) d (inr later) = (
  ground (arith, fresh-In x.id xs v d.0 later, Evolves-refl x),
  AllEvolve-on_row v f step xs d.1 later,
)
