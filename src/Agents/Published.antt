-- ===== src/Agents/Published.antt =====
-- At most one version of an agent is published (apps/api/services/agent_service.py): publishing and
-- rolling back archive the current one first.
use calling_agent.Prelude.{
  ℕ, ◌≤◌, ◌≡◌, ◌≢◌, refl, ◌⊎◌, inl, inr, false, some, List, [], ◌∷◌, ◌==◌, arith, length, select,
  All, In,
}
use calling_agent.Repo.{Row}
use calling_agent.Agents.{AgentVersion, VersionStatus, published_in, on_id}

-- The primary key of the table of versions.
abbrev pub IsFresh : ℕ → List (Row AgentVersion) → Type 0
IsFresh id rows = All (λ r. (r.id == id) ≡ false) rows

abbrev pub HasDistinctIds : List (Row AgentVersion) → Type 0
HasDistinctIds [] = Unit
HasDistinctIds (r ∷ rows) = IsFresh r.id rows × HasDistinctIds rows

abbrev pub archive : AgentVersion → AgentVersion
archive v = record v { status = VersionStatus.archived }

abbrev pub publish : ℕ → ℕ → AgentVersion → AgentVersion
publish now user v = record v {
  status = VersionStatus.published;
  published_at = some now;
  published_by = some user;
}

pub fresh-In :
    (id : ℕ) (rows : List (Row AgentVersion)) (v : Row AgentVersion)
    → IsFresh id rows
    → In v rows
    → (v.id == id) ≡ false
fresh-In id [] v f i = absurd i
fresh-In id (r ∷ rows) v f i = ground (arith, fresh-In id rows v f.1)

module _ (t a : ℕ) where
  abbrev pub published_rows : List (Row AgentVersion) → List (Row AgentVersion)
  published_rows = select (published_in (some t) a)

  published-archive_none :
      (id : ℕ) (rows : List (Row AgentVersion))
      → published_rows rows ≡ []
      → published_rows (on_id id archive rows) ≡ []
  published-archive_none id [] h = refl
  published-archive_none id (r ∷ rows) h = ground (arith, published-archive_none id rows)

  pub published-archive_one :
      (c : Row AgentVersion) (rows : List (Row AgentVersion))
      → published_rows rows ≡ c ∷ []
      → published_rows (on_id c.id archive rows) ≡ []
  published-archive_one c [] h = refl
  published-archive_one c (r ∷ rows) h =
      ground (arith, published-archive_one c rows, published-archive_none c.id rows)

  pub length-published-archive :
      (id : ℕ) (rows : List (Row AgentVersion))
      → length (published_rows (on_id id archive rows)) ≤ length (published_rows rows)
  length-published-archive id [] = omega arith
  length-published-archive id (r ∷ rows) = ground (arith, length-published-archive id rows)

  published-publish_fresh :
      (id now user : ℕ) (rows : List (Row AgentVersion))
      → IsFresh id rows
      → on_id id (publish now user) rows ≡ rows
  published-publish_fresh id now user [] h = refl
  published-publish_fresh id now user (r ∷ rows) h =
      ground (arith, published-publish_fresh id now user rows)

  pub published-publish :
      (v : Row AgentVersion) (now user : ℕ) (rows : List (Row AgentVersion))
      → HasDistinctIds rows
      → In v rows
      → v.body.agent_id ≡ a
      → v.tenant_id ≡ t
      → published_rows rows ≡ []
      → published_rows (on_id v.id (publish now user) rows)
        ≡ record v { body = publish now user v.body } ∷ []
  published-publish v now user [] d i ea et e = absurd i
  published-publish v now user (r ∷ rows) d (inl same) ea et e =
      ground (arith, published-publish_fresh v.id now user rows)
  published-publish v now user (r ∷ rows) d (inr later) ea et e =
      ground (arith, fresh-In r.id rows v d.0 later, published-publish v now user rows d.1 later)

  -- A version of another agent, or of another tenant, does not count when it is published.
  pub length-published-publish_other :
      (v : Row AgentVersion) (now user : ℕ) (rows : List (Row AgentVersion))
      → HasDistinctIds rows
      → In v rows
      → (v.body.agent_id ≢ a) ⊎ (v.tenant_id ≢ t)
      → length (published_rows (on_id v.id (publish now user) rows)) ≤ length (published_rows rows)
  length-published-publish_other v now user [] d i o = absurd i
  length-published-publish_other v now user (r ∷ rows) d (inl same) o =
      ground (arith, published-publish_fresh v.id now user rows)
  length-published-publish_other v now user (r ∷ rows) d (inr later) o = ground (
    arith,
    fresh-In r.id rows v d.0 later,
    length-published-publish_other v now user rows d.1 later o,
  )
