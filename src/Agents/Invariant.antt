-- ===== src/Agents/Invariant.antt =====
-- What every history of calls of apps/api/services/agent_service.py keeps: version ids are distinct,
-- and no agent has two published versions in a tenant.
use calling_agent.Prelude.{
  ℕ, ◌≤◌, ◌≡◌, ◌≢◌, refl, ◌⊎◌, inl, inr, Bool, true, false, ◌||◌, Option, none, some, List, [], ◌∷◌,
  ◌++◌, ◌==◌, arith, ap, length, any, In, if◌then◌else◌,
}
use mathlib.Core.Path.{subst, subst₂}
use native.Mathlib.Decide.{ℕ_discrete}
use calling_agent.Http.{ok}
use calling_agent.Repo.{scalar-none, scalar-some, Row}
use calling_agent.Agents.{
  AgentVersion, Db, is_published, get_published_version, on_id, mark_published, archive_current,
}
use calling_agent.Agents.Published.{
  IsFresh, HasDistinctIds, archive, publish, published_rows, published-archive_one,
  length-published-archive, published-publish, length-published-publish_other,
}

pub record IsValid (db : Db) : Type 0 where
  pub distinct : HasDistinctIds db.versions
  pub one_published : (t a : ℕ) → length (published_rows t a db.versions) ≤ 1

IsFresh-on_id :
    (n id : ℕ) (f : AgentVersion → AgentVersion) (rows : List (Row AgentVersion))
    → IsFresh n rows
    → IsFresh n (on_id id f rows)
IsFresh-on_id n id f [] h = tt
IsFresh-on_id n id f (r ∷ rows) h = ground (arith, IsFresh-on_id n id f rows h.1)

pub distinct-on_id :
    (id : ℕ) (f : AgentVersion → AgentVersion) (rows : List (Row AgentVersion))
    → HasDistinctIds rows
    → HasDistinctIds (on_id id f rows)
distinct-on_id id f [] h = tt
distinct-on_id id f (r ∷ rows) h =
    ground (arith, distinct-on_id id f rows h.1, IsFresh-on_id r.id id f rows h.0)

IsFresh-append :
    (n : ℕ) (rows : List (Row AgentVersion)) (v : Row AgentVersion)
    → IsFresh n rows
    → (v.id == n) ≡ false
    → IsFresh n (rows ++ v ∷ [])
IsFresh-append n [] v h e = (e, tt)
IsFresh-append n (r ∷ rows) v h e = (h.0, IsFresh-append n rows v h.1 e)

pub distinct-append :
    (clash : Row AgentVersion → Row AgentVersion → Bool) (rows : List (Row AgentVersion))
    (v : Row AgentVersion)
    → HasDistinctIds rows
    → any (λ x. x.id == v.id || clash x v) rows ≡ false
    → HasDistinctIds (rows ++ v ∷ [])
distinct-append clash [] v h e = (tt, tt)
distinct-append clash (r ∷ rows) v h e =
    ground (arith, distinct-append clash rows v h.1, IsFresh-append r.id rows v h.0)

-- A new status that is not `published`, or a new configuration, publishes nothing.
pub length-published-on_id :
    (t a id : ℕ) (f : AgentVersion → AgentVersion) (rows : List (Row AgentVersion))
    → ((v : AgentVersion)
        → ((f v).agent_id ≡ v.agent_id)
          × ((is_published (f v).status ≡ true) → is_published v.status ≡ true))
    → length (published_rows t a (on_id id f rows)) ≤ length (published_rows t a rows)
length-published-on_id t a id f [] h = omega arith
length-published-on_id t a id f (r ∷ rows) h =
    ground (arith, h r.body, length-published-on_id t a id f rows h)

-- A row after the update by id of a table that holds it.
In-on_id :
    (id : ℕ) (f : AgentVersion → AgentVersion) (rows : List (Row AgentVersion))
    (v : Row AgentVersion)
    → In v rows
    → In (if v.id == id then record v { body = f v.body } else v) (on_id id f rows)
In-on_id id f [] v i = absurd i
In-on_id id f (r ∷ rows) v (inl e) = inl (rw e)
In-on_id id f (r ∷ rows) v (inr i) = inr (In-on_id id f rows v i)

get_published_version-none :
    (t a : ℕ) (rows : List (Row AgentVersion))
    → get_published_version (some t) a rows ≡ ok none
    → published_rows t a rows ≡ []
unfolding get_published_version
get_published_version-none t a rows h = scalar-none _ h

get_published_version-some :
    (t a : ℕ) (rows : List (Row AgentVersion)) (c : Row AgentVersion)
    → get_published_version (some t) a rows ≡ ok (some c)
    → published_rows t a rows ≡ c ∷ []
unfolding get_published_version
get_published_version-some t a rows c h = scalar-some _ c h

-- Archiving the current version leaves none published, for the agent and the tenant.
published-archive_current :
    (t a : ℕ) (db : Db) (current : Option (Row AgentVersion))
    → get_published_version (some t) a db.versions ≡ ok current
    → published_rows t a (archive_current current db).versions ≡ []
published-archive_current t a db none h = get_published_version-none t a db.versions h
published-archive_current t a db (some c) h =
    published-archive_one t a c db.versions (get_published_version-some t a db.versions c h)

archive_current-IsValid :
    (db : Db) (current : Option (Row AgentVersion))
    → IsValid db
    → IsValid (archive_current current db)
archive_current-IsValid db none v = v
archive_current-IsValid db (some c) v = record {
  distinct = distinct-on_id c.id archive db.versions v.distinct;
  one_published =
      λ t a. omega (arith, length-published-archive t a c.id db.versions, v.one_published t a);
}

-- The end of `publish_version` and `rollback_version`, for a version of the agent and the tenant.
module _ (t a user now : ℕ) (db : Db) (valid : IsValid db) (v : Row AgentVersion)
    (inside : In v db.versions) (of_agent : v.body.agent_id ≡ a) (of_tenant : v.tenant_id ≡ t)
    (current : Option (Row AgentVersion))
    (found : get_published_version (some t) a db.versions ≡ ok current) where
  abbrev pub archived_row : Option (Row AgentVersion) → Row AgentVersion
  archived_row none = v
  archived_row (some c) = if v.id == c.id then record v { body = archive v.body } else v

  abbrev pub finished : Db
  finished = mark_published a v.id user now (archive_current current db)

  archived_row-In :
      (c : Option (Row AgentVersion)) → In (archived_row c) (archive_current c db).versions
  archived_row-In none = inside
  archived_row-In (some c) = In-on_id c.id archive db.versions v inside

  pub archived_row_same :
      (c : Option (Row AgentVersion))
      → ((archived_row c).id ≡ v.id)
        × ((archived_row c).body.agent_id ≡ a)
        × ((archived_row c).tenant_id ≡ t)
  archived_row_same none = (refl, of_agent, of_tenant)
  archived_row_same (some c) = ground arith

  abbrev rows_before : List (Row AgentVersion)
  rows_before = (archive_current current db).versions

  before-IsValid : IsValid (archive_current current db)
  before-IsValid = archive_current-IsValid db current valid

  pub published-finished :
      published_rows t a finished.versions
      ≡ record (archived_row current) { body = publish now user (archived_row current).body } ∷ []
  published-finished =
      let (same_id, same_agent, same_tenant) = archived_row_same current in
      subst
        (λ n.
          published_rows t a (on_id n (publish now user) rows_before)
          ≡ record (archived_row current) { body = publish now user (archived_row current).body }
            ∷ [])
        same_id
        (published-publish t a (archived_row current) now user rows_before before-IsValid.distinct
          (archived_row-In current) same_agent same_tenant
          (published-archive_current t a db current found))

  published-finished_other :
      (t' a' : ℕ)
      → (a ≢ a') ⊎ (t ≢ t')
      → length (published_rows t' a' finished.versions) ≤ length (published_rows t' a' rows_before)
  published-finished_other t' a' o =
      let (same_id, same_agent, same_tenant) = archived_row_same current in
      subst
        (λ n.
          length (published_rows t' a' (on_id n (publish now user) rows_before))
          ≤ length (published_rows t' a' rows_before))
        same_id
        (length-published-publish_other t' a' (archived_row current) now user rows_before
          before-IsValid.distinct (archived_row-In current)
          (elim o [ inl p ↦ inl (rw same_agent p) | inr p ↦ inr (rw same_tenant p) ]))

  one_after : (t' a' : ℕ) → length (published_rows t' a' finished.versions) ≤ 1
  one_after t' a' = elim (ℕ_discrete a a') [
    | no p ↦
        omega (arith, published-finished_other t' a' (inl p), before-IsValid.one_published t' a')
    | yes p ↦ elim (ℕ_discrete t t') [
      | no q ↦
          omega (arith, published-finished_other t' a' (inr q), before-IsValid.one_published t' a')
      | yes q ↦
          subst₂ (λ x y. length (published_rows x y finished.versions) ≤ 1) q p
            (omega (arith, ap length published-finished))
    ]
  ]

  pub finished-IsValid : IsValid finished
  finished-IsValid = record {
    distinct = distinct-on_id v.id (publish now user) rows_before before-IsValid.distinct;
    one_published = one_after;
  }
