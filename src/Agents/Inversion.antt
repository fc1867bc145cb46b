-- ===== src/Agents/Inversion.antt =====
-- What a call of apps/api/services/agent_service.py that returned has found and done.
use calling_agent.Prelude.{
  ℕ, ◌+◌, ◌≡◌, inl, inr, true, false, ◌||◌, Option, none, some, [], ◌∷◌, ◌++◌, ◌==◌, arith, any,
}
use calling_agent.Http.{ok, Found-cases, Result-cases}
use calling_agent.Repo.{Row, get_by_id}
use calling_agent.Agents.{
  Agent, AgentVersion, AgentConfig, AgentInfo, default_config, VersionStatus, Db,
  get_published_version, publish_version, rollback_version, create_agent, create_version,
  update_version, set_version_testing, mark_published, archive_current, same_number, change_version,
  get_latest_version_number, is_publishable, is_archived, update_agent, delete_agent,
}

-- What a successful `publish_version` found and did.
pub publish_version-inv :
    (t a v user now : ℕ) (db db' : Db)
    → publish_version t a v user now db ≡ (ok tt, db')
    → (agent : Row Agent) × (version : Row AgentVersion) × (current : Option (Row AgentVersion))
      × (get_by_id (some t) a db.agents ≡ ok (some agent))
      × (get_by_id (some t) v db.versions ≡ ok (some version))
      × (version.body.agent_id ≡ agent.id)
      × (is_publishable version.body.status ≡ true)
      × (get_published_version (some t) a db.versions ≡ ok current)
      × (db' ≡ mark_published agent.id version.id user now (archive_current current db))
unfolding publish_version
publish_version-inv t a v user now db db' h = elim (Found-cases (get_by_id (some t) a db.agents)) [
  | inl e ↦ absurd (ground arith)
  | inr (inl (x, e)) ↦ absurd (ground arith)
  | inr (inr (agent, ea)) ↦ elim (Found-cases (get_by_id (some t) v db.versions)) [
    | inl e ↦ absurd (ground arith)
    | inr (inl (x, e)) ↦ absurd (ground arith)
    | inr (inr (version, ev)) ↦ elim (Result-cases (get_published_version (some t) a db.versions)) [
      | inl (current, ec) ↦
          (agent, version, current, ea, ev, ground arith, ground arith, ec, ground arith)
      | inr (x, e) ↦ absurd (ground arith)
    ]
  ]
]

-- What a successful `rollback_version` found and did.
pub rollback_version-inv :
    (t a v user now : ℕ) (db db' : Db)
    → rollback_version t a v user now db ≡ (ok tt, db')
    → (agent : Row Agent) × (version : Row AgentVersion) × (current : Option (Row AgentVersion))
      × (get_by_id (some t) a db.agents ≡ ok (some agent))
      × (get_by_id (some t) v db.versions ≡ ok (some version))
      × (version.body.agent_id ≡ agent.id)
      × (is_archived version.body.status ≡ true)
      × (get_published_version (some t) a db.versions ≡ ok current)
      × (db' ≡ mark_published agent.id version.id user now (archive_current current db))
unfolding rollback_version
rollback_version-inv t a v user now db db' h = elim (Found-cases (get_by_id (some t) a db.agents)) [
  | inl e ↦ absurd (ground arith)
  | inr (inl (x, e)) ↦ absurd (ground arith)
  | inr (inr (agent, ea)) ↦ elim (Found-cases (get_by_id (some t) v db.versions)) [
    | inl e ↦ absurd (ground arith)
    | inr (inl (x, e)) ↦ absurd (ground arith)
    | inr (inr (version, ev)) ↦ elim (Result-cases (get_published_version (some t) a db.versions)) [
      | inl (current, ec) ↦
          (agent, version, current, ea, ev, ground arith, ground arith, ec, ground arith)
      | inr (x, e) ↦ absurd (ground arith)
    ]
  ]
]

pub update_agent-versions :
    (t a : ℕ) (set : AgentInfo → AgentInfo) (db db' : Db)
    → update_agent t a set db ≡ (ok tt, db')
    → db'.versions ≡ db.versions
unfolding update_agent
update_agent-versions t a set db db' h = ground arith

pub delete_agent-versions :
    (t a : ℕ) (db db' : Db) → delete_agent t a db ≡ (ok tt, db') → db'.versions ≡ db.versions
unfolding delete_agent
delete_agent-versions t a db db' h = ground arith

-- What a successful edit of a version found and did.
pub update_version-inv :
    (t v : ℕ) (set : AgentConfig → AgentConfig) (db db' : Db)
    → update_version t v set db ≡ (ok tt, db')
    → (version : Row AgentVersion) × (get_by_id (some t) v db.versions ≡ ok (some version))
      × (version.body.status ≡ VersionStatus.draft)
      × (db' ≡ change_version version.id (λ x. record x { config = set x.config }) db)
unfolding update_version
update_version-inv t v set db db' h = elim (Found-cases (get_by_id (some t) v db.versions)) [
  | inl e ↦ absurd (ground arith)
  | inr (inl (x, e)) ↦ absurd (ground arith)
  | inr (inr (version, ev)) ↦ (version, ev, ground arith, ground arith)
]

pub set_version_testing-inv :
    (t v : ℕ) (db db' : Db)
    → set_version_testing t v db ≡ (ok tt, db')
    → (version : Row AgentVersion) × (get_by_id (some t) v db.versions ≡ ok (some version))
      × (version.body.status ≡ VersionStatus.draft)
      × (db' ≡ change_version version.id (λ x. record x { status = VersionStatus.testing }) db)
unfolding set_version_testing
set_version_testing-inv t v db db' h = elim (Found-cases (get_by_id (some t) v db.versions)) [
  | inl e ↦ absurd (ground arith)
  | inr (inl (x, e)) ↦ absurd (ground arith)
  | inr (inr (version, ev)) ↦ (version, ev, ground arith, ground arith)
]

-- The row that `create_version` adds.
abbrev pub new_version : ℕ → ℕ → ℕ → ℕ → AgentConfig → Row AgentVersion
new_version t id a number config = record {
  id = id;
  tenant_id = t;
  body = record {
    agent_id = a;
    version_number = number;
    status = VersionStatus.draft;
    config = config;
    published_at = none;
    published_by = none;
  };
}

pub create_version-inv :
    (t v a : ℕ) (config : AgentConfig) (db db' : Db) (new : Row AgentVersion)
    → create_version t v a config db ≡ (ok new, db')
    → (agent : Row Agent) × (get_by_id (some t) a db.agents ≡ ok (some agent))
      × (new
          ≡ new_version t v agent.id (get_latest_version_number (some t) a db.versions + 1) config)
      × (any (λ x. x.id == new.id || same_number x new) db.versions ≡ false)
      × (db' ≡ record db { versions = db.versions ++ new ∷ [] })
unfolding create_version
create_version-inv t v a config db db' new h = elim (Found-cases (get_by_id (some t) a db.agents)) [
  | inl e ↦ absurd (ground arith)
  | inr (inl (x, e)) ↦ absurd (ground arith)
  | inr (inr (agent, ea)) ↦ (agent, ea, ground arith, ground arith, ground arith)
]

-- The first version of a new agent is the only row that `create_agent` adds to the versions.
pub create_agent-inv :
    (t a v : ℕ) (info : AgentInfo) (db db' : Db) (r : Row Agent)
    → create_agent t a v info db ≡ (ok r, db')
    → let new = new_version t v a 1 (default_config info.name) in
      (any (λ x. x.id == new.id || same_number x new) db.versions ≡ false)
      × (db'.versions ≡ db.versions ++ new ∷ [])
unfolding create_agent
create_agent-inv t a v info db db' r h = ground arith
