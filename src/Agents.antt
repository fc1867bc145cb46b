-- ===== src/Agents.antt =====
-- apps/api/services/agent_service.py: `AgentService`, method by method. A method returns what it
-- raises or returns, and the tables after it. An explicit null for a column that is not nullable is
-- not modelled, and the answers of the updates are the empty tuple where the source returns the row.
mod Model
pub mod Published
pub mod Invariant
pub mod Inversion
pub mod Requests
pub mod Evolution
pub mod History
mod Tests
unfoldable pub use Model.*
use calling_agent.Prelude.{
  ℕ, suc, ◌+◌, max, String, Bool, true, false, ◌&&◌, ◌||◌, Option, none, some, List, [], ◌∷◌, ◌==◌,
  select, map_where, if◌then◌else◌,
}
use calling_agent.Http.{
  get_db, Error, http, Result, ok, err, Action, pure, raise, raise_if, gets, query, modify, zoom,
  ◌>>=◌, ◌>>◌,
}
use calling_agent.Json.{Fields, end}
use calling_agent.Repo.{Row, in_tenant, scalar_one_or_none, get_by_id, get_all, insert}

-- Every method runs for the tenant of the service; `now` and the new ids are arguments.
module _ (tenant : ℕ) where
  unfoldable pub get_agent : ℕ → Action Db (Row Agent)
  unfolding get_by_id
  get_agent id = do
    found ← query (λ db. get_by_id (some tenant) id db.agents)
    or_404 "Agent not found" found

  unfoldable pub get_version : ℕ → Action Db (Row AgentVersion)
  unfolding get_by_id
  get_version id = do
    found ← query (λ db. get_by_id (some tenant) id db.versions)
    or_404 "Agent version not found" found

  abbrev add_agent : Row Agent → Action Db (Row Agent)
  add_agent r = zoom (λ db. db.agents) (λ t db. record db { agents = t }) (insert no_index r)

  abbrev add_version : Row AgentVersion → Action Db (Row AgentVersion)
  add_version r =
      zoom (λ db. db.versions) (λ t db. record db { versions = t }) (insert same_number r)

  unfoldable pub create_agent : ℕ → ℕ → AgentInfo → Action Db (Row Agent)
  unfolding insert get_agent
  create_agent agent_id version_id info = do
    add_agent (record {
      id = agent_id;
      tenant_id = tenant;
      body = record {
        info = info;
        status = AgentStatus.draft;
        is_active = true;
        published_version_id = none;
      };
    })
    add_version (record {
      id = version_id;
      tenant_id = tenant;
      body = record {
        agent_id = agent_id;
        version_number = 1;
        status = VersionStatus.draft;
        config = default_config info.name;
        published_at = none;
        published_by = none;
      };
    })
    get_agent agent_id

  unfoldable pub update_agent : ℕ → (AgentInfo → AgentInfo) → Action Db (Unit {0})
  unfolding get_agent
  update_agent id set = do
    agent ← get_agent id
    modify (change_agent agent.id (λ a. record a { info = set a.info }))

  unfoldable pub delete_agent : ℕ → Action Db (Unit {0})
  unfolding get_agent
  delete_agent id = do
    agent ← get_agent id
    modify
        (change_agent agent.id (λ a. record a { is_active = false; status = AgentStatus.archived }))

  unfoldable pub list_agents :
      (List (Row Agent) → List (Row Agent)) → ℕ → ℕ → Action Db (List (Row Agent))
  unfolding get_all
  list_agents order skip limit = gets (λ db. (get_all (some tenant) order skip limit db.agents).0)

  unfoldable pub create_version : ℕ → ℕ → AgentConfig → Action Db (Row AgentVersion)
  unfolding get_agent get_latest_version_number insert
  create_version version_id agent_id config = do
    agent ← get_agent agent_id
    latest ← gets (λ db. get_latest_version_number (some tenant) agent_id db.versions)
    add_version (record {
      id = version_id;
      tenant_id = tenant;
      body = record {
        agent_id = agent.id;
        version_number = latest + 1;
        status = VersionStatus.draft;
        config = config;
        published_at = none;
        published_by = none;
      };
    })

  -- `order` is the ORDER BY version_number DESC.
  unfoldable pub list_versions :
      (List (Row AgentVersion) → List (Row AgentVersion)) → ℕ → Action Db (List (Row AgentVersion))
  unfolding get_agent
  list_versions order agent_id = do
    agent ← get_agent agent_id
    gets (λ db. order (select (version_of (some tenant) agent.id) db.versions))

  unfoldable pub update_version : ℕ → (AgentConfig → AgentConfig) → Action Db (Unit {0})
  unfolding get_version
  update_version id set = do
    version ← get_version id
    raise_if (if is_draft version.body.status then false else true)
        (http 400 "Only draft versions can be updated")
    modify (change_version version.id (λ v. record v { config = set v.config }))

  unfoldable pub set_version_testing : ℕ → Action Db (Unit {0})
  unfolding get_version
  set_version_testing id = do
    version ← get_version id
    raise_if (if is_draft version.body.status then false else true)
        (http 400 "Only draft versions can be moved to testing")
    modify (change_version version.id (λ v. record v { status = VersionStatus.testing }))

  unfoldable pub publish_version : ℕ → ℕ → ℕ → ℕ → Action Db (Unit {0})
  unfolding get_agent get_version get_published_version
  publish_version agent_id version_id user_id now = do
    agent ← get_agent agent_id
    version ← get_version version_id
    raise_if (if version.body.agent_id == agent.id then false else true)
        (http 400 "Version does not belong to this agent")
    raise_if (if is_publishable version.body.status then false else true)
        (http 400 "Only draft or testing versions can be published")
    current ← query (λ db. get_published_version (some tenant) agent_id db.versions)
    modify (archive_current current)
    modify (mark_published agent.id version.id user_id now)

  unfoldable pub rollback_version : ℕ → ℕ → ℕ → ℕ → Action Db (Unit {0})
  unfolding get_agent get_version get_published_version
  rollback_version agent_id target_version_id user_id now = do
    agent ← get_agent agent_id
    version ← get_version target_version_id
    raise_if (if version.body.agent_id == agent.id then false else true)
        (http 400 "Version does not belong to this agent")
    raise_if (if is_archived version.body.status then false else true)
        (http 400 "Can only rollback to archived versions")
    current ← query (λ db. get_published_version (some tenant) agent_id db.versions)
    modify (archive_current current)
    modify (mark_published agent.id version.id user_id now)

-- The calls that write, for sequences of requests.
pub data Call : Type 0 where
  creates_agent : ℕ → ℕ → AgentInfo → Call
  updates_agent : ℕ → (AgentInfo → AgentInfo) → Call
  deletes_agent : ℕ → Call
  creates_version : ℕ → ℕ → AgentConfig → Call
  updates_version : ℕ → (AgentConfig → AgentConfig) → Call
  tests_version : ℕ → Call
  publishes rolls_back : ℕ → ℕ → ℕ → ℕ → Call

unfoldable pub perform : ℕ → Call → Action Db (Unit {0})
perform t (creates_agent a v info) = create_agent t a v info >>= λ _. pure tt
perform t (updates_agent a set) = update_agent t a set
perform t (deletes_agent a) = delete_agent t a
perform t (creates_version v a config) = create_version t v a config >>= λ _. pure tt
perform t (updates_version v set) = update_version t v set
perform t (tests_version v) = set_version_testing t v
perform t (publishes a v user now) = publish_version t a v user now
perform t (rolls_back a v user now) = rollback_version t a v user now

-- One request of a tenant in its transaction, and a history of them.
unfoldable pub serve : ℕ × Call → Db → Db
serve (t, call) db = (get_db (perform t call) db).1

unfoldable pub serve_all : List (ℕ × Call) → Db → Db
serve_all [] db = db
serve_all (c ∷ cs) db = serve_all cs (serve c db)
