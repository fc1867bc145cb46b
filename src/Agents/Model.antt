-- ===== src/Agents/Model.antt =====
-- The data of apps/api/models/agent.py and the queries of apps/api/repositories/agent_repo.py.
use calling_agent.Prelude.{
  ℕ, max, String, Bool, true, false, ◌&&◌, Option, none, some, List, [], ◌∷◌, ◌==◌, select,
  map_where,
}
use calling_agent.Http.{http, Result, Action, pure, raise}
use calling_agent.Json.{Fields, end}
use calling_agent.Repo.{Row, in_tenant, scalar_one_or_none}

pub data AgentStatus : Type 0 where
  draft published archived : AgentStatus

pub data VersionStatus : Type 0 where
  draft testing published archived : VersionStatus

pub record AgentInfo : Type 0 where
  pub name : String
  pub description : Option String

pub record Agent : Type 0 where
  pub info : AgentInfo
  pub status : AgentStatus
  pub is_active : Bool
  pub published_version_id : Option ℕ

-- What an editor of a version may set.
pub record AgentConfig : Type 0 where
  pub name : String
  pub personality : Option String
  pub voice : String
  pub language : String
  pub languages : List String
  pub system_instructions : Option String
  pub business_context : Option String
  pub greeting_message : Option String
  pub objectives : List String
  pub fallback_message : Option String
  pub max_call_duration_seconds : ℕ
  pub knowledge_config : Fields
  pub tool_permissions : Fields
  pub transfer_rules : Fields
  pub business_hours : Fields
  pub compliance_config : Fields
  pub turn_detection_config : Fields
  pub loop_protection_config : Fields

pub record AgentVersion : Type 0 where
  pub agent_id : ℕ
  pub version_number : ℕ
  pub status : VersionStatus
  pub config : AgentConfig
  pub published_at : Option ℕ
  pub published_by : Option ℕ

-- The column defaults of a version.
abbrev pub default_config : String → AgentConfig
default_config name = record {
  name = name;
  personality = none;
  voice = "ash";
  language = "en";
  languages = [];
  system_instructions = none;
  business_context = none;
  greeting_message = none;
  objectives = [];
  fallback_message = none;
  max_call_duration_seconds = 1800;
  knowledge_config = end;
  tool_permissions = end;
  transfer_rules = end;
  business_hours = end;
  compliance_config = end;
  turn_detection_config = end;
  loop_protection_config = end;
}

pub record Db : Type 0 where
  pub agents : List (Row Agent)
  pub versions : List (Row AgentVersion)

abbrev pub no_index : Row Agent → Row Agent → Bool
no_index x y = false

-- The unique constraint `uix_agent_version`.
abbrev pub same_number : Row AgentVersion → Row AgentVersion → Bool
same_number x y =
    x.body.agent_id == y.body.agent_id && x.body.version_number == y.body.version_number

abbrev pub is_draft : VersionStatus → Bool
is_draft draft = true
is_draft _ = false

abbrev pub is_published : VersionStatus → Bool
is_published published = true
is_published _ = false

abbrev pub is_archived : VersionStatus → Bool
is_archived archived = true
is_archived _ = false

-- `status in ["draft", "testing"]`
abbrev pub is_publishable : VersionStatus → Bool
is_publishable draft = true
is_publishable testing = true
is_publishable _ = false

-- The condition of `get_published_version` on a row.
abbrev pub published_in : Option ℕ → ℕ → Row AgentVersion → Bool
published_in tenant a r = (r.body.agent_id == a && is_published r.body.status) && in_tenant tenant r

unfoldable pub get_published_version :
    Option ℕ → ℕ → List (Row AgentVersion) → Result (Option (Row AgentVersion))
get_published_version tenant a versions =
    scalar_one_or_none (select (published_in tenant a) versions)

-- The condition of `list_versions` and `get_latest_version_number` on a row.
abbrev pub version_of : Option ℕ → ℕ → Row AgentVersion → Bool
version_of tenant a r = r.body.agent_id == a && in_tenant tenant r

-- `coalesce(max(version_number), 0)`
abbrev pub highest : List (Row AgentVersion) → ℕ
highest [] = 0
highest (r ∷ rs) = max r.body.version_number (highest rs)

unfoldable pub get_latest_version_number : Option ℕ → ℕ → List (Row AgentVersion) → ℕ
get_latest_version_number tenant a versions = highest (select (version_of tenant a) versions)

-- The `if not agent: raise` that ends `get_agent` and `get_version`.
abbrev pub or_404 : {A : Type 0} → String → Option A → Action Db A
or_404 detail none = raise (http 404 detail)
or_404 detail (some a) = pure a

-- The UPDATE that flushing an assignment to a loaded object makes.
abbrev pub on_id : {B : Type 0} → ℕ → (B → B) → List (Row B) → List (Row B)
on_id id f = map_where (λ r. r.id == id) (λ r. record r { body = f r.body })

abbrev pub change_agent : ℕ → (Agent → Agent) → Db → Db
change_agent id f db = record db { agents = on_id id f db.agents }

abbrev pub change_version : ℕ → (AgentVersion → AgentVersion) → Db → Db
change_version id f db = record db { versions = on_id id f db.versions }

-- The common end of `publish_version` and `rollback_version`: the version that is published now
-- is archived, the chosen one is published and the agent points at it.
abbrev pub archive_current : Option (Row AgentVersion) → Db → Db
archive_current none db = db
archive_current (some current) db =
    change_version current.id (λ v. record v { status = VersionStatus.archived }) db

abbrev pub mark_published : ℕ → ℕ → ℕ → ℕ → Db → Db
mark_published agent_id version_id user_id now db =
    change_agent agent_id
      (λ a. record a { published_version_id = some version_id; status = AgentStatus.published })
      (change_version version_id
        (λ v. record v {
          status = VersionStatus.published;
          published_at = some now;
          published_by = some user_id;
        })
        db)
