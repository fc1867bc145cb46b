-- ===== src/Agents/Tests.antt =====
-- Examples for apps/api/services/agent_service.py.
use calling_agent.Prelude.{ℕ, ◌≡◌, refl, Option, none, some, List, [], ◌∷◌, true, arith}
use calling_agent.Http.{ok}
use calling_agent.Repo.{Row, get_by_id}
use calling_agent.Agents.{
  Agent, AgentStatus, AgentVersion, VersionStatus, Db, default_config, get_published_version,
  publish_version, Call, publishes, rolls_back, updates_version, serve_all,
}
use calling_agent.Agents.Invariant.{IsValid}
use calling_agent.Agents.Evolution.{AllEvolve}
use calling_agent.Agents.Requests.{serve_all-IsValid}
use calling_agent.Agents.History.{serve_all-AllEvolve, publish_version_lem}

abbrev version : ℕ → ℕ → VersionStatus → Row AgentVersion
version id number status = record {
  id = id;
  tenant_id = 7;
  body = record {
    agent_id = 1;
    version_number = number;
    status = status;
    config = default_config "Ann";
    published_at = none;
    published_by = none;
  };
}

abbrev agent : Option ℕ → AgentStatus → Row Agent
agent published status = record {
  id = 1;
  tenant_id = 7;
  body = record {
    info = record { name = "Ann"; description = none };
    status = status;
    is_active = true;
    published_version_id = published;
  };
}

-- Version 10 is published, 11 is a draft.
abbrev db : Db
db = record {
  agents = agent (some 10) AgentStatus.published ∷ [];
  versions = version 10 1 VersionStatus.published ∷ version 11 2 VersionStatus.draft ∷ [];
}

db-IsValid : IsValid db
db-IsValid = record { distinct = ((refl, tt), (tt, tt)); one_published = λ t a. ground arith }

abbrev calls : List (ℕ × Call)
calls =
    (7, publishes 1 11 5 100)
    ∷ (8, rolls_back 1 10 5 110)
    ∷ (7, rolls_back 1 10 5 120)
    ∷ (7, updates_version 11 (λ c. c))
    ∷ []

serve_all-IsValid_example : IsValid (serve_all calls db)
serve_all-IsValid_example = serve_all-IsValid calls db db-IsValid

serve_all-AllEvolve_example : AllEvolve db.versions (serve_all calls db).versions
serve_all-AllEvolve_example = serve_all-AllEvolve calls db db-IsValid

abbrev published_db : Db
published_db = (publish_version 7 1 11 5 100 db).1

published_ok : publish_version 7 1 11 5 100 db ≡ (ok tt, published_db)
unfolding publish_version
published_ok = refl

publish_version_lem_example :
    (r : Row AgentVersion) × (x : Row Agent) × (get_published_version
        (some 7)
        1
        published_db.versions
      ≡ ok (some r))
    × (r.id ≡ 11)
    × (get_by_id (some 7) 1 published_db.agents ≡ ok (some x))
    × (x.body.published_version_id ≡ some 11)
    × (x.body.status ≡ AgentStatus.published)
publish_version_lem_example =
    publish_version_lem 7 1 11 5 100 db published_db db-IsValid published_ok
