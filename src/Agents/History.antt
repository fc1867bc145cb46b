-- ===== src/Agents/History.antt =====
-- What a history of requests does to one version, and what one publication does to the agent
-- (apps/api/services/agent_service.py).
use calling_agent.Prelude.{
  ℕ, ◌≡◌, ◌∙◌, refl, sym, ap, inl, inr, Option, none, some, List, [], ◌∷◌, ◌++◌, arith, map, select,
}
use mathlib.Core.Path.{subst}
use calling_agent.Http.{ok, pair-cases, get_db_rule}
use calling_agent.Repo.{Row, at_id, scalar_one_or_none, scalar-some, get_by_id}
use calling_agent.Repo.Isolation.{get_by_id-isolated}
use calling_agent.Agents.{
  Agent, AgentStatus, AgentVersion, Db, get_published_version, on_id, Call, perform, serve,
  serve_all, publish_version, create_agent, create_version, mark_published, archive_current,
  creates_agent, updates_agent, deletes_agent, creates_version, updates_version, tests_version,
  publishes, rolls_back,
}
use calling_agent.Agents.Published.{archive, publish}
use calling_agent.Agents.Inversion.{
  publish_version-inv, rollback_version-inv, update_agent-versions, delete_agent-versions,
  update_version-inv, set_version_testing-inv, create_version-inv, create_agent-inv,
}
use calling_agent.Agents.Invariant.{IsValid, published-finished, archived_row_same}
use calling_agent.Agents.Evolution.{
  AllEvolve, AllEvolve-append, AllEvolve-refl, AllEvolve-trans, AllEvolve-on_id, AllEvolve-on_row,
}
use calling_agent.Agents.Requests.{perform-IsValid}

AllEvolve-archive_current :
    (current : Option (Row AgentVersion)) (db : Db)
    → AllEvolve db.versions (archive_current current db).versions
AllEvolve-archive_current none db = AllEvolve-refl db.versions
AllEvolve-archive_current (some c) db = AllEvolve-on_id c.id archive (λ x. ground arith) db.versions

AllEvolve-mark_published :
    (a v user now : ℕ) (db : Db) → AllEvolve db.versions (mark_published a v user now db).versions
AllEvolve-mark_published a v user now db =
    AllEvolve-on_id v (publish now user) (λ x. ground arith) db.versions

AllEvolve-finish :
    (a v user now : ℕ) (current : Option (Row AgentVersion)) (db db' : Db)
    → db' ≡ mark_published a v user now (archive_current current db)
    → AllEvolve db.versions db'.versions
AllEvolve-finish a v user now current db db' e = rw e (
    AllEvolve-trans _ (archive_current current db).versions _ (AllEvolve-archive_current current db)
      (AllEvolve-mark_published a v user now (archive_current current db)))

perform-AllEvolve :
    (t : ℕ) (c : Call) (db db' : Db)
    → IsValid db
    → perform t c db ≡ (ok tt, db')
    → AllEvolve db.versions db'.versions
unfolding perform
perform-AllEvolve t (creates_agent a v info) db db' valid h =
    elim (pair-cases (create_agent t a v info db)) [
      | inl (r, s, e) ↦
          let (_, same) = create_agent-inv t a v info db s r e in
          let same' : db'.versions ≡ s.versions = ground arith in
          rw (same', same) (AllEvolve-append db.versions _)
      | inr (x, s, e) ↦ absurd (ground arith)
    ]
perform-AllEvolve t (updates_agent a set) db db' valid h =
    rw (update_agent-versions t a set db db' h) (AllEvolve-refl db.versions)
perform-AllEvolve t (deletes_agent a) db db' valid h =
    rw (delete_agent-versions t a db db' h) (AllEvolve-refl db.versions)
perform-AllEvolve t (creates_version v a config) db db' valid h =
    elim (pair-cases (create_version t v a config db)) [
      | inl (r, s, e) ↦
          let (agent, _, _, _, same) = create_version-inv t v a config db s r e in
          let same' : db'.versions ≡ db.versions ++ r ∷ [] = ground arith in
          rw same' (AllEvolve-append db.versions _)
      | inr (x, s, e) ↦ absurd (ground arith)
    ]
perform-AllEvolve t (updates_version v set) db db' valid h =
    let (version, ev, draft, done) = update_version-inv t v set db db' h in
    let (_, _, inside) = get_by_id-isolated t v db.versions version ev in
    rw done (AllEvolve-on_row version _ (ground arith) db.versions valid.distinct inside)
perform-AllEvolve t (tests_version v) db db' valid h =
    let (version, ev, draft, done) = set_version_testing-inv t v db db' h in
    let (_, _, inside) = get_by_id-isolated t v db.versions version ev in
    rw done (AllEvolve-on_row version _ (ground arith) db.versions valid.distinct inside)
perform-AllEvolve t (publishes a v user now) db db' valid h =
    let (agent, version, current, _, _, _, _, _, done) =
      publish_version-inv t a v user now db db' h in
    AllEvolve-finish agent.id version.id user now current db db' done
perform-AllEvolve t (rolls_back a v user now) db db' valid h =
    let (agent, version, current, _, _, _, _, _, done) =
      rollback_version-inv t a v user now db db' h in
    AllEvolve-finish agent.id version.id user now current db db' done

-- Over any history of requests of any tenants, from distinct version ids and at most one published
-- version of each agent in a tenant, every version that is there stays, with its id, tenant, agent and
-- number; one that is no draft never becomes a draft again and keeps its configuration.
pub serve_all-AllEvolve :
    (cs : List (ℕ × Call)) (db : Db) → IsValid db → AllEvolve db.versions (serve_all cs db).versions
unfolding serve_all serve
serve_all-AllEvolve [] db valid = AllEvolve-refl db.versions
serve_all-AllEvolve ((t, c) ∷ cs) db valid =
    let one =
      get_db_rule (λ x. IsValid x × AllEvolve db.versions x.versions) (perform t c) db
        (valid, AllEvolve-refl db.versions)
        (λ _ db' e. (perform-IsValid t c db db' valid e, perform-AllEvolve t c db db' valid e)) in
    AllEvolve-trans db.versions (serve (t, c) db).versions _ one.1
      (serve_all-AllEvolve cs (serve (t, c) db) one.0)

select-on_id :
    (tenant : Option ℕ) (id : ℕ) (f : Agent → Agent) (rows : List (Row Agent))
    → select (at_id tenant id) (on_id id f rows)
      ≡ map {A = Row Agent} (λ r. record r { body = f r.body }) (select (at_id tenant id) rows)
select-on_id tenant id f [] = refl
select-on_id tenant id f (r ∷ rows) = ground (arith, select-on_id tenant id f rows)

get_by_id-on_id :
    (tenant : Option ℕ) (id : ℕ) (f : Agent → Agent) (rows : List (Row Agent)) (r : Row Agent)
    → get_by_id tenant id rows ≡ ok (some r)
    → get_by_id tenant id (on_id id f rows) ≡ ok (some (record r { body = f r.body }))
unfolding get_by_id
get_by_id-on_id tenant id f rows r h = rw (select-on_id tenant id f rows) (rw (scalar-some _ r h))

abbrev point : ℕ → Agent → Agent
point v a = record a { published_version_id = some v; status = AgentStatus.published }

archive_current-agents :
    (current : Option (Row AgentVersion)) (db : Db)
    → (archive_current current db).agents ≡ db.agents
archive_current-agents none db = refl
archive_current-agents (some c) db = refl

finish_points :
    (t a v user now : ℕ) (agent : Row Agent) (current : Option (Row AgentVersion)) (db db' : Db)
    → db' ≡ mark_published agent.id v user now (archive_current current db)
    → get_by_id (some t) a db.agents ≡ ok (some agent)
    → get_by_id (some t) a db'.agents ≡ ok (some (record agent { body = point v agent.body }))
finish_points t a v user now agent current db db' done ea =
    let (same_a, _, _) = get_by_id-isolated t a db.agents agent ea in
    ap (λ (d : Db). get_by_id (some t) a d.agents) done
    ∙ ap (λ (l : List (Row Agent)). get_by_id (some t) a (on_id agent.id (point v) l))
        (archive_current-agents current db)
    ∙ subst
        (λ n.
          get_by_id (some t) a (on_id n (point v) db.agents)
          ≡ ok (some (record agent { body = point v agent.body })))
        (sym same_a) (get_by_id-on_id (some t) a (point v) db.agents agent ea)

finish_publishes :
    (t a v user now : ℕ) (agent : Row Agent) (version : Row AgentVersion)
    (current : Option (Row AgentVersion)) (db db' : Db)
    → IsValid db
    → db' ≡ mark_published agent.id version.id user now (archive_current current db)
    → get_by_id (some t) v db.versions ≡ ok (some version)
    → version.body.agent_id ≡ a
    → get_published_version (some t) a db.versions ≡ ok current
    → (r : Row AgentVersion) × (get_published_version (some t) a db'.versions ≡ ok (some r))
      × (r.id ≡ v)
unfolding get_published_version
finish_publishes t a v user now agent version current db db' valid done ev of_agent ec =
    let (same_v, same_t, inside) = get_by_id-isolated t v db.versions version ev in
    let one = published-finished t a user now db valid version inside of_agent same_t current ec in
    let (same_id, _, _) =
      archived_row_same t a user now db valid version inside of_agent same_t current ec current in
    (
      _,
      ap (λ (d : Db). get_published_version (some t) a d.versions) done ∙ ap scalar_one_or_none one,
      same_id ∙ same_v,
    )

-- Where version ids are distinct and each agent has at most one published version in a tenant: after a
-- successful publication the agent's published version is the chosen one, and only that one, and the
-- agent, as its tenant reads it, points at it and is published.
pub publish_version_lem :
    (t a v user now : ℕ) (db db' : Db)
    → IsValid db
    → publish_version t a v user now db ≡ (ok tt, db')
    → (r : Row AgentVersion) × (x : Row Agent) × (get_published_version (some t) a db'.versions
        ≡ ok (some r))
      × (r.id ≡ v)
      × (get_by_id (some t) a db'.agents ≡ ok (some x))
      × (x.body.published_version_id ≡ some v)
      × (x.body.status ≡ AgentStatus.published)
unfolding get_published_version
publish_version_lem t a v user now db db' valid h =
    let (agent, version, current, ea, ev, of_agent, _, ec, done) =
      publish_version-inv t a v user now db db' h in
    let (same_a, _, _) = get_by_id-isolated t a db.agents agent ea in
    let (same_v, _, _) = get_by_id-isolated t v db.versions version ev in
    let (r, found, is_v) =
      finish_publishes t a v user now agent version current db db' valid done ev (of_agent ∙ same_a)
        ec in
    (
      r,
      record agent { body = point version.id agent.body },
      found,
      is_v,
      finish_points t a version.id user now agent current db db' done ea,
      ap some same_v,
      refl,
    )
