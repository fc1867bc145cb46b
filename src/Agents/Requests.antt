-- ===== src/Agents/Requests.antt =====
-- Every request keeps the invariant of the versions, and what publishing does
-- (apps/api/services/agent_service.py).
use calling_agent.Prelude.{
  ℕ, ◌≡◌, ◌∙◌, refl, inl, inr, true, false, ◌||◌, Option, some, List, [], ◌∷◌, ◌++◌, ◌==◌, arith,
  any,
}
use calling_agent.Http.{ok, pair-cases, get_db_rule}
use calling_agent.Repo.{Row, get_by_id}
use calling_agent.Repo.Isolation.{get_by_id-isolated}
use calling_agent.Agents.{
  Agent, AgentVersion, default_config, Db, is_published, get_published_version, Call, perform,
  serve, serve_all, create_agent, create_version, mark_published, archive_current, same_number,
  change_version, creates_agent, updates_agent, deletes_agent, creates_version, updates_version,
  tests_version, publishes, rolls_back,
}
use calling_agent.Agents.Inversion.{
  publish_version-inv, rollback_version-inv, update_agent-versions, delete_agent-versions,
  update_version-inv, set_version_testing-inv, create_version-inv, create_agent-inv, new_version,
}
use calling_agent.Agents.Published.{published_rows}
use calling_agent.Agents.Invariant.{
  IsValid, distinct-append, distinct-on_id, length-published-on_id, finished-IsValid,
}

published-insert_draft :
    (t a : ℕ) (rows : List (Row AgentVersion)) (v : Row AgentVersion)
    → is_published v.body.status ≡ false
    → published_rows t a (rows ++ v ∷ []) ≡ published_rows t a rows
published-insert_draft t a [] v h = ground arith
published-insert_draft t a (r ∷ rows) v h = ground (arith, published-insert_draft t a rows v h)

insert_draft-IsValid :
    (agents : List (Row Agent)) (db : Db) (v : Row AgentVersion)
    → IsValid db
    → is_published v.body.status ≡ false
    → any (λ x. x.id == v.id || same_number x v) db.versions ≡ false
    → IsValid (record { agents = agents; versions = db.versions ++ v ∷ [] })
insert_draft-IsValid agents db v valid h e = record {
  distinct = distinct-append same_number db.versions v valid.distinct e;
  one_published = λ t a. rw (published-insert_draft t a db.versions v h) (valid.one_published t a);
}

same_versions-IsValid : (db db' : Db) → db'.versions ≡ db.versions → IsValid db → IsValid db'
same_versions-IsValid db db' e valid = record {
  distinct = rw e valid.distinct;
  one_published = λ t a. rw e (valid.one_published t a);
}

change_version-IsValid :
    (db : Db) (id : ℕ) (f : AgentVersion → AgentVersion)
    → IsValid db
    → ((v : AgentVersion)
        → ((f v).agent_id ≡ v.agent_id)
          × ((is_published (f v).status ≡ true) → is_published v.status ≡ true))
    → IsValid (change_version id f db)
change_version-IsValid db id f valid h = record {
  distinct = distinct-on_id id f db.versions valid.distinct;
  one_published =
      λ t a. omega (arith, length-published-on_id t a id f db.versions h, valid.one_published t a);
}

finished_call-IsValid :
    (t a v user now : ℕ) (db : Db) (agent : Row Agent) (version : Row AgentVersion)
    (current : Option (Row AgentVersion))
    → IsValid db
    → get_by_id (some t) a db.agents ≡ ok (some agent)
    → get_by_id (some t) v db.versions ≡ ok (some version)
    → version.body.agent_id ≡ agent.id
    → get_published_version (some t) a db.versions ≡ ok current
    → IsValid (mark_published agent.id version.id user now (archive_current current db))
finished_call-IsValid t a v user now db agent version current valid ea ev of_agent ec =
    let (same_a, _, _) = get_by_id-isolated t a db.agents agent ea in
    let (_, same_t, inside) = get_by_id-isolated t v db.versions version ev in
    rw same_a
      (finished-IsValid t a user now db valid version inside (of_agent ∙ same_a) same_t current ec)

insert_draft_at :
    (db db' : Db) (v : Row AgentVersion)
    → IsValid db
    → is_published v.body.status ≡ false
    → any (λ x. x.id == v.id || same_number x v) db.versions ≡ false
    → db'.versions ≡ db.versions ++ v ∷ []
    → IsValid db'
insert_draft_at db db' v valid h e same =
    same_versions-IsValid _ db' same (insert_draft-IsValid db'.agents db v valid h e)

pub perform-IsValid :
    (t : ℕ) (c : Call) (db db' : Db) → IsValid db → perform t c db ≡ (ok tt, db') → IsValid db'
unfolding perform
perform-IsValid t (creates_agent a v info) db db' valid h =
    elim (pair-cases (create_agent t a v info db)) [
      | inl (r, s, e) ↦
          let done = create_agent-inv t a v info db s r e in
          insert_draft_at db db' (new_version t v a 1 (default_config info.name)) valid refl done.0
            (ground (arith, done.1))
      | inr (x, s, e) ↦ absurd (ground arith)
    ]
perform-IsValid t (updates_agent a set) db db' valid h =
    same_versions-IsValid db db' (update_agent-versions t a set db db' h) valid
perform-IsValid t (deletes_agent a) db db' valid h =
    same_versions-IsValid db db' (delete_agent-versions t a db db' h) valid
perform-IsValid t (creates_version v a config) db db' valid h =
    elim (pair-cases (create_version t v a config db)) [
      | inl (r, s, e) ↦
          let (agent, _, made, fresh, same) = create_version-inv t v a config db s r e in
          insert_draft_at db db' r valid (rw made) fresh (ground arith)
      | inr (x, s, e) ↦ absurd (ground arith)
    ]
perform-IsValid t (updates_version v set) db db' valid h =
    let (version, _, _, done) = update_version-inv t v set db db' h in
    rw done (change_version-IsValid db version.id _ valid λ x. (refl, λ p. p))
perform-IsValid t (tests_version v) db db' valid h =
    let (version, _, _, done) = set_version_testing-inv t v db db' h in
    rw done (change_version-IsValid db version.id _ valid λ x. (refl, λ p. cc))
perform-IsValid t (publishes a v user now) db db' valid h =
    let (agent, version, current, ea, ev, of_agent, _, ec, done) =
      publish_version-inv t a v user now db db' h in
    rw done (finished_call-IsValid t a v user now db agent version current valid ea ev of_agent ec)
perform-IsValid t (rolls_back a v user now) db db' valid h =
    let (agent, version, current, ea, ev, of_agent, _, ec, done) =
      rollback_version-inv t a v user now db db' h in
    rw done (finished_call-IsValid t a v user now db agent version current valid ea ev of_agent ec)

-- After any history of requests of any tenants, from tables with distinct version ids and at most one
-- published version of each agent in a tenant, both still hold.
pub serve_all-IsValid : (cs : List (ℕ × Call)) (db : Db) → IsValid db → IsValid (serve_all cs db)
unfolding serve_all serve
serve_all-IsValid [] db valid = valid
serve_all-IsValid ((t, c) ∷ cs) db valid =
    serve_all-IsValid cs (serve (t, c) db)
      (get_db_rule IsValid (perform t c) db valid (λ _ db' e. perform-IsValid t c db db' valid e))
