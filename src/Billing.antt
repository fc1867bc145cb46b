-- ===== src/Billing.antt =====
-- Usage and its limit: apps/api/services/billing_service.py without its calls of Stripe, and
-- apps/api/repositories/billing_repo.py.
pub mod Usage
pub mod Limit
mod Tests
use calling_agent.Prelude.{
  ℕ, ◌+◌, ◌*◌, ◌-◌, leb, ◌==◌, String, Bool, true, false, ◌&&◌, Option, none, some, List, [], ◌∷◌,
  ◌++◌, select, str_eq, if◌then◌else◌,
}
use calling_agent.Http.{Result, ok, err, Action, pure, ◌>>=◌}
use calling_agent.Json.{Fields}
use calling_agent.Repo.{Row, scalar_one_or_none, create}

pub record UsageRecord : Type 0 where
  pub call_id : Option String
  pub metric : String
  pub quantity : ℕ
  pub unit_cost_cents : ℕ
  pub total_cost_cents : ℕ
  pub metadata_json : Fields
  pub created_at : ℕ

pub record Subscription : Type 0 where
  pub plan_tier : String
  pub status : String
  pub monthly_minute_limit : ℕ
  pub current_period_start : Option ℕ
  pub current_period_end : Option ℕ

-- A row of the query that groups by metric.
pub record Group : Type 0 where
  pub metric : String
  pub quantity : ℕ
  pub cost : ℕ

-- `group_by`, with the sums of a metric's quantities and costs.
abbrev pub add_to_group : UsageRecord → List Group → List Group
add_to_group u [] =
    (record { metric = u.metric; quantity = u.quantity; cost = u.total_cost_cents }) ∷ []
add_to_group u (g ∷ gs) =
    let rest = add_to_group u gs in
    if str_eq g.metric u.metric
    then (record g { quantity = g.quantity + u.quantity; cost = g.cost + u.total_cost_cents }) ∷ gs
    else g ∷ rest

abbrev pub group_by_metric : List (Row UsageRecord) → List Group
group_by_metric [] = []
group_by_metric (r ∷ rows) = add_to_group r.body (group_by_metric rows)

-- The condition of the query.
abbrev pub in_period : ℕ → ℕ → ℕ → Row UsageRecord → Bool
in_period tenant start end r =
    r.tenant_id == tenant && (leb start r.body.created_at && leb r.body.created_at end)

pub record Totals : Type 0 where
  pub minutes : ℕ
  pub cost : ℕ
  pub breakdown : List (String × ℕ)

-- The loop over the groups; no metric comes twice, so that an assignment to `breakdown` adds an entry.
unfoldable pub total_groups : Totals → List Group → Totals
total_groups t [] = t
total_groups t (g ∷ gs) =
    total_groups
      (record {
        minutes = if str_eq g.metric "voice_minutes" then g.quantity else t.minutes;
        cost = t.cost + g.cost;
        breakdown = t.breakdown ++ (g.metric, g.quantity) ∷ [];
      })
      gs

unfoldable pub get_usage_for_period : ℕ → ℕ → ℕ → List (Row UsageRecord) → Totals
unfolding total_groups
get_usage_for_period tenant start end rows =
    total_groups (record { minutes = 0; cost = 0; breakdown = [] })
      (group_by_metric (select (in_period tenant start end) rows))

unfoldable pub get_by_tenant : ℕ → List (Row Subscription) → Result (Option (Row Subscription))
get_by_tenant tenant subs = scalar_one_or_none (select (λ s. s.tenant_id == tenant) subs)

-- `timedelta(days=30)` in the clock's unit is `month`; time is counted from an epoch before `now - month`.
abbrev pub or_time : Option ℕ → ℕ → ℕ
or_time none t = t
or_time (some t) d = t

abbrev pub exceeded :
    ℕ → ℕ → ℕ → List (Row UsageRecord) → Result (Option (Row Subscription)) → Result Bool
exceeded tenant now month rows (err e) = err e
exceeded tenant now month rows (ok none) = ok false
exceeded tenant now month rows (ok (some sub)) =
    let start = or_time sub.body.current_period_start (now - month) in
    let end = or_time sub.body.current_period_end (now + month) in
    let used = get_usage_for_period tenant start end rows in
    ok (leb sub.body.monthly_minute_limit used.minutes)

-- `check_usage_limit`
unfoldable pub check_usage_limit :
    ℕ → ℕ → ℕ → List (Row Subscription) → List (Row UsageRecord) → Result Bool
check_usage_limit tenant now month subs rows =
    exceeded tenant now month rows (get_by_tenant tenant subs)

-- `record_usage`; `id` is the key that the database draws.
unfoldable pub record_usage :
    ℕ
    → ℕ
    → ℕ
    → String
    → ℕ
    → Option String
    → Fields
    → Action (List (Row UsageRecord)) (Row UsageRecord)
record_usage tenant id now metric quantity call_id metadata =
    create (λ x y. false) (some tenant)
      (record {
        id = id;
        tenant_id = tenant;
        body = record {
          call_id = call_id;
          metric = metric;
          quantity = quantity;
          unit_cost_cents = 5;
          total_cost_cents = if str_eq metric "voice_minutes" then 5 * quantity else 0;
          metadata_json = metadata;
          created_at = now;
        };
      })
