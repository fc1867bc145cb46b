-- ===== src/Billing/Limit.antt =====
-- The monthly limit, and what a recorded call adds.
use calling_agent.Prelude.{
  ◌≡◌, ap, ◌∙◌, ◌↔◌, ◌≤◌, inl, inr, ℕ, ◌+◌, ◌*◌, ◌-◌, ◌==◌, arith, any, String, true, false, ◌||◌,
  str_eq, Option, some, List, [], ◌∷◌, ◌++◌, select, select-append, Bool-cases, if◌then◌else◌,
}
use calling_agent.Http.{ok}
use calling_agent.Json.{Fields}
use calling_agent.Repo.{Row, create, insert}
use calling_agent.Billing.{
  UsageRecord, Subscription, in_period, get_usage_for_period, get_by_tenant, or_time,
  check_usage_limit, record_usage,
}
use calling_agent.Billing.Usage.{sum_of, voice_minutes, get_usage_for_period_lem}

-- A tenant with a subscription is at its limit exactly if the voice minutes of its records in the current
-- period are the plan's minutes or more; the period is the subscription's, or the month around now.
pub check_usage_limit_iff :
    (tenant now month : ℕ) (subs : List (Row Subscription)) (rows : List (Row UsageRecord))
    (sub : Row Subscription)
    → get_by_tenant tenant subs ≡ ok (some sub)
    → let start = or_time sub.body.current_period_start (now - month) in
      let end = or_time sub.body.current_period_end (now + month) in
      (check_usage_limit tenant now month subs rows ≡ ok true) ↔ (
        sub.body.monthly_minute_limit
        ≤ sum_of voice_minutes (select (in_period tenant start end) rows))
unfolding check_usage_limit
check_usage_limit_iff tenant now month subs rows sub found =
    let start = or_time sub.body.current_period_start (now - month) in
    let end = or_time sub.body.current_period_end (now + month) in
    rw (found, (get_usage_for_period_lem tenant start end rows).0) (ground arith)

sum_of-append :
    (f : UsageRecord → ℕ) (xs ys : List (Row UsageRecord))
    → sum_of f (xs ++ ys) ≡ sum_of f xs + sum_of f ys
sum_of-append f [] ys = omega arith
sum_of-append f (x ∷ xs) ys = omega (arith, sum_of-append f xs ys)

-- The rows after a record: those before it and one more.
recorded :
    (tenant id now : ℕ) (metric : String) (quantity : ℕ) (call_id : Option String) (m : Fields)
    (rows rows' : List (Row UsageRecord)) (r : Row UsageRecord)
    → record_usage tenant id now metric quantity call_id m rows ≡ (ok r, rows')
    → (rows' ≡ rows ++ r ∷ [])
      × (r.tenant_id ≡ tenant)
      × (r.body.created_at ≡ now)
      × (r.body.metric ≡ metric)
      × (r.body.quantity ≡ quantity)
      × (r.body.total_cost_cents ≡ (if str_eq metric "voice_minutes" then 5 * quantity else 0))
unfolding record_usage create insert
recorded tenant id now metric quantity call_id m rows rows' r h =
    elim (Bool-cases (any (λ x. x.id == id || false) rows)) [
      | inl e ↦ absurd (ground arith)
      | inr e ↦ (ground arith, ground arith, ground arith, ground arith, ground arith, ground arith)
    ]

-- A record of voice minutes that is made within the period adds its minutes to the period's, and five
-- cents for each of them to its cost.
pub record_usage-adds :
    (tenant id now start end quantity : ℕ) (call_id : Option String) (m : Fields)
    (rows rows' : List (Row UsageRecord)) (r : Row UsageRecord)
    → record_usage tenant id now "voice_minutes" quantity call_id m rows ≡ (ok r, rows')
    → start ≤ now
    → now ≤ end
    → ((get_usage_for_period tenant start end rows').minutes
        ≡ (get_usage_for_period tenant start end rows).minutes + quantity)
      × ((get_usage_for_period tenant start end rows').cost
          ≡ (get_usage_for_period tenant start end rows).cost + 5 * quantity)
record_usage-adds tenant id now start end quantity call_id m rows rows' r h after before =
    let (grown, own, time, metric, minutes, cost) =
      recorded tenant id now "voice_minutes" quantity call_id m rows rows' r h in
    let p = in_period tenant start end in
    let counted : p r ≡ true = ground arith in
    let selected : select p rows' ≡ select p rows ++ r ∷ [] =
      ap (select p) grown ∙ select-append p rows (r ∷ []) ∙ rw counted in
    let old = get_usage_for_period_lem tenant start end rows in
    let new = get_usage_for_period_lem tenant start end rows' in
    let costs = λ (u : UsageRecord). u.total_cost_cents in
    let voice : voice_minutes r.body ≡ quantity = rw (metric, minutes) in
    let price : r.body.total_cost_cents ≡ 5 * quantity = cost in
    (
      new.0
          ∙ ap (sum_of voice_minutes) selected
          ∙ omega (arith, sum_of-append voice_minutes (select p rows) (r ∷ []), voice, old.0),
      new.1
          ∙ ap (sum_of costs) selected
          ∙ omega (arith, sum_of-append costs (select p rows) (r ∷ []), price, old.1),
    )
