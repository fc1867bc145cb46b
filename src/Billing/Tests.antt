-- ===== src/Billing/Tests.antt =====
-- Usage at concrete inputs: two records of tenant 7 in the period, one before it, and one of tenant 8.
use calling_agent.Prelude.{
  ◌≡◌, refl, ◌↔◌, ◌≤◌, ◌+◌, ◌*◌, ℕ, arith, true, String, none, some, List, [], ◌∷◌, ◌++◌, select,
}
use calling_agent.Http.{ok}
use calling_agent.Json.{end}
use calling_agent.Repo.{Row, create, insert}
use calling_agent.Billing.{
  UsageRecord, Subscription, in_period, get_usage_for_period, total_groups, get_by_tenant,
  check_usage_limit, record_usage,
}
use calling_agent.Billing.Usage.{sum_of, voice_minutes, get_usage_for_period_lem}
use calling_agent.Billing.Limit.{check_usage_limit_iff, record_usage-adds}

abbrev usage : ℕ → ℕ → String → ℕ → ℕ → ℕ → Row UsageRecord
usage id tenant metric quantity cost time = record {
  id = id;
  tenant_id = tenant;
  body = record {
    call_id = none;
    metric = metric;
    quantity = quantity;
    unit_cost_cents = 5;
    total_cost_cents = cost;
    metadata_json = end;
    created_at = time;
  };
}

abbrev rows : List (Row UsageRecord)
rows =
    usage 1 7 "voice_minutes" 290 1450 100
    ∷ usage 2 7 "voice_minutes" 9 45 10
    ∷ usage 3 8 "voice_minutes" 50 250 100
    ∷ usage 4 7 "tool_call" 3 0 120
    ∷ []

abbrev rows_after : List (Row UsageRecord)
rows_after = rows ++ usage 5 7 "voice_minutes" 10 50 150 ∷ []

abbrev subscription : Row Subscription
subscription = record {
  id = 1;
  tenant_id = 7;
  body = record {
    plan_tier = "starter";
    status = "trialing";
    monthly_minute_limit = 300;
    current_period_start = some 50;
    current_period_end = some 200;
  };
}

used :
    (get_usage_for_period 7 50 200 rows).breakdown ≡ ("tool_call", 3) ∷ ("voice_minutes", 290) ∷ []
unfolding get_usage_for_period total_groups
used = refl

one_recorded :
    record_usage 7 5 150 "voice_minutes" 10 none end rows
    ≡ (ok (usage 5 7 "voice_minutes" 10 50 150), rows_after)
unfolding record_usage create insert
one_recorded = refl

get_usage_for_period_lem_example :
    ((get_usage_for_period 7 50 200 rows).minutes ≡ 290)
    × ((get_usage_for_period 7 50 200 rows).cost ≡ 1450)
get_usage_for_period_lem_example = get_usage_for_period_lem 7 50 200 rows

check_usage_limit_iff_example :
    (check_usage_limit 7 160 30 (subscription ∷ []) rows_after ≡ ok true)
    ↔ (300 ≤ sum_of voice_minutes (select (in_period 7 50 200) rows_after))
unfolding get_by_tenant
check_usage_limit_iff_example =
    check_usage_limit_iff 7 160 30 (subscription ∷ []) rows_after subscription refl

record_usage-adds_example :
    ((get_usage_for_period 7 50 200 rows_after).minutes
      ≡ (get_usage_for_period 7 50 200 rows).minutes + 10)
    × ((get_usage_for_period 7 50 200 rows_after).cost
        ≡ (get_usage_for_period 7 50 200 rows).cost + 5 * 10)
record_usage-adds_example =
    record_usage-adds 7 5 150 50 200 10 none end rows rows_after
      (usage 5 7 "voice_minutes" 10 50 150) one_recorded (omega arith) (omega arith)
