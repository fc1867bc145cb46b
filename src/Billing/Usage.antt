-- ===== src/Billing/Usage.antt =====
-- What the totals of a period are, and what a record adds to them.
use calling_agent.Prelude.{
  ◌≡◌, refl, ◌∙◌, inl, inr, ℕ, ◌+◌, arith, String, Bool, false, ◌||◌, List, [], ◌∷◌, ◌++◌, any,
  select, str_eq, eq_iff, Bool-cases, if◌then◌else◌,
}
use calling_agent.Repo.{Row}
use calling_agent.Billing.{
  UsageRecord, Group, add_to_group, group_by_metric, in_period, Totals, total_groups,
  get_usage_for_period,
}

-- The sum over the rows of what counts.
abbrev pub sum_of : (UsageRecord → ℕ) → List (Row UsageRecord) → ℕ
sum_of f [] = 0
sum_of f (r ∷ rows) = f r.body + sum_of f rows

abbrev pub voice_minutes : UsageRecord → ℕ
voice_minutes u = if str_eq u.metric "voice_minutes" then u.quantity else 0

abbrev group_cost : List Group → ℕ
group_cost [] = 0
group_cost (g ∷ gs) = g.cost + group_cost gs

abbrev has_metric : String → List Group → Bool
has_metric m gs = any (λ g. str_eq g.metric m) gs

abbrev quantity_of : String → List Group → ℕ
quantity_of m [] = 0
quantity_of m (g ∷ gs) = if str_eq g.metric m then g.quantity else quantity_of m gs

-- No metric comes twice.
abbrev IsDistinct : List Group → Type 0
IsDistinct [] = Unit {0}
IsDistinct (g ∷ gs) = (has_metric g.metric gs ≡ false) × IsDistinct gs

has_metric-add_to_group :
    (m : String) (u : UsageRecord) (gs : List Group)
    → has_metric m (add_to_group u gs) ≡ (has_metric m gs || str_eq u.metric m)
has_metric-add_to_group m u [] = ground arith
has_metric-add_to_group m u (g ∷ gs) =
    ground (arith, has_metric-add_to_group m u gs, eq_iff g.metric u.metric)

add_to_group-IsDistinct :
    (u : UsageRecord) (gs : List Group) → IsDistinct gs → IsDistinct (add_to_group u gs)
add_to_group-IsDistinct u [] h = (refl, tt)
add_to_group-IsDistinct u (g ∷ gs) h = elim (Bool-cases (str_eq g.metric u.metric)) [
  | inl e ↦ rw e h
  | inr e ↦ rw e (
    ground (
      arith,
      has_metric-add_to_group g.metric u gs,
      eq_iff u.metric g.metric,
      eq_iff g.metric u.metric,
    ),
    add_to_group-IsDistinct u gs h.1,
  )
]

quantity_of-add_to_group :
    (m : String) (u : UsageRecord) (gs : List Group)
    → quantity_of m (add_to_group u gs)
      ≡ quantity_of m gs + (if str_eq u.metric m then u.quantity else 0)
quantity_of-add_to_group m u [] = ground arith
quantity_of-add_to_group m u (g ∷ gs) = ground (
  arith,
  quantity_of-add_to_group m u gs,
  eq_iff g.metric u.metric,
  eq_iff g.metric m,
  eq_iff u.metric m,
)

group_cost-add_to_group :
    (u : UsageRecord) (gs : List Group)
    → group_cost (add_to_group u gs) ≡ group_cost gs + u.total_cost_cents
group_cost-add_to_group u [] = omega arith
group_cost-add_to_group u (g ∷ gs) = ground (arith, group_cost-add_to_group u gs)

group_by_metric-IsDistinct : (rows : List (Row UsageRecord)) → IsDistinct (group_by_metric rows)
group_by_metric-IsDistinct [] = tt
group_by_metric-IsDistinct (r ∷ rows) =
    add_to_group-IsDistinct r.body (group_by_metric rows) (group_by_metric-IsDistinct rows)

sums-group_by_metric :
    (rows : List (Row UsageRecord))
    → (quantity_of "voice_minutes" (group_by_metric rows) ≡ sum_of voice_minutes rows)
      × (group_cost (group_by_metric rows) ≡ sum_of (λ u. u.total_cost_cents) rows)
sums-group_by_metric [] = (refl, refl)
sums-group_by_metric (r ∷ rows) =
    let ih = sums-group_by_metric rows in
    let gs = group_by_metric rows in
    (
      omega (arith, quantity_of-add_to_group "voice_minutes" r.body gs, ih.0),
      omega (arith, group_cost-add_to_group r.body gs, ih.1),
    )

total_groups_lem :
    (t : Totals) (gs : List Group)
    → IsDistinct gs
    → ((total_groups t gs).cost ≡ t.cost + group_cost gs)
      × ((total_groups t gs).minutes
          ≡ (if has_metric "voice_minutes" gs then quantity_of "voice_minutes" gs else t.minutes))
unfolding total_groups
total_groups_lem t [] h = (omega arith, refl)
total_groups_lem t (g ∷ gs) h =
    let next : Totals = record {
      minutes = if str_eq g.metric "voice_minutes" then g.quantity else t.minutes;
      cost = t.cost + g.cost;
      breakdown = t.breakdown ++ (g.metric, g.quantity) ∷ [];
    } in
    let ih = total_groups_lem next gs h.1 in
    (omega (arith, ih.0), ih.1 ∙ ground (arith, eq_iff g.metric "voice_minutes"))

quantity_of-absent : (m : String) (gs : List Group) → has_metric m gs ≡ false → quantity_of m gs ≡ 0
quantity_of-absent m [] h = refl
quantity_of-absent m (g ∷ gs) h = ground (arith, quantity_of-absent m gs)

-- The minutes and the cost of a period are the sums over the tenant's records in it: of the quantities of
-- those that count voice minutes, and of all costs.
pub get_usage_for_period_lem :
    (tenant start end : ℕ) (rows : List (Row UsageRecord))
    → let used = get_usage_for_period tenant start end rows in
      let counted = select (in_period tenant start end) rows in
      (used.minutes ≡ sum_of voice_minutes counted)
      × (used.cost ≡ sum_of (λ u. u.total_cost_cents) counted)
unfolding get_usage_for_period
get_usage_for_period_lem tenant start end rows =
    let counted = select (in_period tenant start end) rows in
    let gs = group_by_metric counted in
    let none_yet : Totals = record { minutes = 0; cost = 0; breakdown = [] } in
    let total = total_groups_lem none_yet gs (group_by_metric-IsDistinct counted) in
    let sums = sums-group_by_metric counted in
    (
      total.1 ∙ ground (arith, sums.0, quantity_of-absent "voice_minutes" gs),
      omega (arith, total.0, sums.1),
    )
