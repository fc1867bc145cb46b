-- ===== src/Campaigns/Dialing.antt =====
-- That the dialer's loop, with its updates one by one, is a single pass over the table of calls.
use calling_agent.Prelude.{
  ◌≡◌, ◌≢◌, refl, sym, ap, ◌∙◌, ◌⊎◌, inl, inr, arith, ℕ, ==_iff, Bool, true, false, Option, none,
  some, [], ◌∷◌, ◌++◌, map, select, In, Bool-cases, if◌then◌else◌,
}
use calling_agent.Http.{Result, ok, err, Result-cases}
use calling_agent.Repo.{Row, Values, at_id, get_by_id}
use calling_agent.Contacts.{Contact}
use calling_agent.Calls.{Provider, PhoneNumber}
use calling_agent.Calls.Outbound.{get_by_number}
use calling_agent.Campaigns.{
  Campaign, running, CampaignCall, CampaignCalls, of_campaign, get_calls_for_campaign, Dialer,
  State, is_pending, dial_of, dial_all, is_due, is_plivo, configured, with_campaign,
  campaign_dialer,
}
use calling_agent.Campaigns.Loop.{
  HasKeys, assigned, values_for, values_of, settled, asks, step, steps, dial_all-calls,
  dial_all-asked,
}

map-ext :
    (f g : Row CampaignCall → Row CampaignCall) (rows : CampaignCalls)
    → ((r : Row CampaignCall) → In r rows → f r ≡ g r)
    → map f rows ≡ map g rows
map-ext f g [] h = refl
map-ext f g (r ∷ rows) h =
    let first : f r ≡ g r = h r (inl refl) in
    let rest : map f rows ≡ map g rows = map-ext f g rows (λ x k. h x (inr k)) in cc

In-select :
    (p : Row CampaignCall → Bool) (r : Row CampaignCall) (rows : CampaignCalls)
    → In r rows
    → p r ≡ true
    → In r (select p rows)
In-select p r [] h e = absurd h
In-select p r (x ∷ rows) (inl same) e = ground arith
In-select p r (x ∷ rows) (inr h) e = ground (arith, In-select p r rows h e)

selected :
    (p : Row CampaignCall → Bool) (r : Row CampaignCall) (rows : CampaignCalls)
    → In r (select p rows)
    → In r rows × (p r ≡ true)
selected p r [] h = absurd h
selected p r (x ∷ rows) h = elim (Bool-cases (p x)) [
  | inl e ↦ elim (kept e) [
    | inl same ↦ (inl same, ap p same ∙ e)
    | inr k ↦ let (a, b) = selected p r rows k in (inr a, b)
  ]
  | inr e ↦ let (a, b) = selected p r rows (left e) in (inr a, b)
]
  where
    kept : p x ≡ true → (r ≡ x) ⊎ In r (select p rows)
    kept e = ground arith

    left : p x ≡ false → In r (select p rows)
    left e = ground arith

module _ (w : Dialer) (tenant : ℕ) (provider : Provider) (campaign : Campaign) where
  assigned-id :
      (v : Option (Values CampaignCall)) (r : Row CampaignCall)
      → (assigned w tenant provider campaign v r).id ≡ r.id
  assigned-id none r = refl
  assigned-id (some v) r = refl

  assigned-again :
      (c : Row CampaignCall) (found : Result (Option (Row Contact))) (r : Row CampaignCall)
      → (let v = values_for w tenant provider campaign c found in
          assigned w tenant provider campaign v (assigned w tenant provider campaign v r)
          ≡ assigned w tenant provider campaign v r)
  assigned-again c (err e) r = refl
  assigned-again c (ok none) r = refl
  assigned-again c (ok (some k)) r =
      elim (Result-cases (w.answer (dial_of w tenant provider campaign c k))) [
        | inl (sid, e) ↦ rw e refl
        | inr (x, e) ↦ rw e refl
      ]

  settled-again :
      (c : Row CampaignCall)
      → assigned w tenant provider campaign
          (values_of w tenant provider campaign c)
          (settled w tenant provider campaign c)
        ≡ settled w tenant provider campaign c
  unfolding values_of
  settled-again c = assigned-again c (get_by_id (some tenant) c.body.contact_id w.contacts) c

  -- A call of the loop with the key of `r` is `r`.
  abbrev Only : Row CampaignCall → CampaignCalls → Type 0
  Only r cs = (c : Row CampaignCall) → In c cs → c.id ≡ r.id → c ≡ r

  steps-settled :
      (r : Row CampaignCall) (cs : CampaignCalls)
      → Only r cs
      → steps w tenant provider campaign cs (settled w tenant provider campaign r)
        ≡ settled w tenant provider campaign r
  steps-settled r [] only = refl
  steps-settled r (c ∷ cs) only =
      ap (steps w tenant provider campaign cs) kept ∙ steps-settled r cs (λ x h. only x (inr h))
    where
      kept :
          step w tenant provider campaign c (settled w tenant provider campaign r)
          ≡ settled w tenant provider campaign r
      kept = elim (Bool-cases (at_id (some tenant) c.id (settled w tenant provider campaign r))) [
        | inl e ↦
            let key = assigned-id (values_of w tenant provider campaign r) r in
            let same : c ≡ r = only c (inl refl) (ground arith) in
            rw e (
              ap
                (λ z.
                  assigned w tenant provider campaign (values_of w tenant provider campaign z)
                    (settled w tenant provider campaign r))
                same
              ∙ settled-again r)
        | inr e ↦ rw e refl
      ]

  steps-other :
      (r : Row CampaignCall) (cs : CampaignCalls)
      → ((c : Row CampaignCall) → In c cs → c.id ≢ r.id)
      → steps w tenant provider campaign cs r ≡ r
  steps-other r [] other = refl
  steps-other r (c ∷ cs) other =
      ap (steps w tenant provider campaign cs) kept ∙ steps-other r cs (λ x h. other x (inr h))
    where
      kept : step w tenant provider campaign c r ≡ r
      kept = elim (Bool-cases (at_id (some tenant) c.id r)) [
        | inl e ↦ let key : c.id ≡ r.id = ground arith in absurd (other c (inl refl) key)
        | inr e ↦ rw e refl
      ]

  steps-own :
      (r : Row CampaignCall) (cs : CampaignCalls)
      → r.tenant_id ≡ tenant
      → Only r cs
      → In r cs
      → steps w tenant provider campaign cs r ≡ settled w tenant provider campaign r
  steps-own r [] own only h = absurd h
  steps-own r (c ∷ cs) own only h = elim (Bool-cases (at_id (some tenant) c.id r)) [
    | inl e ↦
        let same : c ≡ r = only c (inl refl) (ground arith) in
        rw e (
          ap
            (λ z.
              steps w tenant provider campaign cs
                (assigned w tenant provider campaign (values_of w tenant provider campaign z) r))
            same
          ∙ steps-settled r cs (λ x k. only x (inr k)))
    | inr e ↦ elim h [
      | inl same ↦ absurd (ground (arith, ==_iff c.id r.id, ==_iff r.tenant_id tenant))
      | inr k ↦ rw e (steps-own r cs own (λ x k. only x (inr k)) k)
    ]
  ]

  -- The calls that the loop goes through.
  abbrev pub due : ℕ → CampaignCalls → CampaignCalls
  due id rows = select (λ c. is_pending c.body.status) (select (of_campaign tenant id) rows)

  dial-row :
      (id : ℕ) (rows : CampaignCalls) (r : Row CampaignCall)
      → HasKeys rows
      → In r rows
      → steps w tenant provider campaign (due id rows) r
        ≡ (if is_due w tenant id r then settled w tenant provider campaign r else r)
  dial-row id rows r keys h = elim (Bool-cases (is_due w tenant id r)) [
    | inl e ↦ rw e (
        steps-own r (due id rows) (ground arith) (λ c k. keys c r (of_table c k) h)
          (In-select (λ c. is_pending c.body.status) r _
            (In-select (of_campaign tenant id) r rows h (ground arith)) (ground arith)))
    | inr e ↦ rw e (
        steps-other r (due id rows) λ c k key.
          let same : c ≡ r = keys c r (of_table c k) h key in
          let (a, b) = selected (λ c. is_pending c.body.status) c _ k in
          let (a', b') = selected (of_campaign tenant id) c rows a in
          let is : is_due w tenant id c ≡ true = rw (b', b) refl in
          let is' : is_due w tenant id r ≡ true = ap (is_due w tenant id) (sym same) ∙ is in
          absurd (ground arith))
  ]
    where
      of_table : (c : Row CampaignCall) → In c (due id rows) → In c rows
      of_table c k =
          let (a, b) = selected (λ c. is_pending c.body.status) c _ k in
          let (a', b') = selected (of_campaign tenant id) c rows a in a'

  -- A dialer that finds its campaign running and its provider configured goes through the table of calls in
  -- one pass: each pending call of the campaign whose contact is found is asked of the provider, in the
  -- table's order, and is then dialing, or failed with the detail of the exception; every other call
  -- stays as it was. No two calls have the same primary key.
  pub dialer_settles :
      (id : ℕ) (c : Row Campaign) (phone : Option (Row PhoneNumber)) (st : State)
      → get_by_id (some tenant) id w.campaigns ≡ ok (some c)
      → c.body ≡ campaign
      → campaign.status ≡ running
      → get_by_number (some tenant) campaign.from_number w.phone_numbers ≡ ok phone
      → configured w tenant (is_plivo w tenant phone) ≡ some provider
      → HasKeys st.calls
      → ((campaign_dialer w tenant id st).calls
          ≡ map
              (λ r. if is_due w tenant id r then settled w tenant provider campaign r else r)
              st.calls)
        × ((campaign_dialer w tenant id st).asked
            ≡ st.asked ++ asks w tenant provider campaign (due id st.calls))
  unfolding campaign_dialer get_calls_for_campaign
  dialer_settles id c phone st found body is_run number conf keys = (
    ap (λ z. z.calls) runs
        ∙ dial_all-calls w tenant provider campaign is_run (due id st.calls) st
        ∙ map-ext _ _ st.calls (λ r h. dial-row id st.calls r keys h),
    ap (λ z. z.asked) runs ∙ dial_all-asked w tenant provider campaign is_run (due id st.calls) st,
  )
    where
      runs :
          campaign_dialer w tenant id st ≡ dial_all w tenant provider campaign (due id st.calls) st
      runs =
          ap (λ x. with_campaign w tenant id x st) found
          ∙ ap (λ z. with_campaign w tenant id (ok (some (record c { body = z }))) st) body
          ∙ rw (is_run, number, conf) refl
