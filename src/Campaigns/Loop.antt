-- ===== src/Campaigns/Loop.antt =====
-- What the dialer's loop does to the table of calls, update by update.
use calling_agent.Prelude.{
  ◌≡◌, refl, sym, ap, ◌∙◌, arith, ℕ, String, Option, none, some, List, [], ◌∷◌, ◌++◌, map,
  map_where, In, if◌then◌else◌,
}
use calling_agent.Http.{Result, ok, err}
use calling_agent.Repo.{Row, Values, at_id, assign, get_by_id, update}
use calling_agent.Contacts.{Contact}
use calling_agent.Calls.{Provider}
use calling_agent.Campaigns.{
  Campaign, running, CampaignCall, CampaignCalls, Dial, Dialer, State, is_running, set_dialing,
  set_failed, dial_of, after_answer, dial_found, dial_all,
}

-- No two rows have the same primary key.
abbrev pub HasKeys : CampaignCalls → Type 0
HasKeys rows = (a b : Row CampaignCall) → In a rows → In b rows → a.id ≡ b.id → a ≡ b

module _ (w : Dialer) (tenant : ℕ) (provider : Provider) (campaign : Campaign) where
  -- What becomes of a call, by its contact and the provider's answer, and what the provider is asked.
  abbrev pub answered : Result String → Option (Values CampaignCall)
  answered (ok sid) = some set_dialing
  answered (err e) = some (set_failed (w.detail e))

  abbrev pub values_for :
      Row CampaignCall → Result (Option (Row Contact)) → Option (Values CampaignCall)
  values_for c (err e) = some (set_failed (w.detail e))
  values_for c (ok none) = none
  values_for c (ok (some k)) = answered (w.answer (dial_of w tenant provider campaign c k))

  abbrev pub assigned : Option (Values CampaignCall) → Row CampaignCall → Row CampaignCall
  assigned none r = r
  assigned (some v) r = assign v r

  unfoldable pub values_of : Row CampaignCall → Option (Values CampaignCall)
  unfolding get_by_id
  values_of c = values_for c (get_by_id (some tenant) c.body.contact_id w.contacts)

  abbrev pub settled : Row CampaignCall → Row CampaignCall
  settled c = assigned (values_of c) c

  abbrev pub asks_for : Row CampaignCall → Result (Option (Row Contact)) → List Dial
  asks_for c (err e) = []
  asks_for c (ok none) = []
  asks_for c (ok (some k)) = dial_of w tenant provider campaign c k ∷ []

  unfoldable pub asks : CampaignCalls → List Dial
  unfolding get_by_id
  asks [] = []
  asks (c ∷ cs) = asks_for c (get_by_id (some tenant) c.body.contact_id w.contacts) ++ asks cs

  -- The update of one round of the loop on a row.
  abbrev pub step : Row CampaignCall → Row CampaignCall → Row CampaignCall
  step c r = if at_id (some tenant) c.id r then assigned (values_of c) r else r

  abbrev pub steps : CampaignCalls → Row CampaignCall → Row CampaignCall
  steps [] r = r
  steps (c ∷ cs) r = steps cs (step c r)

  abbrev stepped : Row CampaignCall → Option (Values CampaignCall) → CampaignCalls → CampaignCalls
  stepped c none rows = rows
  stepped c (some v) rows = map_where (at_id (some tenant) c.id) (assign v) rows

  map-step :
      (c : Row CampaignCall) (v : Option (Values CampaignCall)) (rows : CampaignCalls)
      → map (λ r. if at_id (some tenant) c.id r then assigned v r else r) rows ≡ stepped c v rows
  map-step c none [] = refl
  map-step c (some v) [] = refl
  map-step c none (r ∷ rows) = ground (arith, map-step c none rows)
  map-step c (some v) (r ∷ rows) = ground (arith, map-step c (some v) rows)

  after_answer-calls :
      (c : Row CampaignCall) (d : Dial) (x : Result String) (st : State)
      → (after_answer w tenant c d x st).calls ≡ stepped c (answered x) st.calls
  unfolding update
  after_answer-calls c d (ok sid) st = refl
  after_answer-calls c d (err e) st = refl

  after_answer-asked :
      (c : Row CampaignCall) (d : Dial) (x : Result String) (st : State)
      → (after_answer w tenant c d x st).asked ≡ st.asked ++ d ∷ []
  after_answer-asked c d (ok sid) st = refl
  after_answer-asked c d (err e) st = refl

  dial_found-calls :
      (c : Row CampaignCall) (found : Result (Option (Row Contact))) (st : State)
      → (dial_found w tenant provider campaign c found st).calls
        ≡ stepped c (values_for c found) st.calls
  unfolding update
  dial_found-calls c (err e) st = refl
  dial_found-calls c (ok none) st = refl
  dial_found-calls c (ok (some k)) st =
      after_answer-calls c _ (w.answer (dial_of w tenant provider campaign c k)) st

  append-nil : (ds : List Dial) → ds ++ [] ≡ ds
  append-nil [] = refl
  append-nil (d ∷ ds) = ap (◌∷◌ d) (append-nil ds)

  append_assoc : (xs ys zs : List Dial) → (xs ++ ys) ++ zs ≡ xs ++ (ys ++ zs)
  append_assoc [] ys zs = refl
  append_assoc (x ∷ xs) ys zs = ap (◌∷◌ x) (append_assoc xs ys zs)

  dial_found-asked :
      (c : Row CampaignCall) (found : Result (Option (Row Contact))) (st : State)
      → (dial_found w tenant provider campaign c found st).asked ≡ st.asked ++ asks_for c found
  dial_found-asked c (err e) st = refl
  dial_found-asked c (ok none) st = sym (append-nil st.asked)
  dial_found-asked c (ok (some k)) st =
      after_answer-asked c _ (w.answer (dial_of w tenant provider campaign c k)) st

  map-id : (rows : CampaignCalls) → map (λ r. r) rows ≡ rows
  map-id [] = refl
  map-id (r ∷ rows) = ap (◌∷◌ r) (map-id rows)

  map-map :
      (f g : Row CampaignCall → Row CampaignCall) (rows : CampaignCalls)
      → map g (map f rows) ≡ map (λ r. g (f r)) rows
  map-map f g [] = refl
  map-map f g (r ∷ rows) = ap (◌∷◌ (g (f r))) (map-map f g rows)

  module _ (is_run : campaign.status ≡ running) where
    round :
        (c : Row CampaignCall) (cs : CampaignCalls) (st : State)
        → dial_all w tenant provider campaign (c ∷ cs) st
          ≡ dial_all w tenant provider campaign cs (
              dial_found w tenant provider campaign c
                (get_by_id (some tenant) c.body.contact_id w.contacts)
                st)
    unfolding dial_all
    round c cs st =
        let found = get_by_id (some tenant) c.body.contact_id w.contacts in
        let rest =
          dial_all w tenant provider campaign cs
            (dial_found w tenant provider campaign c found st) in
        ap (λ z. if is_running z then rest else st) is_run

    pub dial_all-calls :
        (cs : CampaignCalls) (st : State)
        → (dial_all w tenant provider campaign cs st).calls ≡ map (steps cs) st.calls
    unfolding dial_all values_of
    dial_all-calls [] st = sym (map-id st.calls)
    dial_all-calls (c ∷ cs) st =
        let found = get_by_id (some tenant) c.body.contact_id w.contacts in
        ap (λ z. z.calls) (round c cs st)
        ∙ dial_all-calls cs (dial_found w tenant provider campaign c found st)
        ∙ ap (map (steps cs))
            (dial_found-calls c found st ∙ sym (map-step c (values_for c found) st.calls))
        ∙ map-map (step c) (steps cs) st.calls

    pub dial_all-asked :
        (cs : CampaignCalls) (st : State)
        → (dial_all w tenant provider campaign cs st).asked ≡ st.asked ++ asks cs
    unfolding dial_all asks
    dial_all-asked [] st = sym (append-nil st.asked)
    dial_all-asked (c ∷ cs) st =
        let found = get_by_id (some tenant) c.body.contact_id w.contacts in
        ap (λ z. z.asked) (round c cs st)
        ∙ dial_all-asked cs (dial_found w tenant provider campaign c found st)
        ∙ ap (λ ds. ds ++ asks cs) (dial_found-asked c found st)
        ∙ append_assoc st.asked (asks_for c found) (asks cs)
