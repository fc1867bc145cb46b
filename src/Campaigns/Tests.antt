-- ===== src/Campaigns/Tests.antt =====
-- The dialer at concrete inputs: a running campaign with a call that is dialed, one that Twilio refuses, one
-- without its contact, one that is over, and one of another campaign.
use calling_agent.Prelude.{
  ◌≡◌, refl, ap, ==_iff, Bool-cases, sym, ◌∙◌, ◌++◌, inl, inr, arith, ℕ, ◌==◌, String, Bool, true,
  false, Option, none, some, [], ◌∷◌, map, In, str_eq, if◌then◌else◌,
}
use calling_agent.Http.{ok, err, other}
use calling_agent.Json.{end}
use calling_agent.Repo.{Row, get_by_id}
use calling_agent.Contacts.{Contact}
use calling_agent.Calls.{Provider}
use calling_agent.Calls.Outbound.{get_by_number}
use calling_agent.Campaigns.{
  Campaign, CampaignStatus, CampaignCall, CampaignCalls, CallStatus, Dialer, State, campaign_dialer,
  is_due,
}
use calling_agent.Campaigns.Loop.{HasKeys, settled, asks}
use calling_agent.Campaigns.Dialing.{due, dialer_settles}

abbrev campaign : Campaign
campaign = record {
  name = "May";
  agent_id = 1;
  contact_list_id = 1;
  from_number = "+15550002";
  status = CampaignStatus.running;
}

abbrev campaign_row : Row Campaign
campaign_row = record { id = 3; tenant_id = 2; body = campaign }

abbrev contact : ℕ → String → Row Contact
contact id phone = record {
  id = id;
  tenant_id = 2;
  body = record {
    phone_number = phone;
    email = none;
    first_name = none;
    last_name = none;
    company = none;
    timezone = none;
    tags = [];
    custom_fields = end;
    notes = none;
    status = "active";
    do_not_call = false;
    last_contacted_at = none;
    total_calls = 0;
  };
}

abbrev call : ℕ → ℕ → ℕ → CallStatus → Option String → Row CampaignCall
call id campaign_id contact_id state message = record {
  id = id;
  tenant_id = 2;
  body = record {
    campaign_id = campaign_id;
    contact_id = contact_id;
    attempt_number = 1;
    status = state;
    error_message = message;
  };
}

abbrev dialer : Dialer
dialer = record {
  campaigns = campaign_row ∷ [];
  contacts = contact 11 "+15550011" ∷ contact 12 "+15550012" ∷ [];
  phone_numbers = [];
  twilio_account_sid = "AC1";
  plivo_auth_id = "";
  lower = λ s. s;
  answer = λ d. if str_eq d.to_number "+15550012" then err (other "busy") else ok "CA1";
  detail = λ e. "refused";
}

abbrev before : State
before = record {
  calls =
      call 21 3 11 CallStatus.pending none
      ∷ call 22 3 12 CallStatus.pending none
      ∷ call 23 3 19 CallStatus.pending none
      ∷ call 24 4 11 CallStatus.pending none
      ∷ [];
  asked = [];
}

statuses :
    (campaign_dialer dialer 2 3 before).calls
    ≡ call 21 3 11 CallStatus.dialing none
      ∷ call 22 3 12 CallStatus.failed (some "refused")
      ∷ call 23 3 19 CallStatus.pending none
      ∷ call 24 4 11 CallStatus.pending none
      ∷ []
unfolding campaign_dialer
statuses = refl

-- A table with distinct keys, from the list of its keys.
abbrev fresh : ℕ → CampaignCalls → Bool
fresh id [] = true
fresh id (r ∷ rows) = if r.id == id then false else fresh id rows

abbrev distinct : CampaignCalls → Bool
distinct [] = true
distinct (r ∷ rows) = if fresh r.id rows then distinct rows else false

fresh-In :
    (id : ℕ) (rows : CampaignCalls) (r : Row CampaignCall)
    → fresh id rows ≡ true
    → In r rows
    → r.id ≡ id
    → ⊥
fresh-In id [] r h k e = k
fresh-In id (x ∷ rows) r h k e = elim (Bool-cases (x.id == id)) [
  | inl p ↦ absurd (ground arith)
  | inr p ↦ elim k [
    | inl same ↦ let key = sym (ap (λ z. z.id) same) ∙ e in absurd (ground (arith, ==_iff x.id id))
    | inr q ↦ fresh-In id rows r (ground arith) q e
  ]
]

distinct-HasKeys : (rows : CampaignCalls) → distinct rows ≡ true → HasKeys rows
distinct-HasKeys [] h a b p q e = absurd p
distinct-HasKeys (x ∷ rows) h a b (inl p) (inl q) e = p ∙ sym q
distinct-HasKeys (x ∷ rows) h a b (inl p) (inr q) e =
    absurd (fresh-In x.id rows b (ground arith) q (sym e ∙ ap (λ z. z.id) p))
distinct-HasKeys (x ∷ rows) h a b (inr p) (inl q) e =
    absurd (fresh-In x.id rows a (ground arith) p (e ∙ ap (λ z. z.id) q))
distinct-HasKeys (x ∷ rows) h a b (inr p) (inr q) e = distinct-HasKeys rows (ground arith) a b p q e

dialer_settles_example :
    ((campaign_dialer dialer 2 3 before).calls
      ≡ map
          (λ r. if is_due dialer 2 3 r then settled dialer 2 Provider.twilio campaign r else r)
          before.calls)
    × ((campaign_dialer dialer 2 3 before).asked
        ≡ []
          ++ asks dialer 2 Provider.twilio campaign
              (due dialer 2 Provider.twilio campaign 3 before.calls))
unfolding get_by_id get_by_number
dialer_settles_example =
    dialer_settles dialer 2 Provider.twilio campaign 3 campaign_row none before refl refl refl refl
      refl (distinct-HasKeys before.calls refl)
