-- ===== src/Campaigns.antt =====
-- Campaigns and their dialer: the tables of apps/api/models/campaign.py, the queries of
-- apps/api/repositories/campaign_repo.py, apps/api/services/campaign_service.py, and `campaign_dialer` of
-- apps/api/worker/tasks.py. What a query of the dialer loads again keeps the attributes of the first load,
-- since the session's objects do not expire, so that the campaign's status is that of the start. No other
-- request changes the tables during the run.
mod Loop
pub mod Dialing
mod Tests
use calling_agent.Prelude.{
  ℕ, ◌==◌, String, Bool, true, false, ◌&&◌, Option, none, some, List, [], ◌∷◌, ◌++◌, select, str_eq,
  truthy, if◌then◌else◌,
}
use calling_agent.Http.{Error, http, Result, ok, err, Action, pure, raise, query, ◌>>=◌}
use calling_agent.Repo.{Row, Values, in_tenant, get_by_id, get_all, create, update}
use calling_agent.Contacts.{Contact, Contacts}
use calling_agent.Calls.{Provider, PhoneNumber}
use calling_agent.Calls.Outbound.{get_by_number}

pub data CampaignStatus : Type 0 where
  draft scheduled running paused completed cancelled : CampaignStatus

pub record Campaign : Type 0 where
  pub name : String
  pub agent_id : ℕ
  pub contact_list_id : ℕ
  pub from_number : String
  pub status : CampaignStatus

pub data CallStatus : Type 0 where
  pending dialing answered completed failed skipped dnc : CallStatus

pub record CampaignCall : Type 0 where
  pub campaign_id : ℕ
  pub contact_id : ℕ
  pub attempt_number : ℕ
  pub status : CallStatus
  pub error_message : Option String

abbrev pub CampaignCalls : Type 0
CampaignCalls = List (Row CampaignCall)

abbrev pub no_clash : {B : Type 0} → Row B → Row B → Bool
no_clash x y = false

-- The condition of `get_calls_for_campaign` on a row.
abbrev pub of_campaign : ℕ → ℕ → Row CampaignCall → Bool
of_campaign tenant campaign r = r.body.campaign_id == campaign && in_tenant (some tenant) r

unfoldable pub get_calls_for_campaign : ℕ → ℕ → CampaignCalls → CampaignCalls
get_calls_for_campaign tenant campaign rows = select (of_campaign tenant campaign) rows

-- `CampaignService`
module _ (tenant : ℕ) where
  abbrev pub or_404 : Option (Row Campaign) → Action (List (Row Campaign)) (Row Campaign)
  or_404 none = raise (http 404 "Campaign not found")
  or_404 (some c) = pure c

  unfoldable pub get_campaign : ℕ → Action (List (Row Campaign)) (Row Campaign)
  unfolding get_by_id
  get_campaign id = do c ← query (λ rows. get_by_id (some tenant) id rows); or_404 c

  unfoldable pub create_campaign : Row Campaign → Action (List (Row Campaign)) (Row Campaign)
  unfolding create
  create_campaign c = create no_clash (some tenant) c

  unfoldable pub update_campaign : ℕ → Values Campaign → Action (List (Row Campaign)) (Row Campaign)
  unfolding update
  update_campaign id v = do c ← update (some tenant) id v; or_404 c

  unfoldable pub create_campaign_call : Row CampaignCall → Action CampaignCalls (Row CampaignCall)
  unfolding create
  create_campaign_call c = create no_clash (some tenant) c

-- What the provider is asked for: the agent of the inbound webhook and the call of the status URL.
pub record Dial : Type 0 where
  pub provider : Provider
  pub to_number : String
  pub from_number : String
  pub agent_id : ℕ
  pub call_id : ℕ

-- The tables that the dialer reads, the settings, and `answer`, what the provider answers.
pub record Dialer : Type 0 where
  pub campaigns : List (Row Campaign)
  pub contacts : Contacts
  pub phone_numbers : List (Row PhoneNumber)
  pub twilio_account_sid : String
  pub plivo_auth_id : String
  pub lower : String → String
  pub answer : Dial → Result String
  pub detail : Error → String

pub record State : Type 0 where
  pub calls : CampaignCalls
  pub asked : List Dial

abbrev pub is_pending : CallStatus → Bool
is_pending pending = true
is_pending _ = false

abbrev pub is_running : CampaignStatus → Bool
is_running running = true
is_running _ = false

abbrev pub set_dialing : Values CampaignCall
set_dialing = record { tenant = none; columns = λ c. record c { status = CallStatus.dialing } }

abbrev pub set_failed : String → Values CampaignCall
set_failed message = record {
  tenant = none;
  columns = λ c. record c { status = CallStatus.failed; error_message = some message };
}

module _ (w : Dialer) (tenant : ℕ) where
  abbrev pub dial_of : Provider → Campaign → Row CampaignCall → Row Contact → Dial
  dial_of provider campaign call contact = record {
    provider = provider;
    to_number = contact.body.phone_number;
    from_number = campaign.from_number;
    agent_id = campaign.agent_id;
    call_id = call.id;
  }

  -- `call_repo.update`, then the commit.
  abbrev pub settle : Row CampaignCall → Values CampaignCall → List Dial → State → State
  settle call v new st = record {
    calls = (update (some tenant) call.id v st.calls).1;
    asked = st.asked ++ new;
  }

  abbrev pub after_answer : Row CampaignCall → Dial → Result String → State → State
  after_answer call d (ok sid) st = settle call set_dialing (d ∷ []) st
  after_answer call d (err e) st = settle call (set_failed (w.detail e)) (d ∷ []) st

  -- The body of the loop, the exceptions of the `try` included.
  abbrev pub dial_found :
      Provider → Campaign → Row CampaignCall → Result (Option (Row Contact)) → State → State
  dial_found provider campaign call (err e) st = settle call (set_failed (w.detail e)) [] st
  dial_found provider campaign call (ok none) st = st
  dial_found provider campaign call (ok (some contact)) st =
      let d = dial_of provider campaign call contact in after_answer call d (w.answer d) st

  -- `campaign` is the object that each round's query gives again.
  unfoldable pub dial_all : Provider → Campaign → CampaignCalls → State → State
  unfolding get_by_id update
  dial_all provider campaign [] st = st
  dial_all provider campaign (call ∷ calls) st =
      let found = get_by_id (some tenant) call.body.contact_id w.contacts in
      let rest = dial_all provider campaign calls (dial_found provider campaign call found st) in
      if is_running campaign.status then rest else st

  abbrev pub is_due : ℕ → Row CampaignCall → Bool
  is_due campaign c = of_campaign tenant campaign c && is_pending c.body.status

  abbrev pub is_plivo : Option (Row PhoneNumber) → Bool
  is_plivo none = false
  is_plivo (some r) = str_eq (w.lower r.body.provider) "plivo"

  -- The provider, unless it is not configured.
  abbrev pub configured : Bool → Option Provider
  configured true = if truthy w.plivo_auth_id then some Provider.plivo else none
  configured false = if truthy w.twilio_account_sid then some Provider.twilio else none

  abbrev pub dial_campaign : ℕ → Campaign → Option Provider → State → State
  dial_campaign id campaign none st = st
  dial_campaign id campaign (some provider) st =
      dial_all provider campaign
        (select (λ c. is_pending c.body.status) (get_calls_for_campaign tenant id st.calls)) st

  -- An exception before the loop is logged by the task.
  abbrev pub with_number : ℕ → Campaign → Result (Option (Row PhoneNumber)) → State → State
  with_number id campaign (err e) st = st
  with_number id campaign (ok phone) st = dial_campaign id campaign (configured (is_plivo phone)) st

  abbrev pub with_campaign : ℕ → Result (Option (Row Campaign)) → State → State
  with_campaign id (err e) st = st
  with_campaign id (ok none) st = st
  with_campaign id (ok (some c)) st =
      if is_running c.body.status
      then with_number id c.body (get_by_number (some tenant) c.body.from_number w.phone_numbers) st
      else st

  unfoldable pub campaign_dialer : ℕ → State → State
  unfolding dial_all get_calls_for_campaign get_by_number get_by_id
  campaign_dialer id st = with_campaign id (get_by_id (some tenant) id w.campaigns) st
