-- ===== src/Calls/Model.antt =====
-- What the routes of apps/api/routers/voice.py take and give, and what they rely on: the check of a
-- signature by the SDKs of Twilio and Plivo, UUIDs and their texts, and `str.lower`.
use calling_agent.Prelude.{ℕ, String, Bool, Option, List}
use calling_agent.Http.{Result}
use calling_agent.Repo.{Row}
use calling_agent.Agents.{Db}
use calling_agent.Billing.{Subscription, UsageRecord}
use calling_agent.Compliance.{Entries}
use calling_agent.Sessions.{Dict}

pub data Provider : Type 0 where
  twilio plivo : Provider

-- The headers that the routes read, the URL and the form.
pub record Request : Type 0 where
  pub twilio_signature : Option String
  pub plivo_signature_v2 : Option String
  pub plivo_signature : Option String
  pub url : String
  pub form : Dict

pub record Settings : Type 0 where
  pub twilio_auth_token : String
  pub plivo_auth_token : String
  pub call_max_concurrent_per_tenant : ℕ

-- The URLs that the routes build on `twilio_webhook_base_url`, by their paths.
pub data Url : Type 0 where
  stream_url status_url : String → Url
  inbound_url : ℕ → Url

-- The answer to an inbound call: the apology with a hang-up, or the stream with its parameters.
pub data Xml : Type 0 where
  sorry : Xml
  connect : Url → Dict → Xml

pub record PhoneNumber : Type 0 where
  pub number : String
  pub provider : String

pub record OutboundCallRequest : Type 0 where
  pub agent_id : ℕ
  pub to_number : String
  pub from_number : String

pub record CallStatusResponse : Type 0 where
  pub call_id : String
  pub status : String
  pub agent_id : Option String
  pub direction : Option String

-- The arguments of `initiate_outbound_call` of a provider.
pub record OutboundCall : Type 0 where
  pub provider : Provider
  pub to_number : String
  pub from_number : String
  pub webhook_url : Url
  pub status_callback_url : Url
  pub call_id : String

-- What a route reads and does not change. `clock` is `now` in ISO format; `uuid` is `uuid.UUID` (`none`:
-- it raises) and `show` is `str` of a UUID; `twilio_validate` and `plivo_verify` are the SDKs' checks of a
-- signature (`none`: the SDK has no such function); `answer` is the provider's answer to an outbound call.
pub record World : Type 0 where
  pub settings : Settings
  pub db : Db
  pub subscriptions : List (Row Subscription)
  pub usage : List (Row UsageRecord)
  pub dnc : Entries
  pub phone_numbers : List (Row PhoneNumber)
  pub now : ℕ
  pub month : ℕ
  pub clock : String
  pub uuid : String → Option ℕ
  pub show : ℕ → String
  pub lower : String → String
  pub twilio_validate : String → Dict → Option String → Bool
  pub plivo_verify : String → Dict → Option String → String → Option Bool
  pub answer : OutboundCall → Result String
