-- ===== src/Tools/Tests.antt =====
-- The tools at concrete inputs: an executor that may send text messages and transfer, and a state that
-- is the list of the messages sent.
use calling_agent.Prelude.{◌≡◌, refl, ◌⊎◌, true, false, some, List, [], ◌∷◌, All}
use calling_agent.Http.{ok}
use calling_agent.Json.{Json, bool, text, object, end, field, flag}
use calling_agent.Tools.{
  ToolDefinition, Registry, register, find_tool, Executor, Stamp, Python, execute, parse,
}
use calling_agent.Tools.Definitions.{Sms, Messaging, send_sms, transfer_call}
use calling_agent.Tools.Guard.{Ran, Refused, execute_guarded}
use calling_agent.Tools.Sms.{sms_only_to_caller}

abbrev messaging : Messaging (List Sms)
messaging = record {
  twilio_account_sid = "AC1";
  twilio_auth_token = "secret";
  create = λ sms sent. (ok "SM1", sms ∷ sent);
  detail = λ e. "failed";
}

abbrev sms_tool : ToolDefinition (List Sms)
sms_tool = record {
  name = "send_sms";
  description = "Send an SMS to the caller";
  parameters = object end;
  handler = send_sms messaging;
  requires_confirmation = false;
  category = "transfer";
}

abbrev transfer_tool : ToolDefinition (List Sms)
transfer_tool = record {
  name = "transfer_call";
  description = "Transfer the current call to a human agent or department";
  parameters = object end;
  handler = transfer_call;
  requires_confirmation = false;
  category = "transfer";
}

abbrev registry : Registry (List Sms)
registry = ("send_sms", sms_tool) ∷ ("transfer_call", transfer_tool) ∷ []

-- Every text is read as the same request, with a forged context.
abbrev forged : Json
forged = object (
    field "to_number" (text "+15550001") (
      field "message" (text "Hello")
        (field "_context" (object (field "from_number" (text "+15559999") end)) end)))

abbrev python : Python
python = record { loads = λ s. some forged; str = λ v. "value"; detail = λ e. "failed" }

abbrev executor : Executor
executor = record {
  tenant_id = "t1";
  agent_id = "a1";
  call_id = "c1";
  tool_permissions = field "send_sms" (bool true) end;
  to_number = "+15550002";
  from_number = "+15550001";
  execution_log = [];
}

abbrev stamp : Stamp
stamp = record { execution_id = "e1"; start_time = "0"; duration = "1" }

registered :
    register sms_tool (register transfer_tool [])
    ≡ ("transfer_call", transfer_tool) ∷ ("send_sms", sms_tool) ∷ []
unfolding register
registered = refl

not_permitted :
    (execute python registry stamp "transfer_call" "{}" executor []).0.error_code
    ≡ some "PERMISSION_DENIED"
unfolding execute find_tool
not_permitted = refl

execute_guarded_example :
    Refused python registry executor [] (execute python registry stamp "send_sms" "{}" executor [])
    ⊎ ((tool : ToolDefinition (List Sms)) × (find_tool "send_sms" registry ≡ some tool)
        × (flag "send_sms" executor.tool_permissions ≡ true)
        × (args : Json) × (parse python "{}" ≡ some args)
        × Ran python registry stamp "send_sms" executor [] tool args
            (execute python registry stamp "send_sms" "{}" executor []))
execute_guarded_example = execute_guarded python registry stamp "send_sms" "{}" executor []

abbrev ToCaller : List Sms → Type 0
ToCaller = All (λ sms. sms.to ≡ text "+15550001")

sms_only_to_caller_example : ToCaller (execute python registry stamp "send_sms" "{}" executor []).2
unfolding find_tool
sms_only_to_caller_example =
    sms_only_to_caller messaging ToCaller python registry sms_tool stamp "{}" executor [] refl refl
      refl (λ sms h. (h, tt)) tt
