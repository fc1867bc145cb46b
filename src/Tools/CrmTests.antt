-- ===== src/Tools/CrmTests.antt =====
-- The tools for customers and appointments at concrete inputs: tenant 2 has two contacts, and one of them
-- calls.
use calling_agent.Prelude.{
  ◌≡◌, refl, sym, ◌∙◌, inl, inr, arith, ℕ, String, true, false, none, some, [], ◌∷◌, In, str_eq,
  if◌then◌else◌,
}
use calling_agent.Json.{Json, text, bool, object, end, field}
use calling_agent.Repo.{Row}
use calling_agent.Contacts.{Contact, Contacts}
use calling_agent.Tools.{
  ToolDefinition, Registry, Executor, Stamp, Python, find_tool, run_handler, execute,
}
use calling_agent.Tools.Customers.{Outside, update_customer}
use calling_agent.Tools.Kept.{HasKeys}
use calling_agent.Tools.Callers.{CrmTool, handler, tools_keep_others}

abbrev contact : ℕ → String → String → Row Contact
contact id phone notes = record {
  id = id;
  tenant_id = 2;
  body = record {
    phone_number = phone;
    email = none;
    first_name = some "Ann";
    last_name = none;
    company = none;
    timezone = none;
    tags = [];
    custom_fields = end;
    notes = some notes;
    status = "active";
    do_not_call = false;
    last_contacted_at = none;
    total_calls = 0;
  };
}

abbrev caller : Row Contact
caller = contact 1 "+15550001" "new"

abbrev other : Row Contact
other = contact 5 "+15559999" "private"

abbrev contacts : Contacts
contacts = caller ∷ other ∷ []

-- The UUIDs are the texts of three numbers.
abbrev outside : Outside
outside = record {
  uuid = λ s.
      if str_eq s "t2"
      then some 2
      else if str_eq s "c1"
      then some 1
      else if str_eq s "c5"
      then some 5
      else none;
  show = λ n. "c";
  split = λ s. s ∷ [];
  join = λ ws. "";
  values = λ d. some (λ c. record c { notes = some "changed" });
  same = λ v w. false;
  detail = λ e. "failed";
  contact_id = 9;
  appointment_id = "a9";
  clock = "2024-05-01T10:00:00";
}

abbrev full_name : Contact → String
full_name c = "Ann"

abbrev crm_tool : CrmTool → String → ToolDefinition Contacts
crm_tool kind name = record {
  name = name;
  description = "A tool for customers";
  parameters = object end;
  handler = handler outside full_name kind;
  requires_confirmation = false;
  category = "contact";
}

abbrev registry : Registry Contacts
registry =
    ("update_customer", crm_tool CrmTool.updates_customer "update_customer")
    ∷ ("book_appointment", crm_tool CrmTool.books "book_appointment")
    ∷ []

abbrev update_of : String → Json
update_of id = object (field "customer_id" (text id) (field "updates" (object end) end))

abbrev python : Python
python = record { loads = λ s. some (update_of s); str = λ v. "value"; detail = λ e. "failed" }

abbrev executor : Executor
executor = record {
  tenant_id = "t2";
  agent_id = "a1";
  call_id = "c1";
  tool_permissions = field "update_customer" (bool true) end;
  to_number = "+15550002";
  from_number = "+15550001";
  execution_log = [];
}

abbrev stamp : Stamp
stamp = record { execution_id = "e1"; start_time = "0"; duration = "1" }

abbrev updated : String → Contacts
updated id = (execute python registry stamp "update_customer" id executor contacts).2

own_record : updated "c1" ≡ contact 1 "+15550001" "changed" ∷ other ∷ []
unfolding execute find_tool run_handler update_customer
own_record = refl

others_record : updated "c5" ≡ contacts
unfolding execute find_tool run_handler update_customer
others_record = refl

contacts-HasKeys : HasKeys contacts
contacts-HasKeys a b (inl p) (inl q) e = p ∙ sym q
contacts-HasKeys a b (inl p) (inr (inl q)) e = absurd (ground arith)
contacts-HasKeys a b (inr (inl p)) (inl q) e = absurd (ground arith)
contacts-HasKeys a b (inr (inl p)) (inr (inl q)) e = p ∙ sym q
contacts-HasKeys a b (inl p) (inr (inr q)) e = absurd q
contacts-HasKeys a b (inr (inl p)) (inr (inr q)) e = absurd q
contacts-HasKeys a b (inr (inr p)) q e = absurd p

tools_keep_others_example : In other (updated "c1")
unfolding find_tool
tools_keep_others_example =
    tools_keep_others outside full_name CrmTool.updates_customer python registry
      (crm_tool CrmTool.updates_customer "update_customer") stamp "update_customer" "c1" executor
      contacts other refl refl refl contacts-HasKeys (inr (refl, refl)) (inr (inl refl))
