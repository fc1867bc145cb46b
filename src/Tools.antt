-- ===== src/Tools.antt =====
-- The tools that the AI may call: apps/api/tools/registry.py and apps/api/tools/executor.py. A handler
-- is an action on a state `W` of what is outside of the executor.
pub mod Definitions
pub mod Guard
pub mod Sms
pub mod Customers
pub mod Appointments
mod Kept
mod Steps
pub mod Callers
mod CrmTests
mod Tests
use calling_agent.Prelude.{
  String, Bool, true, false, Option, none, some, List, [], ◌∷◌, ◌++◌, str_eq, truthy, if◌then◌else◌,
  map,
}
use calling_agent.Http.{Error, other, Result, ok, err, Action}
use calling_agent.Json.{
  Json, bool, text, object, Fields, end, field, array, null, number, put, flag,
}

pub record ToolDefinition (W : Type 0) : Type 0 where
  pub name : String
  pub description : String
  pub parameters : Json
  pub handler : Fields → Action W Json
  pub requires_confirmation : Bool
  pub category : String

-- `ToolRegistry._tools`
abbrev pub Registry : Type 0 → Type 0
Registry W = List (String × ToolDefinition W)

-- `_tools[tool.name] = tool`, which keeps the place of a name that is there.
unfoldable pub register : {W : Type 0} → ToolDefinition W → Registry W → Registry W
register tool [] = (tool.name, tool) ∷ []
register tool (x ∷ xs) =
    let rest = register tool xs in if str_eq x.0 tool.name then (x.0, tool) ∷ xs else x ∷ rest

unfoldable pub find_tool : {W : Type 0} → String → Registry W → Option (ToolDefinition W)
find_tool name [] = none
find_tool name (x ∷ xs) = if str_eq x.0 name then some x.1 else find_tool name xs

-- What OpenAI is told of a tool.
abbrev openai_tool : {W : Type 0} → ToolDefinition W → Json
openai_tool tool = object (
    field "type" (text "function") (
      field "name" (text tool.name)
        (field "description" (text tool.description) (field "parameters" tool.parameters end))))

unfoldable pub get_openai_tools : {W : Type 0} → Fields → Registry W → List Json
get_openai_tools permitted [] = []
get_openai_tools permitted (x ∷ xs) =
    let rest = get_openai_tools permitted xs in
    if flag x.0 permitted then openai_tool x.1 ∷ rest else rest

pub record ToolExecutionResult : Type 0 where
  pub success : Bool
  pub content : Fields
  pub error : Option String
  pub error_code : Option String

-- An entry of `execution_log`; numbers of `time.time()` by their literals.
pub record LogEntry : Type 0 where
  pub execution_id : String
  pub tool_name : String
  pub call_id : String
  pub tenant_id : String
  pub timestamp : String
  pub duration : String
  pub success : Bool
  pub error : Option String

pub record Executor : Type 0 where
  pub tenant_id : String
  pub agent_id : String
  pub call_id : String
  pub tool_permissions : Fields
  pub to_number : String
  pub from_number : String
  pub execution_log : List LogEntry

-- What `uuid4` and `time.time` give during one execution.
pub record Stamp : Type 0 where
  pub execution_id : String
  pub start_time : String
  pub duration : String

-- `json.loads` (`none`: it raises), and `str` of a value and of an exception.
pub record Python : Type 0 where
  pub loads : String → Option Json
  pub str : Json → String
  pub detail : Error → String

abbrev or_text : Option String → String → String
or_text none d = d
or_text (some s) d = if truthy s then s else d

-- `{**a, **b}`
unfoldable pub merge : Fields → Fields → Fields
merge a end = a
merge a (field k v rest) = merge (put k v a) rest

-- `to_json`, before it is dumped.
unfoldable pub to_json : ToolExecutionResult → Json
to_json r =
    if r.success
    then object (merge (field "success" (bool true) end) r.content)
    else object (
        field "success" (bool false) (
          field "error_code" (text (or_text r.error_code "TOOL_ERROR"))
            (field "error" (text (or_text r.error "Tool execution failed")) end)))

abbrev pub refused : String → String → ToolExecutionResult
refused error code = record {
  success = false;
  content = end;
  error = some error;
  error_code = some code;
}

-- The `_context` of a call.
abbrev pub context : Executor → Stamp → Json
context x t = object (
    field "tenant_id" (text x.tenant_id) (
      field "agent_id" (text x.agent_id) (
        field "call_id" (text x.call_id) (
          field "execution_id" (text t.execution_id) (
            field "to_number" (text x.to_number) (field "from_number" (text x.from_number) end))))))

abbrev pub log_entry : Executor → Stamp → String → Bool → Option String → LogEntry
log_entry x t tool success error = record {
  execution_id = t.execution_id;
  tool_name = tool;
  call_id = x.call_id;
  tenant_id = x.tenant_id;
  timestamp = t.start_time;
  duration = t.duration;
  success = success;
  error = error;
}

abbrev pub append_log : LogEntry → Executor → Executor
append_log e x = record x { execution_log = x.execution_log ++ e ∷ [] }

-- `result_data` where it is no dict.
abbrev as_dict : Python → Json → Fields
as_dict py (object d) = d
as_dict py v = field "result" (text (py.str v)) end

-- Setting `_context` raises where the parsed arguments are no dict; then the handler runs.
unfoldable pub run_handler :
    {W : Type 0} → Executor → Stamp → ToolDefinition W → Json → Action W Json
run_handler x t tool (object args) w = tool.handler (put "_context" (context x t) args) w
run_handler x t tool _ w = (err (other "TypeError"), w)

-- The branches after the handler: the entry of the log and the result.
abbrev pub finish :
    {W : Type 0}
    → Python
    → Executor
    → Stamp
    → String
    → Result Json × W
    → ToolExecutionResult × Executor × W
finish py x t name (ok v, w) = (
  record { success = true; content = as_dict py v; error = none; error_code = none },
  append_log (log_entry x t name true none) x,
  w,
)
finish py x t name (err e, w) = (
  refused (py.detail e) "EXECUTION_ERROR",
  append_log (log_entry x t name false (some (py.detail e))) x,
  w,
)

-- `json.loads(arguments) if arguments else {}`
abbrev pub parse : Python → String → Option Json
parse py arguments = if truthy arguments then py.loads arguments else some (object end)

module _ {W : Type 0} (py : Python) (registry : Registry W) where
  -- The steps from the permission on: the arguments, the context, the handler.
  abbrev pub run_parsed :
      Executor
      → Stamp
      → ToolDefinition W
      → String
      → Bool
      → Option Json
      → W
      → ToolExecutionResult × Executor × W
  run_parsed x t tool name false parsed w =
      (refused "Permission denied for tool" "PERMISSION_DENIED", x, w)
  run_parsed x t tool name true none w =
      (refused "Invalid tool arguments" "INVALID_ARGUMENTS", x, w)
  run_parsed x t tool name true (some args) w = finish py x t name (run_handler x t tool args w)

  abbrev pub run_found :
      Executor
      → Stamp
      → Option (ToolDefinition W)
      → String
      → String
      → W
      → ToolExecutionResult × Executor × W
  run_found x t none name arguments w = (refused "Tool not found" "TOOL_NOT_FOUND", x, w)
  run_found x t (some tool) name arguments w =
      run_parsed x t tool name (flag name x.tool_permissions) (parse py arguments) w

  -- `execute`; the details of the refusals are given without the tool's name.
  unfoldable pub execute :
      Stamp → String → String → Executor → W → ToolExecutionResult × Executor × W
  execute t name arguments x w = run_found x t (find_tool name registry) name arguments w
