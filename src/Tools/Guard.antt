-- ===== src/Tools/Guard.antt =====
-- What the executor lets through: nothing that is not registered, permitted and parsed.
use calling_agent.Prelude.{◌≡◌, refl, ◌⊎◌, inl, inr, String, Bool, true, false, Option, none, some}
use calling_agent.Http.{Result, is_ok, ok, err}
use calling_agent.Json.{Json, flag}
use calling_agent.Tools.{
  ToolDefinition, Registry, find_tool, ToolExecutionResult, LogEntry, log_entry, append_log,
  Executor, Stamp, Python, run_handler, finish, parse, execute, run_found, run_parsed,
}

module _ {W : Type 0} (py : Python) (registry : Registry W) where
  -- What an execution does that has got as far as the handler `tool` with the arguments `args`.
  abbrev pub Ran :
      Stamp
      → String
      → Executor
      → W
      → ToolDefinition W
      → Json
      → ToolExecutionResult × Executor × W
      → Type 0
  Ran t name x w tool args r =
      (r.2 ≡ (run_handler x t tool args w).1)
      × (entry : LogEntry) × (r.1 ≡ append_log entry x)
      × (entry.tool_name ≡ name)
      × (entry.success ≡ r.0.success)
      × (r.0.success ≡ is_ok (run_handler x t tool args w).0)

  -- An execution that changes nothing and has no success.
  abbrev pub Refused : Executor → W → ToolExecutionResult × Executor × W → Type 0
  Refused x w r = (r.1 ≡ x) × (r.2 ≡ w) × (r.0.success ≡ false)

  finish-Ran :
      (t : Stamp) (name : String) (x : Executor) (w : W) (tool : ToolDefinition W) (args : Json)
      → Ran t name x w tool args (finish py x t name (run_handler x t tool args w))
  finish-Ran t name x w tool args = go (run_handler x t tool args w)
    where
      go :
          (h : Result Json × W)
          → ((finish py x t name h).2 ≡ h.1)
            × (entry : LogEntry) × ((finish py x t name h).1 ≡ append_log entry x)
            × (entry.tool_name ≡ name)
            × (entry.success ≡ (finish py x t name h).0.success)
            × ((finish py x t name h).0.success ≡ is_ok h.0)
      go (ok v, u) = (refl, log_entry x t name true none, refl, refl, refl, refl)
      go (err e, u) = (refl, log_entry x t name false (some (py.detail e)), refl, refl, refl, refl)

  run_parsed-cases :
      (t : Stamp) (name : String) (x : Executor) (w : W) (tool : ToolDefinition W)
      (permitted : Bool) (parsed : Option Json)
      → Refused x w (run_parsed py registry x t tool name permitted parsed w)
        ⊎ ((permitted ≡ true)
            × (args : Json) × (parsed ≡ some args)
            × Ran t name x w tool args (run_parsed py registry x t tool name permitted parsed w))
  run_parsed-cases t name x w tool false parsed = inl (refl, refl, refl)
  run_parsed-cases t name x w tool true none = inl (refl, refl, refl)
  run_parsed-cases t name x w tool true (some args) =
      inr (refl, args, refl, finish-Ran t name x w tool args)

  run_found-cases :
      (t : Stamp) (name arguments : String) (x : Executor) (w : W)
      (found : Option (ToolDefinition W))
      → Refused x w (run_found py registry x t found name arguments w)
        ⊎ ((tool : ToolDefinition W) × (found ≡ some tool)
            × (flag name x.tool_permissions ≡ true)
            × (args : Json) × (parse py arguments ≡ some args)
            × Ran t name x w tool args (run_found py registry x t found name arguments w))
  run_found-cases t name arguments x w none = inl (refl, refl, refl)
  run_found-cases t name arguments x w (some tool) =
      elim (run_parsed-cases t name x w tool (flag name x.tool_permissions) (parse py arguments)) [
        | inl h ↦ inl h
        | inr (p, args, q, h) ↦ inr (tool, refl, p, args, q, h)
      ]

  -- An execution either changes nothing and has no success, or it has found the tool in the registry, the
  -- agent has the permission for it, the arguments could be parsed, and the tool's handler has run on
  -- them: then what is outside is as the handler left it, the log has one more entry, with the tool's
  -- name, and both it and the result have success exactly if the handler did not raise.
  pub execute_guarded :
      (t : Stamp) (name arguments : String) (x : Executor) (w : W)
      → Refused x w (execute py registry t name arguments x w)
        ⊎ ((tool : ToolDefinition W) × (find_tool name registry ≡ some tool)
            × (flag name x.tool_permissions ≡ true)
            × (args : Json) × (parse py arguments ≡ some args)
            × Ran t name x w tool args (execute py registry t name arguments x w))
  unfolding execute
  execute_guarded t name arguments x w =
      run_found-cases t name arguments x w (find_tool name registry)
