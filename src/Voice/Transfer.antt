-- ===== src/Voice/Transfer.antt =====
-- What becomes of a transfer that the AI asks for with the tool `transfer_call`.
use calling_agent.Prelude.{
  ◌≡◌, refl, sym, inl, inr, Bool, true, false, String, Option, none, some, List, [], ◌∷◌, ◌++◌, All,
  truthy, Bool-cases, Option-cases, ◌&&◌,
}
use mathlib.Core.Path.{subst}
use calling_agent.Http.{Result, ok, err, modify, ◌>>◌}
use calling_agent.Json.{Json, null, bool, number, text, array, object, Fields, flag, get, put}
use calling_agent.Tools.{
  ToolDefinition, Executor, Stamp, ToolExecutionResult, find_tool, execute, run_parsed, run_handler,
  parse, context, to_json,
}
use calling_agent.Tools.Definitions.{transfer_call, required}
use calling_agent.Voice.{Bridge, Output, emit}
use calling_agent.Voice.Handlers.{
  Voice, on_tool_call, use_result, handle_special, handle_transfer, handle_call_end, forget_turn,
  result_data,
}

abbrev is_dial : Output → Bool
is_dial (Output.dial target) = true
is_dial _ = false

-- No call has been put through.
abbrev pub NoDial : List Output → Type 0
NoDial = All (λ o. is_dial o ≡ false)

NoDial-append :
    (os : List Output) (o : Output) → NoDial os → is_dial o ≡ false → NoDial (os ++ o ∷ [])
NoDial-append [] o h k = (k, tt)
NoDial-append (x ∷ os) o h k = (h.0, NoDial-append os o h.1 k)

abbrev forget : Result (Unit {0}) × Bridge → Result (Unit {0}) × Bridge
forget x = elim x.0 [ ok a ↦ modify forget_turn x.1 | err e ↦ (err e, x.1) ]

forget_turn-outputs : (x : Result (Unit {0}) × Bridge) → (forget x).1.outputs ≡ x.1.outputs
forget_turn-outputs (ok a, b) = refl
forget_turn-outputs (err e, b) = refl

module _ (v : Voice) where
  transfer_result :
      (x : Executor) (t : Stamp) (tool : ToolDefinition (List Output)) (permitted : Bool)
      (parsed : Option Json) (w : List Output)
      → tool.handler ≡ transfer_call
      → let y = run_parsed v.python v.registry x t tool "transfer_call" permitted parsed w in
        (flag "phone_number" (result_data v y.0) ≡ false) × (y.2 ≡ w)
  unfolding run_handler transfer_call
  transfer_result x t tool false parsed w e = (refl, refl)
  transfer_result x t tool true none w e = (refl, refl)
  transfer_result x t tool true (some (object args)) w e =
      elim (Option-cases (get "reason" (put "_context" (context x t) args))) [
        | inl h ↦ rw (e, h, required) (refl, refl)
        | inr (reason, h) ↦ rw (e, h, required) (refl, refl)
      ]
  transfer_result x t tool true (some null) w e = (refl, refl)
  transfer_result x t tool true (some (bool b)) w e = (refl, refl)
  transfer_result x t tool true (some (number b)) w e = (refl, refl)
  transfer_result x t tool true (some (text b)) w e = (refl, refl)
  transfer_result x t tool true (some (array b)) w e = (refl, refl)

  handle_transfer-NoDial :
      (d : Fields) (b : Bridge)
      → flag "phone_number" d ≡ false
      → NoDial b.outputs
      → NoDial (handle_transfer v d b).1.outputs
  unfolding handle_transfer emit
  handle_transfer-NoDial d b absent h =
      let o = Output.update_session (("transfer_status", "initiated") ∷ []) in
      elim (Option-cases (v.outside b.outputs o)) [
        | inl e ↦ rw (e, absent) (NoDial-append b.outputs o h refl)
        | inr (x, e) ↦ rw e (NoDial-append b.outputs o h refl)
      ]

  handle_call_end-NoDial : (b : Bridge) → NoDial b.outputs → NoDial (handle_call_end v b).1.outputs
  unfolding handle_call_end emit
  handle_call_end-NoDial b h =
      elim (Bool-cases (truthy v.twilio_account_sid && truthy v.call_session.provider_call_id)) [
        | inl e ↦ rw e (NoDial-append b.outputs Output.complete h refl)
        | inr e ↦ rw e h
      ]

  handle_special-NoDial :
      (d : Fields) (b : Bridge)
      → flag "phone_number" d ≡ false
      → NoDial b.outputs
      → NoDial (handle_special v d b).1.outputs
  handle_special-NoDial d b absent h = elim (Bool-cases (flag "transfer_initiated" d)) [
    | inl e ↦ rw e (handle_transfer-NoDial d b absent h)
    | inr e ↦ elim (Bool-cases (flag "call_ending" d)) [
      | inl e' ↦ rw (e, e') (handle_call_end-NoDial b h)
      | inr e' ↦ rw (e, e') h
    ]
  ]

  use_result-NoDial :
      (id : String) (r : ToolExecutionResult) (b : Bridge)
      → flag "phone_number" (result_data v r) ≡ false
      → NoDial b.outputs
      → NoDial (use_result v id r b).1.outputs
  unfolding use_result emit
  use_result-NoDial id r b absent h =
      let o = Output.send_tool_result id (to_json r) in
      let told : Bridge = record b { outputs = b.outputs ++ o ∷ [] } in
      let told_fine = NoDial-append b.outputs o h refl in
      let answer = emit v.outside o >> handle_special v (result_data v r) in
      subst NoDial (sym (forget_turn-outputs (answer b)))
        (elim (Option-cases (v.outside b.outputs o)) [
          | inl e ↦ rw e (handle_special-NoDial (result_data v r) told absent told_fine)
          | inr (x, e) ↦ rw e told_fine
        ])

  execute-transfer :
      (tool : ToolDefinition (List Output)) (t : Stamp) (arguments : String) (x : Executor)
      (w : List Output)
      → find_tool "transfer_call" v.registry ≡ some tool
      → tool.handler ≡ transfer_call
      → let y = execute v.python v.registry t "transfer_call" arguments x w in
        (flag "phone_number" (result_data v y.0) ≡ false) × (y.2 ≡ w)
  unfolding execute
  execute-transfer tool t arguments x w found e = rw found (
      transfer_result x t tool (flag "transfer_call" x.tool_permissions) (parse v.python arguments)
        w e)

  -- A call of the tool `transfer_call` with its own handler never puts the call through to the target, not
  -- even with a number among the arguments: the handler's result does not hold that number.
  pub transfer_never_dials :
      (tool : ToolDefinition (List Output)) (t : Stamp) (arguments id : String) (b : Bridge)
      → find_tool "transfer_call" v.registry ≡ some tool
      → tool.handler ≡ transfer_call
      → NoDial b.outputs
      → NoDial (on_tool_call v t "transfer_call" arguments id b).1.outputs
  unfolding on_tool_call
  transfer_never_dials tool t arguments id b found e h =
      let known = execute-transfer tool t arguments b.tool_executor b.outputs found e in
      let y = execute v.python v.registry t "transfer_call" arguments b.tool_executor b.outputs in
      use_result-NoDial id y.0 (record b { tool_executor = y.1; outputs = y.2 }) known.0
        (rw known.1 h)
