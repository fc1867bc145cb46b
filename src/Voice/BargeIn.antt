-- ===== src/Voice/BargeIn.antt =====
-- What happens when the caller speaks into the assistant's answer.
use calling_agent.Prelude.{
  ◌≡◌, refl, ap, sym, inl, inr, Bool-cases, if◌then◌else◌, ◌&&◌, ◌∙◌, ◌+◌, ◌*◌, ◌/◌, ℕ, ltb, ◌<◌,
  arith, true, String, none, some, List, [], ◌∷◌, ◌++◌, truthy, map, All,
}
use Prim.Native.String.{count}
use mathlib.Core.List.{append_assoc, append-nil}
use calling_agent.Http.{Action, modify, Result, ok, err}
use calling_agent.Voice.{Bridge, Output, emit}
use calling_agent.Voice.Handlers.{
  Voice, on_ai_audio, on_output_item_added, on_speech_started, stop_tracking, truncate,
  clear_twilio,
}
use calling_agent.Voice.Run.{Event, AiEvent, handle_ai, step, loop}

-- The bytes of sound in base64 texts.
abbrev pub audio_bytes : List String → ℕ
audio_bytes [] = 0
audio_bytes (s ∷ ss) = count s * 3 / 4 + audio_bytes ss

abbrev pub deltas : List String → List Event
deltas ss = map (λ s. Event.ai (AiEvent.audio_delta s)) ss

abbrev pub frames : String → List String → List Output
frames stream ss = map (Output.media stream) ss

same :
    (b : Bridge) {xs ys : List Output} {m n : ℕ}
    → xs ≡ ys
    → m ≡ n
    → (record b { outputs = xs; played_audio_bytes = m })
      ≡ (record b { outputs = ys; played_audio_bytes = n })
same b p q i = record b { outputs = p i; played_audio_bytes = q i }

module _ (v : Voice) (accepts : v.outside ≡ (λ outs o. none)) where
  on_ai_audio-state :
      (s : String) (b : Bridge)
      → truthy s ≡ true
      → truthy b.stream_sid ≡ true
      → (on_ai_audio v s b).1 ≡ record b {
        outputs = b.outputs ++ Output.media b.stream_sid s ∷ [];
        played_audio_bytes = b.played_audio_bytes + count s * 3 / 4;
      }
  unfolding on_ai_audio emit
  on_ai_audio-state s b h k = rw (h, k, accepts)

  loop-deltas :
      (ss : List String) (b : Bridge)
      → All (λ s. truthy s ≡ true) ss
      → truthy b.stream_sid ≡ true
      → loop v (deltas ss) b ≡ record b {
        outputs = b.outputs ++ frames b.stream_sid ss;
        played_audio_bytes = b.played_audio_bytes + audio_bytes ss;
      }
  unfolding loop step handle_ai
  loop-deltas [] b full k = same b (sym (append-nil b.outputs)) (omega arith)
  loop-deltas (s ∷ ss) b full k =
      ap (loop v (deltas ss)) (on_ai_audio-state s b full.0 k)
      ∙ loop-deltas ss _ full.1 k
      ∙ same b (append_assoc b.outputs (Output.media b.stream_sid s ∷ []) _) (omega arith)

  -- What a barge-in sends: OpenAI is told to stop and, if some of the answer went out, how much of it was
  -- sent; Twilio is told to drop what it has not played.
  abbrev truncation : Bridge → List Output
  truncation b =
      if truthy b.current_assistant_item_id && ltb 0 b.played_audio_bytes
      then Output.truncate_audio b.current_assistant_item_id (v.played_ms b.played_audio_bytes) ∷ []
      else []

  abbrev clearing : Bridge → List Output
  clearing b = if truthy b.stream_sid then Output.clear b.stream_sid ∷ [] else []

  abbrev sent : List Output → Bridge → Result (Unit {0}) × Bridge
  sent os b = (ok tt, record b { outputs = b.outputs ++ os })

  unchanged : (b : Bridge) → sent [] b ≡ (ok tt, b)
  unchanged b i = (ok tt, record b { outputs = append-nil b.outputs i })

  truncate-sent : (b : Bridge) → truncate v b ≡ sent (truncation b) b
  unfolding emit
  truncate-sent b =
      elim (Bool-cases (truthy b.current_assistant_item_id && ltb 0 b.played_audio_bytes)) [
        | inl e ↦ rw (e, accepts)
        | inr e ↦ rw e (sym (unchanged b))
      ]

  clear_twilio-sent : (b : Bridge) → clear_twilio v b ≡ sent (clearing b) b
  unfolding emit
  clear_twilio-sent b = elim (Bool-cases (truthy b.stream_sid)) [
    | inl e ↦ rw (e, accepts)
    | inr e ↦ rw e (sym (unchanged b))
  ]

  abbrev next : Action Bridge (Unit {0}) → Result (Unit {0}) × Bridge → Result (Unit {0}) × Bridge
  next k x = elim x.0 [ ok a ↦ k x.1 | err e ↦ (err e, x.1) ]

  on_speech_started-state :
      (b : Bridge)
      → (on_speech_started v b).1
        ≡ stop_tracking (record b {
          outputs = ((b.outputs ++ Output.cancel_response ∷ []) ++ truncation b) ++ clearing b;
        })
  unfolding on_speech_started emit
  on_speech_started-state b =
      let told : Bridge = record b { outputs = b.outputs ++ Output.cancel_response ∷ [] } in
      let told_all : Bridge = record told { outputs = told.outputs ++ truncation b } in
      ap
        (λ f.
          (next (modify stop_tracking) (
            next (clear_twilio v) (
              next (truncate v) (
                elim (f b.outputs Output.cancel_response) [ none ↦ ok tt | some e ↦ err e ],
                told,
              )))).1)
        accepts
      ∙ ap (λ x. (next (modify stop_tracking) (next (clear_twilio v) x)).1) (truncate-sent told)
      ∙ ap (λ x. (next (modify stop_tracking) x).1) (clear_twilio-sent told_all)

  loop-append : (xs ys : List Event) (b : Bridge) → loop v (xs ++ ys) b ≡ loop v ys (loop v xs b)
  unfolding loop
  loop-append [] ys b = refl
  loop-append (x ∷ xs) ys b = loop-append xs ys (step v x b)

  -- Where nothing that is sent to OpenAI or Twilio raises: an answer of which some sound has been sent to
  -- a stream with an id, and then the caller speaks. Twilio has been sent the sound, OpenAI is told to stop
  -- and to cut the answer at what was sent of it to Twilio, played or not, Twilio is told to drop what it
  -- has not played, and the bridge no longer follows any answer.
  pub barge_in_truncates :
      (id : String) (ss : List String) (b : Bridge)
      → truthy id ≡ true
      → truthy b.stream_sid ≡ true
      → All (λ s. truthy s ≡ true) ss
      → 0 < audio_bytes ss
      → let after =
          loop v
            (Event.ai (AiEvent.output_item_added "message" "assistant" id) ∷ deltas ss
              ++ Event.ai AiEvent.speech_started ∷ [])
            b in
        (after.outputs
          ≡ b.outputs
            ++ frames b.stream_sid ss
            ++ Output.cancel_response
              ∷ Output.truncate_audio id (v.played_ms (audio_bytes ss))
              ∷ Output.clear b.stream_sid
              ∷ [])
        × (after.current_assistant_item_id ≡ "")
        × (after.played_audio_bytes ≡ 0)
  unfolding loop step handle_ai on_output_item_added
  barge_in_truncates id ss b known streams full some_sound =
      let answering : Bridge = record b {
        current_assistant_item_id = id;
        played_audio_bytes = 0;
      } in
      let played : Bridge = record answering {
        outputs = b.outputs ++ frames b.stream_sid ss;
        played_audio_bytes = audio_bytes ss;
      } in
      let zero_bytes : 0 + audio_bytes ss ≡ audio_bytes ss = omega arith in
      let sounds : ltb 0 (audio_bytes ss) ≡ true = ground arith in
      let e =
        loop-append (deltas ss) (Event.ai AiEvent.speech_started ∷ []) answering
        ∙ ap (λ c. (on_speech_started v c).1)
            (loop-deltas ss answering full streams ∙ same answering refl zero_bytes)
        ∙ on_speech_started-state played in
      (
        ap (λ c. c.outputs) e ∙ rw (known, streams, sounds) (simp append_assoc),
        ap (λ c. c.current_assistant_item_id) e,
        ap (λ c. c.played_audio_bytes) e,
      )
