-- ===== src/Chunks.antt =====
-- `chunk_text` of apps/api/services/embedding_service.py, on the tokens that the encoding gives.
pub mod Cover
mod Tests
use calling_agent.Prelude.{
  ℕ, zero, suc, ◌+◌, ◌-◌, min, ltb, leb, Bool, Option, none, some, List, [], ◌∷◌, length, take,
  drop, map, if◌then◌else◌, String,
}

module _ {A : Type 0} where
  -- `tokens[a:b]`
  abbrev pub slice : ℕ → ℕ → List A → List A
  slice a b tokens = take (b - a) (drop a tokens)

  abbrev pub prepend : List A → Option (List (List A)) → Option (List (List A))
  prepend c none = none
  prepend c (some cs) = some (c ∷ cs)

  -- The rounds of the loop, with `n` at most; `none` where they are not enough. With an overlap beyond the
  -- size `start` falls below 0 in Python and the loop never ends.
  unfoldable pub chunks_from : ℕ → ℕ → ℕ → ℕ → List A → Option (List (List A))
  chunks_from zero chunk_size overlap start tokens = none
  chunks_from (suc n) chunk_size overlap start tokens =
      let end = min (start + chunk_size) (length tokens) in
      let next = start + chunk_size - overlap in
      let rest = chunks_from n chunk_size overlap next tokens in
      if ltb start (length tokens)
      then (if ltb (start + chunk_size) overlap
          then none
          else if leb (length tokens) next
          then some (slice start end tokens ∷ [])
          else prepend (slice start end tokens) rest)
      else some []

abbrev pub decode_all : (List ℕ → String) → Option (List (List ℕ)) → Option (List String)
decode_all decode none = none
decode_all decode (some cs) = some (map decode cs)

-- `chunk_text`: `encode` and `decode` are tiktoken's, and the rounds are one for each token and one more.
unfoldable pub chunk_text :
    (String → List ℕ) → (List ℕ → String) → ℕ → ℕ → String → Option (List String)
unfolding chunks_from
chunk_text encode decode chunk_size overlap text =
    let tokens = encode text in
    decode_all decode (chunks_from (suc (length tokens)) chunk_size overlap 0 tokens)
