-- ===== src/Chunks/Tests.antt =====
-- Chunks of a text whose tokens are numbers.
use calling_agent.Prelude.{◌≡◌, refl, ◌≤◌, ℕ, List, [], ◌∷◌, some, All, arith, map, length, String}
use calling_agent.Chunks.{chunks_from, chunk_text}
use calling_agent.Chunks.Cover.{join, chunk_text_covers}

abbrev tokens : List ℕ
tokens = 1 ∷ 2 ∷ 3 ∷ 4 ∷ 5 ∷ 6 ∷ 7 ∷ []

three_chunks :
    chunks_from 8 4 2 0 tokens
    ≡ some ((1 ∷ 2 ∷ 3 ∷ 4 ∷ []) ∷ (3 ∷ 4 ∷ 5 ∷ 6 ∷ []) ∷ (5 ∷ 6 ∷ 7 ∷ []) ∷ (7 ∷ []) ∷ [])
unfolding chunks_from
three_chunks = refl

abbrev encode : String → List ℕ
encode text = tokens

abbrev decode : List ℕ → String
decode run = "text"

chunk_text_covers_example :
    (cs : List (List ℕ)) × (chunk_text encode decode 4 2 "text" ≡ some (map decode cs))
    × (join 2 cs ≡ tokens)
    × All (λ c. length c ≤ 4) cs
chunk_text_covers_example = chunk_text_covers encode decode 4 2 "text" (omega arith)
