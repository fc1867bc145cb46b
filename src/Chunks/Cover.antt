-- ===== src/Chunks/Cover.antt =====
-- The chunks cover the tokens, and the loop ends.
use calling_agent.Prelude.{
  ◌≡◌, refl, sym, ap, ◌∙◌, inl, inr, ℕ, zero, suc, ◌+◌, ◌-◌, ◌≤◌, ◌<◌, min, ltb, leb, arith, true,
  false, some, List, [], ◌∷◌, ◌++◌, length, take, drop, map, All, take-append-drop, length-take,
  length-drop, Bool-cases, String,
}
use mathlib.Core.List.{append-nil}
use calling_agent.Chunks.{slice, chunks_from, decode_all, chunk_text}

module _ {A : Type 0} where
  -- The chunks one after the other, each but the first without its overlap.
  abbrev pub join_rest : ℕ → List (List A) → List A
  join_rest overlap [] = []
  join_rest overlap (c ∷ cs) = drop overlap c ++ join_rest overlap cs

  abbrev pub join : ℕ → List (List A) → List A
  join overlap [] = []
  join overlap (c ∷ cs) = c ++ join_rest overlap cs

  drop-nil : (n : ℕ) → drop {A = A} n [] ≡ []
  drop-nil zero = refl
  drop-nil (suc n) = refl

  -- To drop more by counting from the left.
  drop-drop : (m n k : ℕ) (xs : List A) → k ≡ n + m → drop m (drop n xs) ≡ drop k xs
  drop-drop m zero k xs h = ap (λ j. drop j xs) (omega arith)
  drop-drop m (suc n) k [] h = drop-nil m ∙ sym (drop-nil k)
  drop-drop m (suc n) zero (x ∷ xs) h = absurd (omega arith)
  drop-drop m (suc n) (suc k) (x ∷ xs) h = drop-drop m n k xs (omega arith)

  drop-all : (n : ℕ) (xs : List A) → length xs ≤ n → drop n xs ≡ []
  drop-all zero [] h = refl
  drop-all zero (x ∷ xs) h = absurd (omega arith)
  drop-all (suc n) [] h = refl
  drop-all (suc n) (x ∷ xs) h = drop-all n xs (omega arith)

  take-least : (k n : ℕ) (xs : List A) → k ≡ min n (length xs) → take k xs ≡ take n xs
  take-least zero zero xs h = refl
  take-least zero (suc n) [] h = refl
  take-least zero (suc n) (x ∷ xs) h = absurd (omega arith)
  take-least (suc k) zero xs h = absurd (omega arith)
  take-least (suc k) (suc n) [] h = refl
  take-least (suc k) (suc n) (x ∷ xs) h = ap (λ ys. x ∷ ys) (take-least k n xs (omega arith))

  drop-append : (n : ℕ) (xs ys : List A) → n ≤ length xs → drop n (xs ++ ys) ≡ drop n xs ++ ys
  drop-append zero xs ys h = refl
  drop-append (suc n) [] ys h = absurd (omega arith)
  drop-append (suc n) (x ∷ xs) ys h = drop-append n xs ys (omega arith)

  -- The chunks cover the tokens `xs`; where other chunks come first, the overlap is dropped as a whole.
  record Covers (chunk_size overlap : ℕ) (xs : List A) (cs : List (List A)) : Type 0 where
    joined : join overlap cs ≡ xs
    dropped : drop overlap (join overlap cs) ≡ join_rest overlap cs
    bounded : All (λ c. length c ≤ chunk_size) cs

  slice-take :
      (start size : ℕ) (tokens : List A)
      → slice start (min (start + size) (length tokens)) tokens ≡ take size (drop start tokens)
  slice-take start size tokens =
      take-least _ size (drop start tokens) (omega (arith, length-drop start tokens))

  length-first : (size : ℕ) (xs : List A) → length (take size xs) ≤ size
  length-first size xs = omega (arith, length-take size xs)

  last-Covers :
      (start size overlap : ℕ) (tokens : List A)
      → overlap < size
      → length tokens ≤ start + size - overlap
      → Covers size overlap (drop start tokens) (take size (drop start tokens) ∷ [])
  last-Covers start size overlap tokens h stop =
      let xs = drop start tokens in
      let none_left = drop-all size xs (omega (arith, length-drop start tokens)) in
      let whole : take size xs ≡ xs =
        sym (append-nil (take size xs))
        ∙ ap (λ ys. take size xs ++ ys) (sym none_left)
        ∙ take-append-drop size xs in
      record {
        joined = append-nil (take size xs) ∙ whole;
        dropped =
            ap (drop overlap) (append-nil (take size xs))
            ∙ sym (append-nil (drop overlap (take size xs)));
        bounded = (length-first size xs, tt);
      }

  next-Covers :
      (start size overlap : ℕ) (tokens : List A) (cs : List (List A))
      → overlap < size
      → Covers size overlap (drop (start + size - overlap) tokens) cs
      → Covers size overlap (drop start tokens) (take size (drop start tokens) ∷ cs)
  next-Covers start size overlap tokens cs h c =
      let xs = drop start tokens in
      let rest : join_rest overlap cs ≡ drop size xs =
        sym c.dropped
        ∙ ap (drop overlap) c.joined
        ∙ drop-drop overlap (start + size - overlap) (start + size) tokens (omega arith)
        ∙ sym (drop-drop size start (start + size) tokens refl) in
      record {
        joined = ap (λ ys. take size xs ++ ys) rest ∙ take-append-drop size xs;
        dropped = elim (Bool-cases (leb size (length xs))) [
          | inl e ↦
              drop-append overlap (take size xs) (join_rest overlap cs)
                (let full : size ≤ length xs = ground arith in omega (arith, length-take size xs))
          | inr e ↦
              let empty : join_rest overlap cs ≡ [] =
                rest
                ∙ drop-all size xs (let short : length xs < size = ground arith in omega arith) in
              rw empty (
                ap (drop overlap) (append-nil (take size xs))
                ∙ sym (append-nil (drop overlap (take size xs))))
        ];
        bounded = (length-first size xs, c.bounded);
      }

  chunks_from-Covers :
      (n size overlap start : ℕ) (tokens : List A)
      → overlap < size
      → start < length tokens
      → length tokens < start + n
      → (cs : List (List A)) × (chunks_from n size overlap start tokens ≡ some cs)
        × Covers size overlap (drop start tokens) cs
  unfolding chunks_from
  chunks_from-Covers zero size overlap start tokens h k m = absurd (omega arith)
  chunks_from-Covers (suc n) size overlap start tokens h k m =
      let running : ltb start (length tokens) ≡ true = ground arith in
      let ahead : ltb (start + size) overlap ≡ false = ground arith in
      elim (Bool-cases (leb (length tokens) (start + size - overlap))) [
        | inl e ↦ (
          take size (drop start tokens) ∷ [],
          rw (running, ahead, e) (ap (λ c. some (c ∷ [])) (slice-take start size tokens)),
          last-Covers start size overlap tokens h (ground arith),
        )
        | inr e ↦
            let more : start + size - overlap < length tokens = ground arith in
            let (cs, ran, covers) =
              chunks_from-Covers n size overlap (start + size - overlap) tokens h more
                (omega arith) in
            (
              take size (drop start tokens) ∷ cs,
              rw (running, ahead, e, ran) (ap (λ c. some (c ∷ cs)) (slice-take start size tokens)),
              next-Covers start size overlap tokens cs h covers,
            )
      ]

chunks-Covers :
    {A : Type 0} (size overlap : ℕ) (tokens : List A)
    → overlap < size
    → (cs : List (List A)) × (chunks_from (suc (length tokens)) size overlap 0 tokens ≡ some cs)
      × Covers size overlap tokens cs
unfolding chunks_from
chunks-Covers size overlap [] h =
    ([], refl, record { joined = refl; dropped = drop-nil overlap; bounded = tt })
chunks-Covers size overlap (x ∷ tokens) h =
    chunks_from-Covers (suc (length (x ∷ tokens))) size overlap 0 (x ∷ tokens) h (omega arith)
      (omega arith)

-- With an overlap below the size, the loop ends and the chunks are the decoded texts of runs of tokens:
-- each has at most the size, and the first run followed by the others without their first
-- `overlap` tokens is the list of the text's tokens.
pub chunk_text_covers :
    (encode : String → List ℕ) (decode : List ℕ → String) (chunk_size overlap : ℕ) (text : String)
    → overlap < chunk_size
    → (cs : List (List ℕ)) × (chunk_text encode decode chunk_size overlap text
        ≡ some (map decode cs))
      × (join overlap cs ≡ encode text)
      × All (λ c. length c ≤ chunk_size) cs
unfolding chunk_text
chunk_text_covers encode decode chunk_size overlap text h =
    let (cs, ran, covers) = chunks-Covers chunk_size overlap (encode text) h in
    (cs, ap (decode_all decode) ran, covers.joined, covers.bounded)
