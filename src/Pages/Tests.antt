-- ===== src/Pages/Tests.antt =====
-- The pages of seven rows, five of them of tenant 7.
use calling_agent.Prelude.{ℕ, ◌≡◌, refl, arith, List, [], ◌∷◌, ◌++◌, length, length-append}
use calling_agent.Repo.{Row}
use calling_agent.Pages.{list_numbers}
use calling_agent.Pages.Cover.{all_items, pages_cover}

abbrev row : ℕ → ℕ → Row ℕ
row id tenant = record { id = id; tenant_id = tenant; body = 0 }

abbrev rows : List (Row ℕ)
rows = row 1 7 ∷ row 2 8 ∷ row 3 7 ∷ row 4 7 ∷ row 5 8 ∷ row 6 7 ∷ row 7 7 ∷ []

-- `desc` of a column that grows with each insert.
abbrev newest_first : List (Row ℕ) → List (Row ℕ)
newest_first [] = []
newest_first (x ∷ xs) = newest_first xs ++ x ∷ []

second_page :
    (list_numbers 7 newest_first (record { page = 2; per_page = 2 }) rows).items
    ≡ row 4 7 ∷ row 3 7 ∷ []
unfolding list_numbers
second_page = refl

three_pages : (list_numbers 7 newest_first (record { page = 2; per_page = 2 }) rows).pages ≡ 3
unfolding list_numbers
three_pages = refl

length-newest_first : (xs : List (Row ℕ)) → length (newest_first xs) ≡ length xs
length-newest_first [] = refl
length-newest_first (x ∷ xs) =
    let one_more = length-append (newest_first xs) (x ∷ []) in
    let rest = length-newest_first xs in omega arith

pages_cover_example :
    all_items (λ k. list_numbers 7 newest_first (record { page = k; per_page = 2 }) rows)
    ≡ row 7 7 ∷ row 6 7 ∷ row 4 7 ∷ row 3 7 ∷ row 1 7 ∷ []
pages_cover_example = pages_cover 7 newest_first 2 rows length-newest_first (omega arith)
