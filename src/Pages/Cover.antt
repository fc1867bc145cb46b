-- ===== src/Pages/Cover.antt =====
-- That the pages of a listing, one after the other, are the whole listing.
use calling_agent.Prelude.{
  Bool-cases, inl, inr, ℕ, zero, suc, ◌+◌, ◌-◌, ◌*◌, ◌/◌, ◌≤◌, ◌==◌, ==_iff, ltb, ◌≡◌, refl, sym,
  ap, ◌∙◌, arith, if◌then◌else◌, List, [], ◌∷◌, ◌++◌, some, length, take, drop, select,
  take-append-drop,
}
use calling_agent.Repo.{Row, in_tenant, get_all}
use calling_agent.Contacts.{Contacts}
use calling_agent.Pages.{PaginatedResponse, list_numbers, list_contacts}

module _ {T : Type 0} where
  -- The items of n pages from page k.
  abbrev pub items_from : (ℕ → PaginatedResponse T) → ℕ → ℕ → List T
  items_from ask k zero = []
  items_from ask k (suc n) = (ask k).items ++ items_from ask (suc k) n

  -- What a client has that asks for the first page and for all that it announces.
  abbrev pub all_items : (ℕ → PaginatedResponse T) → List T
  all_items ask = items_from ask 1 (ask 1).pages

  drop-none : (n : ℕ) → drop {A = T} n [] ≡ []
  drop-none zero = refl
  drop-none (suc n) = refl

  drop-drop : (m n : ℕ) (xs : List T) → drop m (drop n xs) ≡ drop (n + m) xs
  drop-drop m zero xs = ap (λ n. drop n xs) (omega arith)
  drop-drop m (suc n) [] = drop-none m ∙ sym (drop-none (suc n + m))
  drop-drop m (suc n) (x ∷ xs) =
      let shift : suc (n + m) ≡ suc n + m = omega arith in
      drop-drop m n xs ∙ ap (λ n. drop n (x ∷ xs)) shift

  drop_all : (n : ℕ) (xs : List T) → length xs ≤ n → drop n xs ≡ []
  drop_all zero [] h = refl
  drop_all zero (x ∷ xs) h = absurd (omega arith)
  drop_all (suc n) [] h = refl
  drop_all (suc n) (x ∷ xs) h = drop_all n xs (omega arith)

  module _ (xs : List T) (per_page : ℕ) (ask : ℕ → PaginatedResponse T)
      (answers : (k : ℕ) → (ask (suc k)).items ≡ take per_page (drop (k * per_page) xs)) where
    items_from_lem :
        (n k : ℕ)
        → length xs ≤ k * per_page + n * per_page
        → items_from ask (suc k) n ≡ drop (k * per_page) xs
    items_from_lem zero k h = sym (drop_all (k * per_page) xs (omega arith))
    items_from_lem (suc n) k h =
        let rest = items_from_lem n (suc k) (omega arith) in
        let step = drop-drop per_page (k * per_page) xs in
        let here = answers k in
        let second : suc k * per_page ≡ k * per_page + per_page = omega arith in
        rw (here, rest, second, ← step) (take-append-drop per_page (drop (k * per_page) xs))

    all_items_lem : (n : ℕ) → length xs ≤ n * per_page → items_from ask 1 n ≡ xs
    all_items_lem n h =
        let nothing : 0 * per_page ≡ 0 = omega arith in
        items_from_lem n 0 (omega arith) ∙ ap (λ n. drop n xs) nothing

enough_pages :
    (total per_page : ℕ) → 1 ≤ per_page → total ≤ (total + per_page - 1) / per_page * per_page
enough_pages total per_page h = omega arith

enough_if_any :
    (total per_page : ℕ)
    → 1 ≤ per_page
    → total ≤ (if ltb 0 total then (total + per_page - 1) / per_page else 0) * per_page
enough_if_any total per_page h =
    let enough = enough_pages total per_page h in
    elim (Bool-cases (ltb 0 total)) [ inl e ↦ rw e enough | inr e ↦ ground arith ]

enough_if_paged :
    (total per_page : ℕ)
    → 1 ≤ per_page
    → total ≤ (if per_page == 0 then 1 else (total + per_page - 1) / per_page) * per_page
enough_if_paged total per_page h =
    let enough = enough_pages total per_page h in
    elim (Bool-cases (per_page == 0)) [
      | inl e ↦ absurd (ground (arith, ==_iff per_page 0))
      | inr e ↦ rw e enough
    ]

page_of :
    {T : Type 0} (per_page k : ℕ) (xs : List T)
    → take per_page (drop ((suc k - 1) * per_page) xs) ≡ take per_page (drop (k * per_page) xs)
page_of per_page k xs =
    let same : suc k - 1 ≡ k = omega arith in ap (λ n. take per_page (drop (n * per_page) xs)) same

module _ (tenant : ℕ) where
  -- For an ORDER BY that is a function of the rows and keeps their number, the pages that a listing
  -- announces, asked for one after the other with at least one row a page while the rows stay as they are,
  -- are together the tenant's rows in that order.
  pub pages_cover :
      {B : Type 0} (order : List (Row B) → List (Row B)) (per_page : ℕ) (rows : List (Row B))
      → ((xs : List (Row B)) → length (order xs) ≡ length xs)
      → 1 ≤ per_page
      → all_items (λ k. list_numbers tenant order (record { page = k; per_page = per_page }) rows)
        ≡ order (select (in_tenant (some tenant)) rows)
  unfolding list_numbers get_all
  pages_cover order per_page rows keeps h =
      let own = select (in_tenant (some tenant)) rows in
      all_items_lem (order own) per_page
        (λ k. list_numbers tenant order (record { page = k; per_page = per_page }) rows)
        (λ k. page_of per_page k (order own)) _
        (rw (keeps own) (enough_if_any (length own) per_page h))

  contacts_cover :
      (order : Contacts → Contacts) (per_page : ℕ) (rows : Contacts)
      → ((xs : Contacts) → length (order xs) ≡ length xs)
      → 1 ≤ per_page
      → all_items (λ k. list_contacts tenant order (record { page = k; per_page = per_page }) rows)
        ≡ order (select (in_tenant (some tenant)) rows)
  unfolding list_contacts get_all
  contacts_cover order per_page rows keeps h =
      let own = select (in_tenant (some tenant)) rows in
      all_items_lem (order own) per_page
        (λ k. list_contacts tenant order (record { page = k; per_page = per_page }) rows)
        (λ k. page_of per_page k (order own)) _
        (rw (keeps own) (enough_if_paged (length own) per_page h))
