-- ===== src/Repo/Tests.antt =====
-- Examples for apps/api/repositories/base.py.
use calling_agent.Prelude.{ℕ, ◌≡◌, refl, false, some, List, [], ◌∷◌}
use calling_agent.Repo.{Row, Values, Write, creates, updates, deletes, write_all, write}
use calling_agent.Repo.Isolation.{foreign, write_all-isolated}

abbrev row : ℕ → ℕ → ℕ → Row ℕ
row id tenant n = record { id = id; tenant_id = tenant; body = n }

abbrev rows : List (Row ℕ)
rows = row 1 7 10 ∷ row 2 8 20 ∷ row 3 7 30 ∷ []

abbrev set_to : ℕ → Values ℕ
set_to n = record { tenant = some 8; columns = λ _. n }

abbrev writes : List (Write ℕ)
writes = updates 2 (set_to 0) ∷ creates (λ x y. false) (row 4 8 40) ∷ deletes 2 ∷ deletes 1 ∷ []

writes_run : write_all (some 7) writes rows ≡ row 2 8 20 ∷ row 3 7 30 ∷ row 4 7 40 ∷ []
unfolding write_all write
writes_run = refl

write_all-isolated_example : foreign 7 (write_all (some 7) writes rows) ≡ row 2 8 20 ∷ []
write_all-isolated_example = write_all-isolated 7 writes rows
