-- ===== src/Store/Migrate/Tests.antt =====
-- Starts on a new database.
use langley.Prelude.{ℕ, ◌≡◌, ◌==◌, refl, Bool, true, false, [], ◌∷◌, some}
use langley.Store.Migrate.{
  empty_schema, full_schema, never, migrate, starts, migrate-starts, starts-stuck,
}

abbrev fails_at : ℕ → ℕ → Bool
fails_at n i = n == i

migrate-starts_example :
    migrate never (starts (fails_at 0 ∷ fails_at 0 ∷ []) empty_schema) ≡ (full_schema, true)
migrate-starts_example =
    migrate-starts (fails_at 0 ∷ fails_at 0 ∷ []) ((refl, refl), ((refl, refl), tt))

starts-stuck_example :
    ((migrate never (starts (fails_at 1 ∷ never ∷ []) empty_schema)).1 ≡ false)
    × ((starts (fails_at 1 ∷ never ∷ []) empty_schema).version ≡ some 1)
starts-stuck_example = starts-stuck (fails_at 1) (never ∷ []) never refl refl
