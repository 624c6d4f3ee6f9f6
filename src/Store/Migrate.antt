-- ===== src/Store/Migrate.antt =====
-- migrate of internal/store/sqlite.go: the version of the schema, and the columns that its migrations
-- add. An ALTER TABLE that adds a column which is there is an error; the statements of a migration
-- are not one transaction. `unrecorded` tells which updates of the version fail.
mod Tests
use langley.Prelude.{
  ℕ, ◌+◌, ◌≡◌, refl, ap, ◌∙◌, Bool, true, false, not, ◌||◌, List, [], ◌∷◌, Option, none, some,
  if◌then◌else◌, drop, Bool-cases, inl, inr,
}

pub record Schema : Type 0 where
  pub version : Option ℕ
  pub has_tables : Bool
  pub has_tool_use_id : Bool
  pub has_tool_input : Bool
  pub has_tool_result : Bool

-- migrationV1, migrationV2, migrationV3
pub data Migration : Type 0 where
  initial_schema add_tool_use_id add_tool_texts : Migration

abbrev pub migrations : List Migration
migrations = initial_schema ∷ add_tool_use_id ∷ add_tool_texts ∷ []

unfoldable pub exec : Migration → Schema → Schema × Bool
exec initial_schema s = (record s { has_tables = true }, true)
exec add_tool_use_id s =
    if not s.has_tables || s.has_tool_use_id
    then (s, false)
    else (record s { has_tool_use_id = true }, true)
exec add_tool_texts s =
    if not s.has_tables || s.has_tool_input
    then (s, false)
    else if s.has_tool_result
    then (record s { has_tool_input = true }, false)
    else (record s { has_tool_input = true; has_tool_result = true }, true)

module _ (unrecorded : ℕ → Bool) where
  -- the loop, from migration `i` on
  unfoldable pub run_migrations : ℕ → List Migration → Schema → Schema × Bool
  unfolding exec
  run_migrations i [] s = (s, true)
  run_migrations i (m ∷ ms) s =
      let (t, done) = exec m s in
      let rest = run_migrations (i + 1) ms (record t { version = some (i + 1) }) in
      if not done then (t, false) else if unrecorded i then (t, false) else rest

  unfoldable pub migrate : Schema → Schema × Bool
  unfolding run_migrations
  migrate s = elim s.version [
    | none ↦ run_migrations 0 migrations (record s { version = some 0 })
    | some i ↦ run_migrations i (drop i migrations) s
  ]

abbrev pub empty_schema : Schema
empty_schema = record {
  version = none;
  has_tables = false;
  has_tool_use_id = false;
  has_tool_input = false;
  has_tool_result = false;
}

abbrev pub full_schema : Schema
full_schema = record {
  version = some 3;
  has_tables = true;
  has_tool_use_id = true;
  has_tool_input = true;
  has_tool_result = true;
}

abbrev pub never : ℕ → Bool
never i = false

-- several starts, one after the other, each with its failures
unfoldable pub starts : List (ℕ → Bool) → Schema → Schema
unfolding migrate
starts [] s = s
starts (unrecorded ∷ more) s = starts more (migrate unrecorded s).0

-- the schemas that starts can leave if versions 2 and 3 are recorded
pub data Stage : Type 0 where
  untouched created first_version second_version third_version : Stage

abbrev schema_at : Stage → Schema
schema_at untouched = empty_schema
schema_at created = record empty_schema { version = some 0; has_tables = true }
schema_at first_version = record empty_schema { version = some 1; has_tables = true }
schema_at second_version = record empty_schema {
  version = some 2;
  has_tables = true;
  has_tool_use_id = true;
}
schema_at third_version = full_schema

-- versions 2 and 3 can be recorded
abbrev pub Records : (ℕ → Bool) → Type 0
Records unrecorded = (unrecorded 1 ≡ false) × (unrecorded 2 ≡ false)

abbrev pub AllRecord : List (ℕ → Bool) → Type 0
AllRecord [] = Unit {0}
AllRecord (u ∷ us) = Records u × AllRecord us

migrate-stage :
    (st : Stage) (u : ℕ → Bool)
    → Records u
    → (next : Stage) × ((migrate u (schema_at st)).0 ≡ schema_at next)
unfolding migrate run_migrations exec
migrate-stage untouched u (one, two) = elim (Bool-cases (u 0)) [
  | inl e ↦ (created, rw e refl)
  | inr e ↦ (third_version, rw (e, one, two) refl)
]
migrate-stage created u (one, two) = elim (Bool-cases (u 0)) [
  | inl e ↦ (created, rw e refl)
  | inr e ↦ (third_version, rw (e, one, two) refl)
]
migrate-stage first_version u (one, two) = (third_version, rw (one, two) refl)
migrate-stage second_version u (one, two) = (third_version, rw two refl)
migrate-stage third_version u (one, two) = (third_version, refl)

starts-stage :
    (us : List (ℕ → Bool)) (st : Stage)
    → AllRecord us
    → (next : Stage) × (starts us (schema_at st) ≡ schema_at next)
unfolding starts
starts-stage [] st h = (st, refl)
starts-stage (u ∷ us) st (h, hs) =
    let (mid, e) = migrate-stage st u h in
    let (next, d) = starts-stage us mid hs in (next, ap (starts us) e ∙ d)

migrate_complete : (st : Stage) → migrate never (schema_at st) ≡ (full_schema, true)
unfolding migrate run_migrations exec
migrate_complete untouched = refl
migrate_complete created = refl
migrate_complete first_version = refl
migrate_complete second_version = refl
migrate_complete third_version = refl

-- After any starts on a new database, of which each may fail to record version 1 but none to record
-- version 2 or 3, a start without failures brings the schema to version 3 with all its columns.
pub migrate-starts :
    (us : List (ℕ → Bool))
    → AllRecord us
    → migrate never (starts us empty_schema) ≡ (full_schema, true)
migrate-starts us h =
    let (st, e) = starts-stage us untouched h in ap (migrate never) e ∙ migrate_complete st

-- version 1, with the column of version 2
abbrev half_migrated : Schema
half_migrated = record empty_schema { version = some 1; has_tables = true; has_tool_use_id = true }

migrate-half_migrated : (u : ℕ → Bool) → migrate u half_migrated ≡ (half_migrated, false)
unfolding migrate run_migrations exec
migrate-half_migrated u = refl

starts-half_migrated : (us : List (ℕ → Bool)) → starts us half_migrated ≡ half_migrated
unfolding starts
starts-half_migrated [] = refl
starts-half_migrated (u ∷ us) =
    ap (λ (r : Schema × Bool). starts us r.0) (migrate-half_migrated u) ∙ starts-half_migrated us

-- If the first start on a new database records version 1 but fails to record version 2, every later
-- start fails, whatever starts lie between: it leaves the schema at version 1.
pub starts-stuck :
    (u : ℕ → Bool) (us : List (ℕ → Bool)) (v : ℕ → Bool)
    → u 0 ≡ false
    → u 1 ≡ true
    → ((migrate v (starts (u ∷ us) empty_schema)).1 ≡ false)
      × ((starts (u ∷ us) empty_schema).version ≡ some 1)
unfolding starts
starts-stuck u us v zeroth first =
    let left : starts (u ∷ us) empty_schema ≡ half_migrated =
      ap (starts us) (broken zeroth first) ∙ starts-half_migrated us in
    (
      ap (λ s. (migrate v s).1) left ∙ ap (λ (r : Schema × Bool). r.1) (migrate-half_migrated v),
      ap (λ (s : Schema). s.version) left,
    )
  where
    broken : u 0 ≡ false → u 1 ≡ true → (migrate u empty_schema).0 ≡ half_migrated
    broken e f = unfold migrate run_migrations exec in rw (e, f) refl
