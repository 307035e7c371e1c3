-- ===== src/Db/Sqlite/Engine.antt =====
-- The engine of tables, and what it means that SQLite does as it is documented: without input and
-- output errors it answers as the engine does.
use iexapitest.Base.{
  Bool, Exception, Exec, Option, Text, codes, err, false, none, ok, pos, some, true, ℕ, ℤ, ◌<◌, ◌^◌,
  ◌≡◌, ◌≤◌,
}
use iexapitest.Db.Sqlite.{Binds, Sqlite, Value, integer, text}
use iexapitest.Db.Sqlite.Meaning.{
  Query, Tables, is_null_value, is_typed, meaning, preparing, sqlite_error,
}
use iexapitest.Db.Sqlite.Reading.{Reads}

-- The tables, and those at the beginning of the transaction that is open.
pub record Snapshot (Real : Type 0) : Type 0 where
  pub tables : Tables Real
  pub saved : Option (Tables Real)

abbrev pub nested_transaction : Exception
nested_transaction = sqlite_error (codes "cannot start a transaction within a transaction")

abbrev pub no_transaction : Exception
no_transaction = sqlite_error (codes "no transaction is active")

abbrev pub is_some {ℓ} : {A : Type ℓ} → Option A → Bool
is_some none = false
is_some (some a) = true

module _ {Real : Type 0} where
  -- A statement on the tables of a snapshot
  abbrev pub on_tables : {A : Type 0} → Exec (Tables Real) A → Exec (Snapshot Real) A
  on_tables m s = let (r, tables) = m s.tables in (r, record s { tables = tables })

  abbrev pub begin_snapshot : Exec (Snapshot Real) (Unit {0})
  begin_snapshot s = elim s.saved [
    | none ↦ (ok tt, record s { saved = some s.tables })
    | some old ↦ (err nested_transaction, s)
  ]

  abbrev pub commit_snapshot : Exec (Snapshot Real) (Unit {0})
  commit_snapshot s = elim s.saved [
    | none ↦ (err no_transaction, s)
    | some old ↦ (ok tt, record s { saved = none })
  ]

  abbrev pub rollback_snapshot : Exec (Snapshot Real) (Unit {0})
  rollback_snapshot s = elim s.saved [
    | none ↦ (err no_transaction, s)
    | some old ↦ (ok tt, record { tables = old; saved = none })
  ]

  abbrev pub has_table : Text → Exec (Snapshot Real) Bool
  has_table name s = (ok (is_some (s.tables name)), s)

-- Two actions give the same result, and states with the same view.
abbrev pub Simulates : {D V A : Type 0} → (D → V) → Exec D A → Exec V A → Type 0
Simulates {D} view m n = (d : D) → ((m d).0 ≡ (n (view d)).0) × (view (m d).1 ≡ (n (view d)).1)

-- What the program relies on.
pub record IsDocumented (S : Sqlite) : Type 0 where
  pub view : S.Database → Snapshot S.Real
  -- An insert that is ignored may leave a gap in the ids of AUTOINCREMENT; no id is given out again.
  pub gap : ℕ → ℕ
  pub gap_lem : (n : ℕ) → n ≤ gap n
  pub prepare_lem :
      (cmd : Text) (q : Query S.Real)
      → Reads S.Real cmd q
      → Simulates view (S.prepare cmd) (on_tables (preparing q))
  pub run_lem :
      (cmd : Text) (q : Query S.Real) (binds : Binds S.Real)
      → Reads S.Real cmd q
      → is_typed q binds ≡ true
      → Simulates view (S.run cmd binds) (on_tables (meaning gap q binds))
  pub table_exists_lem : (name : Text) → Simulates view (S.table_exists name) (has_table name)
  pub begin_lem : Simulates view S.begin begin_snapshot
  pub commit_lem : Simulates view S.commit commit_snapshot
  pub rollback_lem : Simulates view S.rollback rollback_snapshot
  pub get_string_lem : (t : Text) → S.get_string (text t) ≡ t
  pub get_int_lem : (n : ℕ) → n < 2 → S.get_int (integer (pos n)) ≡ pos n
  pub get_int64_lem : (n : ℤ) → S.get_int64 (integer n) ≡ n
  pub get_uint_lem : (n : ℕ) → n < 2 ^ 32 → S.get_uint (integer (pos n)) ≡ n
  pub is_null_lem : (v : Value S.Real) → S.is_null v ≡ is_null_value v
