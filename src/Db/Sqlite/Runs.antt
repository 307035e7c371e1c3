-- ===== src/Db/Sqlite/Runs.antt =====
-- Actions on a documented SQLite, from one state of the tables to another with no transaction open.
use iexapitest.Base.{
  Exception, Exec, List, Result, Text, [], ap, err, inl, inr, none, ok, pure, refl, some, true,
  try_catch, ◌>>=◌, ◌>>◌, ◌∙◌, ◌∷◌, ◌≡◌, ◌⊎◌,
}
use iexapitest.Db.Sqlite.{Binds, Sqlite, Value}
use iexapitest.Db.Sqlite.Meaning.{Query, Tables, is_typed, meaning, preparing}
use iexapitest.Db.Sqlite.Reading.{Reads}
use iexapitest.Db.Sqlite.Engine.{
  IsDocumented, Simulates, Snapshot, begin_snapshot, commit_snapshot, has_table, is_some, on_tables,
  rollback_snapshot,
}
use iexapitest.Db.Statements.{
  exec_and_get, first_column, in_transaction, is_exist, make_statement, no_row, run_statement,
  run_transaction,
}

abbrev pub idle : {Real : Type 0} → Tables Real → Snapshot Real
idle t = record { tables = t; saved = none }

abbrev pub first_of : {Real : Type 0} → List (Value Real) → Result (Value Real)
first_of [] = err no_row
first_of (v ∷ vs) = ok v

module _ {A : Type 0} where
  -- An exception that is thrown, or a value that is returned
  abbrev pub outcome_of : Exception ⊎ A → Result A
  outcome_of (inl x) = err x
  outcome_of (inr a) = ok a

  abbrev pub done : Exception ⊎ A → Result (Unit {0})
  done (inl x) = err x
  done (inr a) = ok tt

  -- The old tables after an exception, the new ones after a return
  abbrev pub all_or_nothing {ℓ} : {T : Type ℓ} → Exception ⊎ A → T → T → T
  all_or_nothing (inl x) old new = old
  all_or_nothing (inr a) old new = new

module _ (S : Sqlite) (law : IsDocumented S) where
  open S use {Database, Real}

  -- No transaction is open on the connection, and these are its tables.
  abbrev pub IsAt : Database → Tables Real → Type 0
  IsAt d t = law.view d ≡ idle t

  -- The action, started on the connection, ends with the result and the tables.
  abbrev pub Ends : {A : Type 0} → Exec Database A → Database → Result A → Tables Real → Type 0
  Ends m d r u = ((m d).0 ≡ r) × IsAt (m d).1 u

  -- From tables t the action ends with the result and the tables u.
  abbrev pub Runs : {A : Type 0} → Tables Real → Exec Database A → Result A → Tables Real → Type 0
  Runs t m r u = (d : Database) → IsAt d t → Ends m d r u

  pub Runs-pure : {A : Type 0} (t : Tables Real) (a : A) → Runs t (pure a) (ok a) t
  Runs-pure t a d e = (refl, e)

  pub Runs-then :
      {A B : Type 0} (m : Exec Database A) (f : A → Exec Database B) (a : A) (r : Result B)
      (t u v : Tables Real)
      → Runs t m (ok a) u
      → Runs u (f a) r v
      → Runs t (m >>= f) r v
  Runs-then m f a r t u v first next d e =
      let (done, view') = first d e in let rest = next (m d).1 view' in rw done rest

  pub Runs-throws :
      {A B : Type 0} (m : Exec Database A) (f : A → Exec Database B) (x : Exception)
      (t u : Tables Real)
      → Runs t m (err x) u
      → Runs t (m >>= f) (err x) u
  Runs-throws m f x t u first d e = let (done, view') = first d e in rw done (refl, view')

  pub Runs-caught :
      {A : Type 0} (m : Exec Database A) (handler : Exception → Exec Database A) (x : Exception)
      (r : Result A) (t u v : Tables Real)
      → Runs t m (err x) u
      → Runs u (handler x) r v
      → Runs t (try_catch m (λ e. true) handler) r v
  Runs-caught m handler x r t u v first next d e =
      let (done, view') = first d e in let rest = next (m d).1 view' in rw done rest

  pub Runs-uncaught :
      {A : Type 0} (m : Exec Database A) (handler : Exception → Exec Database A) (a : A)
      (t u : Tables Real)
      → Runs t m (ok a) u
      → Runs t (try_catch m (λ e. true) handler) (ok a) u
  Runs-uncaught m handler a t u first d e = let (done, view') = first d e in rw done (refl, view')

  Simulates-Runs :
      {A : Type 0} (m : Exec Database A) (n : Exec (Snapshot Real) A) (r : Result A)
      (t u : Tables Real)
      → Simulates law.view m n
      → n (idle t) ≡ (r, idle u)
      → Runs t m r u
  Simulates-Runs m n r t u same e d at =
      let (result, view') = same d in
      (
        result ∙ ap (λ s. (n s).0) at ∙ ap (λ x. x.0) e,
        view' ∙ ap (λ s. (n s).1) at ∙ ap (λ x. x.1) e,
      )

  pub prepare-Runs :
      (cmd : Text) (q : Query Real) (t : Tables Real)
      → Reads Real cmd q
      → preparing q t ≡ (ok tt, t)
      → Runs t (S.prepare cmd) (ok tt) t
  prepare-Runs cmd q t reads ready =
      Simulates-Runs (S.prepare cmd) (on_tables (preparing q)) (ok tt) t t
        (law.prepare_lem cmd q reads) (rw ready refl)

  pub is_exist-Runs :
      (name : Text) (t : Tables Real) → Runs t (is_exist S name) (ok (is_some (t name))) t
  unfolding is_exist
  is_exist-Runs name t =
      Simulates-Runs (S.table_exists name) (has_table name) (ok (is_some (t name))) t t
        (law.table_exists_lem name) refl

  pub run-Runs :
      (cmd : Text) (q : Query Real) (binds : Binds Real) (t u : Tables Real)
      (r : Result (List (Value Real)))
      → Reads Real cmd q
      → is_typed q binds ≡ true
      → meaning law.gap q binds t ≡ (r, u)
      → Runs t (S.run cmd binds) r u
  run-Runs cmd q binds t u r reads typed means =
      Simulates-Runs (S.run cmd binds) (on_tables (meaning law.gap q binds)) r t u
        (law.run_lem cmd q binds reads typed) (rw means refl)

  pub make_statement-Runs :
      (cmd : Text) (q : Query Real) (binds : Binds Real) (t : Tables Real)
      → Reads Real cmd q
      → preparing q t ≡ (ok tt, t)
      → Runs t (make_statement S cmd binds) (ok (record { cmd = cmd; binds = binds })) t
  unfolding make_statement
  make_statement-Runs cmd q binds t reads ready =
      Runs-then (S.prepare cmd) (λ x. pure (record { cmd = cmd; binds = binds })) tt
        (ok (record { cmd = cmd; binds = binds })) t t t (prepare-Runs cmd q t reads ready)
        (Runs-pure t (record { cmd = cmd; binds = binds }))

  -- `execAndGet` of a text that reads only.
  pub exec_and_get-Runs :
      (cmd : Text) (q : Query Real) (t : Tables Real) (vs : List (Value Real))
      → Reads Real cmd q
      → is_typed q [] ≡ true
      → preparing q t ≡ (ok tt, t)
      → meaning law.gap q [] t ≡ (ok vs, t)
      → Runs t (exec_and_get S cmd) (first_of vs) t
  unfolding exec_and_get first_column
  exec_and_get-Runs cmd q t vs reads typed ready means =
      Runs-then (S.prepare cmd >> S.run cmd []) (first_column S) vs (first_of vs) t t t
        (Runs-then (S.prepare cmd) (λ u. S.run cmd []) tt (ok vs) t t t
          (prepare-Runs cmd q t reads ready) (run-Runs cmd q [] t t (ok vs) reads typed means))
        (first-Runs vs)
    where
      first-Runs : (vs : List (Value Real)) → Runs t (first_column S vs) (first_of vs) t
      first-Runs [] d e = (refl, e)
      first-Runs (v ∷ vs) d e = (refl, e)

  -- Inside a transaction that began at the first tables
  abbrev within : Tables Real → Tables Real → Snapshot Real
  within old t = record { tables = t; saved = some old }

  Simulates-at :
      {A : Type 0} (m : Exec Database A) (n : Exec (Snapshot Real) A) (s s' : Snapshot Real)
      (r : Result A) (d : Database)
      → Simulates law.view m n
      → law.view d ≡ s
      → n s ≡ (r, s')
      → ((m d).0 ≡ r) × (law.view (m d).1 ≡ s')
  Simulates-at m n s s' r d same at e =
      let (result, view') = same d in
      (
        result ∙ ap (λ x. (n x).0) at ∙ ap (λ x. x.0) e,
        view' ∙ ap (λ x. (n x).1) at ∙ ap (λ x. x.1) e,
      )

  begin_at :
      (t : Tables Real) (d : Database)
      → law.view d ≡ idle t
      → ((S.begin d).0 ≡ ok tt) × (law.view (S.begin d).1 ≡ within t t)
  begin_at t d at =
      Simulates-at S.begin begin_snapshot (idle t) (within t t) (ok tt) d law.begin_lem at refl

  -- A statement that succeeds inside a transaction: its change stays, and the transaction is closed.
  pub in_transaction-Runs :
      (cmd : Text) (q : Query Real) (binds : Binds Real) (t u : Tables Real)
      (vs : List (Value Real))
      → Reads Real cmd q
      → is_typed q binds ≡ true
      → meaning law.gap q binds t ≡ (ok vs, u)
      → Runs t (in_transaction S (S.run cmd binds >> pure tt)) (ok tt) u
  unfolding in_transaction
  in_transaction-Runs cmd q binds t u vs reads typed means d at =
      let (begun, at1) = begin_at t d at in
      let d1 : Database = (S.begin d).1 in
      let (ran, at2) =
        Simulates-at (S.run cmd binds) (on_tables (meaning law.gap q binds)) (within t t)
          (within t u) (ok vs) d1 (law.run_lem cmd q binds reads typed) at1 (rw means refl) in
      let d2 : Database = (S.run cmd binds d1).1 in
      let (committed, at3) =
        Simulates-at S.commit commit_snapshot (within t u) (idle u) (ok tt) d2 law.commit_lem at2
          refl in
      rw (begun, ran, committed) (refl, at3)

  -- One that fails: everything is as before, and the transaction is closed.
  pub in_transaction_failed :
      (cmd : Text) (q : Query Real) (binds : Binds Real) (t u : Tables Real) (x : Exception)
      → Reads Real cmd q
      → is_typed q binds ≡ true
      → meaning law.gap q binds t ≡ (err x, u)
      → Runs t (in_transaction S (S.run cmd binds >> pure tt)) (err x) t
  unfolding in_transaction
  in_transaction_failed cmd q binds t u x reads typed means d at =
      let (begun, at1) = begin_at t d at in
      let d1 : Database = (S.begin d).1 in
      let (ran, at2) =
        Simulates-at (S.run cmd binds) (on_tables (meaning law.gap q binds)) (within t t)
          (within t u) (err x) d1 (law.run_lem cmd q binds reads typed) at1 (rw means refl) in
      let d2 : Database = (S.run cmd binds d1).1 in
      let (back, at3) =
        Simulates-at S.rollback rollback_snapshot (within t u) (idle t) (ok tt) d2 law.rollback_lem
          at2 refl in
      rw (begun, ran) (refl, at3)

  -- `RunTransaction` of a text.
  pub run_transaction-Runs :
      (cmd : Text) (q : Query Real) (t u : Tables Real) (vs : List (Value Real))
      → Reads Real cmd q
      → is_typed q [] ≡ true
      → meaning law.gap q [] t ≡ (ok vs, u)
      → Runs t (run_transaction S cmd) (ok tt) u
  unfolding run_transaction
  run_transaction-Runs cmd q t u vs reads typed means =
      in_transaction-Runs cmd q [] t u vs reads typed means

  -- A statement that is prepared, bound and run in a transaction.
  pub run_prepared-Runs :
      (cmd : Text) (q : Query Real) (binds : Binds Real) (t u : Tables Real)
      (vs : List (Value Real))
      → Reads Real cmd q
      → is_typed q binds ≡ true
      → preparing q t ≡ (ok tt, t)
      → meaning law.gap q binds t ≡ (ok vs, u)
      → Runs t (make_statement S cmd binds >>= run_statement S) (ok tt) u
  unfolding run_statement
  run_prepared-Runs cmd q binds t u vs reads typed ready means =
      Runs-then (make_statement S cmd binds) (run_statement S) (record { cmd = cmd; binds = binds })
        (ok tt) t t u (make_statement-Runs cmd q binds t reads ready)
        (in_transaction-Runs cmd q binds t u vs reads typed means)

  -- What `RunTransaction` makes of a statement that a documented SQLite reads as a query, with values
  -- of the kinds of their columns, started with no transaction open: where the query on its own succeeds its whole change is there; where
  -- it throws, so does RunTransaction, and the tables are as before. No transaction is left open.
  pub run_statement_atomic :
      (cmd : Text) (q : Query Real) (binds : Binds Real) (t u : Tables Real)
      (outcome : Exception ⊎ List (Value Real)) (d : Database)
      → Reads Real cmd q
      → is_typed q binds ≡ true
      → meaning law.gap q binds t ≡ (outcome_of outcome, u)
      → IsAt d t
      → Ends
          (run_statement S (record { cmd = cmd; binds = binds }))
          d
          (done outcome)
          (all_or_nothing outcome t u)
  unfolding run_statement
  run_statement_atomic cmd q binds t u (inl x) d reads typed means at =
      in_transaction_failed cmd q binds t u x reads typed means d at
  run_statement_atomic cmd q binds t u (inr vs) d reads typed means at =
      in_transaction-Runs cmd q binds t u vs reads typed means d at
