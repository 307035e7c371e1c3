-- ===== src/Db/Calls/Replay.antt =====
-- What a sequence of calls on the tables does to the companies and prices they stand for.
use iexapitest.Base.{List, [], ok, refl, text_eq, ◌∷◌}
use iexapitest.Db.Calls.{
  DbCall, adds_company, adds_price, perform_all, perform_call, removes_company, removes_prices,
  sets_logo,
}
use iexapitest.Db.Calls.Abstract.{apply_all, apply_call}
use iexapitest.Db.Calls.Sound.{IsSound, apply_call-IsSound}
use iexapitest.Db.Market.{Market, Stores}
use iexapitest.Db.Sqlite.{Sqlite}
use iexapitest.Db.Sqlite.Meaning.{Tables}
use iexapitest.Db.Sqlite.Engine.{IsDocumented}
use iexapitest.Db.Sqlite.Runs.{Ends, IsAt, Runs, Runs-pure, Runs-then}
use iexapitest.Db.Companies.Storing.{add_company-Ends, added}
use iexapitest.Db.Companies.Changes.{
  relabel, remove_by_row_id-Runs, set_logo_by_id-Runs, strike, with_companies,
}
use iexapitest.Db.Prices.Ledgers.{
  add_price-Runs, entered, forget, remove_all_by_company_row_id-Runs, with_entries,
}

module _ (S : Sqlite) (law : IsDocumented S) where
  open S use {Database, Real}

  perform_call-Runs :
      (call : DbCall Real) (m : Market Real) (t : Tables Real)
      → Stores Real t m
      → (u : Tables Real) × Runs S law t (perform_call S call) (ok tt) u
        × Stores Real u (apply_call law.gap call m)
  unfolding perform_call apply_call text_eq
  perform_call-Runs (adds_company uuid name logo) m t (companies, prices) = (
    added Real law.gap uuid name logo m.registry t,
    add_company-Ends S law uuid name logo m.registry t companies,
    (refl, prices),
  )
  perform_call-Runs (sets_logo row_id link) m t (companies, prices) = (
    with_companies Real (relabel row_id link m.registry.companies) m.registry t,
    set_logo_by_id-Runs S law row_id link m.registry t companies,
    (refl, prices),
  )
  perform_call-Runs (removes_company row_id) m t (companies, prices) = (
    with_companies Real (strike row_id m.registry.companies) m.registry t,
    remove_by_row_id-Runs S law row_id m.registry t companies,
    (refl, prices),
  )
  perform_call-Runs (adds_price company price timestamp) m t (companies, prices) = (
    entered Real company price timestamp m.ledger t,
    add_price-Runs S law company price timestamp m.ledger t prices,
    (companies, refl),
  )
  perform_call-Runs (removes_prices company) m t (companies, prices) = (
    with_entries Real (forget Real company m.ledger.entries) m.ledger t,
    remove_all_by_company_row_id-Runs S law company m.ledger t prices,
    (companies, refl),
  )

  perform_all-Runs :
      (calls : List (DbCall Real)) (m : Market Real) (t : Tables Real)
      → Stores Real t m
      → (u : Tables Real) × Runs S law t (perform_all S calls) (ok tt) u
        × Stores Real u (apply_all law.gap calls m)
  unfolding perform_all apply_all
  perform_all-Runs [] m t stored = (t, Runs-pure S law t tt, stored)
  perform_all-Runs (call ∷ calls) m t stored =
      let (v, first, between) = perform_call-Runs call m t stored in
      let (u, next, after) = perform_all-Runs calls (apply_call law.gap call m) v between in
      (
        u,
        Runs-then S law (perform_call S call) (λ x. perform_all S calls) tt (ok tt) t v u first
            next,
        after,
      )

  apply_all-IsSound :
      (calls : List (DbCall Real)) (m : Market Real)
      → IsSound m
      → IsSound (apply_all law.gap calls m)
  unfolding apply_all
  apply_all-IsSound [] m h = h
  apply_all-IsSound (call ∷ calls) m h =
      apply_all-IsSound calls (apply_call law.gap call m)
        (apply_call-IsSound law.gap call m law.gap_lem h)

  -- Over a documented SQLite with no transaction open, from tables that stand for companies and
  -- prices with rising ids and no uuid twice: any sequence of additions of companies and prices,
  -- changes of logos and removals of companies or of a company's prices returns, without an
  -- exception. Afterwards the two tables stand for what the same sequence makes of the companies
  -- and prices, the ids rise and no uuid is there twice.
  pub perform_all-Ends :
      (calls : List (DbCall Real)) (m : Market Real) (t : Tables Real)
      → IsSound m
      → Stores Real t m
      → (d : Database) → IsAt S law d t
      → (u : Tables Real) × Ends S law (perform_all S calls) d (ok tt) u
        × Stores Real u (apply_all law.gap calls m)
        × IsSound (apply_all law.gap calls m)
  perform_all-Ends calls m t sound stored d at =
      let (u, ran, after) = perform_all-Runs calls m t stored in
      (u, ran d at, after, apply_all-IsSound calls m sound)
