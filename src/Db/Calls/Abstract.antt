-- ===== src/Db/Calls/Abstract.antt =====
-- What a call does to the companies and prices that the tables stand for. `gap` is what an addition
-- of a company that is there leaves of the last id.
use iexapitest.Base.{List, [], ℕ, ◌∷◌}
use iexapitest.Db.Calls.{
  DbCall, adds_company, adds_price, removes_company, removes_prices, sets_logo,
}
use iexapitest.Db.Market.{Market}
use iexapitest.Db.Companies.Records.{register}
use iexapitest.Db.Companies.Changes.{relabel, strike}
use iexapitest.Db.Prices.Ledgers.{enter, forget}

module _ {Real : Type 0} where
  unfoldable pub apply_call : (ℕ → ℕ) → DbCall Real → Market Real → Market Real
  apply_call gap (adds_company uuid name logo) m = record m {
    registry = register gap uuid name logo m.registry;
  }
  apply_call gap (sets_logo row_id link) m = record m {
    registry = record m.registry { companies = relabel row_id link m.registry.companies };
  }
  apply_call gap (removes_company row_id) m = record m {
    registry = record m.registry { companies = strike row_id m.registry.companies };
  }
  apply_call gap (adds_price company price timestamp) m = record m {
    ledger = enter Real company price timestamp m.ledger;
  }
  apply_call gap (removes_prices company) m = record m {
    ledger = record m.ledger { entries = forget Real company m.ledger.entries };
  }

  unfoldable pub apply_all : (ℕ → ℕ) → List (DbCall Real) → Market Real → Market Real
  unfolding apply_call
  apply_all gap [] m = m
  apply_all gap (call ∷ calls) m = apply_all gap calls (apply_call gap call m)
