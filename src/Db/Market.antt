-- ===== src/Db/Market.antt =====
-- What the tables of companies and prices stand for together.
use iexapitest.Base.{some, ◌≡◌}
use iexapitest.Db.Sqlite.Meaning.{Tables}
use iexapitest.Db.Companies.{companies_table}
use iexapitest.Db.Prices.{prices_table}
use iexapitest.Db.Companies.Records.{Registry, table_of}
use iexapitest.Db.Prices.Ledgers.{Ledger, prices_of}

module _ (Real : Type 0) where
  pub record Market : Type 0 where
    pub registry : Registry
    pub ledger : Ledger Real

  -- The two tables stand for the market.
  abbrev pub Stores : Tables Real → Market → Type 0
  Stores t m =
      (t companies_table ≡ some (table_of Real m.registry))
      × (t prices_table ≡ some (prices_of Real m.ledger))
