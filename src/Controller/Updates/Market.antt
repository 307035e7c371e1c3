-- ===== src/Controller/Updates/Market.antt =====
-- What the answer about a company adds to what the database stands for. `gap` is what an addition of
-- a company that is there leaves of the last id.
use iexapitest.Base.{List, [], pos, suc, zero, ℕ, ℤ, ◌∷◌}
use iexapitest.Db.Market.{Market}
use iexapitest.Rpc.Client.{CompanyInfo, Price}
use iexapitest.Db.Companies.Records.{register}
use iexapitest.Db.Companies.RoundTrip.{company_after}
use iexapitest.Db.Prices.Ledgers.{Ledger, enter}

module _ {Real Float : Type 0} (gap : ℕ → ℕ) (widen : Float → Real) where
  unfoldable pub enter_prices : ℤ → List (Price Float) → Ledger Real → Ledger Real
  enter_prices company [] l = l
  enter_prices company (p ∷ prices) l =
      enter_prices company prices (enter Real company (widen p.price) p.date_timestamp l)

  -- The company is registered, and its prices are entered under its id.
  unfoldable pub record_info : CompanyInfo Float → Market Real → Market Real
  unfolding enter_prices
  record_info info m = record {
    registry = register gap info.short_name info.full_name info.logo m.registry;
    ledger =
        enter_prices (pos (company_after info.short_name info.full_name info.logo m.registry).id)
          info.price_list m.ledger;
  }

  unfoldable pub record_all : List (CompanyInfo Float) → Market Real → Market Real
  unfolding record_info
  record_all [] m = m
  record_all (info ∷ infos) m = record_all infos (record_info info m)

  unfoldable pub record_rounds : ℕ → List (CompanyInfo Float) → Market Real → Market Real
  unfolding record_all
  record_rounds zero infos m = m
  record_rounds (suc n) infos m = record_rounds n infos (record_all infos m)
