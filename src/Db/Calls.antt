-- ===== src/Db/Calls.antt =====
-- Calls on the tables of companies and prices, one after another, as the rest of the program and its
-- tests make them through DBManager.
pub mod Abstract
pub mod Sound
pub mod Replay
use iexapitest.Base.{Exec, List, Text, [], pure, ℤ, ◌>>◌, ◌∷◌}
use iexapitest.Db.Sqlite.{Sqlite}
use iexapitest.Db.Companies.{add_company, remove_by_row_id, set_logo_by_id}
use iexapitest.Db.Prices.{add_price, remove_all_by_company_row_id}

pub data DbCall (Real : Type 0) : Type 0 where
  adds_company : Text → Text → Text → DbCall Real
  sets_logo : ℤ → Text → DbCall Real
  removes_company : ℤ → DbCall Real
  adds_price : ℤ → Real → ℤ → DbCall Real
  removes_prices : ℤ → DbCall Real

module _ (S : Sqlite) where
  open S use {Database, Real}

  unfoldable pub perform_call : DbCall Real → Exec Database (Unit {0})
  perform_call (adds_company uuid name logo) = add_company S uuid name logo
  perform_call (sets_logo row_id link) = set_logo_by_id S row_id link
  perform_call (removes_company row_id) = remove_by_row_id S row_id
  perform_call (adds_price company price timestamp) = add_price S company price timestamp
  perform_call (removes_prices company) = remove_all_by_company_row_id S company

  unfoldable pub perform_all : List (DbCall Real) → Exec Database (Unit {0})
  unfolding perform_call
  perform_all [] = pure tt
  perform_all (call ∷ calls) = perform_call call >> perform_all calls
