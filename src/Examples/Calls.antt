-- ===== src/Examples/Calls.antt =====
-- Calls on the tables, on the engine in memory.
use iexapitest.Base.{List, [], arith, codes, map, ok, pos, refl, suc, text_eq, ℕ, ◌∷◌, ◌≡◌}
use iexapitest.Examples.Memory.{memory, memory-IsAt, memory-IsDocumented}
use iexapitest.Examples.Controller.{market, tables, tables-Stores}
use iexapitest.Db.Sqlite.Runs.{Ends, idle}
use iexapitest.Db.Sqlite.Meaning.{Tables, int_eq}
use iexapitest.Db.Market.{Stores}
use iexapitest.Db.Prices.Ledgers.{enter}
use iexapitest.Db.Companies.Records.{find_company, register}
use iexapitest.Db.Calls.{DbCall, adds_company, adds_price, perform_all, removes_company, sets_logo}
use iexapitest.Db.Calls.Abstract.{apply_all}
use iexapitest.Db.Calls.Sound.{IsSound}
use iexapitest.Db.Calls.Replay.{perform_all-Ends}
use iexapitest.Db.Companies.Changes.{relabel, strike}

-- A company with a price that is removed, and added once more
abbrev calls : List (DbCall ℕ)
calls =
    adds_company (codes "fb") (codes "Facebook") []
    ∷ adds_price (pos 1) 9 (pos 7)
    ∷ removes_company (pos 1)
    ∷ adds_company (codes "fb") (codes "Meta") []
    ∷ sets_logo (pos 2) (codes "https://logo")
    ∷ []

price_left_behind : map (λ e. e.company) (apply_all suc calls market).ledger.entries ≡ pos 1 ∷ []
unfolding apply_all enter
price_left_behind = refl

no_company_left : map (λ c. c.id) (apply_all suc calls market).registry.companies ≡ 2 ∷ []
unfolding apply_all register find_company relabel strike text_eq int_eq
no_company_left = refl

perform_all-Ends_example :
    (u : Tables ℕ) × Ends memory memory-IsDocumented
      (perform_all memory calls)
      (idle tables)
      (ok tt)
      u
    × Stores ℕ u (apply_all suc calls market)
    × IsSound (apply_all suc calls market)
unfolding memory-IsDocumented
perform_all-Ends_example =
    perform_all-Ends memory memory-IsDocumented calls market tables (omega arith) tables-Stores
      (idle tables) (memory-IsAt tables)
