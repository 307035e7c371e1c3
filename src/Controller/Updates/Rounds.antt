-- ===== src/Controller/Updates/Rounds.antt =====
-- One round of UpdatePrices, as additions to what the database stands for.
use iexapitest.Base.{List, Text, [], ok, pos, refl, some, text_eq, true, ℤ, ◌∷◌, ◌≡◌}
use iexapitest.Filesystem.Syscalls.{Posix}
use iexapitest.Config.PropertyTree.{Integers, JsonFiles, Lexical, PropertyTree}
use iexapitest.Config.Store.{Config}
use iexapitest.Controller.Updates.{add_prices, on_config, on_database, update_all, update_symbol}
use iexapitest.Db.Sqlite.{Sqlite}
use iexapitest.Db.Sqlite.Meaning.{Tables}
use iexapitest.Db.Sqlite.Engine.{IsDocumented}
use iexapitest.Db.Sqlite.Runs.{Runs, Runs-pure, Runs-then}
use iexapitest.Rpc.Client.{CompanyInfo, Price, get_http_company_info}
use iexapitest.Http.Curl.{Curl}
use iexapitest.Db.Prices.Ledgers.{Ledger, add_price-Runs, enter, entered}
use iexapitest.Db.Market.{Market, Stores}
use iexapitest.Controller.Updates.Market.{enter_prices, record_all, record_info}
use iexapitest.Db.Companies.Records.{Registry, register, table_of}
use iexapitest.Db.Companies.{add_company, companies_table, get_row_id}
use iexapitest.Db.Companies.Storing.{add_company-Ends, added}
use iexapitest.Db.Companies.Finding.{get_row_id-Ends}
use iexapitest.Db.Prices.{add_price}
use iexapitest.Db.Companies.RoundTrip.{company_after, find_company-after}
use iexapitest.Db.Sqlite.Reading.{is_literal}
use iexapitest.Controller.Updates.Worlds.{
  Goes, Goes-on_config, Goes-on_database, Goes-pure, Goes-then,
}

module _ {T : PropertyTree} {P : Posix} {Float : Type 0} (C : Curl) (J : JsonFiles T P)
    (L : Integers) (F : Lexical Float) where
  -- Each symbol is answered by the info beside it, whose symbol SQLite reads as a text, and the
  -- configuration stays.
  pub data Fetched (c : Config T P) : List Text → List (CompanyInfo Float) → Type 0 where
    fetched_none : Fetched c [] []
    fetched_one :
        (symbol : Text) (symbols : List Text) (info : CompanyInfo Float)
        (infos : List (CompanyInfo Float))
        → get_http_company_info C J L F symbol [] [] c ≡ (ok info, c)
        → is_literal info.short_name ≡ true
        → Fetched c symbols infos
        → Fetched c (symbol ∷ symbols) (info ∷ infos)

module _ {T : PropertyTree} {P : Posix} {Float : Type 0} (C : Curl) (J : JsonFiles T P)
    (L : Integers) (F : Lexical Float) (S : Sqlite) (law : IsDocumented S)
    (widen : Float → S.Real) where
  open S use {Real, Database}

  add_prices-Runs :
      (company : ℤ) (prices : List (Price Float)) (r : Registry) (l : Ledger Real) (t : Tables Real)
      → Stores Real t (record { registry = r; ledger = l })
      → (u : Tables Real) × Runs S law t (add_prices C J L F S widen company prices) (ok tt) u
        × Stores Real u
            (record { registry = r; ledger = enter_prices law.gap widen company prices l })
  unfolding add_prices enter_prices text_eq
  add_prices-Runs company [] r l t stored = (t, Runs-pure S law t tt, stored)
  add_prices-Runs company (p ∷ prices) r l t (companies, here) =
      let v = entered Real company (widen p.price) p.date_timestamp l t in
      let (u, ran, after) =
        add_prices-Runs company prices r (enter Real company (widen p.price) p.date_timestamp l) v
          (companies, refl) in
      (
        u,
        Runs-then S law (add_price S company (widen p.price) p.date_timestamp)
            (λ x. add_prices C J L F S widen company prices) tt (ok tt) t v u
            (add_price-Runs S law company (widen p.price) p.date_timestamp l t here) ran,
        after,
      )

  pub update_symbol-Goes :
      (symbol : Text) (info : CompanyInfo Float) (c : Config T P) (m : Market Real)
      (t : Tables Real)
      → get_http_company_info C J L F symbol [] [] c ≡ (ok info, c)
      → is_literal info.short_name ≡ true
      → Stores Real t m
      → (u : Tables Real) × Goes S law c t (update_symbol C J L F S widen symbol) (ok tt) u
        × Stores Real u (record_info law.gap widen info m)
  unfolding update_symbol record_info text_eq
  update_symbol-Goes symbol info c m t answer plain (companies, prices) =
      let uuid = info.short_name in
      let r' = register law.gap uuid info.full_name info.logo m.registry in
      let k = company_after uuid info.full_name info.logo m.registry in
      let v = added Real law.gap uuid info.full_name info.logo m.registry t in
      let there : v companies_table ≡ some (table_of Real r') = refl in
      let (u, ran, after) =
        add_prices-Runs (pos k.id) info.price_list r' m.ledger v (there, prices) in
      let id_read : Runs S law v (get_row_id S uuid) (ok (pos k.id)) v =
        rw (find_company-after law.gap uuid info.full_name info.logo m.registry) at
          (get_row_id-Ends S law uuid r' v plain there) in
      (
        u,
        Goes-then S law (on_config (get_http_company_info C J L F symbol [] [])) _ info (ok tt) c t
            t u (Goes-on_config S law _ (ok info) c t answer)
            (Goes-then S law (on_database (add_company S uuid info.full_name info.logo)) _ tt
              (ok tt) c t v u
              (Goes-on_database S law _ (ok tt) c t v
                (add_company-Ends S law uuid info.full_name info.logo m.registry t companies))
              (Goes-then S law (on_database (get_row_id S uuid)) _ (pos k.id) (ok tt) c v v u
                (Goes-on_database S law _ (ok (pos k.id)) c v v id_read)
                (Goes-on_database S law _ (ok tt) c v u ran))),
        after,
      )

  pub update_all-Goes :
      (c : Config T P) (symbols : List Text) (infos : List (CompanyInfo Float)) (m : Market Real)
      (t : Tables Real)
      → Fetched C J L F c symbols infos
      → Stores Real t m
      → (u : Tables Real) × Goes S law c t (update_all C J L F S widen symbols) (ok tt) u
        × Stores Real u (record_all law.gap widen infos m)
  unfolding update_all record_all
  update_all-Goes c _ _ m t fetched_none stored = (t, Goes-pure S law c t tt, stored)
  update_all-Goes c _ _ m t (fetched_one symbol symbols info infos answer plain rest) stored =
      let (v, first, between) = update_symbol-Goes symbol info c m t answer plain stored in
      let (u, next, after) =
        update_all-Goes c symbols infos (record_info law.gap widen info m) v rest between in
      (
        u,
        Goes-then S law (update_symbol C J L F S widen symbol)
            (λ x. update_all C J L F S widen symbols) tt (ok tt) c t v u first next,
        after,
      )
