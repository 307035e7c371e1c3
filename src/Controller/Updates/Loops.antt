-- ===== src/Controller/Updates/Loops.antt =====
-- The loop of UpdatePrices: how it ends, and what it has stored by then.
use iexapitest.Base.{
  Bool, Exception, Exec, List, Text, [], err, false, halt, if◌then◌else◌, is_empty, ok, pure, refl,
  subst, suc, sym, terminated, true, uncaught, zero, ℕ, ℤ, ◌++◌, ◌∷◌, ◌≡◌,
}
use iexapitest.Filesystem.Syscalls.{Posix}
use iexapitest.Config.PropertyTree.{Integers, JsonFiles, Lexical, PropertyTree}
use iexapitest.Config.Daemon.{get_iex_update_symbols, get_iex_update_timeout}
use iexapitest.Config.Store.{Config}
use iexapitest.Controller.Updates.{
  World, on_config, update_all, update_loop, update_prices, update_symbol,
}
use iexapitest.Db.Sqlite.{Sqlite}
use iexapitest.Db.Sqlite.Meaning.{Tables}
use iexapitest.Db.Sqlite.Engine.{IsDocumented}
use iexapitest.Rpc.Client.{CompanyInfo, get_http_company_info}
use iexapitest.Http.Curl.{Curl}
use iexapitest.Db.Market.{Market, Stores}
use iexapitest.Controller.Updates.Market.{record_all, record_info, record_rounds}
use iexapitest.Controller.Updates.Worlds.{
  EndsWith, Goes, Goes-on_config, Goes-pure, Goes-then, Goes-throws, WorldAt,
}
use iexapitest.Controller.Updates.Rounds.{
  Fetched, fetched_none, fetched_one, update_all-Goes, update_symbol-Goes,
}

module _ {T : PropertyTree} {P : Posix} {Float : Type 0} (C : Curl) (J : JsonFiles T P)
    (L : Integers) (F : Lexical Float) (S : Sqlite) (law : IsDocumented S)
    (widen : Float → S.Real) where
  open S use {Real, Database}

  -- The reads of stopFlag that give false n times, and then true
  abbrev pub set_after : ℕ → List Bool → List Bool
  set_after zero flags = true ∷ flags
  set_after (suc n) flags = false ∷ set_after n flags

  -- The loop, where stopFlag is found set after n rounds
  update_loop-Goes :
      (n : ℕ) (flags : List Bool) (symbols : List Text) (infos : List (CompanyInfo Float))
      (c : Config T P) (m : Market Real) (t : Tables Real)
      → Fetched C J L F c symbols infos
      → Stores Real t m
      → (u : Tables Real) × Goes S law c t
          (update_loop C J L F S widen symbols (set_after n flags))
          (ok true)
          u
        × Stores Real u (record_rounds law.gap widen n infos m)
  unfolding update_loop record_rounds
  update_loop-Goes zero flags symbols infos c m t fetched stored =
      (t, Goes-pure S law c t true, stored)
  update_loop-Goes (suc n) flags symbols infos c m t fetched stored =
      let (v, first, between) =
        update_all-Goes C J L F S law widen c symbols infos m t fetched stored in
      let (u, next, after) =
        update_loop-Goes n flags symbols infos c (record_all law.gap widen infos m) v fetched
          between in
      (
        u,
        Goes-then S law (update_all C J L F S widen symbols)
            (λ x. update_loop C J L F S widen symbols (set_after n flags)) tt (ok true) c t v u
            first next,
        after,
      )

  -- UpdatePrices over a documented SQLite with no transaction open, where stopFlag is found set
  -- after n rounds, the configuration gives the symbols, each of them is answered by an info, with
  -- a symbol that SQLite reads as a text, and the tables stand for a market: it returns, no
  -- transaction is open, and the tables stand for the market to which the answers were added n
  -- times over, each company once and each price in every round.
  pub update_prices-Ends :
      (n : ℕ) (flags : List Bool) (seconds : ℤ) (symbols : List Text)
      (infos : List (CompanyInfo Float)) (c : Config T P) (m : Market Real) (t : Tables Real)
      (w : World T P S)
      → get_iex_update_timeout J L.int c ≡ (ok seconds, c)
      → get_iex_update_symbols J L.int c ≡ (ok symbols, c)
      → Fetched C J L F c symbols infos
      → Stores Real t m
      → WorldAt S law w c t
      → (u : Tables Real) × EndsWith S law
          (update_prices C J L F S widen (set_after n flags))
          w
          (ok true)
          c
          u
        × Stores Real u (record_rounds law.gap widen n infos m)
  unfolding update_prices record_rounds record_all
  update_prices-Ends n flags seconds symbols infos c m t w configured listed fetched stored at =
      let (u, ran, after) = rounds-Goes symbols infos fetched in
      (
        u,
        Goes-then S law (on_config (get_iex_update_timeout J L.int)) _ seconds (ok true) c t t u
            (Goes-on_config S law _ (ok seconds) c t configured)
            (Goes-then S law (on_config (get_iex_update_symbols J L.int)) _ symbols (ok true) c t t
              u (Goes-on_config S law _ (ok symbols) c t listed) ran)
            w at,
        after,
      )
    where
      nothing_new : (k : ℕ) → record_rounds law.gap widen k [] m ≡ m
      nothing_new zero = refl
      nothing_new (suc k) = nothing_new k

      rounds-Goes :
          (ss : List Text) (is : List (CompanyInfo Float))
          → Fetched C J L F c ss is
          → (u : Tables Real) × Goes S law c t
              (if is_empty ss
                then pure true
                else update_loop C J L F S widen ss (set_after n flags))
              (ok true)
              u
            × Stores Real u (record_rounds law.gap widen n is m)
      rounds-Goes _ _ fetched_none =
          (t, Goes-pure S law c t true, subst (Stores Real t) (sym (nothing_new n)) stored)
      rounds-Goes _ _ (fetched_one s ss i is answer plain rest) =
          update_loop-Goes n flags (s ∷ ss) (i ∷ is) c m t (fetched_one s ss i is answer plain rest)
            stored

  uncaught_throws :
      {A : Type 0} (action : Exec (World T P S) A) (w : World T P S) (x : Exception)
      → (action w).0 ≡ err x
      → (uncaught action w).0 ≡ halt terminated
  uncaught_throws action w x thrown = rw thrown refl

  update_symbol_throws :
      (symbol : Text) (x : Exception) (c : Config T P) (t : Tables Real)
      → get_http_company_info C J L F symbol [] [] c ≡ (err x, c)
      → Goes S law c t (update_symbol C J L F S widen symbol) (err x) t
  unfolding update_symbol
  update_symbol_throws symbol x c t answer =
      Goes-throws S law (on_config (get_http_company_info C J L F symbol [] [])) _ x c t t
        (Goes-on_config S law _ (err x) c t answer)

  update_all_throws :
      (c : Config T P) (before after : List Text) (symbol : Text) (infos : List (CompanyInfo Float))
      (x : Exception) (m : Market Real) (t : Tables Real)
      → Fetched C J L F c before infos
      → get_http_company_info C J L F symbol [] [] c ≡ (err x, c)
      → Stores Real t m
      → (u : Tables Real) × Goes S law c t
          (update_all C J L F S widen (before ++ symbol ∷ after))
          (err x)
          u
        × Stores Real u (record_all law.gap widen infos m)
  unfolding update_all record_all
  update_all_throws c _ after symbol _ x m t fetched_none bad stored = (
    t,
    Goes-throws S law (update_symbol C J L F S widen symbol) (λ y. update_all C J L F S widen after)
        x c t t (update_symbol_throws symbol x c t bad),
    stored,
  )
  update_all_throws c _ after symbol _ x m t (fetched_one s symbols info infos answer plain rest)
        bad stored =
      let (v, first, between) =
        update_symbol-Goes C J L F S law widen s info c m t answer plain stored in
      let (u, next, stored') =
        update_all_throws c symbols after symbol infos x (record_info law.gap widen info m) v rest
          bad between in
      (
        u,
        Goes-then S law (update_symbol C J L F S widen s)
            (λ y. update_all C J L F S widen (symbols ++ symbol ∷ after)) tt (err x) c t v u first
            next,
        stored',
      )

  is_empty-append :
      (before after : List Text) (symbol : Text) → is_empty (before ++ symbol ∷ after) ≡ false
  is_empty-append [] after symbol = refl
  is_empty-append (s ∷ before) after symbol = refl

  -- UpdatePrices over a documented SQLite with no transaction open, where stopFlag is not set at
  -- first, the configuration gives the symbols, and the request for one of them throws, after those
  -- for the symbols in front of it were answered: no handler is in the thread, so the process is
  -- terminated; what came before is stored, and no transaction is open.
  pub update_prices_terminates :
      (before after : List Text) (symbol : Text) (infos : List (CompanyInfo Float)) (x : Exception)
      (flags : List Bool) (seconds : ℤ) (c : Config T P) (m : Market Real) (t : Tables Real)
      (w : World T P S)
      → get_iex_update_timeout J L.int c ≡ (ok seconds, c)
      → get_iex_update_symbols J L.int c ≡ (ok (before ++ symbol ∷ after), c)
      → Fetched C J L F c before infos
      → get_http_company_info C J L F symbol [] [] c ≡ (err x, c)
      → Stores Real t m
      → WorldAt S law w c t
      → (u : Tables Real) × EndsWith S law
          (uncaught (update_prices C J L F S widen (false ∷ flags)))
          w
          (halt terminated)
          c
          u
        × Stores Real u (record_all law.gap widen infos m)
  unfolding update_prices update_loop
  update_prices_terminates before after symbol infos x flags seconds c m t w configured listed
        fetched bad stored at =
      let symbols = before ++ symbol ∷ after in
      let (u, ran, stored') =
        update_all_throws c before after symbol infos x m t fetched bad stored in
      let looped =
        Goes-throws S law (update_all C J L F S widen symbols)
          (λ y. update_loop C J L F S widen symbols flags) x c t u ran in
      let chosen : Goes S law c t
          (if is_empty symbols
            then pure true
            else update_loop C J L F S widen symbols (false ∷ flags))
          (err x) u =
        rw (is_empty-append before after symbol) looped in
      let (thrown, at') =
        Goes-then S law (on_config (get_iex_update_timeout J L.int)) _ seconds (err x) c t t u
          (Goes-on_config S law _ (ok seconds) c t configured)
          (Goes-then S law (on_config (get_iex_update_symbols J L.int)) _ symbols (err x) c t t u
            (Goes-on_config S law _ (ok symbols) c t listed) chosen)
          w at in
      (
        u,
        (uncaught_throws (update_prices C J L F S widen (false ∷ flags)) w x thrown, at'),
        stored',
      )
