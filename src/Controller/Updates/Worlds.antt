-- ===== src/Controller/Updates/Worlds.antt =====
-- Actions on the configuration and a documented SQLite, from tables with no transaction open.
use iexapitest.Base.{Exception, Exec, Result, ap, err, ok, pure, refl, ◌>>=◌, ◌∙◌, ◌≡◌}
use iexapitest.Filesystem.Syscalls.{Posix}
use iexapitest.Config.PropertyTree.{PropertyTree}
use iexapitest.Config.Store.{Config}
use iexapitest.Controller.Updates.{World, on_config, on_database}
use iexapitest.Db.Sqlite.{Sqlite}
use iexapitest.Db.Sqlite.Meaning.{Tables}
use iexapitest.Db.Sqlite.Engine.{IsDocumented}
use iexapitest.Db.Sqlite.Runs.{IsAt, Runs}

module _ {T : PropertyTree} {P : Posix} (S : Sqlite) (law : IsDocumented S) where
  open S use {Real, Database}

  -- The configuration, and tables with no transaction open
  abbrev pub WorldAt : World T P S → Config T P → Tables Real → Type 0
  WorldAt w c t = (w.cfg ≡ c) × IsAt S law w.database t

  -- The action, started in the world, ends with the result, the configuration and the tables.
  abbrev pub EndsWith :
      {A : Type 0}
      → Exec (World T P S) A
      → World T P S
      → Result A
      → Config T P
      → Tables Real
      → Type 0
  EndsWith m w r c u = ((m w).0 ≡ r) × WorldAt (m w).1 c u

  -- From every world with the configuration and the tables t
  abbrev pub Goes :
      {A : Type 0}
      → Config T P
      → Tables Real
      → Exec (World T P S) A
      → Result A
      → Tables Real
      → Type 0
  Goes c t m r u = (w : World T P S) → WorldAt w c t → EndsWith m w r c u

  pub Goes-pure :
      {A : Type 0} (c : Config T P) (t : Tables Real) (a : A) → Goes c t (pure a) (ok a) t
  Goes-pure c t a w at = (refl, at)

  pub Goes-then :
      {A B : Type 0} (m : Exec (World T P S) A) (f : A → Exec (World T P S) B) (a : A)
      (r : Result B) (c : Config T P) (t u v : Tables Real)
      → Goes c t m (ok a) u
      → Goes c u (f a) r v
      → Goes c t (m >>= f) r v
  Goes-then m f a r c t u v first next w at =
      let (done', at') = first w at in let rest = next (m w).1 at' in rw done' rest

  pub Goes-throws :
      {A B : Type 0} (m : Exec (World T P S) A) (f : A → Exec (World T P S) B) (x : Exception)
      (c : Config T P) (t u : Tables Real)
      → Goes c t m (err x) u
      → Goes c t (m >>= f) (err x) u
  Goes-throws m f x c t u first w at = let (done', at') = first w at in rw done' (refl, at')

  pub Goes-on_database :
      {A : Type 0} (m : Exec Database A) (r : Result A) (c : Config T P) (t u : Tables Real)
      → Runs S law t m r u
      → Goes c t (on_database m) r u
  unfolding on_database
  Goes-on_database m r c t u ran w (same, at) =
      let (done', at') = ran w.database at in (done', (same, at'))

  pub Goes-on_config :
      {A : Type 0} (m : Exec (Config T P) A) (r : Result A) (c : Config T P) (t : Tables Real)
      → m c ≡ (r, c)
      → Goes c t (on_config m) r t
  unfolding on_config
  Goes-on_config m r c t e w (same, at) =
      (ap (λ x. (m x).0) same ∙ ap (λ x. x.0) e, (ap (λ x. (m x).1) same ∙ ap (λ x. x.1) e, at))
