-- ===== src/Rpc/Client/Pages.antt =====
-- What is in a page of the IEX service, and how the actions that read it end.
use iexapitest.Base.{
  Exception, Exec, Option, Text, [], codes, err, false, is_http, lift, none, ok, refl, some, ◌>>=◌,
  ◌∷◌, ◌≡◌,
}
use iexapitest.Filesystem.Syscalls.{Posix}
use iexapitest.Http.Curl.{Curl}
use iexapitest.Config.PropertyTree.{Integers, JsonFiles, Lexical, PropertyTree}
use iexapitest.Config.Store.{Config, bad_path}
use iexapitest.Rpc.Client.{
  CompanyInfo, bad_data, cast_text, get_text, json_parser_error, parse_company_info, read_json,
}

module _ {A B : Type 0} where
  abbrev pub and_some : Option A → (A → Option B) → Option B
  and_some none f = none
  and_some (some a) f = f a

-- An action that leaves the object alone and returns what is there, or throws no HTTPException where
-- nothing is.
module _ {S A : Type 0} where
  abbrev pub Gives : S → Option A → Exec S A → Type 0
  Gives s none m = (e : Exception) × (m s ≡ (err e, s)) × (is_http e ≡ false)
  Gives s (some a) m = m s ≡ (ok a, s)

  Gives-or :
      (s : S) (o : Option A) (x : Exception)
      → is_http x ≡ false
      → Gives s o (lift (elim o [ none ↦ err x | some a ↦ ok a ]))
  Gives-or s none x other = (x, refl, other)
  Gives-or s (some a) x other = refl

module _ {S A B : Type 0} where
  pub Gives-then :
      (s : S) (o : Option A) (m : Exec S A) (f : A → Option B) (g : A → Exec S B)
      → Gives s o m
      → ((a : A) → Gives s (f a) (g a))
      → Gives s (and_some o f) (m >>= g)
  Gives-then s none m f g (e, fails, other) next = (e, rw fails refl, other)
  Gives-then s (some a) m f g e next = go (f a) (next a)
    where
      go : (o : Option B) → Gives s o (g a) → Gives s o (m >>= g)
      go none (x, fails, other) = (x, rw e fails, other)
      go (some b) e' = rw e e'

module _ {T : PropertyTree} {P : Posix} {Float : Type 0} (C : Curl) (J : JsonFiles T P)
    (L : Integers) (F : Lexical Float) where
  -- The info in a page, without a logo
  unfoldable pub quote_of : Text → Option (CompanyInfo Float)
  quote_of page = and_some (T.parse_json page) λ pt.
      and_some (T.get pt (codes "companyName")) λ full_name.
        and_some (T.get pt (codes "symbol")) λ short_name.
          and_some (T.get pt (codes "latestPrice")) λ latest_price.
            and_some (F.read latest_price) λ price.
              and_some (T.get pt (codes "latestUpdate")) λ latest_update.
                and_some (L.int64.read latest_update) λ timestamp. some (record {
                  short_name = short_name;
                  full_name = full_name;
                  logo = [];
                  price_list =
                      record {
                        price = price;
                        date_timestamp = timestamp;
                        date_string = latest_update;
                      }
                      ∷ [];
                })

  -- The link in a page
  unfoldable pub link_of : Text → Option Text
  link_of page = and_some (T.parse_json page) (λ pt. T.get pt (codes "url"))

  pub get_text-Gives :
      (s : Config T P) (pt : T.Tree) (path : Text)
      → Gives s (T.get pt path) (lift (get_text C J L F pt path))
  unfolding get_text
  get_text-Gives s pt path = Gives-or s (T.get pt path) (bad_path path) refl

  cast_text-Gives :
      {A : Type 0} (K : Lexical A) (s : Config T P) (text : Text)
      → Gives s (K.read text) (lift (cast_text C J L F K text))
  unfolding cast_text
  cast_text-Gives K s text = Gives-or s (K.read text) bad_data refl

  pub read_json-Gives :
      (s : Config T P) (page : Text) → Gives s (T.parse_json page) (lift (read_json C J L F page))
  unfolding read_json
  read_json-Gives s page = Gives-or s (T.parse_json page) json_parser_error refl

  pub parse_company_info-Gives :
      (s : Config T P) (page : Text) → Gives s (quote_of page) (parse_company_info C J L F page)
  unfolding quote_of parse_company_info
  parse_company_info-Gives s page = Gives-then s _ _ _ _ (read_json-Gives s page) λ pt.
      Gives-then s _ _ _ _ (get_text-Gives s pt (codes "companyName")) λ full_name.
        Gives-then s _ _ _ _ (get_text-Gives s pt (codes "symbol")) λ short_name.
          Gives-then s _ _ _ _ (get_text-Gives s pt (codes "latestPrice")) λ latest_price.
            Gives-then s _ _ _ _ (cast_text-Gives F s latest_price) λ price.
              Gives-then s _ _ _ _ (get_text-Gives s pt (codes "latestUpdate")) λ latest_update.
                Gives-then s _ _ _ _ (cast_text-Gives L.int64 s latest_update) λ timestamp. refl
