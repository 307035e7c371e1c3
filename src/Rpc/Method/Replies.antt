-- ===== src/Rpc/Method/Replies.antt =====
-- What a client reads in the reply of the method.
use iexapitest.Base.{
  Bool, Exception, Exec, List, Option, Result, Text, [], ap, append-nil, append_assoc, codes, false,
  inl, inr, map, map-append, none, not, ok, refl, some, sym, text_eq, true, ◌&&◌, ◌++◌, ◌==◌, ◌∙◌,
  ◌∷◌, ◌≡◌, ◌⊎◌,
}
use iexapitest.Config.PropertyTree.{Lexical, PropertyTree, items_at, value_at}
use iexapitest.Rpc.Client.{CompanyInfo, Price}
use iexapitest.Rpc.Method.{
  GetCompanyRequest, GetCompanyResponse, Serving, Status, cancelled, company_tree,
  get_company_info_method, if_initialized, ok_status, prices_tree, reply_tree,
}
use iexapitest.Db.Sqlite.Runs.{outcome_of}

-- A path of one element
unfoldable pub is_key : Text → Bool
is_key [] = false
is_key (c ∷ []) = not (c == b'.')
is_key (c ∷ d ∷ s) = not (c == b'.') && is_key (d ∷ s)

-- What boost documents of a tree that is built from an empty one: `put` makes a child that is not
-- there, or with the empty path sets the data of the tree itself; `add_child` and `push_back` put a
-- child behind those that are there; the path of a single key leads to the first child of that key.
pub record IsBuildable (T : PropertyTree) : Type 0 where
  pub items_empty : T.items T.empty ≡ []
  pub child_empty : (k : Text) → is_key k ≡ true → T.get_child T.empty k ≡ none
  pub items-push_back :
      (t : T.Tree) (k : Text) (x : T.Tree) → T.items (T.push_back t k x) ≡ T.items t ++ (k, x) ∷ []
  pub value-put_here : (t : T.Tree) (v : Text) → T.value (T.put t [] v) ≡ v
  pub value-put_self :
      (t : T.Tree) (k v : Text)
      → is_key k ≡ true
      → value_at T (T.get_child (T.put t k v) k) ≡ some v
  pub child-put_ne :
      (t : T.Tree) (j k v : Text)
      → is_key j ≡ true
      → is_key k ≡ true
      → text_eq k j ≡ false
      → T.get_child (T.put t k v) j ≡ T.get_child t j
  pub child-add_child_self :
      (t : T.Tree) (k : Text) (x : T.Tree)
      → is_key k ≡ true
      → T.get_child t k ≡ none
      → T.get_child (T.add_child t k x) k ≡ some x
  pub child-add_child_ne :
      (t : T.Tree) (j k : Text) (x : T.Tree)
      → is_key j ≡ true
      → is_key k ≡ true
      → text_eq k j ≡ false
      → T.get_child (T.add_child t k x) j ≡ T.get_child t j

-- What is read of a company: its name, its logo and its prices
abbrev pub Read : Type 0
Read = Option Text × Option Text × List Text

module _ (T : PropertyTree) where
  abbrev pub read_company : T.Tree → Read
  read_company t = (
    value_at T (T.get_child t (codes "name")),
    value_at T (T.get_child t (codes "logo")),
    map (λ x. T.value x.1) (items_at T (T.get_child t (codes "prices"))),
  )

  -- The elements of an array, in their order
  abbrev pub read_reply : T.Tree → List Read
  read_reply t = map (λ x. read_company x.1) (T.items t)

module _ (T : PropertyTree) (law : IsBuildable T) {Float : Type 0} (F : Lexical Float) where
  abbrev pub shown : CompanyInfo Float → Read
  shown info = (some info.full_name, some info.logo, map (λ p. F.show p.price) info.price_list)

  prices_tree-read :
      (prices : List (Price Float)) (t : T.Tree)
      → map (λ x. T.value x.1) (T.items (prices_tree T F prices t))
        ≡ map (λ x. T.value x.1) (T.items t) ++ map (λ p. F.show p.price) prices
  unfolding prices_tree
  prices_tree-read [] t = sym (append-nil _)
  prices_tree-read (p ∷ prices) t =
      let x = T.put T.empty [] (F.show p.price) in
      prices_tree-read prices (T.push_back t [] x)
      ∙ rw
          (
            law.items-push_back t [] x,
            map-append (λ (y : Text × T.Tree). T.value y.1) (T.items t) (([], x) ∷ []),
            law.value-put_here T.empty (F.show p.price),
          )
          (append_assoc (map (λ (y : Text × T.Tree). T.value y.1) (T.items t)) (F.show p.price ∷ [])
            (map (λ p'. F.show p'.price) prices))

  company_tree-read :
      (info : CompanyInfo Float) → read_company T (company_tree T F info) ≡ shown info
  unfolding company_tree is_key text_eq
  company_tree-read info =
      let named = T.put T.empty (codes "name") info.full_name in
      let t = T.put named (codes "logo") info.logo in
      let prices = prices_tree T F info.price_list T.empty in
      rw
        (
          law.child-add_child_ne t (codes "name") (codes "prices") prices refl refl refl,
          law.child-add_child_ne t (codes "logo") (codes "prices") prices refl refl refl,
          law.child-put_ne named (codes "name") (codes "logo") info.logo refl refl refl,
          law.value-put_self T.empty (codes "name") info.full_name refl,
          law.value-put_self named (codes "logo") info.logo refl,
          law.child-add_child_self t (codes "prices") prices refl (
              law.child-put_ne named (codes "prices") (codes "logo") info.logo refl refl refl
              ∙ law.child-put_ne T.empty (codes "prices") (codes "name") info.full_name refl refl
                  refl
              ∙ law.child_empty (codes "prices") refl),
          prices_tree-read info.price_list T.empty,
          law.items_empty,
        )
        refl

  reply_tree-read :
      (infos : List (CompanyInfo Float)) (t : T.Tree)
      → read_reply T (reply_tree T F infos t) ≡ read_reply T t ++ map shown infos
  unfolding reply_tree
  reply_tree-read [] t = sym (append-nil _)
  reply_tree-read (info ∷ infos) t =
      reply_tree-read infos (T.push_back t [] (company_tree T F info))
      ∙ rw
          (
            law.items-push_back t [] (company_tree T F info),
            map-append (λ (x : Text × T.Tree). read_company T x.1) (T.items t)
                (([], company_tree T F info) ∷ []),
            company_tree-read info,
          )
          (append_assoc (read_reply T t) (shown info ∷ []) (map shown infos))

  -- What the method makes of what its handler did: the status, and the response
  abbrev pub Replied :
      Exception ⊎ List (CompanyInfo Float)
      → GetCompanyResponse
      → Result Status
      → GetCompanyResponse
      → Type 0
  Replied (inl x) old r new = (r ≡ ok cancelled) × (new ≡ old)
  Replied (inr infos) old r new =
      (r ≡ ok ok_status)
      × (t : T.Tree) × (new ≡ record { json_data = some (T.print_json t) })
      × (read_reply T t ≡ map shown infos)

  -- The method over any handler that returns or throws, and property trees that are built as boost
  -- documents it: if the handler throws, the status is CANCELLED and the response is as before; if
  -- it returns infos, the status is OK, and the response is the JSON of a tree in which, in the
  -- same order, the name, the logo and all prices of each info are read. The state is as that one
  -- call of the handler left it.
  pub get_company_info_method-Replied :
      {W : Type 0} (handler : List Text → Text → Text → Exec W (List (CompanyInfo Float)))
      (request : GetCompanyRequest) (s : Serving W) (w : W)
      (outcome : Exception ⊎ List (CompanyInfo Float))
      → handler request.company
          (if_initialized request.time_limit request.time_limit.time_frame)
          (if_initialized request.time_limit request.time_limit.date)
          s.handler_state
        ≡ (outcome_of outcome, w)
      → let (r, s') = get_company_info_method T F handler request s in
        Replied outcome s.response r s'.response × (s'.handler_state ≡ w)
  unfolding get_company_info_method
  get_company_info_method-Replied handler request s w (inl x) called =
      rw called ((refl, refl), refl)
  get_company_info_method-Replied handler request s w (inr infos) called = rw called (
    (
      refl,
      reply_tree T F infos T.empty,
      refl,
      reply_tree-read infos T.empty
          ∙ ap (λ xs. map (λ (x : Text × T.Tree). read_company T x.1) xs ++ map shown infos)
              law.items_empty,
    ),
    refl,
  )
