-- ===== src/Config/Daemon/Filling.antt =====
-- A tree in which each path of a list has the value it had, or else its default.
use native.Mathlib.Omega.{arith}
use iexapitest.Base.{
  Bool, Bool-cases, Text, TextMap, [], and_true, ap, arith, false, inl, inr, lookup, not,
  not_eq_true, refl, some, sym, text_eq, text_eq_iff, true, ◌&&◌, ◌∙◌, ◌∷◌, ◌≡◌,
}
use iexapitest.Config.PropertyTree.{
  IsLawfulTree, PropertyTree, is_above, is_plain, items_at, segments,
}
use iexapitest.Config.Store.{value_or}

-- Both paths are plain, and neither is the other or leads to a tree above it.
abbrev pub are_apart : Text → Text → Bool
are_apart p q =
    (is_plain p && is_plain q)
    && (not (is_above (segments p) (segments q)) && not (is_above (segments q) (segments p)))

pub are_apart_lem :
    (p q : Text)
    → are_apart p q ≡ true
    → ((is_plain p ≡ true) × (is_plain q ≡ true))
      × (is_above (segments p) (segments q) ≡ false)
      × (is_above (segments q) (segments p) ≡ false)
are_apart_lem p q h =
    let (plain, apart) = and_true (is_plain p && is_plain q) h in
    let (above, below) = and_true (not (is_above (segments p) (segments q))) apart in
    (
      and_true (is_plain p) plain,
      not_eq_true (is_above (segments p) (segments q)) above,
      not_eq_true (is_above (segments q) (segments p)) below,
    )

unfoldable pub is_apart_from : Text → TextMap Text → Bool
is_apart_from p [] = true
is_apart_from p ((q, d) ∷ ds) = are_apart p q && is_apart_from p ds

unfoldable pub are_all_apart : TextMap Text → Bool
unfolding is_apart_from
are_all_apart [] = true
are_all_apart ((p, d) ∷ ds) = is_plain p && (is_apart_from p ds && are_all_apart ds)

module _ (T : PropertyTree) where
  unfoldable pub fill : TextMap Text → T.Tree → T.Tree
  fill [] t = t
  fill ((p, d) ∷ ds) t = fill ds (T.put t p (value_or (T.get t p) d))

  module _ (law : IsLawfulTree T) where
    pub get-fill_ne :
        (ds : TextMap Text) (t : T.Tree) (p : Text)
        → is_apart_from p ds ≡ true
        → T.get (fill ds t) p ≡ T.get t p
    unfolding fill is_apart_from
    get-fill_ne [] t p h = refl
    get-fill_ne ((q, d) ∷ ds) t p h =
        let (apart, rest) = and_true (are_apart p q) h in
        get-fill_ne ds (T.put t q (value_or (T.get t q) d)) p rest
        ∙ law.get-put_ne t p q (value_or (T.get t q) d) (are_apart_lem p q apart).0.0
            (are_apart_lem p q apart).0.1 (are_apart_lem p q apart).1

    pub items-fill_ne :
        (ds : TextMap Text) (t : T.Tree) (p : Text)
        → is_apart_from p ds ≡ true
        → items_at T (T.get_child (fill ds t) p) ≡ items_at T (T.get_child t p)
    unfolding fill is_apart_from
    items-fill_ne [] t p h = refl
    items-fill_ne ((q, d) ∷ ds) t p h =
        let (apart, rest) = and_true (are_apart p q) h in
        items-fill_ne ds (T.put t q (value_or (T.get t q) d)) p rest
        ∙ law.items-put_ne t p q (value_or (T.get t q) d) (are_apart_lem p q apart).0.0
            (are_apart_lem p q apart).0.1 (are_apart_lem p q apart).1

    pub are_apart-lookup :
        (ds : TextMap Text) (p q d : Text)
        → is_apart_from q ds ≡ true
        → lookup p ds ≡ some d
        → are_apart q p ≡ true
    unfolding is_apart_from lookup
    are_apart-lookup [] p q d h found = cc
    are_apart-lookup ((j, e) ∷ ds) p q d h found =
        ground (arith, text_eq_iff j p, are_apart-lookup ds p q d)

    pub get-fill :
        (ds : TextMap Text) (t : T.Tree) (p d : Text)
        → are_all_apart ds ≡ true
        → lookup p ds ≡ some d
        → T.get (fill ds t) p ≡ some (value_or (T.get t p) d)
    unfolding fill are_all_apart lookup
    get-fill [] t p d h found = cc
    get-fill ((q, e') ∷ ds) t p d h found =
        let (plain_q, more) = and_true (is_plain q) h in
        let (apart, rest) = and_true (is_apart_from q ds) more in
        elim (Bool-cases (text_eq q p)) [
          | inl e ↦
              let same : p ≡ q = sym ((text_eq_iff q p).0 e) in
              let same_default : e' ≡ d = grind arith in
              rw same (
                get-fill_ne ds (T.put t q (value_or (T.get t q) e')) q apart
                ∙ law.get-put_self t q (value_or (T.get t q) e') plain_q
                ∙ ap (λ v. some (value_or (T.get t q) v)) same_default)
          | inr e ↦
              let there : lookup p ds ≡ some d = grind arith in
              let (plain, above, below) =
                are_apart_lem q p (are_apart-lookup ds p q d apart there) in
              get-fill ds (T.put t q (value_or (T.get t q) e')) p d rest there
              ∙ ap (λ v. some (value_or v d))
                  (law.get-put_ne t p q (value_or (T.get t q) e') plain.1 plain.0 below)
        ]
