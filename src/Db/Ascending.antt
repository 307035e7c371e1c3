-- ===== src/Db/Ascending.antt =====
-- Lists whose numbers rise strictly.
use iexapitest.Base.{List, [], arith, suc, ℕ, ◌++◌, ◌<◌, ◌∷◌, ◌≡◌, ◌≤◌}

module _ {ℓ} {A : Type ℓ} where
  -- The numbers rise strictly, from above the first bound to the second at most.
  abbrev pub Ascends : (A → ℕ) → ℕ → List A → ℕ → Type 0
  Ascends f low [] high = low ≤ high
  Ascends f low (x ∷ xs) high = (low < f x) × Ascends f (f x) xs high

  pub Ascends-append :
      (f : A → ℕ) (low high : ℕ) (xs : List A) (x : A)
      → Ascends f low xs high
      → f x ≡ suc high
      → Ascends f low (xs ++ x ∷ []) (suc high)
  Ascends-append f low high [] x h e = omega arith
  Ascends-append f low high (y ∷ xs) x (above, rest) e =
      (above, Ascends-append f (f y) high xs x rest e)

  -- The lower bound can go down.
  pub Ascends-weaken :
      (f : A → ℕ) (low low' high : ℕ) (xs : List A)
      → Ascends f low' xs high
      → low ≤ low'
      → Ascends f low xs high
  Ascends-weaken f low low' high [] h le = omega arith
  Ascends-weaken f low low' high (x ∷ xs) (above, rest) le = (omega arith, rest)

  -- The upper bound can go up.
  pub Ascends-raise :
      (f : A → ℕ) (low high high' : ℕ) (xs : List A)
      → Ascends f low xs high
      → high ≤ high'
      → Ascends f low xs high'
  Ascends-raise f low high high' [] h le = omega arith
  Ascends-raise f low high high' (x ∷ xs) (above, rest) le =
      (above, Ascends-raise f (f x) high high' xs rest le)
