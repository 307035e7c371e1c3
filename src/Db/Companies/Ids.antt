-- ===== src/Db/Companies/Ids.antt =====
-- The ids of a registry rise, so each stands for one company.
use iexapitest.Base.{
  List, Option-cases, Text, [], arith, if◌then◌else◌, inl, inr, none, refl, some, suc, text_eq_iff,
  ℕ, ◌++◌, ◌<◌, ◌==◌, ◌∷◌, ◌≡◌, ◌≤◌,
}
use iexapitest.Db.Ascending.{Ascends, Ascends-append, Ascends-raise}
use iexapitest.Db.Companies.Records.{Company, Registry, find_company, register, unless_found}

-- The ids rise strictly, from above the first bound to the second at most.
abbrev pub Rising : ℕ → List Company → ℕ → Type 0
Rising = Ascends (λ c. c.id)

abbrev pub IsNumbered : Registry → Type 0
IsNumbered r = Rising 0 r.companies r.last_id

pub register-IsNumbered :
    (gap : ℕ → ℕ) (uuid name logo : Text) (r : Registry)
    → ((n : ℕ) → n ≤ gap n)
    → IsNumbered r
    → IsNumbered (register gap uuid name logo r)
unfolding register
register-IsNumbered gap uuid name logo r above h =
    elim (Option-cases (find_company uuid r.companies)) [
      | inl e ↦ rw e (
          Ascends-append (λ c. c.id) 0 r.last_id r.companies
            (record { id = suc r.last_id; uuid = uuid; full_name = name; logo = logo }) h refl)
      | inr (c, e) ↦
          rw e
            (Ascends-raise (λ c. c.id) 0 r.last_id (gap r.last_id) r.companies h (above r.last_id))
    ]

-- The companies with an id
unfoldable pub with_id : ℕ → List Company → List Company
with_id k [] = []
with_id k (c ∷ cs) = let rest = with_id k cs in if c.id == k then c ∷ rest else rest

with_id_below :
    (k low high : ℕ) (cs : List Company) → Rising low cs high → k ≤ low → with_id k cs ≡ []
unfolding with_id
with_id_below k low high [] h le = refl
with_id_below k low high (c ∷ cs) (above, rest) le =
    ground (arith, with_id_below k c.id high cs rest)

find_company-above :
    (uuid : Text) (low high : ℕ) (cs : List Company) (c : Company)
    → Rising low cs high
    → find_company uuid cs ≡ some c
    → low < c.id
unfolding find_company
find_company-above uuid low high [] c h e = cc
find_company-above uuid low high (x ∷ cs) c (above, rest) e =
    ground (arith, find_company-above uuid x.id high cs c rest)

pub with_id-find_company :
    (uuid : Text) (low high : ℕ) (cs : List Company) (c : Company)
    → Rising low cs high
    → find_company uuid cs ≡ some c
    → with_id c.id cs ≡ c ∷ []
unfolding find_company with_id
with_id-find_company uuid low high [] c h e = cc
with_id-find_company uuid low high (x ∷ cs) c (above, rest) e = ground (
  arith,
  with_id-find_company uuid x.id high cs c rest,
  find_company-above uuid x.id high cs c rest,
  with_id_below x.id x.id high cs rest,
)

pub find_company-uuid :
    (uuid : Text) (cs : List Company) (c : Company) → find_company uuid cs ≡ some c → c.uuid ≡ uuid
unfolding find_company
find_company-uuid uuid [] c e = cc
find_company-uuid uuid (x ∷ cs) c e =
    ground (arith, text_eq_iff x.uuid uuid, find_company-uuid uuid cs c)

find_company-append :
    (uuid : Text) (cs : List Company) (c : Company)
    → find_company uuid cs ≡ none
    → c.uuid ≡ uuid
    → find_company uuid (cs ++ c ∷ []) ≡ some c
unfolding find_company
find_company-append uuid [] c h e = ground (arith, text_eq_iff c.uuid uuid)
find_company-append uuid (x ∷ cs) c h e = ground (arith, find_company-append uuid cs c)

-- A company that is registered is found: the one that was there, or else the new one.
pub find_company-register :
    (gap : ℕ → ℕ) (uuid name logo : Text) (r : Registry)
    → find_company uuid (register gap uuid name logo r).companies
      ≡ unless_found
          (find_company uuid r.companies)
          (some (record { id = suc r.last_id; uuid = uuid; full_name = name; logo = logo }))
          (find_company uuid r.companies)
unfolding register
find_company-register gap uuid name logo r = elim (Option-cases (find_company uuid r.companies)) [
  | inl e ↦ rw e (
      find_company-append uuid r.companies
        (record { id = suc r.last_id; uuid = uuid; full_name = name; logo = logo }) e refl)
  | inr (c, e) ↦ rw e e
]
