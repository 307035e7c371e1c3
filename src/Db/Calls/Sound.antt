-- ===== src/Db/Calls/Sound.antt =====
-- What the calls keep true of the companies and prices: each id and each uuid is one company's.
use iexapitest.Base.{
  Bool-cases, List, Option-cases, Text, [], arith, false, inl, inr, none, refl, text_eq,
  text_eq_iff, ℕ, ℤ, ◌++◌, ◌∷◌, ◌≡◌, ◌≤◌,
}
use iexapitest.Db.Companies.Records.{Company, Registry, find_company, register}
use iexapitest.Db.Ascending.{Ascends, Ascends-append, Ascends-weaken}
use iexapitest.Db.Calls.{
  DbCall, adds_company, adds_price, removes_company, removes_prices, sets_logo,
}
use iexapitest.Db.Prices.Ledgers.{Entry, enter, forget}
use iexapitest.Db.Companies.Ids.{IsNumbered, register-IsNumbered}
use iexapitest.Db.Market.{Market}
use iexapitest.Db.Calls.Abstract.{apply_call}
use iexapitest.Db.Companies.Changes.{has_id, relabel, strike}
use iexapitest.Db.Sqlite.Meaning.{int_eq}

-- No company has the uuid of one before it.
abbrev pub Distinct : List Company → Type 0
Distinct [] = Unit {0}
Distinct (c ∷ cs) = (find_company c.uuid cs ≡ none) × Distinct cs

find_company-none-append :
    (uuid : Text) (cs : List Company) (c : Company)
    → find_company uuid cs ≡ none
    → text_eq c.uuid uuid ≡ false
    → find_company uuid (cs ++ c ∷ []) ≡ none
unfolding find_company
find_company-none-append uuid [] c h e = rw e refl
find_company-none-append uuid (x ∷ cs) c h e = ground (arith, find_company-none-append uuid cs c)

-- A uuid that no company has is not that of the first one either.
absent-differs :
    (uuid : Text) (x : Company) (cs : List Company)
    → find_company uuid (x ∷ cs) ≡ none
    → (text_eq uuid x.uuid ≡ false) × (find_company uuid cs ≡ none)
unfolding find_company
absent-differs uuid x cs h = ground (arith, text_eq_iff x.uuid uuid, text_eq_iff uuid x.uuid)

absent-cons :
    (uuid : Text) (x : Company) (cs : List Company)
    → text_eq uuid x.uuid ≡ false
    → find_company uuid cs ≡ none
    → find_company uuid (x ∷ cs) ≡ none
unfolding find_company
absent-cons uuid x cs other h = ground (arith, text_eq_iff x.uuid uuid, text_eq_iff uuid x.uuid)

Distinct-append :
    (cs : List Company) (c : Company)
    → Distinct cs
    → find_company c.uuid cs ≡ none
    → Distinct (cs ++ c ∷ [])
unfolding find_company
Distinct-append [] c h e = (refl, tt)
Distinct-append (x ∷ cs) c (once, rest) e =
    let (other, missing) = absent-differs c.uuid x cs e in
    (find_company-none-append x.uuid cs c once other, Distinct-append cs c rest missing)

register-Distinct :
    (gap : ℕ → ℕ) (uuid name logo : Text) (r : Registry)
    → Distinct r.companies
    → Distinct (register gap uuid name logo r).companies
unfolding register
register-Distinct gap uuid name logo r h = elim (Option-cases (find_company uuid r.companies)) [
  | inl e ↦ rw e (Distinct-append r.companies _ h e)
  | inr (c, e) ↦ rw e h
]

find_company-relabel :
    (uuid : Text) (row_id : ℤ) (link : Text) (cs : List Company)
    → find_company uuid cs ≡ none
    → find_company uuid (relabel row_id link cs) ≡ none
unfolding relabel
find_company-relabel uuid row_id link [] h = h
find_company-relabel uuid row_id link (c ∷ cs) h =
    let (other, missing) = absent-differs uuid c cs h in
    let rest = find_company-relabel uuid row_id link cs missing in
    elim (Bool-cases (has_id row_id c)) [
      | inl e ↦
          rw e (absent-cons uuid (record c { logo = link }) (relabel row_id link cs) other rest)
      | inr e ↦ rw e (absent-cons uuid c (relabel row_id link cs) other rest)
    ]

relabel-Distinct :
    (row_id : ℤ) (link : Text) (cs : List Company) → Distinct cs → Distinct (relabel row_id link cs)
unfolding relabel
relabel-Distinct row_id link [] h = h
relabel-Distinct row_id link (c ∷ cs) (once, rest) = elim (Bool-cases (has_id row_id c)) [
  | inl e ↦
      rw e (find_company-relabel c.uuid row_id link cs once, relabel-Distinct row_id link cs rest)
  | inr e ↦
      rw e (find_company-relabel c.uuid row_id link cs once, relabel-Distinct row_id link cs rest)
]

relabel-Ascends :
    (row_id : ℤ) (link : Text) (low high : ℕ) (cs : List Company)
    → Ascends (λ c. c.id) low cs high
    → Ascends (λ c. c.id) low (relabel row_id link cs) high
unfolding relabel
relabel-Ascends row_id link low high [] h = h
relabel-Ascends row_id link low high (c ∷ cs) (above, rest) = elim (Bool-cases (has_id row_id c)) [
  | inl e ↦ rw e (above, relabel-Ascends row_id link c.id high cs rest)
  | inr e ↦ rw e (above, relabel-Ascends row_id link c.id high cs rest)
]

find_company-strike :
    (uuid : Text) (row_id : ℤ) (cs : List Company)
    → find_company uuid cs ≡ none
    → find_company uuid (strike row_id cs) ≡ none
unfolding strike
find_company-strike uuid row_id [] h = h
find_company-strike uuid row_id (c ∷ cs) h =
    let (other, missing) = absent-differs uuid c cs h in
    let rest = find_company-strike uuid row_id cs missing in
    elim (Bool-cases (has_id row_id c)) [
      | inl e ↦ rw e rest
      | inr e ↦ rw e (absent-cons uuid c (strike row_id cs) other rest)
    ]

strike-Distinct : (row_id : ℤ) (cs : List Company) → Distinct cs → Distinct (strike row_id cs)
unfolding strike
strike-Distinct row_id [] h = h
strike-Distinct row_id (c ∷ cs) (once, rest) = elim (Bool-cases (has_id row_id c)) [
  | inl e ↦ rw e (strike-Distinct row_id cs rest)
  | inr e ↦ rw e (find_company-strike c.uuid row_id cs once, strike-Distinct row_id cs rest)
]

strike-Ascends :
    (row_id : ℤ) (low high : ℕ) (cs : List Company)
    → Ascends (λ c. c.id) low cs high
    → Ascends (λ c. c.id) low (strike row_id cs) high
unfolding strike
strike-Ascends row_id low high [] h = h
strike-Ascends row_id low high (c ∷ cs) (above, rest) = elim (Bool-cases (has_id row_id c)) [
  | inl e ↦ rw e (
      strike-Ascends row_id low high cs
        (Ascends-weaken (λ c. c.id) low c.id high cs rest (omega arith)))
  | inr e ↦ rw e (above, strike-Ascends row_id c.id high cs rest)
]

module _ {Real : Type 0} where
  -- The ids of companies and of prices rise to the last one given out, and no uuid is there twice.
  abbrev pub IsSound : Market Real → Type 0
  IsSound m =
      IsNumbered m.registry
      × Distinct m.registry.companies
      × Ascends (λ e. e.id) 0 m.ledger.entries m.ledger.last_id

  forget-Ascends :
      (company : ℤ) (low high : ℕ) (es : List (Entry Real))
      → Ascends (λ e. e.id) low es high
      → Ascends (λ e. e.id) low (forget Real company es) high
  unfolding forget
  forget-Ascends company low high [] h = h
  forget-Ascends company low high (e ∷ es) (above, rest) =
      elim (Bool-cases (int_eq e.company company)) [
        | inl same ↦ rw same (
            forget-Ascends company low high es
              (Ascends-weaken (λ e. e.id) low e.id high es rest (omega arith)))
        | inr other ↦ rw other (above, forget-Ascends company e.id high es rest)
      ]

  pub apply_call-IsSound :
      (gap : ℕ → ℕ) (call : DbCall Real) (m : Market Real)
      → ((n : ℕ) → n ≤ gap n)
      → IsSound m
      → IsSound (apply_call gap call m)
  unfolding apply_call enter
  apply_call-IsSound gap (adds_company uuid name logo) m above (numbered, distinct, prices) = (
    register-IsNumbered gap uuid name logo m.registry above numbered,
    register-Distinct gap uuid name logo m.registry distinct,
    prices,
  )
  apply_call-IsSound gap (sets_logo row_id link) m above (numbered, distinct, prices) = (
    relabel-Ascends row_id link 0 m.registry.last_id m.registry.companies numbered,
    relabel-Distinct row_id link m.registry.companies distinct,
    prices,
  )
  apply_call-IsSound gap (removes_company row_id) m above (numbered, distinct, prices) = (
    strike-Ascends row_id 0 m.registry.last_id m.registry.companies numbered,
    strike-Distinct row_id m.registry.companies distinct,
    prices,
  )
  apply_call-IsSound gap (adds_price company price timestamp) m above (numbered, distinct, prices) =
      (
        numbered,
        distinct,
        Ascends-append (λ e. e.id) 0 m.ledger.last_id m.ledger.entries _ prices refl,
      )
  apply_call-IsSound gap (removes_prices company) m above (numbered, distinct, prices) =
      (numbered, distinct, forget-Ascends company 0 m.ledger.last_id m.ledger.entries prices)
