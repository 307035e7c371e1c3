-- ===== src/Base/Texts.antt =====
-- Texts as lists of byte values: std::string's searches, its comparison, and decimal printing.
use Prim.Native.Char.{code}
use Prim.Native.String.{String}
use Prim.Native.Nat.{ℕ, zero, suc, ◌+◌, ◌/◌, ◌%◌}
use mathlib.Core.Path.{◌≡◌, refl, ap}
use mathlib.Core.Logic.{◌↔◌, ◌≢◌}
use mathlib.Core.Bool.{Bool, true, false, ◌&&◌}
use mathlib.Core.Option.{Option, none, some}
use mathlib.Core.List.{List, [], ◌∷◌, ◌++◌}
use native.Mathlib.Omega.{arith}
use iexapitest.Base.Tests.{if◌then◌else◌, ltb, ◌==◌}
use iexapitest.Base.Lists.{All, drop, length, take}

abbrev pub Text : Type 0
Text = List ℕ

-- The bytes of an ASCII literal.
abbrev pub codes : String → Text
codes String.[] = []
codes (String.◌∷◌ c s) = code c ∷ codes s

abbrev pub is_empty {ℓ} : {A : Type ℓ} → List A → Bool
is_empty [] = true
is_empty (x ∷ xs) = false

-- `operator==` of std::string
unfoldable pub text_eq : Text → Text → Bool
text_eq [] [] = true
text_eq [] (y ∷ ys) = false
text_eq (x ∷ xs) [] = false
text_eq (x ∷ xs) (y ∷ ys) = x == y && text_eq xs ys

-- `operator<` of std::string
unfoldable pub text_lt : Text → Text → Bool
text_lt [] [] = false
text_lt [] (y ∷ ys) = true
text_lt (x ∷ xs) [] = false
text_lt (x ∷ xs) (y ∷ ys) = if x == y then text_lt xs ys else ltb x y

pub text_eq_iff : (s t : Text) → (text_eq s t ≡ true) ↔ (s ≡ t)
unfolding text_eq
text_eq_iff [] [] = ground arith
text_eq_iff [] (y ∷ ys) = ground arith
text_eq_iff (x ∷ xs) [] = ground arith
text_eq_iff (x ∷ xs) (y ∷ ys) = ground (arith, text_eq_iff xs ys)

pub text_eq_refl : (s : Text) → text_eq s s ≡ true
text_eq_refl s = (text_eq_iff s s).1 refl

-- `find(c)`: the index of the first occurrence; `none` is npos.
unfoldable pub find : ℕ → Text → Option ℕ
find c [] = none
find c (x ∷ xs) =
    if x == c then some 0 else elim (find c xs) [ none ↦ none | some i ↦ some (suc i) ]

-- `find_last_of(c)`
unfoldable pub find_last : ℕ → Text → Option ℕ
find_last c [] = none
find_last c (x ∷ xs) = elim (find_last c xs) [
  | some i ↦ some (suc i)
  | none ↦ if x == c then some 0 else none
]

abbrev pub Lacks : ℕ → Text → Type 0
Lacks b = All (λ c. c ≢ b)

-- What the result of a search says of the text.
abbrev pub FirstAt : ℕ → Text → Option ℕ → Type 0
FirstAt c s none = Lacks c s
FirstAt c s (some i) = (take i s ++ c ∷ drop (suc i) s ≡ s) × Lacks c (take i s)

abbrev pub LastAt : ℕ → Text → Option ℕ → Type 0
LastAt c s none = Lacks c s
LastAt c s (some i) = (take i s ++ c ∷ drop (suc i) s ≡ s) × Lacks c (drop (suc i) s)

pub find_lem : (c : ℕ) (s : Text) → FirstAt c s (find c s)
unfolding find
find_lem c [] = tt
find_lem c (x ∷ xs) = go (find c xs) (find_lem c xs)
  where
    go :
        (o : Option ℕ)
        → FirstAt c xs o
        → FirstAt c
            (x ∷ xs)
            (if x == c then some 0 else elim o [ none ↦ none | some i ↦ some (suc i) ])
    go (some i) (e, l) = ground (arith, ap (◌∷◌ x) e)
    go none l = ground arith

pub find_last_lem : (c : ℕ) (s : Text) → LastAt c s (find_last c s)
unfolding find_last
find_last_lem c [] = tt
find_last_lem c (x ∷ xs) = go (find_last c xs) (find_last_lem c xs)
  where
    go :
        (o : Option ℕ)
        → LastAt c xs o
        → LastAt c
            (x ∷ xs)
            (elim o [ some i ↦ some (suc i) | none ↦ if x == c then some 0 else none ])
    go (some i) (e, l) = (ap (λ t. x ∷ t) e, l)
    go none l = ground arith

-- The first occurrence in a text that is cut before one.
pub find-append : (c : ℕ) (s t : Text) → Lacks c s → find c (s ++ c ∷ t) ≡ some (length s)
unfolding find
find-append c [] t h = ground arith
find-append c (x ∷ s) t h = ground (arith, find-append c s t h.1)

pub find-eq-none : (c : ℕ) (s : Text) → Lacks c s → find c s ≡ none
unfolding find
find-eq-none c [] h = refl
find-eq-none c (x ∷ s) h = ground (arith, find-eq-none c s h.1)

decimal_digits : ℕ → ℕ → Text → Text
decimal_digits zero n acc = acc
decimal_digits (suc fuel) n acc =
    let rest = decimal_digits fuel (n / 10) ((48 + n % 10) ∷ acc) in
    if ltb n 10 then (48 + n) ∷ acc else rest

-- `std::to_string` of a number that is not negative
unfoldable pub to_decimal : ℕ → Text
unfolding decimal_digits
to_decimal n = decimal_digits (suc n) n []

-- The last occurrence in a text with one and none after it.
pub find_last-append : (c : ℕ) (s t : Text) → Lacks c t → find_last c (s ++ c ∷ t) ≡ some (length s)
unfolding find_last
find_last-append c [] t h = ground (arith, find_last-eq-none c t h)
  where
    find_last-eq-none : (c : ℕ) (t : Text) → Lacks c t → find_last c t ≡ none
    find_last-eq-none c [] h = refl
    find_last-eq-none c (x ∷ t) h = ground (arith, find_last-eq-none c t h.1)
find_last-append c (x ∷ s) t h = ground (arith, find_last-append c s t h)
