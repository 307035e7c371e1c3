-- ===== src/Http/Headers/Trim.antt =====
-- What `Trim` cuts off.
use iexapitest.Base.{
  All, Option, Text, [], ap, append-nil, arith, drop, false, if◌then◌else◌, inl, inr, none, refl,
  some, subst, suc, sym, take, take-append-drop, true, ℕ, ◌++◌, ◌∙◌, ◌∷◌, ◌≡◌, ◌≢◌, ◌⊎◌,
}
use iexapitest.Http.Headers.{
  erase_back, erase_front, find_first_not_blank, find_last_not_blank, is_blank, trim,
}

abbrev pub AllBlank : Text → Type 0
AllBlank = All (λ c. is_blank c ≡ true)

-- Neither the first nor the last character is blank.
abbrev pub FirstPlain : Text → Type 0
FirstPlain [] = Unit
FirstPlain (c ∷ s) = is_blank c ≡ false

abbrev pub LastPlain : Text → Type 0
LastPlain [] = Unit
LastPlain (c ∷ []) = is_blank c ≡ false
LastPlain (c ∷ d ∷ s) = LastPlain (d ∷ s)

abbrev FirstNot : Text → Option ℕ → Type 0
FirstNot s none = AllBlank s
FirstNot s (some i) = AllBlank (take i s) × FirstPlain (drop i s)

abbrev LastNot : Text → Option ℕ → Type 0
LastNot s none = AllBlank s
LastNot s (some i) = AllBlank (drop (suc i) s) × LastPlain (take (suc i) s)

find_first_not_blank_lem : (s : Text) → FirstNot s (find_first_not_blank s)
unfolding find_first_not_blank
find_first_not_blank_lem [] = tt
find_first_not_blank_lem (c ∷ s) = go (find_first_not_blank s) (find_first_not_blank_lem s)
  where
    go :
        (o : Option ℕ)
        → FirstNot s o
        → FirstNot
            (c ∷ s)
            (if is_blank c then elim o [ none ↦ none | some i ↦ some (suc i) ] else some 0)
    go none h = ground arith
    go (some i) h = ground arith

LastPlain-cons :
    (c : ℕ) (i : ℕ) (s : Text)
    → LastPlain (take (suc i) s)
    → is_blank c ≡ false ⊎ (s ≢ [])
    → LastPlain (c ∷ take (suc i) s)
LastPlain-cons c i [] h (inl e) = e
LastPlain-cons c i [] h (inr n) = absurd (n refl)
LastPlain-cons c i (x ∷ s) h o = h

find_last_not_blank_nil : (i : ℕ) (s : Text) → find_last_not_blank s ≡ some i → s ≢ []
unfolding find_last_not_blank
find_last_not_blank_nil i [] e = cc
find_last_not_blank_nil i (x ∷ s) e = λ h. cc

find_last_not_blank_lem : (s : Text) → LastNot s (find_last_not_blank s)
unfolding find_last_not_blank
find_last_not_blank_lem [] = tt
find_last_not_blank_lem (c ∷ s) = go (find_last_not_blank s) refl (find_last_not_blank_lem s)
  where
    go :
        (o : Option ℕ)
        → find_last_not_blank s ≡ o
        → LastNot s o
        → LastNot
            (c ∷ s)
            (elim o [ some i ↦ some (suc i) | none ↦ if is_blank c then none else some 0 ])
    go none e h = ground arith
    go (some i) e h = (h.0, LastPlain-cons c i s h.1 (inr (find_last_not_blank_nil i s e)))

blank_plain-eq_nil : (s : Text) → AllBlank s → FirstPlain s → s ≡ []
blank_plain-eq_nil [] h p = refl
blank_plain-eq_nil (c ∷ s) h p = cc

FirstPlain-take : (i : ℕ) (s : Text) → FirstPlain s → FirstPlain (take (suc i) s)
FirstPlain-take i [] h = h
FirstPlain-take i (c ∷ s) h = h

-- A text cut into a blank front, a middle, and a blank back.
abbrev pub Trimmed : Text → Text → Type 0
Trimmed str t =
    (l r : Text) × AllBlank l × AllBlank r × (str ≡ l ++ (t ++ r)) × FirstPlain t × LastPlain t

erase_back_lem :
    (l rest : Text) (o : Option ℕ)
    → AllBlank l
    → FirstPlain rest
    → LastNot rest o
    → Trimmed (l ++ rest) (erase_back o rest)
unfolding erase_back
erase_back_lem l rest none hl p h = rw (blank_plain-eq_nil rest h p) (l, [], hl, tt, refl, tt, tt)
erase_back_lem l rest (some i) hl p h = (
  l,
  drop (suc i) rest,
  hl,
  h.0,
  ap (◌++◌ l) (sym (take-append-drop (suc i) rest)),
  FirstPlain-take i rest p,
  h.1,
)

pub trim_lem : (str : Text) → Trimmed str (trim str)
unfolding trim
trim_lem str = go (find_first_not_blank str) (find_first_not_blank_lem str)
  where
    go :
        (o : Option ℕ)
        → FirstNot str o
        → Trimmed str (erase_back (find_last_not_blank (erase_front o str)) (erase_front o str))
    go none h = (str, [], h, tt, sym (append-nil str), tt, tt)
    go (some i) h = rw (take-append-drop i str) at (
        erase_back_lem (take i str) (drop i str) (find_last_not_blank (drop i str)) h.0 h.1
          (find_last_not_blank_lem (drop i str)))

LastPlain-tail : (c : ℕ) (s : Text) → LastPlain (c ∷ s) → LastPlain s
LastPlain-tail c [] h = tt
LastPlain-tail c (d ∷ s) h = h

blank_last-ne : (c : ℕ) (s r : Text) → AllBlank (c ∷ s ++ r) → ¬ LastPlain (c ∷ s)
blank_last-ne c [] r h p = cc
blank_last-ne c (d ∷ s) r h p = blank_last-ne d s r h.1 p

same_back :
    (t r t' r' : Text)
    → AllBlank r
    → AllBlank r'
    → LastPlain t
    → LastPlain t'
    → t ++ r ≡ t' ++ r'
    → t ≡ t'
same_back [] r [] r' hr hr' p p' e = refl
same_back [] r (c ∷ t') r' hr hr' p p' e = absurd (blank_last-ne c t' r' (subst AllBlank e hr) p')
same_back (c ∷ t) r [] r' hr hr' p p' e =
    absurd (blank_last-ne c t r (subst AllBlank (sym e) hr') p)
same_back (c ∷ t) r (d ∷ t') r' hr hr' p p' e =
    cc (same_back t r t' r' hr hr' (LastPlain-tail c t p) (LastPlain-tail d t' p') (cc))

AllBlank-tail : (l s : Text) → AllBlank (l ++ s) → AllBlank s
AllBlank-tail [] s h = h
AllBlank-tail (c ∷ l) s h = AllBlank-tail l s h.1

blank_middle : (l t r : Text) → AllBlank (l ++ (t ++ r)) → LastPlain t → t ≡ []
blank_middle l [] r h p = refl
blank_middle l (c ∷ t) r h p = absurd (blank_last-ne c t r (AllBlank-tail l (c ∷ t ++ r) h) p)

-- A front that goes on where the other middle begins: all of the text is blank.
blank_front :
    (t r : Text) (c : ℕ) (s : Text)
    → FirstPlain t
    → AllBlank r
    → is_blank c ≡ true
    → t ++ r ≡ c ∷ s
    → (t ≡ []) × AllBlank (c ∷ s)
blank_front [] r c s p h b e = (refl, subst AllBlank e h)
blank_front (x ∷ t) r c s p h b e = cc

same_middle :
    (l t r l' t' r' : Text)
    → AllBlank l
    → AllBlank r
    → AllBlank l'
    → AllBlank r'
    → FirstPlain t
    → LastPlain t
    → FirstPlain t'
    → LastPlain t'
    → l ++ (t ++ r) ≡ l' ++ (t' ++ r')
    → t ≡ t'
same_middle [] t r [] t' r' hl hr hl' hr' f p f' p' e = same_back t r t' r' hr hr' p p' e
same_middle [] t r (c ∷ l') t' r' hl hr hl' hr' f p f' p' e =
    let (n, all) = blank_front t r c (l' ++ (t' ++ r')) f hr hl'.0 e in
    n ∙ sym (blank_middle (c ∷ l') t' r' all p')
same_middle (c ∷ l) t r [] t' r' hl hr hl' hr' f p f' p' e =
    let (n, all) = blank_front t' r' c (l ++ (t ++ r)) f' hr' hl.0 (sym e) in
    blank_middle (c ∷ l) t r all p ∙ sym n
same_middle (c ∷ l) t r (d ∷ l') t' r' hl hr hl' hr' f p f' p' e =
    same_middle l t r l' t' r' hl.1 hr hl'.1 hr' f p f' p' (cc)

pub Trimmed-unique : (str t t' : Text) → Trimmed str t → Trimmed str t' → t ≡ t'
Trimmed-unique str t t' (l, r, hl, hr, e, f, p) (l', r', hl', hr', e', f', p') =
    same_middle l t r l' t' r' hl hr hl' hr' f p f' p' (sym e ∙ e')

-- `Trim` cuts blanks off both ends of a text and nothing else: what it returns is empty or begins
-- and ends with a character that is not blank, and it is the only text of which that is so.
pub trim-Trimmed :
    (str : Text) → Trimmed str (trim str) × ((t : Text) → Trimmed str t → trim str ≡ t)
trim-Trimmed str = (trim_lem str, λ t h. Trimmed-unique str (trim str) t (trim_lem str) h)

pub trim-trim : (str : Text) → trim (trim str) ≡ trim str
trim-trim str =
    let (l, r, hl, hr, e, f, p) = trim_lem str in
    (trim-Trimmed (trim str)).1 (trim str) ([], [], tt, tt, sym (append-nil (trim str)), f, p)
