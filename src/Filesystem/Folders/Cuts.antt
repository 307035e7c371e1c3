-- ===== src/Filesystem/Folders/Cuts.antt =====
-- How the path of `CreateFolder` is cut at its slashes.
use iexapitest.Base.{
  FirstAt, Lacks, Option, Text, [], append_assoc, arith, drop, find, find_lem, inl, inr, length,
  length-drop-le, none, refl, some, suc, sym, take, ℕ, ◌++◌, ◌<◌, ◌∙◌, ◌∷◌, ◌≡◌, ◌≢◌, ◌⊎◌,
}
use iexapitest.Filesystem.{cut_part, slash}

-- The text ends in a byte that is no slash.
abbrev pub EndsPlain : Text → Type 0
EndsPlain [] = ⊥
EndsPlain (c ∷ []) = c ≢ slash
EndsPlain (c ∷ d ∷ t) = EndsPlain (d ∷ t)

pub EndsPlain-append : (a b : Text) → EndsPlain (a ++ slash ∷ b) → EndsPlain b
EndsPlain-append [] [] h = absurd (h refl)
EndsPlain-append [] (d ∷ t) h = h
EndsPlain-append (c ∷ []) b h = EndsPlain-append [] b h
EndsPlain-append (c ∷ d ∷ a) b h = EndsPlain-append (d ∷ a) b h

pub Lacks-slash-append : (a b : Text) → ¬ Lacks slash (a ++ slash ∷ b)
Lacks-slash-append [] b h = h.0 refl
Lacks-slash-append (c ∷ a) b h = Lacks-slash-append a b h.1

-- A slash of the text `a / b` is the one behind `a`, or stands in `b`.
pub slash_cases :
    (a b p q : Text)
    → Lacks slash a
    → a ++ slash ∷ b ≡ p ++ slash ∷ q
    → (p ≡ a) ⊎ ((p' : Text) × (p ≡ a ++ slash ∷ p') × (b ≡ p' ++ slash ∷ q))
slash_cases [] b [] q h e = inl refl
slash_cases [] b (x ∷ p) q h e = inr (p, cc, cc)
slash_cases (c ∷ a) b [] q h e = absurd (h.0 (cc))
slash_cases (c ∷ a) b (x ∷ p) q h e = elim (slash_cases a b p q h.1 (cc)) [
  | inl same ↦ inl (cc)
  | inr (p', front, back) ↦ inr (p', cc, back)
]

pub nil-ne-append : (p q : Text) → [] ≢ p ++ slash ∷ q
nil-ne-append [] q e = cc
nil-ne-append (c ∷ p) q e = cc

pub append-ne-nil : (a b : Text) → EndsPlain b → a ++ b ≢ []
append-ne-nil [] [] h e = h
append-ne-nil [] (c ∷ b) h e = cc
append-ne-nil (c ∷ a) b h e = cc

pub snoc-ne-nil : (a b : Text) → a ++ slash ∷ [] ++ b ≢ []
snoc-ne-nil [] b e = cc
snoc-ne-nil (c ∷ a) b e = cc

-- How a text that is not empty is cut at its first slash.
unfoldable pub CutAt : Text → Text × Text → Type 0
CutAt text (part, rest) =
    (((text ≡ part) × (rest ≡ [])) ⊎ (text ≡ part ++ slash ∷ rest))
    × Lacks slash part
    × (length rest < length text)

pub cut_part_lem : (c : ℕ) (t : Text) → CutAt (c ∷ t) (cut_part (c ∷ t))
unfolding CutAt cut_part
cut_part_lem c t = go (find slash (c ∷ t)) (find_lem slash (c ∷ t))
  where
    go :
        (o : Option ℕ)
        → FirstAt slash (c ∷ t) o
        → CutAt
            (c ∷ t)
            (elim o [ some pos ↦ (take pos (c ∷ t), drop (suc pos) (c ∷ t)) | none ↦ (c ∷ t, []) ])
    go none lacks = (inl (refl, refl), lacks, omega arith)
    go (some i) (whole, lacks) = (inr (sym whole), lacks, omega (arith, length-drop-le i t))

cut-ne-nil : (next part rest : Text) → CutAt next (part, rest) → next ≢ []
unfolding CutAt
cut-ne-nil [] part rest (_, _, h) = absurd (omega (arith, h))
cut-ne-nil (c ∷ next) part rest cut = λ e. cc

pub regroup :
    (created part p : Text) → (created ++ part ++ slash ∷ []) ++ p ≡ created ++ (part ++ slash ∷ p)
regroup created part p = simp append_assoc

-- The path is `created` with all of `next`, or with what is in front of one of its slashes.
abbrev pub StopsIn : Text → Text → Text → Type 0
StopsIn created next p =
    (next ≢ [])
    × ((part : Text) × (p ≡ created ++ part)
        × ((next ≡ part) ⊎ ((q : Text) × (next ≡ part ++ slash ∷ q))))

pub StopsIn-part :
    (created next part rest : Text)
    → CutAt next (part, rest)
    → StopsIn created next (created ++ part)
unfolding CutAt
StopsIn-part created next part rest (inl (same, h), ls, lt) =
    (cut-ne-nil next part rest (inl (same, h), ls, lt), (part, refl, inl same))
StopsIn-part created next part rest (inr cut, ls, lt) =
    (cut-ne-nil next part rest (inr cut, ls, lt), (part, refl, inr (rest, cut)))

pub StopsIn-cut :
    (created next part rest p : Text)
    → CutAt next (part, rest)
    → StopsIn (created ++ part ++ slash ∷ []) rest p
    → StopsIn created next p
unfolding CutAt
StopsIn-cut created next part rest p (inl (same, nothing), ls, lt) (more, _) = absurd (more nothing)
StopsIn-cut created next part rest p (inr cut, ls, lt) (more, (below, at, inl all)) = (
  cut-ne-nil next part rest (inr cut, ls, lt),
  (part ++ slash ∷ below, at ∙ regroup created part below, inl (rw (cut, all) refl)),
)
StopsIn-cut created next part rest p (inr cut, ls, lt) (more, (below, at, inr (q, front))) = (
  cut-ne-nil next part rest (inr cut, ls, lt),
  (
    part ++ slash ∷ below,
    at ∙ regroup created part below,
    inr (q, rw (cut, front) (sym (append_assoc part (slash ∷ below) (slash ∷ q)))),
  ),
)

pub StopsIn-root : (dir p : Text) → StopsIn (slash ∷ []) dir p → StopsIn [] (slash ∷ dir) p
StopsIn-root dir p (more, (part, at, inl all)) = (λ e. cc, (slash ∷ part, at, inl (cc)))
StopsIn-root dir p (more, (part, at, inr (q, front))) = (λ e. cc, (slash ∷ part, at, inr (q, cc)))
