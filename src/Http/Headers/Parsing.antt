-- ===== src/Http/Headers/Parsing.antt =====
-- What `ParseResponseHeaders` finds, and that it reads what a server prints.
use iexapitest.Base.{
  FirstAt, Lacks, List, Option, Option-cases, Text, TextMap, [], ap, arith, drop, find, find_lem,
  if◌then◌else◌, inl, inr, length, length-drop-le, lookup, lookup-emplace, none, or_first, refl,
  some, suc, sym, take, text_eq, zero, ℕ, ◌++◌, ◌<◌, ◌==◌, ◌∙◌, ◌∷◌, ◌≡◌, ◌≤◌,
}
use iexapitest.Http.Headers.{
  add_header, getline, header_loop, newline, parse_response_headers, trim,
}

in_front : ℕ → List Text → List Text
in_front c [] = (c ∷ []) ∷ []
in_front c (line ∷ rest) = (c ∷ line) ∷ rest

-- The lines of a text; a newline at the end begins no line.
unfoldable pub lines : Text → List Text
unfolding in_front
lines [] = []
lines (c ∷ s) = if c == newline then [] ∷ lines s else in_front c (lines s)

-- The value that a line gives to a name.
unfoldable pub value_for : Text → Text → Option Text
value_for name line = elim (find b':' line) [
  | none ↦ none
  | some i ↦ if text_eq (trim (take i line)) name then some (trim (drop (suc i) line)) else none
]

-- The value that the first line with the name gives to it.
unfoldable pub first_value : Text → List Text → Option Text
unfolding value_for
first_value name [] = none
first_value name (line ∷ rest) = or_first (value_for name line) (first_value name rest)

or_first_assoc {ℓ} :
    {A : Type ℓ} (a b c : Option A) → or_first (or_first a b) c ≡ or_first a (or_first b c)
or_first_assoc none b c = refl
or_first_assoc (some a) b c = refl

or_first-none {ℓ} : {A : Type ℓ} (a : Option A) → a ≡ or_first a none
or_first-none none = refl
or_first-none (some a) = refl

lookup-add_header :
    (name line : Text) (headers : TextMap Text)
    → lookup name (add_header line headers) ≡ or_first (lookup name headers) (value_for name line)
unfolding add_header value_for
lookup-add_header name line headers = elim (Option-cases (find b':' line)) [
  | inl e ↦ rw (add_header, value_for, e) (or_first-none (lookup name headers))
  | inr (i, e) ↦ rw (add_header, value_for, e) (lookup-emplace name _ _ headers)
]

pub lines-append : (a b : Text) → Lacks newline a → lines (a ++ newline ∷ b) ≡ a ∷ lines b
unfolding lines
lines-append [] b h = refl
lines-append (c ∷ a) b h = rw (lines-append a b h.1) (ground arith)

lines_of_one : (c : ℕ) (a : Text) → Lacks newline (c ∷ a) → lines (c ∷ a) ≡ (c ∷ a) ∷ []
unfolding lines
lines_of_one c [] h = ground arith
lines_of_one c (d ∷ a) h = rw (lines_of_one d a h.1) (ground arith)

-- What `getline` extracts is the first line, and less is left.
GetsLine : Text → Option (Text × Text) → Type 0
GetsLine s none = ⊥
GetsLine s (some (line, rest)) = (lines s ≡ line ∷ lines rest) × (length rest < length s)

getline_lem : (c : ℕ) (s : Text) → GetsLine (c ∷ s) (getline (c ∷ s))
unfolding getline GetsLine lines
getline_lem c s = go (find newline (c ∷ s)) (find_lem newline (c ∷ s))
  where
    go :
        (o : Option ℕ)
        → FirstAt newline (c ∷ s) o
        → GetsLine (c ∷ s) (elim o [
          | none ↦ some (c ∷ s, [])
          | some i ↦ some (take i (c ∷ s), drop (suc i) (c ∷ s))
        ])
    go none lacks = (lines_of_one c s lacks, omega arith)
    go (some i) (whole, lacks) = (
      ap lines (sym whole) ∙ lines-append (take i (c ∷ s)) (drop (suc i) (c ∷ s)) lacks,
      omega (arith, length-drop-le i s),
    )

-- A map that holds the first value of each name, behind what was there.
abbrev pub Reads : TextMap Text → List Text → TextMap Text → Type 0
Reads headers ls h =
    (name : Text) → lookup name h ≡ or_first (lookup name headers) (first_value name ls)

Reads-nil : (headers : TextMap Text) → Reads headers (lines []) headers
unfolding lines first_value
Reads-nil headers name = or_first-none (lookup name headers)

Reads-line :
    (line rest s : Text) (headers h : TextMap Text)
    → lines s ≡ line ∷ lines rest
    → Reads (add_header line headers) (lines rest) h
    → Reads headers (lines s) h
unfolding first_value
Reads-line line rest s headers h e reads name = rw e (
    reads name
    ∙ rw lookup-add_header (
        or_first_assoc (lookup name headers) (value_for name line) (first_value name (lines rest))))

header_loop-Reads :
    (fuel : ℕ) (s : Text) (headers : TextMap Text)
    → length s ≤ fuel
    → (h : TextMap Text) × (header_loop fuel s headers ≡ some h) × Reads headers (lines s) h
unfolding header_loop GetsLine
header_loop-Reads fuel [] headers l = (headers, refl, Reads-nil headers)
header_loop-Reads zero (c ∷ s) headers l = absurd (omega arith)
header_loop-Reads (suc fuel) (c ∷ s) headers l =
    step (getline (c ∷ s)) (getline_lem c s) (λ rest h. header_loop-Reads fuel rest h)
  where
    step :
        (o : Option (Text × Text))
        → GetsLine (c ∷ s) o
        → ((rest : Text) (m : TextMap Text)
            → length rest ≤ fuel
            → (h : TextMap Text) × (header_loop fuel rest m ≡ some h) × Reads m (lines rest) h)
        → (h : TextMap Text) × (elim o [
          | none ↦ some headers
          | some (line, rest) ↦ header_loop fuel rest (add_header line headers)
        ]
            ≡ some h)
          × Reads headers (lines (c ∷ s)) h
    step none g ih = absurd (g)
    step (some (line, rest)) g ih =
        let (h, run, reads) = ih rest (add_header line headers) (omega arith) in
        (h, run, Reads-line line rest (c ∷ s) headers h g.0 reads)

-- `ParseResponseHeaders` reads the whole stream, and afterwards a name has the value that it had
-- before, or else that of the first line that gives it one.
pub parse_response_headers-Reads :
    (stream : Text) (headers : TextMap Text)
    → (h : TextMap Text) × (parse_response_headers stream headers ≡ some h)
      × Reads headers (lines stream) h
unfolding parse_response_headers
parse_response_headers-Reads stream headers =
    header_loop-Reads (length stream) stream headers (omega arith)
