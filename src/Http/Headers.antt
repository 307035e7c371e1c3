-- ===== src/Http/Headers.antt =====
-- http_transaction.cpp: `Trim` and `ParseResponseHeaders`.
pub mod Trim
pub mod Parsing
pub mod RoundTrip
use iexapitest.Base.{
  Bool, Option, Text, TextMap, [], drop, emplace, find, if◌then◌else◌, length, none, some, suc,
  take, zero, ℕ, ◌==◌, ◌||◌, ◌∷◌,
}

-- a character of " \r"
unfoldable pub is_blank : ℕ → Bool
is_blank c = c == b' ' || c == 13

-- `find_first_not_of(" \r")`
find_first_not_blank : Text → Option ℕ
find_first_not_blank [] = none
find_first_not_blank (c ∷ s) =
    if is_blank c
    then elim (find_first_not_blank s) [ none ↦ none | some i ↦ some (suc i) ]
    else some 0

-- `find_last_not_of(" \r")`
find_last_not_blank : Text → Option ℕ
find_last_not_blank [] = none
find_last_not_blank (c ∷ s) = elim (find_last_not_blank s) [
  | some i ↦ some (suc i)
  | none ↦ if is_blank c then none else some 0
]

-- `erase(0, pos)`, of everything where pos is npos
erase_front : Option ℕ → Text → Text
erase_front none s = []
erase_front (some pos) s = drop pos s

-- `erase(end_pos + 1)`, unless end_pos is npos
erase_back : Option ℕ → Text → Text
erase_back none s = s
erase_back (some end_pos) s = take (suc end_pos) s

unfoldable pub trim : Text → Text
unfolding is_blank find_first_not_blank find_last_not_blank erase_front erase_back
trim str =
    let rest = erase_front (find_first_not_blank str) str in
    erase_back (find_last_not_blank rest) rest

abbrev pub newline : ℕ
newline = 10

-- `std::getline`: the text in front of the first newline, and what is behind it. It fails where
-- nothing is left to extract.
getline : Text → Option (Text × Text)
getline [] = none
getline (c ∷ s) = elim (find newline (c ∷ s)) [
  | none ↦ some (c ∷ s, [])
  | some i ↦ some (take i (c ∷ s), drop (suc i) (c ∷ s))
]

-- The body of the loop: a line without a colon is passed over.
add_header : Text → TextMap Text → TextMap Text
add_header line headers = elim (find b':' line) [
  | none ↦ headers
  | some delimiter_index ↦
      emplace (trim (take delimiter_index line)) (trim (drop (suc delimiter_index) line)) headers
]

-- The loop, with fuel; `none` means that the fuel ran out.
header_loop : ℕ → Text → TextMap Text → Option (TextMap Text)
header_loop fuel [] headers = some headers
header_loop zero (c ∷ s) headers = none
header_loop (suc fuel) (c ∷ s) headers = elim (getline (c ∷ s)) [
  | none ↦ some headers
  | some (line, rest) ↦ header_loop fuel rest (add_header line headers)
]

unfoldable pub parse_response_headers : Text → TextMap Text → Option (TextMap Text)
unfolding header_loop getline add_header trim
parse_response_headers stream headers = header_loop (length stream) stream headers
