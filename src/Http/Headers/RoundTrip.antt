-- ===== src/Http/Headers/RoundTrip.antt =====
-- A response head, as a server prints it, is read back.
use iexapitest.Base.{
  All-append, Lacks, Text, TextMap, [], append-nil, append_assoc, arith, codes, drop-append_cons,
  find, find-append, find-eq-none, if◌then◌else◌, lookup, none, refl, some, sym, take-append,
  text_eq, ◌++◌, ◌∙◌, ◌∷◌, ◌≡◌, ◌≢◌,
}
use iexapitest.Http.Headers.{is_blank, newline, parse_response_headers, trim}
use iexapitest.Http.Headers.Trim.{FirstPlain, LastPlain, trim-Trimmed}
use iexapitest.Http.Headers.Parsing.{
  first_value, lines, lines-append, parse_response_headers-Reads, value_for,
}

-- `name: value` and the end of the line
pub print_header : Text → Text → Text
print_header name value = name ++ codes ": " ++ value ++ 13 ∷ newline ∷ []

pub print_headers : TextMap Text → Text
unfolding print_header
print_headers [] = []
print_headers ((name, value) ∷ headers) = print_header name value ++ print_headers headers

-- Names and values that a header line can carry.
abbrev pub IsPrintable : TextMap Text → Type 0
IsPrintable [] = Unit
IsPrintable ((name, value) ∷ headers) =
    (Lacks b':' name × Lacks newline name × FirstPlain name × LastPlain name)
    × (Lacks newline value × FirstPlain value × LastPlain value)
    × IsPrintable headers

-- The line of a header, without its newline.
line_of : Text → Text → Text
line_of name value = name ++ b':' ∷ (b' ' ∷ value ++ 13 ∷ [])

trim_plain : (t : Text) → FirstPlain t → LastPlain t → trim t ≡ t
trim_plain t f p = (trim-Trimmed t).1 t ([], [], tt, tt, sym (append-nil t), f, p)

trim_value : (v : Text) → FirstPlain v → LastPlain v → trim (b' ' ∷ v ++ 13 ∷ []) ≡ v
unfolding is_blank
trim_value v f p =
    (trim-Trimmed (b' ' ∷ v ++ 13 ∷ [])).1 v
      (b' ' ∷ [], 13 ∷ [], (refl, tt), (refl, tt), refl, f, p)

value_for-line_of :
    (j name value : Text)
    → Lacks b':' name
    → FirstPlain name
    → LastPlain name
    → FirstPlain value
    → LastPlain value
    → value_for j (line_of name value) ≡ (if text_eq name j then some value else none)
unfolding line_of value_for
value_for-line_of j name value h f p f' p' = rw (
  value_for,
  find-append b':' name (b' ' ∷ value ++ 13 ∷ []) h,
  take-append name (b':' ∷ b' ' ∷ value ++ 13 ∷ []),
  drop-append_cons name b':' (b' ' ∷ value ++ 13 ∷ []),
  trim_plain name f p,
  trim_value value f' p',
)

Lacks-line_of :
    (name value : Text)
    → Lacks newline name
    → Lacks newline value
    → Lacks newline (line_of name value)
unfolding line_of
Lacks-line_of name value h h' =
    All-append (λ c. c ≢ newline) name _ h
      (
        omega arith,
        (omega arith, All-append (λ c. c ≢ newline) value (13 ∷ []) h' (omega arith, tt)),
      )

print_header-line_of :
    (name value rest : Text)
    → print_header name value ++ rest ≡ line_of name value ++ newline ∷ rest
unfolding print_header line_of
print_header-line_of name value rest = simp append_assoc

no_header : (j : Text) → first_value j (lines (13 ∷ newline ∷ [])) ≡ none
unfolding first_value lines find
no_header j = refl

first_value-print_headers :
    (j : Text) (headers : TextMap Text)
    → IsPrintable headers
    → first_value j (lines (print_headers headers ++ 13 ∷ newline ∷ [])) ≡ lookup j headers
unfolding print_headers first_value lookup
first_value-print_headers j [] h = no_header j
first_value-print_headers j ((name, value) ∷ headers) (n, v, h) =
    rw
      (
        append_assoc,
        print_header-line_of name value (print_headers headers ++ 13 ∷ newline ∷ []),
        lines-append (line_of name value) (print_headers headers ++ 13 ∷ newline ∷ [])
            (Lacks-line_of name value n.1 v.0),
        first_value,
        value_for-line_of j name value n.0 n.2 n.3 v.1 v.2,
        first_value-print_headers j headers h,
      )
      (ground arith)

first_value-status_line :
    (j status_line rest : Text)
    → Lacks newline status_line
    → Lacks b':' status_line
    → first_value j (lines (status_line ++ newline ∷ rest)) ≡ first_value j (lines rest)
unfolding first_value value_for
first_value-status_line j status_line rest h k =
    rw (lines-append status_line rest h, first_value, value_for, find-eq-none b':' status_line k)

-- A head of a status line, printable headers and an empty line is read to its end, and gives each
-- name the value that the printed headers give it.
pub parse_response_headers-print_headers :
    (status_line : Text) (headers : TextMap Text)
    → Lacks newline status_line
    → Lacks b':' status_line
    → IsPrintable headers
    → (h : TextMap Text) × (parse_response_headers
          (status_line ++ newline ∷ (print_headers headers ++ 13 ∷ newline ∷ []))
          []
        ≡ some h)
      × ((name : Text) → lookup name h ≡ lookup name headers)
unfolding lookup
parse_response_headers-print_headers status_line headers n k p =
    let (h, run, reads) =
      parse_response_headers-Reads
        (status_line ++ newline ∷ (print_headers headers ++ 13 ∷ newline ∷ [])) [] in
    (
      h,
      run,
      λ name.
          reads name
          ∙ first_value-status_line name status_line _ n k
          ∙ first_value-print_headers name headers p,
    )
