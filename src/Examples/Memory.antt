-- ===== src/Examples/Memory.antt =====
-- An SQLite that is documented: the engine of tables itself, with a reader of the program's texts.
use iexapitest.Base.{
  Option, Text, [], and_true, ap, arith, codes, if◌then◌else◌, lookup, negsuc, none, pos, refl,
  some, suc, text_eq, true, ℕ, ℤ, ◌++◌, ◌==◌, ◌∙◌, ◌∷◌, ◌≡◌,
}
use iexapitest.Db.Sqlite.Runs.{IsAt, idle}
use iexapitest.Db.Sqlite.{Sqlite, Value, integer, text}
use iexapitest.Db.Sqlite.Meaning.{
  Query, Tables, is_null_value, malformed, meaning, preparing, select, select_exists,
}
use iexapitest.Db.Sqlite.Reading.{
  Reads, at_uuid, fixed_queries, is_literal, lacks_quote, reads_fixed, reads_id, reads_present,
}
use iexapitest.Db.Sqlite.Engine.{
  IsDocumented, Snapshot, begin_snapshot, commit_snapshot, has_table, on_tables, rollback_snapshot,
}

-- What is behind a prefix
strip : Text → Text → Option Text
strip [] s = some s
strip (c ∷ p) [] = none
strip (c ∷ p) (d ∷ s) = let rest = strip p s in if c == d then rest else none

-- The text in front of the first double quote
word : Text → Text
word [] = []
word (c ∷ s) = let rest = word s in if c == b'"' then [] else c ∷ rest

abbrev id_prefix : Text
id_prefix = codes "SELECT id FROM companies WHERE uuid = \""

abbrev present_prefix : Text
present_prefix = codes "SELECT EXISTS(SELECT 1 FROM companies WHERE uuid = \""

abbrev or_present : Option Text → Query ℕ
or_present none = malformed
or_present (some rest) = select_exists (codes "companies") (at_uuid ℕ (word rest))

abbrev or_id : Option Text → Text → Query ℕ
or_id none cmd = or_present (strip present_prefix cmd)
or_id (some rest) cmd = select (codes "id") (codes "companies") (at_uuid ℕ (word rest))

abbrev or_quoted : Option (Query ℕ) → Text → Query ℕ
or_quoted none cmd = or_id (strip id_prefix cmd) cmd
or_quoted (some q) cmd = q

unfoldable pub query_of : Text → Query ℕ
unfolding strip word
query_of cmd = or_quoted (lookup cmd (fixed_queries ℕ)) cmd

word-append : (s rest : Text) → lacks_quote s ≡ true → word (s ++ b'"' ∷ rest) ≡ s
unfolding word lacks_quote
word-append [] rest h = refl
word-append (c ∷ s) rest h = ground (arith, word-append s rest)

literal_lacks_quote : (s : Text) → is_literal s ≡ true → lacks_quote s ≡ true
unfolding is_literal
literal_lacks_quote s h = (and_true (lacks_quote s) h).0

query_of-id :
    (uuid : Text)
    → query_of (id_prefix ++ (uuid ++ codes "\" "))
      ≡ select (codes "id") (codes "companies") (at_uuid ℕ (word (uuid ++ codes "\" ")))
unfolding query_of lookup text_eq strip
query_of-id uuid = refl

query_of-present :
    (uuid : Text)
    → query_of (present_prefix ++ (uuid ++ codes "\" LIMIT 1)"))
      ≡ select_exists (codes "companies") (at_uuid ℕ (word (uuid ++ codes "\" LIMIT 1)")))
unfolding query_of lookup text_eq strip
query_of-present uuid = refl

pub query_of-Reads : (cmd : Text) (q : Query ℕ) → Reads ℕ cmd q → query_of cmd ≡ q
unfolding query_of
query_of-Reads cmd q (reads_fixed _ _ e) = rw e refl
query_of-Reads cmd q (reads_id uuid _ plain e) =
    ap query_of e
    ∙ query_of-id uuid
    ∙ ap (λ u. select (codes "id") (codes "companies") (at_uuid ℕ u))
        (word-append uuid (codes " ") (literal_lacks_quote uuid plain))
query_of-Reads cmd q (reads_present uuid _ plain e) =
    ap query_of e
    ∙ query_of-present uuid
    ∙ ap (λ u. select_exists (codes "companies") (at_uuid ℕ u))
        (word-append uuid (codes " LIMIT 1)") (literal_lacks_quote uuid plain))

abbrev int_of : Value ℕ → ℤ
int_of (integer n) = n
int_of _ = pos 0

abbrev text_of : Value ℕ → Text
text_of (text t) = t
text_of _ = []

abbrev uint_of : ℤ → ℕ
uint_of (pos n) = n
uint_of (negsuc n) = 0

abbrev pub memory : Sqlite
memory = record {
  Database = Snapshot ℕ;
  Real = ℕ;
  prepare = λ cmd. on_tables (preparing (query_of cmd));
  run = λ cmd binds. on_tables (meaning suc (query_of cmd) binds);
  table_exists = has_table;
  begin = begin_snapshot;
  commit = commit_snapshot;
  rollback = rollback_snapshot;
  get_string = text_of;
  get_int = int_of;
  get_int64 = int_of;
  get_uint = λ v. uint_of (int_of v);
  is_null = is_null_value;
}

unfoldable pub memory-IsDocumented : IsDocumented memory
memory-IsDocumented = record {
  view = λ d. d;
  gap = suc;
  gap_lem = λ n. omega arith;
  prepare_lem = λ cmd q reads d. rw (query_of-Reads cmd q reads) (refl, refl);
  run_lem = λ cmd q binds reads typed d. rw (query_of-Reads cmd q reads) (refl, refl);
  table_exists_lem = λ name d. (refl, refl);
  begin_lem = λ d. (refl, refl);
  commit_lem = λ d. (refl, refl);
  rollback_lem = λ d. (refl, refl);
  get_string_lem = λ t. refl;
  get_int_lem = λ n small. refl;
  get_int64_lem = λ n. refl;
  get_uint_lem = λ n small. refl;
  is_null_lem = λ v. refl;
}

pub memory-IsAt : (t : Tables ℕ) → IsAt memory memory-IsDocumented (idle t) t
unfolding memory-IsDocumented
memory-IsAt t = refl
