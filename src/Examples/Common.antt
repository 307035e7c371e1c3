-- ===== src/Examples/Common.antt =====
-- common_utils/common_functions.cpp on a machine whose commands print a line with a NUL in it.
use iexapitest.Base.{[], codes, ok, pos, refl, some, ℤ, ◌∷◌, ◌≡◌}
use iexapitest.Common.{Console, System, system}

-- The status of pclose is the state of the machine.
abbrev machine : System
machine = record {
  Machine = ℤ;
  popen = λ command s. (some ((b'a' ∷ 0 ∷ b'b' ∷ []) ∷ codes "c" ∷ []), s);
  pclose = λ s. (s, s);
  strerror = λ s. [];
  random_uuid = λ s. ([], s);
}

abbrev console : ℤ → Console machine
console status = record { machine = status; stdout = codes ">" }

cut_at_nul :
    system machine (codes "x") (console (pos 0))
    ≡ (ok (codes "ac"), record (console (pos 0)) { stdout = codes ">ac" })
unfolding system
cut_at_nul = refl
