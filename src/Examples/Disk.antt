-- ===== src/Examples/Disk.antt =====
-- A file system that meets the assumptions: the list of the paths that were made.
use iexapitest.Base.{
  Bool, List, Text, [], append-nil, append_assoc, arith, codes, false, length, length-append, none,
  refl, some, suc, take, true, zero, ℕ, ◌&&◌, ◌++◌, ◌==◌, ◌||◌, ◌∷◌, ◌≡◌, ◌≤◌,
}
use iexapitest.Filesystem.{slash}
use iexapitest.Filesystem.Syscalls.{IsLawful, Posix}
use iexapitest.Filesystem.Files.{IsIncremental, Md5}

-- The path `p` is `q`, or a directory above it.
unfoldable pub above : Text → Text → Bool
above [] [] = true
above [] (d ∷ q) = d == slash
above (c ∷ p) [] = false
above (c ∷ p) (d ∷ q) = c == d && above p q

unfoldable pub resolves : List Text → Text → Bool
resolves [] p = false
resolves (q ∷ made) p = above p q || resolves made p

abbrev pub disk : Posix
disk = record {
  State = List Text;
  exists = resolves;
  size = λ s p. length p;
  content = λ s p. p;
  mkdir = λ s p. some (p ∷ s);
  chmod = λ s p. s;
  remove = λ s p. none;
}

above_refl : (p : Text) → above p p ≡ true
unfolding above
above_refl [] = refl
above_refl (c ∷ p) = ground (arith, above_refl p)

above_parent : (p q r : Text) → above (p ++ slash ∷ q) r ≡ true → above p r ≡ true
unfolding above
above_parent [] q [] h = cc
above_parent [] q (d ∷ r) h = ground arith
above_parent (c ∷ p) q [] h = cc
above_parent (c ∷ p) q (d ∷ r) h = ground (arith, above_parent p q r)

resolves_parent :
    (s : List Text) (p q : Text) → resolves s (p ++ slash ∷ q) ≡ true → resolves s p ≡ true
unfolding resolves
resolves_parent [] p q h = h
resolves_parent (r ∷ s) p q h = ground (arith, above_parent p q r, resolves_parent s p q)

pub disk-IsLawful : IsLawful disk
unfolding resolves
disk-IsLawful = record {
  exists-mkdir = λ s s' p h. ground (arith, above_refl p);
  exists-mkdir_keep = λ s s' p q h e. ground arith;
  exists-chmod = λ s p q e. e;
  exists_above = λ s p q e n. resolves_parent s p q e;
}

-- A digest that keeps the first 16 bytes that it is shown, behind which there are enough.
abbrev pub digest : Md5
digest = record {
  Context = List ℕ;
  init = [];
  update = λ c xs. c ++ xs;
  final = λ c. take 16 (c ++ codes "0123456789abcdef");
}

length-take_enough : (n : ℕ) (xs : List ℕ) → n ≤ length xs → length (take n xs) ≡ n
length-take_enough zero xs h = refl
length-take_enough (suc n) [] h = absurd (omega arith)
length-take_enough (suc n) (x ∷ xs) h = omega (arith, length-take_enough n xs)

pub digest-IsIncremental : IsIncremental digest
digest-IsIncremental = record {
  update-append = λ c xs ys. append_assoc c xs ys;
  update-nil = λ c. append-nil c;
  length-final = λ c.
      length-take_enough 16 (c ++ codes "0123456789abcdef")
        (omega (arith, length-append c (codes "0123456789abcdef")));
}
