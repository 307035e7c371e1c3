-- ===== src/Filesystem/Folders.antt =====
-- What `CreateFolder` leaves behind.
pub mod Cuts
use iexapitest.Filesystem.Folders.Cuts.{
  CutAt, EndsPlain, EndsPlain-append, Lacks-slash-append, StopsIn, StopsIn-cut, StopsIn-part,
  StopsIn-root, append-ne-nil, cut_part_lem, nil-ne-append, regroup, slash_cases, snoc-ne-nil,
}
use iexapitest.Base.{
  ==_iff, Bool-cases, FirstAt, Lacks, Option, Text, [], append_assoc, arith, drop, false, find,
  find_lem, inl, inr, length, length-drop-le, none, refl, some, suc, sym, take, true, zero, ℕ, ◌++◌,
  ◌<◌, ◌==◌, ◌∙◌, ◌∷◌, ◌≡◌, ◌≢◌, ◌≤◌, ◌⊎◌,
}
use iexapitest.Filesystem.Syscalls.{IsLawful, Posix}
use iexapitest.Filesystem.{
  Created, create_folder, create_parts, cut_part, done, gave_up, make_missing, slash,
}

module _ (P : Posix) (L : IsLawful P) where
  -- What is there stays there.
  abbrev pub Keeps : P.State → P.State → Type 0
  Keeps s s' = (p : Text) → P.exists s p ≡ true → P.exists s' p ≡ true

  -- Every directory of `next`, below `created`, is there.
  pub record Made (created next : Text) (s : P.State) : Type 0 where
    pub above :
        (p q : Text) → next ≡ p ++ slash ∷ q → created ++ p ≢ [] → P.exists s (created ++ p) ≡ true
    pub whole : EndsPlain next → P.exists s (created ++ next) ≡ true

  abbrev pub state_of : Created P.State → P.State
  state_of (done s) = s
  state_of (gave_up p s) = s

  abbrev pub Ends : Text → Text → Created P.State → Type 0
  Ends created next (done s) = Made created next s
  Ends created next (gave_up p s) =
      (P.exists s p ≡ false) × (P.mkdir s p ≡ none) × StopsIn created next p

  Made-nil : (created : Text) (s : P.State) → Made created [] s
  Made-nil created s = record {
    above = λ p q e. absurd (nil-ne-append p q e);
    whole = λ h. absurd h;
  }

  make_missing-exists :
      (created : Text) (s s' : P.State)
      → created ≢ []
      → make_missing P created s ≡ some s'
      → P.exists s' created ≡ true
  unfolding make_missing
  make_missing-exists created s s' n h = grind (arith, L.exists-mkdir, L.exists-chmod)

  make_missing-keep :
      (created p : Text) (s s' : P.State)
      → make_missing P created s ≡ some s'
      → P.exists s p ≡ true
      → P.exists s' p ≡ true
  unfolding make_missing
  make_missing-keep created p s s' h e = grind (arith, L.exists-mkdir_keep, L.exists-chmod)

  make_missing-eq_none :
      (created : Text) (s : P.State)
      → make_missing P created s ≡ none
      → (P.exists s created ≡ false) × (P.mkdir s created ≡ none)
  unfolding make_missing
  make_missing-eq_none created s h = ground arith

  module _ (created part rest : Text) (s₁ s : P.State) (lacks : Lacks slash part)
      (made : created ++ part ≢ [] → P.exists s₁ (created ++ part) ≡ true) (keeps : Keeps s₁ s)
      (below : Made (created ++ part ++ slash ∷ []) rest s) where
    above-cut :
        (next p q : Text)
        → next ≡ part ++ slash ∷ rest
        → next ≡ p ++ slash ∷ q
        → created ++ p ≢ []
        → P.exists s (created ++ p) ≡ true
    above-cut next p q cut e n = elim (slash_cases part rest p q lacks (sym cut ∙ e)) [
      | inl same ↦ rw same (keeps _ (made (rw same at n)))
      | inr (p', front, back) ↦
          rw (front, ← regroup created part p')
            (below.above p' q back (snoc-ne-nil (created ++ part) p'))
    ]

    whole-cut :
        (next : Text)
        → next ≡ part ++ slash ∷ rest
        → EndsPlain next
        → P.exists s (created ++ next) ≡ true
    whole-cut next cut h =
        rw (cut, ← regroup created part rest)
          (below.whole (EndsPlain-append part rest (rw cut at h)))

  Ends-cut :
      (created next part rest : Text) (s : P.State) (r : Created P.State)
      → CutAt next (part, rest)
      → (created ++ part ≢ [] → P.exists s (created ++ part) ≡ true)
      → Keeps s (state_of r)
      → Ends (created ++ part ++ slash ∷ []) rest r
      → Ends created next r
  unfolding CutAt
  Ends-cut created next part rest s (gave_up p s') cut made keeps (missing, refused, stops) =
      (missing, refused, StopsIn-cut created next part rest p cut stops)
  Ends-cut created next part rest s (done s') (inl (same, _), lacks, _) made keeps below = record {
    above = λ p q e n. absurd (Lacks-slash-append p q (rw (sym same ∙ e) at lacks));
    whole = λ h. rw same (keeps _ (made (append-ne-nil created part (rw same at h))));
  }
  Ends-cut created next part rest s (done s') (inr cut, lacks, _) made keeps below = record {
    above = λ p q e n. above-cut created part rest s s' lacks made keeps below next p q cut e n;
    whole = λ h. whole-cut created part rest s s' lacks made keeps below next cut h;
  }

  -- One round of the loop, with what is known of the rounds after it.
  advance :
      (fuel : ℕ) (next part rest created : Text) (s : P.State)
      → CutAt next (part, rest)
      → (o : Option P.State) → make_missing P (created ++ part) s ≡ o
      → ((s' : P.State)
          → (r : Created P.State) × (create_parts P fuel rest (created ++ part ++ slash ∷ []) s'
              ≡ some r)
            × Keeps s' (state_of r)
            × Ends (created ++ part ++ slash ∷ []) rest r)
      → (r : Created P.State) × (elim o [
        | none ↦ some (gave_up (created ++ part) s)
        | some s' ↦ create_parts P fuel rest (created ++ part ++ slash ∷ []) s'
      ]
          ≡ some r)
        × Keeps s (state_of r)
        × Ends created next r
  advance fuel next part rest created s cut none e ih =
      let (missing, refused) = make_missing-eq_none (created ++ part) s e in
      (
        gave_up (created ++ part) s,
        refl,
        λ p h. h,
        (missing, refused, StopsIn-part created next part rest cut),
      )
  advance fuel next part rest created s cut (some s') e ih =
      let (r, run, keeps, ends) = ih s' in
      (
        r,
        run,
        λ p h. keeps p (make_missing-keep _ p s s' e h),
        Ends-cut created next part rest s' r cut (λ n. make_missing-exists _ s s' n e) keeps ends,
      )

  -- The loop ends within its fuel. It took nothing away, and it has made every directory of the
  -- path, or it stopped at one of them that is not there and that `mkdir` refused.
  create_parts-Ends :
      (fuel : ℕ) (next created : Text) (s : P.State)
      → length next ≤ fuel
      → (r : Created P.State) × (create_parts P fuel next created s ≡ some r)
        × Keeps s (state_of r)
        × Ends created next r
  unfolding create_parts CutAt
  create_parts-Ends fuel [] created s h = (done s, refl, λ p e. e, Made-nil created s)
  create_parts-Ends zero (c ∷ next) created s h = absurd (omega arith)
  create_parts-Ends (suc fuel) (c ∷ next) created s h =
      advance fuel (c ∷ next) (cut_part (c ∷ next)).0 (cut_part (c ∷ next)).1 created s
        (cut_part_lem c next) (make_missing P (created ++ (cut_part (c ∷ next)).0) s) refl
        (λ s'.
          create_parts-Ends fuel (cut_part (c ∷ next)).1 _ s'
            (omega (arith, (cut_part_lem c next).2)))

  Ends-root : (dir : Text) (r : Created P.State) → Ends (slash ∷ []) dir r → Ends [] (slash ∷ dir) r
  Ends-root dir (gave_up p s) (missing, refused, stops) =
      (missing, refused, StopsIn-root dir p stops)
  Ends-root dir (done s) below = record { above = above; whole = whole dir below }
    where
      above : (p q : Text) → slash ∷ dir ≡ p ++ slash ∷ q → p ≢ [] → P.exists s p ≡ true
      above [] q e n = absurd (n refl)
      above (c ∷ p) q e n = rw (c_eq) (below.above p q (cc) (λ h. cc))
        where
          c_eq : c ≡ slash
          c_eq = cc

      whole :
          (d : Text) → Made (slash ∷ []) d s → EndsPlain (slash ∷ d) → P.exists s (slash ∷ d) ≡ true
      whole [] m h = absurd (h refl)
      whole (c ∷ d) m h = m.whole h

  -- `CreateFolder` always comes to an end, and takes nothing away. Either every prefix of the path
  -- that a slash ends, and the path itself if no slash ends it, is there afterwards; or it stopped at
  -- the path, or at what is in front of one of its slashes, which was missing and `mkdir` refused.
  pub create_folder-Ends :
      (dir : Text) (s : P.State)
      → (r : Created P.State) × (create_folder P dir s ≡ some r)
        × Keeps s (state_of r)
        × Ends [] dir r
  unfolding create_folder
  create_folder-Ends [] s = (done s, refl, λ p h. h, Made-nil [] s)
  create_folder-Ends (c ∷ dir) s = elim (Bool-cases (P.exists s (c ∷ dir))) [
    | inl there ↦ (
      done s,
      rw there,
      λ p h. h,
      record { above = λ p q e n. L.exists_above s p q (rw (← e) there) n; whole = λ _. there },
    )
    | inr missing ↦ rw missing (elim (Bool-cases (c == slash)) [
      | inl root ↦
          rw (root, (==_iff c slash).0 root)
            (let (r, run, keeps, ends) =
                create_parts-Ends (length dir) dir (slash ∷ []) s (omega arith) in
              (r, run, keeps, Ends-root dir r ends))
      | inr plain ↦ rw plain (create_parts-Ends (length (c ∷ dir)) (c ∷ dir) [] s (omega arith))
    ])
  ]
