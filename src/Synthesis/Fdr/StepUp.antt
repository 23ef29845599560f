-- ===== src/Synthesis/Fdr/StepUp.antt =====
-- `benjamini_hochberg` of src/ats_lab/synthesis.py against the step-up rule of Benjamini and Hochberg.
use algorithmic_trading_stra.Base.{
  ℕ, suc, ◌≤◌, Bool, true, false, not, ◌&&◌, ◌||◌, ◌==◌, List, [], ◌∷◌, length, order_by, insert_by,
  any, All, All-zip, All-order_by, ◌≡◌, ◌⊎◌, inl, inr, refl, sym, arith, if◌then◌else◌,
}
use algorithmic_trading_stra.Base.Outcome.{ok, raise_if-passed}
use algorithmic_trading_stra.Floats.{Floats}
use algorithmic_trading_stra.Queue.Invariant.{All-map}
use algorithmic_trading_stra.Synthesis.Fdr.{
  Hypothesis, Discovery, numbered, ranking, critical, meets_critical, last_rank, rank_of, discovery,
  discoveries, benjamini_hochberg,
}

module _ (F : Floats) where
  -- `h` stands at place `k` of a list whose places count from `r`
  abbrev pub At : ℕ → List (Hypothesis F) → ℕ → Hypothesis F → Type 0
  At r [] k h = ⊥
  At r (x ∷ xs) k h = ((k ≡ r) × (x ≡ h)) ⊎ At (suc r) xs k h

  module _ (level : F.Float) (total : ℕ) where
    -- the hypothesis of rank k is at or below k * level / total
    abbrev pub Meets : ℕ → List (Hypothesis F) → ℕ → Type 0
    Meets r xs k = (h : Hypothesis F) × At r xs k h × (meets_critical F level total k h ≡ true)

    last_rank-grows :
        (r : ℕ) (xs : List (Hypothesis F)) (acc : ℕ)
        → acc ≤ r
        → acc ≤ last_rank F level total r xs acc
    unfolding last_rank
    last_rank-grows r [] acc le = omega arith
    last_rank-grows r (x ∷ xs) acc le =
        step (meets_critical F level total r x) (λ a b. last_rank-grows (suc r) xs a b)
      where
        step :
            (b : Bool)
            → ((a : ℕ) → a ≤ suc r → a ≤ last_rank F level total (suc r) xs a)
            → acc ≤ last_rank F level total (suc r) xs (if b then r else acc)
        step true ih = omega (arith, ih r (omega arith), le)
        step false ih = ih acc (omega (arith, le))

    Meets-le :
        (r : ℕ) (xs : List (Hypothesis F)) (acc k : ℕ)
        → acc ≤ r
        → Meets r xs k
        → k ≤ last_rank F level total r xs acc
    unfolding last_rank
    Meets-le r [] acc k le m = elim m.1 [ ]
    Meets-le r (x ∷ xs) acc k le m = go m.1 (λ a b n. Meets-le (suc r) xs a k b n)
      where
        go :
            At r (x ∷ xs) k m.0
            → ((a : ℕ) → a ≤ suc r → Meets (suc r) xs k → k ≤ last_rank F level total (suc r) xs a)
            → k
              ≤ last_rank F level total
                  (suc r)
                  xs
                  (if meets_critical F level total r x then r else acc)
        go (inl (e, s)) ih =
            let here : meets_critical F level total r x ≡ true = rw (sym e) (rw s m.2) in
            rw here (rw e (last_rank-grows (suc r) xs r (omega arith)))
        go (inr t) ih = ih _ (bound (meets_critical F level total r x)) (m.0, t, m.2)
          where
            bound : (b : Bool) → (if b then r else acc) ≤ suc r
            bound true = omega arith
            bound false = omega (arith, le)

    -- a rank up to the last one that meets_critical its value has such a rank at or above it
    le-Meets :
        (r : ℕ) (xs : List (Hypothesis F)) (acc n : ℕ)
        → n ≤ last_rank F level total r xs acc
        → (n ≤ acc) ⊎ ((k : ℕ) × (n ≤ k) × Meets r xs k)
    unfolding last_rank
    le-Meets r [] acc n h = inl h
    le-Meets r (x ∷ xs) acc n h =
        go (meets_critical F level total r x) refl (λ a. le-Meets (suc r) xs a n) h
      where
        Goal : Type 0
        Goal = (n ≤ acc) ⊎ ((k : ℕ) × (n ≤ k) × Meets r (x ∷ xs) k)

        go :
            (b : Bool)
            → meets_critical F level total r x ≡ b
            → ((a : ℕ)
                → n ≤ last_rank F level total (suc r) xs a
                → (n ≤ a) ⊎ ((k : ℕ) × (n ≤ k) × Meets (suc r) xs k))
            → n ≤ last_rank F level total (suc r) xs (if b then r else acc)
            → (n ≤ acc) ⊎ ((k : ℕ) × (n ≤ k) × Meets r (x ∷ xs) k)
        go true t ih g = elim (ih r g) [
          | inl le ↦ inr (r, le, (x, inl (refl, refl), t))
          | inr (k, le, m) ↦ inr (k, le, (m.0, inr m.1, m.2))
        ]
        go false t ih g = elim (ih acc g) [
          | inl le ↦ inl le
          | inr (k, le, m) ↦ inr (k, le, (m.0, inr m.1, m.2))
        ]

  rank_of-ge : (i r : ℕ) (xs : List (Hypothesis F)) → r ≤ rank_of F i r xs
  unfolding rank_of
  rank_of-ge i r [] = omega arith
  rank_of-ge i r (x ∷ xs) = ground (arith, rank_of-ge i (suc r) xs)

  abbrev same_index : ℕ → Hypothesis F → Bool
  same_index i h = h.index == i

  -- the rank of an index that is there is the place of its hypothesis
  rank_of-At :
      (i r : ℕ) (xs : List (Hypothesis F)) (x : Hypothesis F)
      → any (same_index i) xs ≡ true
      → All (λ y. same_index i y ≡ true → y ≡ x) xs
      → At r xs (rank_of F i r xs) x
  unfolding rank_of
  rank_of-At i r [] x h a = cc
  rank_of-At i r (y ∷ ys) x h a = go (y.index == i) refl h (λ k. rank_of-At i (suc r) ys x k a.1)
    where
      go :
          (b : Bool)
          → (y.index == i) ≡ b
          → (b || any (same_index i) ys) ≡ true
          → (any (same_index i) ys ≡ true → At (suc r) ys (rank_of F i (suc r) ys) x)
          → At r (y ∷ ys) (if b then r else rank_of F i (suc r) ys) x
      go true t k ih = inl (refl, a.0 t)
      go false t k ih = inr (ih k)

  any-insert_by :
      (q : Hypothesis F → Bool) (le : Hypothesis F → Hypothesis F → Bool) (x : Hypothesis F)
      (xs : List (Hypothesis F))
      → any q (insert_by le x xs) ≡ (q x || any q xs)
  any-insert_by q le x [] = refl
  any-insert_by q le x (y ∷ ys) = ground (arith, any-insert_by q le x ys)

  any-order_by :
      (q : Hypothesis F → Bool) (le : Hypothesis F → Hypothesis F → Bool) (xs : List (Hypothesis F))
      → any q (order_by le xs) ≡ any q xs
  any-order_by q le [] = refl
  any-order_by q le (x ∷ xs) =
      ground (arith, any-insert_by q le x (order_by le xs), any-order_by q le xs)

  numbered-ge :
      (n m : ℕ) (ps : List F.Float)
      → n ≤ m
      → All (λ (y : Hypothesis F). n ≤ y.index) (numbered F m ps)
  numbered-ge n m [] h = tt
  numbered-ge n m (p ∷ ps) h = (h, numbered-ge n (suc m) ps (omega (arith, h)))

  -- an index names one hypothesis
  abbrev Named : List (Hypothesis F) → Hypothesis F → Type 0
  Named xs x =
      (any (same_index x.index) xs ≡ true) × All (λ y. same_index x.index y ≡ true → y ≡ x) xs

  numbered-Named : (n : ℕ) (ps : List F.Float) → All (Named (numbered F n ps)) (numbered F n ps)
  numbered-Named n [] = tt
  numbered-Named n (p ∷ ps) = (
    (
      ground arith,
      (
        λ _. refl,
        All-map _ _ (numbered F (suc n) ps) (λ y le e. ground arith)
            (numbered-ge (suc n) (suc n) ps (omega arith)),
      ),
    ),
    All-map _ (Named (numbered F n (p ∷ ps))) (numbered F (suc n) ps)
        (λ x h. (ground (arith, h.1.0), ((λ e. ground (arith, h.0)), h.1.1)))
        (All-zip _ _ (numbered F (suc n) ps) (numbered-ge (suc n) (suc n) ps (omega arith))
          (numbered-Named (suc n) ps)),
  )

  -- A finding is that of the step-up rule: its rank is the place of its hypothesis in the order of the
  -- p-values, and it is rejected exactly where some rank from its own on meets_critical its critical value.
  pub record StepUp (level : F.Float) (ps : List F.Float) (h : Hypothesis F) (d : Discovery F)
      : Type 0 where
    pub placed : At 1 (ranking F ps) d.rank h
    pub threshold : d.threshold ≡ critical F level (length ps) d.rank
    pub met :
        d.rejected ≡ true → (k : ℕ) × (d.rank ≤ k) × Meets level (length ps) 1 (ranking F ps) k
    pub unmet :
        d.rejected ≡ false → (k : ℕ) → d.rank ≤ k → Meets level (length ps) 1 (ranking F ps) k → ⊥

  -- one finding for each hypothesis, in the order of the input
  abbrev pub StepUps : F.Float → List F.Float → List (Hypothesis F) → List (Discovery F) → Type 0
  StepUps level ps [] [] = Unit
  StepUps level ps [] (d ∷ ds) = ⊥
  StepUps level ps (h ∷ hs) [] = ⊥
  StepUps level ps (h ∷ hs) (d ∷ ds) = StepUp level ps h d × StepUps level ps hs ds

  discovery-StepUp :
      (level : F.Float) (ps : List F.Float) (h : Hypothesis F)
      → Named (numbered F 0 ps) h
      → StepUp level ps h (
          discovery F level
            (length ps)
            (last_rank F level (length ps) 1 (ranking F ps) 0)
            (ranking F ps)
            h)
  discovery-StepUp level ps h n = record {
    placed =
        rank_of-At h.index 1 (ranking F ps) h
          (rw (any-order_by (same_index h.index) _ (numbered F 0 ps)) n.0)
          (All-order_by _ _ (numbered F 0 ps) n.1);
    threshold = refl;
    met = λ e.
        elim (le-Meets level (length ps) 1 (ranking F ps) 0 (rank_of F h.index 1 (ranking F ps))
          (ground arith)) [
            | inl z ↦ absurd (omega (arith, z, rank_of-ge h.index 1 (ranking F ps)))
            | inr m ↦ m
          ];
    unmet = λ e k le m.
        ground (arith, e, le, Meets-le level (length ps) 1 (ranking F ps) 0 k (omega arith) m);
  }

  discoveries-StepUps :
      (level : F.Float) (ps : List F.Float) (hs : List (Hypothesis F))
      → All (Named (numbered F 0 ps)) hs
      → StepUps level ps hs (
          discoveries F level
            (length ps)
            (last_rank F level (length ps) 1 (ranking F ps) 0)
            (ranking F ps)
            hs)
  discoveries-StepUps level ps [] a = tt
  discoveries-StepUps level ps (h ∷ hs) a =
      (discovery-StepUp level ps h a.0, discoveries-StepUps level ps hs a.1)

  -- Where it does not raise, the code gives one finding for each p-value in the order of the input, and
  -- each is that of the step-up rule, whatever the order on floats.
  pub benjamini_hochberg-StepUp :
      (level : F.Float) (ps : List F.Float) (ds : List (Discovery F))
      → benjamini_hochberg F ps level ≡ ok ds
      → StepUps level ps (numbered F 0 ps) ds
  unfolding benjamini_hochberg
  benjamini_hochberg-StepUp level ps ds e =
      let (t, h) = raise_if-passed (not (F.lt (F.of_ℕ 0) level && F.le level (F.of_ℕ 1))) _ _ e in
      let same : ds
          ≡ discoveries F level (length ps) (last_rank F level (length ps) 1 (ranking F ps) 0)
              (ranking F ps) (numbered F 0 ps) =
        cc in
      rw same (discoveries-StepUps level ps (numbered F 0 ps) (numbered-Named 0 ps))
