-- ===== src/Supervisor/Chunks/Balanced.antt =====
-- What `_balanced_chunks` of src/ats_lab/supervisor.py makes of its rows.
use native.Mathlib.Nat.{mod-lt, div-add-mod, mul_comm, le_of_mul-le-mul_left, lt_of_mul-lt-mul_left}
use algorithmic_trading_stra.Base.{
  ℕ, zero, suc, ◌+◌, ◌-◌, ◌*◌, ◌/◌, ◌%◌, ◌≤◌, ◌<◌, List, [], ◌∷◌, ◌++◌, length, take, All, ◌≡◌, ◌∙◌,
  refl, sym, ap, min, arith,
}
use algorithmic_trading_stra.Base.Outcome.{ok}
use algorithmic_trading_stra.Supervisor.Chunks.{
  drop, slice, chunk_size, chunks_from, balanced_chunks, concat,
}

module _ {ℓ} {A : Type ℓ} where
  drop-none : (n : ℕ) → drop {A = A} n [] ≡ []
  drop-none zero = refl
  drop-none (suc n) = refl

  drop-add : (o a : ℕ) (xs : List A) → drop (o + a) xs ≡ drop a (drop o xs)
  drop-add zero a xs = let z : zero + a ≡ a = omega arith in ap (λ n. drop n xs) z
  drop-add (suc o) a [] = drop-none (suc o + a) ∙ sym (drop-none a)
  drop-add (suc o) a (x ∷ xs) =
      let e : suc o + a ≡ suc (o + a) = omega arith in ap (λ n. drop n (x ∷ xs)) e ∙ drop-add o a xs

  take-empty : (n : ℕ) → take {A = A} n [] ≡ []
  take-empty zero = refl
  take-empty (suc n) = refl

  take-drop : (a b : ℕ) (xs : List A) → take a xs ++ take b (drop a xs) ≡ take (a + b) xs
  take-drop zero b xs = let z : b ≡ zero + b = omega arith in ap (λ n. take n xs) z
  take-drop (suc a) b [] = take-empty b ∙ sym (take-empty (suc a + b))
  take-drop (suc a) b (x ∷ xs) =
      let e : suc (a + b) ≡ suc a + b = omega arith in
      ap (λ t. x ∷ t) (take-drop a b xs) ∙ ap (λ n. take n (x ∷ xs)) e

  length-drop : (o : ℕ) (xs : List A) → o ≤ length xs → length (drop o xs) + o ≡ length xs
  length-drop zero xs h = omega arith
  length-drop (suc o) [] h = omega (arith, h)
  length-drop (suc o) (x ∷ xs) h = omega (arith, length-drop o xs (omega (arith, h)))

  length-take : (n : ℕ) (xs : List A) → n ≤ length xs → length (take n xs) ≡ n
  length-take zero xs h = refl
  length-take (suc n) [] h = omega (arith, h)
  length-take (suc n) (x ∷ xs) h = omega (arith, length-take n xs (omega (arith, h)))

  take-all : (n : ℕ) (xs : List A) → n ≡ length xs → take n xs ≡ xs
  take-all zero [] h = refl
  take-all zero (x ∷ xs) h = absurd (omega (arith, h))
  take-all (suc n) [] h = refl
  take-all (suc n) (x ∷ xs) h = ap (λ t. x ∷ t) (take-all n xs (omega (arith, h)))

-- The arithmetic of the sizes: `n` rows, at most `m` in each of `q` chunks.
record Division (n m q base extra : ℕ) : Type 0 where
  some_chunk : 1 ≤ q
  some_rows : 1 ≤ base
  small : base + min extra 1 ≤ m
  all_rows : q * base + extra ≡ n
  extra_lt : extra < q
  few : q * m < n + m

positive : (m q n : ℕ) → n ≤ m * q → 1 ≤ n → 1 ≤ q
positive m zero n h k = omega (arith, h, k)
positive m (suc q) n h k = omega arith

cancel : (k a b : ℕ) → k * a ≤ k * b → zero < k → a ≤ b
cancel k a b h p = le_of_mul-le-mul_left h p

cancel_lt : (k a b : ℕ) → k * a < k * b → a < b
cancel_lt k a b h = lt_of_mul-lt-mul_left k h

pos_base : (q base extra n : ℕ) → q * base + extra ≡ n → extra < q → q ≤ n → 1 ≤ base
pos_base q zero extra n e h k = omega (arith, e, h, k)
pos_base q (suc base) extra n e h k = omega arith

prod_ge : (n m : ℕ) → 1 ≤ n → 1 ≤ m → n + m - 1 ≤ m * n
prod_ge zero m hn hm = omega (arith, hn)
prod_ge (suc n) zero hn hm = omega (arith, hm)
prod_ge (suc n) (suc m) hn hm = omega arith

small_base :
    (q base extra m n : ℕ) → q * base + extra ≡ n → n ≤ m * q → 1 ≤ q → base + min extra 1 ≤ m
small_base q base zero m n e h k =
    omega (arith, cancel q base m (omega (arith, e, h, mul_comm m q)) k)
small_base q base (suc extra) m n e h k =
    omega (arith, cancel_lt q base m (omega (arith, e, h, mul_comm m q)))

division :
    (n m : ℕ)
    → 1 ≤ n
    → 1 ≤ m
    → Division n m ((n + m - 1) / m) (n / ((n + m - 1) / m)) (n % ((n + m - 1) / m))
division n m hn hm = record {
  some_chunk = q_pos;
  some_rows = base_pos;
  small = small;
  all_rows = whole;
  extra_lt = rem;
  few = omega (arith, up, mul_comm ((n + m - 1) / m) m, hm);
}
  where
    up : m * ((n + m - 1) / m) + (n + m - 1) % m ≡ n + m - 1
    up = div-add-mod (n + m - 1) m

    r_lt : (n + m - 1) % m < m
    r_lt = mod-lt (n + m - 1) hm

    covers : n ≤ m * ((n + m - 1) / m)
    covers = omega (arith, up, r_lt, hm)

    q_pos : 1 ≤ (n + m - 1) / m
    q_pos = positive m ((n + m - 1) / m) n covers hn

    rem : n % ((n + m - 1) / m) < (n + m - 1) / m
    rem = mod-lt n q_pos

    whole : ((n + m - 1) / m) * (n / ((n + m - 1) / m)) + n % ((n + m - 1) / m) ≡ n
    whole = div-add-mod n ((n + m - 1) / m)

    base_pos : 1 ≤ n / ((n + m - 1) / m)
    base_pos =
        pos_base ((n + m - 1) / m) _ _ n whole rem
          (cancel m ((n + m - 1) / m) n (omega (arith, up, prod_ge n m hn hm)) hm)

    small : n / ((n + m - 1) / m) + min (n % ((n + m - 1) / m)) 1 ≤ m
    small = small_base ((n + m - 1) / m) _ (n % ((n + m - 1) / m)) m n whole covers q_pos

-- the rows that the chunks from an index on take together
abbrev total_size : ℕ → ℕ → ℕ → ℕ → ℕ
total_size base extra zero index = 0
total_size base extra (suc left) index =
    chunk_size base extra index + total_size base extra left (suc index)

total_size-eq :
    (base extra left index : ℕ)
    → total_size base extra left index ≡ left * base + (min (index + left) extra - min index extra)
total_size-eq base extra zero index = ground arith
total_size-eq base extra (suc left) index =
    let m : suc left * base ≡ base + left * base = omega arith in
    ground (arith, m, total_size-eq base extra left (suc index))

module _ {ℓ} {A : Type ℓ} where
  concat-chunks_from :
      (base extra : ℕ) (rows : List A) (left index offset : ℕ)
      → concat (chunks_from base extra rows left index offset)
        ≡ take (total_size base extra left index) (drop offset rows)
  unfolding chunks_from
  concat-chunks_from base extra rows zero index offset = refl
  concat-chunks_from base extra rows (suc left) index offset =
      let size = chunk_size base extra index in
      ap (λ t. slice offset size rows ++ t)
        (concat-chunks_from base extra rows left (suc index) (offset + size))
      ∙ (ap (λ t. slice offset size rows ++ take (total_size base extra left (suc index)) t)
            (drop-add offset size rows)
          ∙ take-drop size (total_size base extra left (suc index)) (drop offset rows))

  -- of a size that is `base` or one more, within the bounds
  abbrev pub Sized : ℕ → ℕ → List A → Type 0
  Sized base extra c = (base ≤ length c) × (length c ≤ base + min extra 1)

  chunks_from-Sized :
      (base extra : ℕ) (rows : List A) (left index offset : ℕ)
      → offset + total_size base extra left index ≤ length rows
      → All (Sized base extra) (chunks_from base extra rows left index offset)
  unfolding chunks_from
  chunks_from-Sized base extra rows zero index offset h = tt
  chunks_from-Sized base extra rows (suc left) index offset h =
      let size = chunk_size base extra index in
      let exact : length (slice offset size rows) ≡ size =
        length-take size (drop offset rows)
          (omega (arith, length-drop offset rows (omega (arith, h)), h)) in
      (
        ground (arith, exact),
        chunks_from-Sized base extra rows left (suc index) (offset + size) (omega (arith, h)),
      )

  chunks_from-length :
      (base extra : ℕ) (rows : List A) (left index offset : ℕ)
      → length (chunks_from base extra rows left index offset) ≡ left
  unfolding chunks_from
  chunks_from-length base extra rows zero index offset = refl
  chunks_from-length base extra rows (suc left) index offset = omega (
    arith,
    chunks_from-length base extra rows left (suc index) (offset + chunk_size base extra index),
  )

  pub Sized-bounds :
      (base extra maximum : ℕ) (cs : List (List A))
      → 1 ≤ base
      → base + min extra 1 ≤ maximum
      → All (Sized base extra) cs
      → All
          (λ (c : List A).
            (1 ≤ length c) × (length c ≤ maximum) × (base ≤ length c) × (length c ≤ suc base))
          cs
  Sized-bounds base extra maximum [] b m a = tt
  Sized-bounds base extra maximum (c ∷ cs) b m a = (
    (omega (arith, b, a.0.0), omega (arith, m, a.0.1), a.0.0, omega (arith, a.0.1)),
    Sized-bounds base extra maximum cs b m a.1,
  )

  -- The chunks make up the rows in order; none is empty, none is above the maximum, and the sizes of two
  -- differ by at most one.
  pub record Balanced (maximum : ℕ) (rows : List A) (chunks : List (List A)) : Type ℓ where
    pub whole : concat chunks ≡ rows
    pub base : ℕ
    pub sizes :
        All
          (λ (c : List A).
            (1 ≤ length c) × (length c ≤ maximum) × (base ≤ length c) × (length c ≤ suc base))
          chunks
    pub fewest : length chunks * maximum < length rows + maximum

  -- For a positive maximum the chunks make up the rows in order, none is empty or above the maximum, the
  -- sizes of two differ by at most one, and with one chunk fewer the maximum could not hold.
  pub balanced_chunks-Balanced :
      (maximum : ℕ) (rows : List A)
      → 1 ≤ maximum
      → (chunks : List (List A)) × (balanced_chunks maximum rows ≡ ok chunks)
        × Balanced maximum rows chunks
  unfolding balanced_chunks
  balanced_chunks-Balanced maximum [] h =
      ([], refl, record { whole = refl; base = 0; sizes = tt; fewest = omega (arith, h) })
  balanced_chunks-Balanced zero (row ∷ rows) h = absurd (omega (arith, h))
  balanced_chunks-Balanced (suc m) (row ∷ rows) h =
      let n = length (row ∷ rows) in
      let q = (n + suc m - 1) / suc m in
      let d = division n (suc m) (omega arith) h in
      let sum : total_size (n / q) (n % q) q 0 ≡ n =
        total_size-eq (n / q) (n % q) q 0 ∙ omega (arith, d.all_rows, d.extra_lt) in
      (
        chunks_from (n / q) (n % q) (row ∷ rows) q 0 0,
        ground arith,
        record {
          whole =
              concat-chunks_from (n / q) (n % q) (row ∷ rows) q 0 0 ∙ take-all _ (row ∷ rows) sum;
          base = n / q;
          sizes =
              Sized-bounds (n / q) (n % q) (suc m) _ d.some_rows d.small
                (chunks_from-Sized (n / q) (n % q) (row ∷ rows) q 0 0 (omega (arith, sum)));
          fewest = omega (
            arith,
            ap (λ k. k * suc m) (chunks_from-length (n / q) (n % q) (row ∷ rows) q 0 0),
            d.few,
          );
        },
      )
