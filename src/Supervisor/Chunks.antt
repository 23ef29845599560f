-- ===== src/Supervisor/Chunks.antt =====
-- `_balanced_chunks` of src/ats_lab/supervisor.py.
pub mod Balanced
use algorithmic_trading_stra.Base.{
  ℕ, zero, suc, ◌+◌, ◌-◌, ◌/◌, ◌%◌, ◌==◌, ltb, Bool, List, [], ◌∷◌, ◌++◌, length, take,
  if◌then◌else◌,
}
use algorithmic_trading_stra.Base.Outcome.{Result, ok, runtime_error, raise_if, ◌>>◌, ◌>>=◌}

-- `base + (1 if index < extra else 0)`
abbrev pub chunk_size : ℕ → ℕ → ℕ → ℕ
chunk_size base extra index = base + (if ltb index extra then 1 else 0)

module _ {ℓ} {A : Type ℓ} where
  abbrev pub drop : ℕ → List A → List A
  drop zero xs = xs
  drop (suc n) [] = []
  drop (suc n) (x ∷ xs) = drop n xs

  -- `rows[offset:offset + size]`
  abbrev pub slice : ℕ → ℕ → List A → List A
  slice offset size rows = take size (drop offset rows)

  -- the loop over `range(count)`, by the iterations that are left
  unfoldable pub chunks_from : ℕ → ℕ → List A → ℕ → ℕ → ℕ → List (List A)
  chunks_from base extra rows zero index offset = []
  chunks_from base extra rows (suc left) index offset =
      let size = chunk_size base extra index in
      slice offset size rows ∷ chunks_from base extra rows left (suc index) (offset + size)

  -- `maximum` is `resource_policy.analysis_cohort_max`; `//` raises where it is 0.
  unfoldable pub balanced_chunks : ℕ → List A → Result (List (List A))
  unfolding chunks_from
  balanced_chunks maximum [] = ok []
  balanced_chunks maximum (row ∷ rows) = do
    raise_if (maximum == 0) (runtime_error "ZeroDivisionError")
    let n = length (row ∷ rows)
    let chunks = (n + maximum - 1) / maximum
    ok (chunks_from (n / chunks) (n % chunks) (row ∷ rows) chunks 0 0)

  abbrev pub concat : List (List A) → List A
  concat [] = []
  concat (xs ∷ xss) = xs ++ concat xss
