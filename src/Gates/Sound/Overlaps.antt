-- ===== src/Gates/Sound/Overlaps.antt =====
-- `_overlaps_training` of src/ats_lab/gates.py: windows are half-open, and overlap where they share a day.
use algorithmic_trading_stra.Base.{ℕ, ◌≤◌, ◌<◌, max, true, ◌&&◌, ◌≡◌, ◌↔◌, arith, ltb}
use algorithmic_trading_stra.Floats.{Floats}
use algorithmic_trading_stra.Gates.Evidence.{Evidence}
use algorithmic_trading_stra.Gates.Windows.{dates, window, same_text, overlaps}

-- A day of both windows.
abbrev pub SharedDay : ℕ → ℕ → ℕ → ℕ → Type 0
SharedDay s f s' f' = (d : ℕ) × (s ≤ d) × (d < f) × (s' ≤ d) × (d < f')

meets-SharedDay :
    (s f s' f' : ℕ) → s < f → s' < f' → (ltb s f' && ltb s' f) ≡ true → SharedDay s f s' f'
meets-SharedDay s f s' f' h h' e =
    (max s s', ground arith, ground arith, ground arith, ground arith)

SharedDay-meets : (s f s' f' : ℕ) → SharedDay s f s' f' → (ltb s f' && ltb s' f) ≡ true
SharedDay-meets s f s' f' (d, a, b, a', b') = ground arith

module _ (F : Floats) where
  -- Two rows of one instrument and timeframe, whose dates are ISO dates and whose windows are not empty,
  -- overlap exactly where their half-open windows share a day.
  pub overlaps-SharedDay :
      (row other : Evidence F) (s f s' f' : ℕ)
      → same_text row.symbol other.symbol ≡ true
      → same_text row.timeframe other.timeframe ≡ true
      → window F row ≡ dates s f
      → window F other ≡ dates s' f'
      → s < f
      → s' < f'
      → (overlaps F row other ≡ true) ↔ SharedDay s f s' f'
  unfolding overlaps
  overlaps-SharedDay row other s f s' f' hs ht hw hw' h h' =
      rw hs (rw ht (rw hw (rw hw' (meets-SharedDay s f s' f' h h', SharedDay-meets s f s' f'))))
