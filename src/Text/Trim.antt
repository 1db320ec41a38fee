-- ===== src/Text/Trim.antt =====
-- Texts that trimming leaves as they are.
use Prim.Native.String.{[], ◌∷◌}
use rate_x_rate_limiter_web.Base.{◌≡◌, refl, ℕ, String, Bool, false, code, arith}
use rate_x_rate_limiter_web.Text.{append, trim_start, trim_end}

module _ (space : ℕ → Bool) where
  -- No character passes the test.
  abbrev pub HasNone : String → Type 0
  HasNone [] = Unit
  HasNone (c ∷ s) = (space (code c) ≡ false) × HasNone s

  pub trim_start-HasNone : (s : String) → HasNone s → trim_start space s ≡ s
  unfolding trim_start
  trim_start-HasNone [] h = refl
  trim_start-HasNone (c ∷ s) (h, hs) = rw h

  pub trim_end-HasNone : (s : String) → HasNone s → trim_end space s ≡ s
  unfolding trim_end
  trim_end-HasNone [] h = refl
  trim_end-HasNone (c ∷ s) (h, hs) = rw (trim_end-HasNone s hs, h) (ground arith)

  pub append-HasNone : (s t : String) → HasNone s → HasNone t → HasNone (append s t)
  append-HasNone [] t h k = k
  append-HasNone (c ∷ s) t (h, hs) k = (h, append-HasNone s t hs k)
