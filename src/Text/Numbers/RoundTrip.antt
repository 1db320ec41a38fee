-- ===== src/Text/Numbers/RoundTrip.antt =====
-- What `show` prints is read back.
use Prim.Native.String.{[], ◌∷◌}
use rate_x_rate_limiter_web.Base.{
  ℕ, zero, suc, ◌+◌, ◌*◌, ◌-◌, ◌/◌, ◌%◌, ◌^◌, ◌≤◌, ◌<◌, ◌≡◌, refl, String, Char, true, false, code,
  some, arith, ltb, leb, Bool-cases, inl, inr, ap, ◌∙◌,
}
use rate_x_rate_limiter_web.Text.{append, digit, show_from, show}
use rate_x_rate_limiter_web.Text.Numbers.{pos, scan, atoi}

digit_lem : (d : ℕ) → d < 10 → (c : Char) × (digit d ≡ c ∷ []) × (code c ≡ b'0' + d)
digit_lem zero h = ("0", refl, refl)
digit_lem (suc zero) h = ("1", refl, refl)
digit_lem (suc (suc zero)) h = ("2", refl, refl)
digit_lem (suc (suc (suc zero))) h = ("3", refl, refl)
digit_lem (suc (suc (suc (suc zero)))) h = ("4", refl, refl)
digit_lem (suc (suc (suc (suc (suc zero))))) h = ("5", refl, refl)
digit_lem (suc (suc (suc (suc (suc (suc zero)))))) h = ("6", refl, refl)
digit_lem (suc (suc (suc (suc (suc (suc (suc zero))))))) h = ("7", refl, refl)
digit_lem (suc (suc (suc (suc (suc (suc (suc (suc zero)))))))) h = ("8", refl, refl)
digit_lem (suc (suc (suc (suc (suc (suc (suc (suc (suc zero))))))))) h = ("9", refl, refl)
digit_lem (suc (suc (suc (suc (suc (suc (suc (suc (suc (suc d)))))))))) h = absurd (omega arith)

scan-digit :
    (d m : ℕ) (acc : String) → d < 10 → scan (append (digit d) acc) m ≡ scan acc (m * 10 + d)
unfolding scan
scan-digit d m acc h =
    let (c, e, n) = digit_lem d h in
    let back : b'0' + d - b'0' ≡ d = omega arith in
    let lo : leb b'0' (b'0' + d) ≡ true = ground arith in
    let hi : leb (b'0' + d) b'9' ≡ true = ground arith in rw (e, n, lo, hi, back)

-- Reading the digits of a number, in front of a text, is reading the text after the number. The
-- fuel is enough.
scan-show_from : (f n : ℕ) (acc : String) → n < f → scan (show_from f n acc) 0 ≡ scan acc n
unfolding show_from
scan-show_from zero n acc h = absurd (omega arith)
scan-show_from (suc f) n acc h = elim (Bool-cases (ltb n 10)) [
  | inl small ↦ rw small (scan-digit (n % 10) 0 acc (omega arith) ∙ ap (scan acc) (ground arith))
  | inr big ↦ rw big (
      scan-show_from f (n / 10) (append (digit (n % 10)) acc) (ground arith)
      ∙ scan-digit (n % 10) (n / 10) acc (omega arith)
      ∙ ap (scan acc) (omega arith))
]

-- The text begins with a digit.
abbrev pub AtDigit : String → Type 0
AtDigit [] = ⊥
AtDigit (c ∷ s) = (b'0' ≤ code c) × (code c ≤ b'9')

digit-AtDigit : (d : ℕ) (acc : String) → d < 10 → AtDigit (append (digit d) acc)
digit-AtDigit d acc h = let (c, e, n) = digit_lem d h in rw (e, n) (omega arith)

show_from-AtDigit : (f n : ℕ) (acc : String) → n < f → AtDigit (show_from f n acc)
unfolding show_from
show_from-AtDigit zero n acc h = absurd (omega arith)
show_from-AtDigit (suc f) n acc h = elim (Bool-cases (ltb n 10)) [
  | inl small ↦ rw small (digit-AtDigit (n % 10) acc (omega arith))
  | inr big ↦ rw big (show_from-AtDigit f (n / 10) _ (ground arith))
]

-- Nothing but digits.
abbrev pub AllDigits : String → Type 0
AllDigits [] = Unit
AllDigits (c ∷ s) = (b'0' ≤ code c) × (code c ≤ b'9') × AllDigits s

digit-AllDigits : (d : ℕ) (acc : String) → d < 10 → AllDigits acc → AllDigits (append (digit d) acc)
digit-AllDigits d acc h all =
    let (c, e, n) = digit_lem d h in rw (e, n) (omega arith, omega arith, all)

show_from-AllDigits : (f n : ℕ) (acc : String) → AllDigits acc → AllDigits (show_from f n acc)
unfolding show_from
show_from-AllDigits zero n acc all = all
show_from-AllDigits (suc f) n acc all =
    let more = digit-AllDigits (n % 10) acc (omega arith) all in
    elim (Bool-cases (ltb n 10)) [
      | inl small ↦ rw small more
      | inr big ↦ rw big (show_from-AllDigits f (n / 10) _ more)
    ]

pub show-AllDigits : (n : ℕ) → AllDigits (show n)
unfolding show
show-AllDigits n = show_from-AllDigits (suc n) n "" tt

atoi-AtDigit :
    (s : String) (n : ℕ)
    → AtDigit s
    → scan s 0 ≡ some n
    → n < 2 ^ 63
    → atoi s ≡ record { value = pos n; failed = false }
unfolding atoi
atoi-AtDigit [] n h e b = absurd h
atoi-AtDigit (c ∷ s) n (lo, hi) e b = rw e (ground arith)

pub show-AtDigit : (n : ℕ) → AtDigit (show n)
unfolding show
show-AtDigit n = show_from-AtDigit (suc n) n "" (omega arith)

-- For every number that fits into 64 bits with a sign, the digits that a template prints end (the
-- fuel of `show` is enough) and are read back as the number, without an error.
pub atoi-show : (n : ℕ) → n < 2 ^ 63 → atoi (show n) ≡ record { value = pos n; failed = false }
unfolding show
atoi-show n h =
    atoi-AtDigit (show n) n (show-AtDigit n)
      (scan-show_from (suc n) n "" (omega arith) ∙ (unfold scan in refl)) h

pub scan-show : (n : ℕ) → scan (show n) 0 ≡ some n
unfolding show
scan-show n = scan-show_from (suc n) n "" (omega arith) ∙ (unfold scan in refl)

-- Different numbers have different texts.
pub show_injective : (m n : ℕ) → show m ≡ show n → m ≡ n
show_injective m n h = cc (scan-show m, scan-show n, h)
