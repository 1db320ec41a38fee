-- ===== src/Limiter/Replies/Values.antt =====
-- The values of a script, and how they are read.
use Prim.Native.String.{[], ◌∷◌}
use rate_x_rate_limiter_web.Base.{
  ℕ, ◌^◌, ◌<◌, ◌≡◌, ◌⊎◌, inl, inr, refl, String, Bool, true, false, List, some, ok, ap, arith, code,
  leb, ltb, if◌then◌else◌, ◌==◌,
}
use rate_x_rate_limiter_web.Text.{show}
use rate_x_rate_limiter_web.Text.Numbers.{pos, scan}
use rate_x_rate_limiter_web.Text.Numbers.RoundTrip.{
  AtDigit, AllDigits, show-AtDigit, show-AllDigits, scan-show,
}
use rate_x_rate_limiter_web.Limiter.{Decision}
use rate_x_rate_limiter_web.Limiter.Replies.{
  Value, int64, text, is_one, to_int, parse_script_result, values_of,
}
use rate_x_rate_limiter_web.Limiter.Replies.Scan.{sscanf, skip_space, leading_digits}

is_one-bit : (b : Bool) → is_one (pos (if b then 1 else 0)) ≡ b
is_one-bit true = refl
is_one-bit false = refl

pub parse-values_of : (d : Decision) → parse_script_result (values_of d) d.reset_after ≡ ok d
unfolding parse_script_result to_int
parse-values_of d = ap (λ (b : Bool). ok (record d { allowed = b })) (is_one-bit d.allowed)

leading_digits-AllDigits : (s : String) → AllDigits s → leading_digits s ≡ s
unfolding leading_digits
leading_digits-AllDigits [] h = refl
leading_digits-AllDigits (c ∷ s) (lo, hi, h) = ground (arith, leading_digits-AllDigits s h)

sscanf-digits :
    (s : String) (n : ℕ)
    → AtDigit s
    → AllDigits s
    → scan s 0 ≡ some n
    → n < 2 ^ 63
    → sscanf s ≡ ok (pos n)
unfolding sscanf skip_space
sscanf-digits [] n at h e b = absurd at
sscanf-digits (c ∷ s) n at (lo, hi, h) e b =
    let no_space : (code c == 32) ≡ false = ground arith in
    let no_tab : (code c == 9) ≡ false = ground arith in
    let some_other : leb 11 (code c) ≡ true = ground arith in
    let no_other : leb (code c) 13 ≡ false = ground arith in
    let no_line : (code c == 10) ≡ false = ground arith in
    let no_minus : (code c == b'-') ≡ false = ground arith in
    let no_plus : (code c == b'+') ≡ false = ground arith in
    let fits : ltb n (2 ^ 63) ≡ true = ground arith in
    let all = leading_digits-AllDigits (c ∷ s) (lo, hi, h) in
    rw (no_space, no_tab, some_other, no_other, no_line, no_minus, no_plus, all, e, fits) refl

sscanf-show : (n : ℕ) → n < 2 ^ 63 → sscanf (show n) ≡ ok (pos n)
sscanf-show n b = sscanf-digits (show n) n (show-AtDigit n) (show-AllDigits n) (scan-show n) b

-- A value that stands for a number: the number itself, or its text, which has to fit into 64 bits.
abbrev pub StandsFor : Value → ℕ → Type 0
StandsFor v n = (v ≡ int64 (pos n)) ⊎ ((v ≡ text (show n)) × (n < 2 ^ 63))

to_int-StandsFor : (v : Value) (n : ℕ) → StandsFor v n → to_int v ≡ ok (pos n)
unfolding to_int
to_int-StandsFor v n (inl e) = rw e refl
to_int-StandsFor v n (inr (e, b)) = rw e (sscanf-show n b)

-- A reply whose first four values stand for the parts of a decision, each as a number or as a text,
-- is read as that decision.
pub parse-StandsFor :
    (d : Decision) (a b c l : Value) (rest : List Value)
    → StandsFor a (if d.allowed then 1 else 0)
    → StandsFor b d.remaining
    → StandsFor c d.retry_after
    → StandsFor l d.limit
    → parse_script_result (List.◌∷◌ a (List.◌∷◌ b (List.◌∷◌ c (List.◌∷◌ l rest)))) d.reset_after
      ≡ ok d
unfolding parse_script_result
parse-StandsFor d a b c l rest ha hb hc hl =
    rw
      (
        to_int-StandsFor a (if d.allowed then 1 else 0) ha,
        to_int-StandsFor b d.remaining hb,
        to_int-StandsFor c d.retry_after hc,
        to_int-StandsFor l d.limit hl,
      )
      (ap (λ (q : Bool). ok (record d { allowed = q })) (is_one-bit d.allowed))
