-- ===== src/Text/Numbers.antt =====
-- Numbers as texts: `strconv.Atoi` of Go, which reads what a template of the dashboard prints.
pub mod RoundTrip
use Prim.Native.String.{[], ◌∷◌}
use rate_x_rate_limiter_web.Base.{
  ℕ, ◌+◌, ◌-◌, ◌*◌, ◌^◌, String, Bool, true, false, code, Option, none, some, ltb, leb, ◌==◌, ◌&&◌,
  ◌||◌, if◌then◌else◌,
}

pub data ℤ : Type 0 where
  pos : ℕ → ℤ
  negsuc : ℕ → ℤ

abbrev pub neg : ℕ → ℤ
neg n = if n == 0 then pos 0 else negsuc (n - 1)

-- A negative number reads 0.
abbrev pub to_nat : ℤ → ℕ
to_nat (pos n) = n
to_nat (negsuc n) = 0

-- The two values of `strconv.Atoi`: of a text that is no number, 0 and an error; of a number that
-- does not fit into 64 bits, the nearest one that does and an error.
pub record Atoi : Type 0 where
  pub value : ℤ
  pub failed : Bool

unfoldable pub scan : String → ℕ → Option ℕ
scan [] n = some n
scan (c ∷ s) n =
    let rest = scan s (n * 10 + (code c - b'0')) in
    if leb b'0' (code c) && leb (code c) b'9' then rest else none

abbrev pub digits : String → Option ℕ
digits [] = none
digits (c ∷ s) = scan (c ∷ s) 0

abbrev pub no_number : Atoi
no_number = record { value = pos 0; failed = true }

abbrev pub positive : Option ℕ → Atoi
positive none = no_number
positive (some n) =
    if ltb n (2 ^ 63)
    then record { value = pos n; failed = false }
    else record { value = pos (2 ^ 63 - 1); failed = true }

abbrev pub negative : Option ℕ → Atoi
negative none = no_number
negative (some n) =
    if leb n (2 ^ 63)
    then record { value = neg n; failed = false }
    else record { value = neg (2 ^ 63); failed = true }

unfoldable pub atoi : String → Atoi
unfolding scan
atoi [] = no_number
atoi (c ∷ s) =
    if code c == b'-'
    then negative (digits s)
    else if code c == b'+'
    then positive (digits s)
    else positive (digits (c ∷ s))
