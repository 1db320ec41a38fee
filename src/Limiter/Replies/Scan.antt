-- ===== src/Limiter/Replies/Scan.antt =====
-- `fmt.Sscanf(s, "%d", &n)`: spaces, a sign, and as many digits as there are; what comes after them
-- is left. The error messages are one here. Spaces are those of ASCII.
use Prim.Native.String.{[], ◌∷◌}
use rate_x_rate_limiter_web.Base.{
  String, Bool, ◌&&◌, ◌||◌, code, Char, Result, ok, err, ◌>>=◌, leb, ◌==◌, if◌then◌else◌,
}
use rate_x_rate_limiter_web.Text.Numbers.{ℤ, Atoi, digits, no_number, positive, negative}

abbrev is_blank : Char → Bool
is_blank c = code c == 32 || code c == 9 || (leb 11 (code c) && leb (code c) 13)

-- Blanks are left out; a new line is an error.
unfoldable pub skip_space : String → Result String
skip_space [] = ok []
skip_space (c ∷ s) =
    let rest = skip_space s in
    if is_blank c then rest else if code c == 10 then err "bad number" else ok (c ∷ s)

-- The digits that a text begins with.
unfoldable pub leading_digits : String → String
leading_digits [] = []
leading_digits (c ∷ s) =
    let rest = leading_digits s in if leb b'0' (code c) && leb (code c) b'9' then c ∷ rest else []

abbrev signed : String → Atoi
signed [] = no_number
signed (c ∷ s) =
    if code c == b'-'
    then negative (digits (leading_digits s))
    else if code c == b'+'
    then positive (digits (leading_digits s))
    else positive (digits (leading_digits (c ∷ s)))

abbrev checked : Atoi → Result ℤ
checked a = if a.failed then err "bad number" else ok a.value

unfoldable pub sscanf : String → Result ℤ
sscanf s = do rest ← skip_space s; checked (signed rest)
