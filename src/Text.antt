-- ===== src/Text.antt =====
-- The text operations of JavaScript's `String` that the dashboard calls: templates, `trim`,
-- `toLowerCase`, `includes`, and a number in a template. White space is the set of `trim` in the
-- Basic Multilingual Plane; `toLowerCase` is the mapping of the ASCII letters, and leaves every
-- other character as it is.
pub mod Numbers
pub mod Trim
use Prim.Native.String.{[], ◌∷◌}
use text.Mathlib.TextLemmas.{nil≢cons}
use rate_x_rate_limiter_web.Base.{
  ℕ, zero, suc, ◌+◌, ◌/◌, ◌%◌, Char, code, String, Bool, true, false, ◌&&◌, ◌||◌, List, ltb, leb,
  ◌==◌, if◌then◌else◌, map, ◌≡◌, str_eq, Bool-cases, inl, inr, eq_iff,
}

-- Concatenation by clauses, so that it computes on a text that is known in part.
abbrev pub append : String → String → String
append [] t = t
append (c ∷ s) t = c ∷ append s t

-- The parts of a template, in order.
abbrev pub join : List String → String
join List.[] = ""
join (List.◌∷◌ s r) = append s (join r)

pub append-empty : (s : String) → append s "" ≡ s
append-empty [] = cc
append-empty (c ∷ s) = rw (append-empty s)

abbrev pub is_empty : String → Bool
is_empty [] = true
is_empty (c ∷ s) = false

pub str_eq-empty : (s : String) → is_empty s ≡ false → str_eq "" s ≡ false
str_eq-empty [] h = cc
str_eq-empty (c ∷ s) h = elim (Bool-cases (str_eq "" (c ∷ s))) [
  | inl e ↦ absurd (nil≢cons ((eq_iff "" (c ∷ s)).0 e))
  | inr e ↦ e
]

-- `a || b` on texts
abbrev pub or_text : String → String → String
or_text a b = if is_empty a then b else a

-- White space for `trim`.
unfoldable pub is_space : ℕ → Bool
is_space c =
    (leb 9 c && leb c 13)
    || c == 32
    || c == 0xa0
    || c == 0x1680
    || (leb 0x2000 c && leb c 0x200a)
    || c == 0x2028
    || c == 0x2029
    || c == 0x202f
    || c == 0x205f
    || c == 0x3000
    || c == 0xfeff

-- Trimming, for a test of which characters are white space.
unfoldable pub trim_start : (ℕ → Bool) → String → String
trim_start space [] = []
trim_start space (c ∷ s) = let rest = trim_start space s in if space (code c) then rest else c ∷ s

-- A character is put before what is left of the rest, unless it is white space and nothing is.
abbrev put : (ℕ → Bool) → Char → String → String
put space c rest = if is_empty rest && space (code c) then [] else c ∷ rest

unfoldable pub trim_end : (ℕ → Bool) → String → String
trim_end space [] = []
trim_end space (c ∷ s) = put space c (trim_end space s)

-- `s.trim()`
unfoldable pub trim : String → String
unfolding trim_start trim_end is_space
trim s = trim_end is_space (trim_start is_space s)

abbrev pub codes : String → List ℕ
codes [] = List.[]
codes (c ∷ s) = List.◌∷◌ (code c) (codes s)

unfoldable pub lower_code : ℕ → ℕ
lower_code c = if leb 65 c && leb c 90 then c + 32 else c

unfoldable pub to_lower : String → List ℕ
unfolding lower_code
to_lower s = map lower_code (codes s)

-- `s` begins with `t`, as code points
unfoldable pub begins : List ℕ → List ℕ → Bool
begins s List.[] = true
begins List.[] (List.◌∷◌ d t) = false
begins (List.◌∷◌ c s) (List.◌∷◌ d t) = c == d && begins s t

-- `s.startsWith(t)`
abbrev pub starts_with : String → String → Bool
starts_with s t = begins (codes s) (codes t)

-- `a === b`, by code points: it computes on texts that are known in part.
unfoldable pub same : String → String → Bool
same [] [] = true
same [] (d ∷ t) = false
same (c ∷ s) [] = false
same (c ∷ s) (d ∷ t) = code c == code d && same s t

-- `s.includes(t)`
unfoldable pub includes : List ℕ → List ℕ → Bool
unfolding begins
includes List.[] t = begins List.[] t
includes (List.◌∷◌ c s) t = begins (List.◌∷◌ c s) t || includes s t

abbrev digit : ℕ → String
digit n =
    if n == 0
    then "0"
    else if n == 1
    then "1"
    else if n == 2
    then "2"
    else if n == 3
    then "3"
    else if n == 4
    then "4"
    else if n == 5
    then "5"
    else if n == 6
    then "6"
    else if n == 7
    then "7"
    else if n == 8
    then "8"
    else "9"

-- The decimal digits of a number, in front of `acc`; the fuel is above the number of digits.
show_from : ℕ → ℕ → String → String
show_from zero n acc = acc
show_from (suc f) n acc =
    let text = append (digit (n % 10)) acc in
    let rest = show_from f (n / 10) text in if ltb n 10 then text else rest

-- A number in a template.
unfoldable pub show : ℕ → String
unfolding show_from
show n = show_from (suc n) n ""
