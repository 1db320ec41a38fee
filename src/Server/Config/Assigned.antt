-- ===== src/Server/Config/Assigned.antt =====
-- What is printed into a `.env` file is what the configuration reads.
use Prim.Native.String.{[], ◌∷◌}
use rate_x_rate_limiter_web.Base.{
  ℕ, ◌≡◌, refl, ap, ◌∙◌, ◌<◌, ◌^◌, String, Bool, false, ◌||◌, Option, none, some, List, ◌++◌, ◌==◌,
  str_eq, eq_refl, arith, All,
}
use rate_x_rate_limiter_web.Text.{is_empty, append, show}
use rate_x_rate_limiter_web.Text.Trim.{
  HasNone, trim_start-HasNone, trim_end-HasNone, append-HasNone,
}
use rate_x_rate_limiter_web.Text.Numbers.{ℤ, pos}
use rate_x_rate_limiter_web.Text.Numbers.RoundTrip.{
  atoi-show, AtDigit, show-AtDigit, AllDigits, show-AllDigits,
}
use rate_x_rate_limiter_web.Server.Auth.{is_go_space, trim_space}
use rate_x_rate_limiter_web.Server.Config.{
  get_env, cut, is_quote, trim_quotes, is_comment, assignment, set_env, load_lines, load_dot_env,
  string_env, int_env,
}

-- Neither white space nor a quotation mark, and for a name no "=" or "#" either.
abbrev pub is_odd : ℕ → Bool
is_odd c = is_go_space c || is_quote c

abbrev pub is_reserved : ℕ → Bool
is_reserved c = c == b'=' || c == b'#'

pub record IsName (key : String) : Type 0 where
  pub filled : is_empty key ≡ false
  pub plain : HasNone is_go_space key
  pub free : HasNone is_reserved key

abbrev pub IsValue : String → Type 0
IsValue value = HasNone is_odd value

-- A line with an assignment.
abbrev pub line_of : String → String → String
line_of key value = append key (append "=" value)

cut-line_of :
    (key value : String) → HasNone is_reserved key → cut (line_of key value) ≡ some (key, value)
unfolding cut
cut-line_of [] value h = refl
cut-line_of (c ∷ key) value (h, hs) = rw (cut-line_of key value hs) (ground arith)

value-spaces : (s : String) → IsValue s → HasNone is_go_space s
value-spaces [] h = tt
value-spaces (c ∷ s) (h, hs) = (ground arith, value-spaces s hs)

value-quotes : (s : String) → IsValue s → HasNone is_quote s
value-quotes [] h = tt
value-quotes (c ∷ s) (h, hs) = (ground arith, value-quotes s hs)

trim_space-HasNone : (s : String) → HasNone is_go_space s → trim_space s ≡ s
unfolding trim_space
trim_space-HasNone s h = rw (trim_start-HasNone is_go_space s h) (trim_end-HasNone is_go_space s h)

trim_quotes-HasNone : (s : String) → HasNone is_quote s → trim_quotes s ≡ s
unfolding trim_quotes
trim_quotes-HasNone s h = rw (trim_start-HasNone is_quote s h) (trim_end-HasNone is_quote s h)

is_comment-line_of : (key value : String) → IsName key → is_comment (line_of key value) ≡ false
is_comment-line_of [] value name = absurd (let e = name.filled in cc)
is_comment-line_of (c ∷ key) value name = (let f = name.free.0 in ground arith)

-- The line that is printed for an assignment is read as this assignment.
assignment-line_of :
    (key value : String)
    → IsName key
    → IsValue value
    → assignment (line_of key value) ≡ some (key, value)
unfolding assignment
assignment-line_of key value name plain =
    let spaces : HasNone is_go_space (line_of key value) =
      append-HasNone is_go_space key (append "=" value) name.plain
        (unfold is_go_space in (refl, value-spaces value plain)) in
    rw
      (
        trim_space-HasNone (line_of key value) spaces,
        is_comment-line_of key value name,
        cut-line_of key value name.free,
        trim_space-HasNone key name.plain,
        name.filled,
        trim_space-HasNone value (value-spaces value plain),
        trim_quotes-HasNone value (value-quotes value plain),
      )
      refl

-- Whether an assignment is one of the name.
abbrev pub names : String → Option (String × String) → Bool
names key none = false
names key (some (k, v)) = str_eq k key

-- No line assigns the name.
abbrev pub LeaveAlone : String → List String → Type 0
LeaveAlone key lines = All (λ (line : String). names key (assignment line) ≡ false) lines

get_env-set_env :
    (key : String) (a : Option (String × String)) (env : List (String × String))
    → names key a ≡ false
    → get_env (set_env a env) key ≡ get_env env key
unfolding get_env
get_env-set_env key none env h = refl
get_env-set_env key (some (k, v)) env h = rw h

get_env-load_lines :
    (key : String) (lines : List String) (env : List (String × String))
    → LeaveAlone key lines
    → get_env (load_lines lines env) key ≡ get_env env key
get_env-load_lines key List.[] env h = refl
get_env-load_lines key (List.◌∷◌ line lines) env (h, hs) =
    get_env-load_lines key lines (set_env (assignment line) env) hs
    ∙ get_env-set_env key (assignment line) env h

load_lines-append :
    (before : List String) (line : String) (after : List String) (env : List (String × String))
    → load_lines (before ++ List.◌∷◌ line after) env
      ≡ load_lines after (set_env (assignment line) (load_lines before env))
load_lines-append List.[] line after env = refl
load_lines-append (List.◌∷◌ first before) line after env =
    load_lines-append before line after (set_env (assignment first) env)

-- The environment after a file with lines before and after the printed assignment.
abbrev pub loaded :
    List String → String → String → List String → List (String × String) → List (String × String)
loaded before key value after env =
    load_dot_env (some (before ++ List.◌∷◌ (line_of key value) after)) env

get_env-loaded :
    (before : List String) (key value : String) (after : List String) (env : List (String × String))
    → IsName key
    → IsValue value
    → LeaveAlone key after
    → get_env (loaded before key value after env) key ≡ value
unfolding load_dot_env get_env
get_env-loaded before key value after env name plain alone =
    ap (λ e. get_env e key) (load_lines-append before (line_of key value) after env)
    ∙ (get_env-load_lines key after
          (set_env (assignment (line_of key value)) (load_lines before env)) alone
        ∙ (rw (assignment-line_of key value name plain, eq_refl key) refl))

digits-IsValue : (s : String) → AllDigits s → IsValue s
unfolding is_go_space
digits-IsValue [] h = tt
digits-IsValue (c ∷ s) (lo, hi, h) = (ground arith, digits-IsValue s h)

filled-AtDigit : (s : String) → AtDigit s → is_empty s ≡ false
filled-AtDigit [] h = absurd h
filled-AtDigit (c ∷ s) h = refl

show-filled : (n : ℕ) → is_empty (show n) ≡ false
show-filled n = filled-AtDigit (show n) (show-AtDigit n)

-- The last assignment of a name in a `.env` file, printed as name, "=" and value without white space
-- and quotation marks, is what the configuration reads for it, whatever stands before it and
-- whatever the environment was: a value that is not empty as it is, and the digits of a number below
-- 2^63 as this number.
pub env-loaded :
    (before : List String) (key : String) (after : List String) (env : List (String × String))
    → IsName key
    → LeaveAlone key after
    → ((value fallback : String)
        → IsValue value
        → is_empty value ≡ false
        → string_env (loaded before key value after env) key fallback ≡ value)
      × ((n : ℕ) (fallback : ℤ)
          → n < 2 ^ 63
          → int_env (loaded before key (show n) after env) key fallback ≡ pos n)
unfolding string_env int_env
env-loaded before key after env name alone = (
  (λ value fallback plain filled.
      rw
        (
          get_env-loaded before key value after env name plain alone,
          trim_space-HasNone value (value-spaces value plain),
          filled,
        )
        refl),
  (λ n fallback small.
      let plain = digits-IsValue (show n) (show-AllDigits n) in
      rw
        (
          get_env-loaded before key (show n) after env name plain alone,
          trim_space-HasNone (show n) (value-spaces (show n) plain),
          show-filled n,
          atoi-show n small,
        )
        refl),
)
