-- ===== src/Pages/View.antt =====
-- What a component of the dashboard renders: texts, elements with their tag and class, buttons with
-- what a click does, and fields with their value and what a change does; the options of a selection
-- have a value and a text. A button that does nothing is an element.
use rate_x_rate_limiter_web.Base.{
  String, List, [], ◌∷◌, ◌++◌, map, keep, str_eq, ◌≡◌, refl, ap, ◌∙◌, sym,
}
use rate_x_rate_limiter_web.Text.{append}

infixr 5 ◌&◌
mutual
  pub data View (A : Type 0) : Type 0 where
    words : String → View A
    part : String → String → Views A → View A
    button : String → A → Views A → View A
    input : String → (String → A) → View A
    select : String → List (String × String) → (String → A) → View A

  pub data Views (A : Type 0) : Type 0 where
    end : Views A
    ◌&◌ : View A → Views A → Views A

-- An element with nothing but a text.
abbrev pub says : {A : Type 0} → String → String → View A
says tag t = part tag "" (words t & end)

-- `list.map(...)` between braces
abbrev pub each : {A B : Type 0} → (B → View A) → List B → Views A → Views A
each f [] rest = rest
each f (b ∷ bs) rest = f b & each f bs rest

-- Options whose texts are their values.
abbrev pub plain : List String → List (String × String)
plain values = map (λ v. (v, v)) values

-- A button with its class, what a click does, and its text.
pub record Button (A : Type 0) : Type 0 where
  pub class_name : String
  pub on_click : A
  pub label : String

unfoldable mutual
  pub text : {A : Type 0} → View A → String
  text (words t) = t
  text (input value change) = ""
  text (select value options change) = ""
  text (part tag name inner) = texts inner
  text (button name a inner) = texts inner

  pub texts : {A : Type 0} → Views A → String
  texts end = ""
  texts (v & vs) = append (text v) (texts vs)

unfoldable mutual
  pub buttons_of : {A : Type 0} → View A → List (Button A)
  buttons_of (words t) = []
  buttons_of (input value change) = []
  buttons_of (select value options change) = []
  buttons_of (part tag name inner) = buttons inner
  buttons_of (button name a inner) =
      record { class_name = name; on_click = a; label = texts inner } ∷ []

  pub buttons : {A : Type 0} → Views A → List (Button A)
  buttons end = []
  buttons (v & vs) = buttons_of v ++ buttons vs

-- What clicks on the buttons that are shown as active do.
abbrev pub active : {A : Type 0} → View A → List A
active v =
    map (λ (b : Button _). b.on_click)
      (keep (λ (b : Button _). str_eq b.class_name "active") (buttons_of v))

abbrev pub clicks : {A : Type 0} → View A → List A
clicks v = map (λ (b : Button _). b.on_click) (buttons_of v)

-- What the clicks on the buttons of some elements do.
abbrev pub clicks_in : {A : Type 0} → Views A → List A
clicks_in vs = map (λ (b : Button _). b.on_click) (buttons vs)

pub map-append :
    {A B : Type 0} (f : A → B) (xs ys : List A) → map f (xs ++ ys) ≡ map f xs ++ map f ys
map-append f [] ys = refl
map-append f (x ∷ xs) ys = ap (λ rest. f x ∷ rest) (map-append f xs ys)

append_assoc : {A : Type 0} (xs ys zs : List A) → (xs ++ ys) ++ zs ≡ xs ++ (ys ++ zs)
append_assoc [] ys zs = refl
append_assoc (x ∷ xs) ys zs = ap (λ rest. x ∷ rest) (append_assoc xs ys zs)

pub append_nil : {A : Type 0} (xs : List A) → xs ++ [] ≡ xs
append_nil [] = refl
append_nil (x ∷ xs) = ap (λ rest. x ∷ rest) (append_nil xs)

-- The clicks of the items of a list, one item after the other.
abbrev pub clicks_each : {A B : Type 0} → (B → List A) → List B → List A
clicks_each f [] = []
clicks_each f (b ∷ bs) = f b ++ clicks_each f bs

pub clicks_in-each :
    {A B : Type 0} (f : B → View A) (g : B → List A) (bs : List B) (rest : Views A)
    → ((b : B) → clicks (f b) ≡ g b)
    → clicks_in (each f bs rest) ≡ clicks_each g bs ++ clicks_in rest
unfolding buttons
clicks_in-each f g [] rest h = refl
clicks_in-each f g (b ∷ bs) rest h =
    map-append (λ (c : Button _). c.on_click) (buttons_of (f b)) (buttons (each f bs rest))
    ∙ rw (h b, clicks_in-each f g bs rest h)
        (sym (append_assoc (g b) (clicks_each g bs) (clicks_in rest)))

-- A list of items at the end of an element, with nothing to click on after them.
pub clicks-listed :
    {A B : Type 0} (f : B → View A) (g : B → List A) (bs : List B) (rest : Views A)
    → ((b : B) → clicks (f b) ≡ g b)
    → clicks_in rest ≡ []
    → map (λ (b : Button A). b.on_click) (buttons (each f bs rest) ++ []) ≡ clicks_each g bs
clicks-listed f g bs rest h e =
    ap (λ bs'. map (λ (b : Button _). b.on_click) bs') (append_nil (buttons (each f bs rest)))
    ∙ clicks_in-each f g bs rest h
    ∙ ap (λ more. clicks_each g bs ++ more) e
    ∙ append_nil (clicks_each g bs)
