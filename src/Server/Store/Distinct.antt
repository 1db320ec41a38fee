-- ===== src/Server/Store/Distinct.antt =====
-- Tables in which an identifier, and a key of another kind, stand for one row.
use rate_x_rate_limiter_web.Base.{
  ◌≡◌, refl, String, Bool, true, false, not, ◌&&◌, ◌||◌, List, [], ◌∷◌, any, keep, map, str_eq,
  eq_iff, arith, Bool-cases, inl, inr, if◌then◌else◌, ap, ◌∙◌,
}

pub str_eq_sym : (s t : String) → str_eq s t ≡ str_eq t s
str_eq_sym s t = ground (arith, eq_iff s t, eq_iff t s)

module _ {A : Type 0} (test : A → Bool) (t : A → Bool) where
  pub any-keep : (xs : List A) → any test xs ≡ false → any test (keep t xs) ≡ false
  any-keep [] h = h
  any-keep (x ∷ xs) h = ground (arith, any-keep xs)

module _ {A K : Type 0} (id_of : A → String) (key_of : A → K) (same_key : K → K → Bool) where
  abbrev pub same_row : A → A → Bool
  same_row x y = str_eq (id_of x) (id_of y) || same_key (key_of x) (key_of y)

  abbrev pub Distinct : List A → Type 0
  Distinct [] = Unit
  Distinct (x ∷ xs) = (any (same_row x) xs ≡ false) × Distinct xs

  pub Distinct-keep : (t : A → Bool) (xs : List A) → Distinct xs → Distinct (keep t xs)
  Distinct-keep t [] h = tt
  Distinct-keep t (x ∷ xs) (h, hs) = elim (Bool-cases (t x)) [
    | inl stays ↦ rw stays (any-keep (same_row x) t xs h, Distinct-keep t xs hs)
    | inr goes ↦ rw goes (Distinct-keep t xs hs)
  ]

  any-map_kept :
      (g : A → A)
      → ((x : A) → id_of (g x) ≡ id_of x)
      → ((x : A) → key_of (g x) ≡ key_of x)
      → (x : A) (xs : List A) → any (same_row (g x)) (map g xs) ≡ any (same_row x) xs
  any-map_kept g i k x [] = refl
  any-map_kept g i k x (y ∷ xs) = rw (i x, k x, i y, k y, ← any-map_kept g i k x xs) refl

  -- A change of other columns.
  pub Distinct-map :
      (g : A → A)
      → ((x : A) → id_of (g x) ≡ id_of x)
      → ((x : A) → key_of (g x) ≡ key_of x)
      → (xs : List A) → Distinct xs
      → Distinct (map g xs)
  Distinct-map g i k [] h = tt
  Distinct-map g i k (x ∷ xs) (h, hs) = (any-map_kept g i k x xs ∙ h, Distinct-map g i k xs hs)

-- The row with an identifier is replaced by one with the same identifier and the key `k`.
module _ {A K : Type 0} (id_of : A → String) (key_of : A → K) (same_key : K → K → Bool)
    (same_key_sym : (a b : K) → same_key a b ≡ same_key b a) (id : String) (k : K) (f : A → A)
    (id_of-f : (x : A) → id_of (f x) ≡ id_of x) (key_of-f : (x : A) → key_of (f x) ≡ k) where
  abbrev replace : A → A
  replace x = if str_eq (id_of x) id then f x else x

  abbrev other_has : A → Bool
  other_has y = not (str_eq (id_of y) id) && same_key (key_of y) k

  alone :
      (x : A) (xs : List A)
      → str_eq (id_of x) id ≡ true
      → any (same_row id_of key_of same_key x) xs ≡ false
      → map replace xs ≡ xs
  alone x [] e h = refl
  alone x (y ∷ xs) e h =
      let ne : str_eq (id_of y) id ≡ false =
        ground (arith, eq_iff (id_of x) id, eq_iff (id_of y) id, eq_iff (id_of x) (id_of y)) in
      rw ne (ap (λ l. y ∷ l) (alone x xs e (ground arith)))

  fresh_key :
      (x : A) (xs : List A)
      → str_eq (id_of x) id ≡ true
      → any (same_row id_of key_of same_key x) xs ≡ false
      → any other_has xs ≡ false
      → any (same_row id_of key_of same_key (f x)) xs ≡ false
  fresh_key x [] e h o = refl
  fresh_key x (y ∷ xs) e h o =
      let ne : str_eq (id_of y) id ≡ false =
        ground (arith, eq_iff (id_of x) id, eq_iff (id_of y) id, eq_iff (id_of x) (id_of y)) in
      let rest : any (same_row id_of key_of same_key (f x)) xs ≡ false =
        fresh_key x xs e (ground arith) (ground arith) in
      let key : same_key k (key_of y) ≡ false =
        same_key_sym k (key_of y) ∙ (let o' = rw ne at o in ground arith) in
      let id' : str_eq (id_of x) (id_of y) ≡ false = ground arith in
      rw (rest, id_of-f x, key_of-f x, id', key) refl

  kept :
      (x : A) (xs : List A)
      → str_eq (id_of x) id ≡ false
      → same_key (key_of x) k ≡ false
      → any (same_row id_of key_of same_key x) xs ≡ false
      → any (same_row id_of key_of same_key x) (map replace xs) ≡ false
  kept x [] e o h = refl
  kept x (y ∷ xs) e o h =
      let rest : any (same_row id_of key_of same_key x) (map replace xs) ≡ false =
        kept x xs e o (ground arith) in
      let id' : str_eq (id_of x) (id_of y) ≡ false = ground arith in
      let key : same_key (key_of x) (key_of y) ≡ false = ground arith in
      elim (Bool-cases (str_eq (id_of y) id)) [
        | inl same ↦ rw (same, rest, id_of-f y, key_of-f y, id', o) refl
        | inr other ↦ rw (other, rest, id', key) refl
      ]

  pub Distinct-replace :
      (xs : List A)
      → any other_has xs ≡ false
      → Distinct id_of key_of same_key xs
      → Distinct id_of key_of same_key (map replace xs)
  Distinct-replace [] o h = tt
  Distinct-replace (x ∷ xs) o (h, hs) = elim (Bool-cases (str_eq (id_of x) id)) [
    | inl same ↦
        rw (same, alone x xs same h) (fresh_key x xs same h (let o' = rw same at o in o'), hs)
    | inr other ↦
        let o' = rw other at o in
        rw other (kept x xs other (ground arith) h, Distinct-replace xs (ground arith) hs)
  ]
