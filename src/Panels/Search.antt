-- ===== src/Panels/Search.antt =====
-- The search of the two tables: a row is shown where one of its texts holds the term, whatever the
-- case of the ASCII letters.
use rate_x_rate_limiter_web.Base.{
  ℕ, ◌≡◌, refl, ◌↔◌, ◌⊎◌, inl, inr, String, Bool, true, false, List, [], ◌∷◌, ◌++◌, any, keep,
  arith, if◌then◌else◌, ap, Bool-cases, ◌||◌,
}
use rate_x_rate_limiter_web.Text.{trim, to_lower, includes, begins}

-- `query.trim().toLowerCase()`
unfoldable pub term_of : String → List ℕ
unfolding trim to_lower
term_of query = to_lower (trim query)

-- `texts.some((value) => value.toLowerCase().includes(term))`
unfoldable pub matches : List ℕ → List String → Bool
unfolding to_lower includes
matches term texts = any (λ text. includes (to_lower text) term) texts

-- `rows.filter(…)` for a term that is not empty; all rows for an empty one.
unfoldable pub search_for {ℓ} : {A : Type ℓ} → (A → List String) → List ℕ → List A → List A
search_for texts [] rows = rows
search_for texts (c ∷ term) rows = keep (λ row. matches (c ∷ term) (texts row)) rows

-- The rows that a search leaves.
unfoldable pub search_rows {ℓ} : {A : Type ℓ} → (A → List String) → String → List A → List A
unfolding term_of search_for
search_rows texts query rows = search_for texts (term_of query) rows

-- A text is somewhere in another one.
abbrev pub Occurs : List ℕ → List ℕ → Type 0
Occurs t s = (before : List ℕ) × (after : List ℕ) × (s ≡ before ++ (t ++ after))

-- The term is somewhere in one of the texts, in lower case.
abbrev pub OccursInAny : List ℕ → List String → Type 0
OccursInAny term [] = ⊥
OccursInAny term (text ∷ texts) = Occurs term (to_lower text) ⊎ OccursInAny term texts

abbrev pub In : {A : Type 0} → A → List A → Type 0
In x [] = ⊥
In x (y ∷ l) = (x ≡ y) ⊎ In x l

begins_sound : (s t : List ℕ) → begins s t ≡ true → (after : List ℕ) × (s ≡ t ++ after)
unfolding begins
begins_sound s [] h = (s, refl)
begins_sound [] (d ∷ t) h = absurd (ground arith)
begins_sound (c ∷ s) (d ∷ t) h =
    let (after, e) = begins_sound s t (ground arith) in (after, ground arith)

begins_complete : (t after : List ℕ) → begins (t ++ after) t ≡ true
unfolding begins
begins_complete [] [] = refl
begins_complete [] (a ∷ after) = refl
begins_complete (d ∷ t) after = ground (arith, begins_complete t after)

includes_sound : (s t : List ℕ) → includes s t ≡ true → Occurs t s
unfolding includes
includes_sound [] t h = let (after, e) = begins_sound [] t h in ([], after, e)
includes_sound (c ∷ s) t h = elim (Bool-cases (begins (c ∷ s) t)) [
  | inl here ↦ let (after, e) = begins_sound (c ∷ s) t here in ([], after, e)
  | inr no_more ↦
      let (before, after, e) = includes_sound s t (rw no_more at h) in
      (c ∷ before, after, ap (λ l. c ∷ l) e)
]

includes_of_begins : (s t : List ℕ) → begins s t ≡ true → includes s t ≡ true
unfolding includes
includes_of_begins [] t h = h
includes_of_begins (c ∷ s) t h = rw h

includes_complete : (before t after : List ℕ) → includes (before ++ (t ++ after)) t ≡ true
unfolding includes
includes_complete [] t after = includes_of_begins (t ++ after) t (begins_complete t after)
includes_complete (c ∷ before) t after = ground (arith, includes_complete before t after)

matches_sound :
    (term : List ℕ) (texts : List String) → matches term texts ≡ true → OccursInAny term texts
unfolding matches
matches_sound term [] h = absurd (ground arith)
matches_sound term (text ∷ texts) h = elim (Bool-cases (includes (to_lower text) term)) [
  | inl here ↦ inl (includes_sound (to_lower text) term here)
  | inr no_more ↦ inr (matches_sound term texts (rw no_more at h))
]

or-true : (b : Bool) → (b || true) ≡ true
or-true b = ground arith

matches_complete :
    (term : List ℕ) (texts : List String) → OccursInAny term texts → matches term texts ≡ true
unfolding matches
matches_complete term (text ∷ texts) (inl (before, after, e)) =
    rw (e, includes_complete before term after)
matches_complete term (text ∷ texts) (inr later) =
    rw (matches_complete term texts later) (or-true (includes (to_lower text) term))
matches_complete term [] h = absurd h

module _ {A : Type 0} (test : A → Bool) (x : A) where
  In-keep_step :
      (b : Bool) (y : A) (l : List A)
      → test y ≡ b
      → (In x (keep test l) → In x l × (test x ≡ true))
      → In x (if b then y ∷ keep test l else keep test l)
      → In x (y ∷ l) × (test x ≡ true)
  In-keep_step true y l e ih (inl same) = (inl same, rw same e)
  In-keep_step true y l e ih (inr later) = let (m, t) = ih later in (inr m, t)
  In-keep_step false y l e ih later = let (m, t) = ih later in (inr m, t)

  In-keep_sound : (l : List A) → In x (keep test l) → In x l × (test x ≡ true)
  In-keep_sound [] h = absurd h
  In-keep_sound (y ∷ l) h = In-keep_step (test y) y l refl (In-keep_sound l) h

  keep-In_step :
      (b : Bool) (y : A) (l : List A)
      → In x (keep test l)
      → In x (if b then y ∷ keep test l else keep test l)
  keep-In_step true y l h = inr h
  keep-In_step false y l h = h

  In-keep_complete : (l : List A) → In x l → test x ≡ true → In x (keep test l)
  In-keep_complete [] h e = absurd h
  In-keep_complete (y ∷ l) (inl same) e = rw (rw same at e) (inl same)
  In-keep_complete (y ∷ l) (inr later) e = keep-In_step (test y) y l (In-keep_complete l later e)

-- The rows that a search shows are exactly the rows of which a text holds the term; with an empty
-- term, all rows.
pub In-search_rows_iff :
    {A : Type 0} (texts : A → List String) (query : String) (rows : List A) (row : A)
    → In row (search_rows texts query rows)
      ↔ (In row rows × ((term_of query ≡ []) ⊎ OccursInAny (term_of query) (texts row)))
unfolding search_rows
In-search_rows_iff texts query rows row = go (term_of query)
  where
    go :
        (term : List ℕ)
        → In row (search_for texts term rows)
          ↔ (In row rows × ((term ≡ []) ⊎ OccursInAny term (texts row)))
    go [] = (λ h. (h, inl refl), λ h. h.0)
    go (c ∷ term) = (
      λ h.
          let (m, t) = In-keep_sound (λ r. matches (c ∷ term) (texts r)) row rows h in
          (m, inr (matches_sound (c ∷ term) (texts row) t)),
      λ (m, k). elim k [
        | inl e ↦ absurd (cc e)
        | inr occurs ↦
            In-keep_complete (λ r. matches (c ∷ term) (texts r)) row rows m
              (matches_complete (c ∷ term) (texts row) occurs)
      ],
    )
