-- ===== src/Limiter/Sliding/Refines.antt =====
-- The script makes the decisions of the specification.
use rate_x_rate_limiter_web.Base.{
  ℕ, ◌-◌, ◌≤◌, ◌≡◌, refl, Bool, true, List, [], ◌∷◌, keep, length, ltb, if◌then◌else◌, arith,
  Bool-cases, inl, inr, ap, ap₂, ◌∙◌, sym, ◌*◌,
}
use rate_x_rate_limiter_web.Limiter.Sliding.{
  SortedSet, Config, insert, trimmed, decide, allow, decisions,
}
use rate_x_rate_limiter_web.Limiter.Times.{Follows}
use rate_x_rate_limiter_web.Limiter.Sliding.Spec.{in_window, in_use, admits, admit, spec}

keep-agree : (f g : ℕ → Bool) (xs : List ℕ) → ((x : ℕ) → f x ≡ g x) → keep f xs ≡ keep g xs
keep-agree f g [] h = refl
keep-agree f g (x ∷ xs) h = rw (h x, keep-agree f g xs h)

keep_all : (f : ℕ → Bool) (xs : List ℕ) → ((x : ℕ) → f x ≡ true) → keep f xs ≡ xs
keep_all f [] h = refl
keep_all f (x ∷ xs) h = rw (h x, keep_all f xs h)

in_use-insert :
    (c : Config) (now x : ℕ) (ys : List ℕ) → in_use c now (insert x ys) ≡ in_use c now (x ∷ ys)
in_use-insert c now x [] = refl
in_use-insert c now x (y ∷ ys) = ground (arith, in_use-insert c now x ys)

-- What leaves the window now is in no later window.
in_use-keep :
    (c : Config) (now later : ℕ) (xs : List ℕ)
    → now ≤ later
    → in_use c later (keep (in_window c now) xs) ≡ in_use c later xs
in_use-keep c now later [] h = refl
in_use-keep c now later (x ∷ xs) h = ground (arith, in_use-keep c now later xs h)

module _ (z : SortedSet) (c : Config) where
  open z use {
    Store, scores, card, remove_through, add, scores-remove_through, card-eq, scores-add,
    scores-expire,
  }

  scores-trimmed :
      (now : ℕ) (s : Store) → scores (trimmed z c now s) ≡ keep (in_window c now) (scores s)
  unfolding trimmed
  scores-trimmed now s = elim (Bool-cases (ltb now c.window)) [
    | inl early ↦ rw early (sym (keep_all (in_window c now) (scores s) (λ x. ground arith)))
    | inr late ↦ rw late (
        scores-remove_through (now - c.window) s
        ∙ keep-agree (λ x. ltb (now - c.window) x) (in_window c now) (scores s) (λ x. ground arith))
  ]

  -- The scores stand for the past, as far as the windows from now on see it.
  abbrev pub StandsFor : ℕ → Store → List ℕ → Type 0
  StandsFor now s past = (later : ℕ) → now ≤ later → in_use c later (scores s) ≡ in_use c later past

  card-trimmed :
      (now : ℕ) (s : Store) (past : List ℕ)
      → StandsFor now s past
      → card (trimmed z c now s) ≡ in_use c now past
  card-trimmed now s past h =
      card-eq (trimmed z c now s) ∙ ap length (scores-trimmed now s) ∙ h now (omega arith)

  allowed-decide : (now : ℕ) (s : Store) → (decide z c now s).0.allowed ≡ ltb (card s) c.limit
  unfolding decide
  allowed-decide now s = ground arith

  pub allowed-allow :
      (now : ℕ) (s : Store) (past : List ℕ)
      → StandsFor now s past
      → (allow z c now s).0.allowed ≡ admits c past now
  unfolding allow
  allowed-allow now s past h =
      allowed-decide now (trimmed z c now s) ∙ ap (λ n. ltb n c.limit) (card-trimmed now s past h)

  -- What the script leaves in the set.
  abbrev left : ℕ → Store → List ℕ
  left now s = if ltb (card s) c.limit then insert now (scores s) else scores s

  scores-decide : (now : ℕ) (s : Store) → scores (decide z c now s).1 ≡ left now s
  unfolding decide
  scores-decide now s = elim (Bool-cases (ltb (card s) c.limit)) [
    | inl room ↦ rw room (scores-expire (2 * c.window) (add now s) ∙ scores-add now s)
    | inr none_left ↦ rw none_left (scores-expire (2 * c.window) s)
  ]

  in_use-trimmed :
      (now later : ℕ) (s : Store) (past : List ℕ)
      → StandsFor now s past
      → now ≤ later
      → in_use c later (scores (trimmed z c now s)) ≡ in_use c later past
  in_use-trimmed now later s past h le =
      ap (in_use c later) (scores-trimmed now s)
      ∙ in_use-keep c now later (scores s) le
      ∙ h later le

  pub allow-StandsFor :
      (now : ℕ) (s : Store) (past : List ℕ)
      → StandsFor now s past
      → StandsFor now (allow z c now s).1 (admit c past now)
  unfolding allow
  allow-StandsFor now s past h later le =
      let t : Store = trimmed z c now s in
      let same : in_use c later (scores t) ≡ in_use c later past =
        in_use-trimmed now later s past h le in
      let room : card t ≡ in_use c now past = card-trimmed now s past h in
      ap (in_use c later) (scores-decide now t)
      ∙ ground (arith, same, room, in_use-insert c later now (scores t))

  decisions-spec_from :
      (now : ℕ) (s : Store) (past times : List ℕ)
      → StandsFor now s past
      → Follows now times
      → decisions z c s times ≡ spec c past times
  decisions-spec_from now s past [] h f = refl
  decisions-spec_from now s past (t ∷ times) h (le, f) =
      let at_t : StandsFor t s past = λ later k. h later (omega arith) in
      ap₂ (λ b bs. b ∷ bs) (allowed-allow t s past at_t)
        (decisions-spec_from t (allow z c t s).1 (admit c past t) times
          (allow-StandsFor t s past at_t) f)

  -- From an empty set, for requests at times that do not go back, the script makes the decisions of
  -- the specification, which remembers every request that it let through.
  pub decisions-spec :
      (now : ℕ) (s : Store) (times : List ℕ)
      → scores s ≡ []
      → Follows now times
      → decisions z c s times ≡ spec c [] times
  decisions-spec now s times e f =
      decisions-spec_from now s [] times (λ later k. ap (in_use c later) e) f
