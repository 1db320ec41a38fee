-- ===== src/Server/Factory/Sequential.antt =====
-- The cache of limiters while calls do not overlap.
use rate_x_rate_limiter_web.Base.{
  ◌≡◌, refl, inl, inr, String, Bool, Option, none, some, List, [], ◌∷◌, str_eq, All, sym, eq_iff,
  eq_refl, Bool-cases, subst,
}
use rate_x_rate_limiter_web.Model.{PolicyDraft}
use rate_x_rate_limiter_web.Server.Policies.{new_limiter}
use rate_x_rate_limiter_web.Server.Factory.{
  Object, Factory, empty, cache_key, lookup, finish, from_policy, after,
}
use rate_x_rate_limiter_web.Server.Factory.Keys.{HasNoColon, new_limiter-cache_key}

abbrev pub Plain : PolicyDraft → Type 0
Plain p = HasNoColon p.algorithm

module _ (in_memory : Bool) (backend : String) where
  -- An entry is the limiter of every policy with its key.
  abbrev IsFaithful : List (String × Object) → Type 0
  IsFaithful [] = Unit
  IsFaithful ((k, o) ∷ cache) =
      ((p : PolicyDraft) → Plain p → cache_key backend p ≡ k → o.limiter ≡ new_limiter in_memory p)
      × IsFaithful cache

  lookup-IsFaithful :
      (cache : List (String × Object)) (p : PolicyDraft) (o : Object)
      → IsFaithful cache
      → Plain p
      → lookup (cache_key backend p) cache ≡ some o
      → o.limiter ≡ new_limiter in_memory p
  lookup-IsFaithful [] p o h plain e = absurd (cc)
  lookup-IsFaithful ((k, q) ∷ cache) p o (h, hs) plain e =
      elim (Bool-cases (str_eq (cache_key backend p) k)) [
        | inl same ↦
            let found : some q ≡ some o = rw same at e in
            let same_object : q ≡ o = cc found in
            subst (λ (x : Object). x.limiter ≡ new_limiter in_memory p) same_object
              (h p plain ((eq_iff (cache_key backend p) k).0 same))
        | inr other ↦ lookup-IsFaithful cache p o hs plain (rw other at e)
      ]

  -- A call gives the limiter of its policy, and keeps the cache faithful.
  finish_lem :
      (f : Factory) (p : PolicyDraft) (found : Option Object)
      → IsFaithful f.cache
      → Plain p
      → lookup (cache_key backend p) f.cache ≡ found
      → ((finish in_memory (cache_key backend p) p found f).0.limiter ≡ new_limiter in_memory p)
        × IsFaithful (finish in_memory (cache_key backend p) p found f).1.cache
  finish_lem f p none h plain e = (
    refl,
    (λ q plain_q same. new_limiter-cache_key in_memory backend p q plain plain_q (sym same), h),
  )
  finish_lem f p (some o) h plain e = (lookup-IsFaithful f.cache p o h plain e, h)

  after-IsFaithful :
      (ps : List PolicyDraft) (f : Factory)
      → IsFaithful f.cache
      → All Plain ps
      → IsFaithful (after in_memory backend ps f).cache
  unfolding after
  after-IsFaithful [] f h all = h
  after-IsFaithful (p ∷ ps) f h (plain, all) =
      after-IsFaithful ps _ (finish_lem f p (lookup (cache_key backend p) f.cache) h plain refl).1
        all

  -- After calls for any policies, one after the other, a call for a policy returns a limiter of the
  -- kind, the capacity or limit and the window that a new one for it would have, where no algorithm
  -- has a colon in its name.
  pub from_policy-new_limiter :
      (ps : List PolicyDraft) (p : PolicyDraft)
      → All Plain ps
      → Plain p
      → (from_policy in_memory backend p (after in_memory backend ps empty)).0.limiter
        ≡ new_limiter in_memory p
  unfolding from_policy
  from_policy-new_limiter ps p all plain =
      (finish_lem (after in_memory backend ps empty) p _ (after-IsFaithful ps empty tt all) plain
        refl).0

  -- What was found once is found again.
  finish-lookup :
      (f : Factory) (k : String) (o : Object) (j : String) (p : PolicyDraft) (found : Option Object)
      → lookup k f.cache ≡ some o
      → lookup j f.cache ≡ found
      → lookup k (finish in_memory j p found f).1.cache ≡ some o
  finish-lookup f k o j p (some q) h e = h
  finish-lookup f k o j p none h e = elim (Bool-cases (str_eq k j)) [
    | inl same ↦ absurd (cc ((eq_iff k j).0 same, h, e))
    | inr other ↦ rw other h
  ]

  pub after-lookup :
      (ps : List PolicyDraft) (f : Factory) (k : String) (o : Object)
      → lookup k f.cache ≡ some o
      → lookup k (after in_memory backend ps f).cache ≡ some o
  unfolding after
  after-lookup [] f k o h = h
  after-lookup (q ∷ ps) f k o h =
      after-lookup ps _ k o (finish-lookup f k o (cache_key backend q) q _ h refl)

  finish-kept :
      (f : Factory) (k : String) (p : PolicyDraft) (found : Option Object)
      → lookup k f.cache ≡ found
      → lookup k (finish in_memory k p found f).1.cache ≡ some (finish in_memory k p found f).0
  finish-kept f k p none e = rw (eq_refl k)
  finish-kept f k p (some o) e = e

  -- A policy keeps its limiter: a later call for the same policy returns the same object, whatever
  -- was asked for in between, so that no bucket in memory is lost.
  pub from_policy_again :
      (f : Factory) (p : PolicyDraft) (between : List PolicyDraft)
      → (from_policy in_memory backend p
          (after in_memory backend between (from_policy in_memory backend p f).1)).0
        ≡ (from_policy in_memory backend p f).0
  unfolding from_policy
  from_policy_again f p between =
      let k : String = cache_key backend p in
      let first : Object × Factory = finish in_memory k p (lookup k f.cache) f in
      rw (after-lookup between first.1 k first.0 (finish-kept f k p (lookup k f.cache) refl))
