-- ===== src/Coordinator/Pass.antt =====
-- A pass over the nodes misses none that would take the job (src/internal/coordinator/place.go).
use pipedpeer.Base.{
  ℕ, ◌≡◌, refl, ◌∙◌, Bool, true, false, not, if◌then◌else◌, ◌&&◌, ◌||◌, Option, none, some, List,
  [], ◌∷◌, ◌++◌, String, arith, Option-cases, inl, inr,
}
use pipedpeer.Base.Float.{FloatOps}
use pipedpeer.Base.Map.{Map}
use pipedpeer.Coordinator.{
  ScoredNode, has_gpu, insert_stable, sort_stable, GpuWish, gpu_required, gpu_preferred,
  gpu_no_matter, group, better, fewer, wished, candidate_order, first_granted, place_pass,
}

abbrev pub is_given : {A : Type 0} → Option A → Bool
is_given none = false
is_given (some a) = true

abbrev pub any : {A : Type 0} → (A → Bool) → List A → Bool
any p [] = false
any p (x ∷ xs) = p x || any p xs

any-append :
    {A : Type 0} (p : A → Bool) (xs ys : List A) → any p (xs ++ ys) ≡ (any p xs || any p ys)
any-append p [] ys = refl
any-append p (x ∷ xs) ys = ground (arith, any-append p xs ys)

any-insert_stable :
    {A : Type 0} (p : A → Bool) (less : A → A → Bool) (x : A) (ys : List A)
    → any p (insert_stable less x ys) ≡ (p x || any p ys)
unfolding insert_stable
any-insert_stable p less x [] = refl
any-insert_stable p less x (y ∷ ys) = ground (arith, any-insert_stable p less x ys)

any-sort_stable :
    {A : Type 0} (p : A → Bool) (less : A → A → Bool) (xs : List A)
    → any p (sort_stable less xs) ≡ any p xs
unfolding sort_stable
any-sort_stable p less [] = refl
any-sort_stable p less (x ∷ xs) =
    ground (arith, any-insert_stable p less x (sort_stable less xs), any-sort_stable p less xs)

module _ {F : Type 0} (ops : FloatOps F) where
  -- Whether a job with that wish may go to a node.
  abbrev pub is_eligible : GpuWish → ScoredNode F → Bool
  is_eligible gpu_required c = not c.rejected && has_gpu c.node
  is_eligible gpu_preferred c = not c.rejected
  is_eligible gpu_no_matter c = not c.rejected

  any-group :
      (p : ScoredNode F → Bool) (wants : Bool) (cs : List (ScoredNode F))
      → any p (group ops wants cs)
        ≡ any
            (λ c.
              (not c.rejected && (if wants then has_gpu c.node else not (has_gpu c.node))) && p c)
            cs
  unfolding group
  any-group p wants [] = refl
  any-group p wants (c ∷ cs) = ground (arith, any-group p wants cs)

  any-both :
      (p : ScoredNode F → Bool) (cs : List (ScoredNode F))
      → (any p (group ops true cs) || any p (group ops false cs))
        ≡ any (λ c. not c.rejected && p c) cs
  unfolding group
  any-both p [] = refl
  any-both p (c ∷ cs) = ground (arith, any-both p cs)

  any-wished :
      (p : ScoredNode F → Bool) (wish : GpuWish) (cs : List (ScoredNode F))
      → any p (wished ops wish cs) ≡ any (λ c. is_eligible wish c && p c) cs
  unfolding wished
  any-wished p gpu_required cs =
      any-sort_stable p (better ops) (group ops true cs) ∙ any-group p true cs
  any-wished p gpu_preferred cs = ground (
    arith,
    any-append p (sort_stable (better ops) (group ops true cs))
        (sort_stable (better ops) (group ops false cs)),
    any-sort_stable p (better ops) (group ops true cs),
    any-sort_stable p (better ops) (group ops false cs),
    any-both p cs,
  )
  any-wished p gpu_no_matter cs = ground (
    arith,
    any-sort_stable p (better ops) (
        sort_stable (better ops) (group ops true cs)
        ++ sort_stable (better ops) (group ops false cs)),
    any-append p (sort_stable (better ops) (group ops true cs))
        (sort_stable (better ops) (group ops false cs)),
    any-sort_stable p (better ops) (group ops true cs),
    any-sort_stable p (better ops) (group ops false cs),
    any-both p cs,
  )

  module _ {R : Type 0} (try : ScoredNode F → Option R) where
    first_granted-any :
        (cs : List (ScoredNode F))
        → is_given (first_granted ops try cs) ≡ any (λ c. is_given (try c)) cs
    unfolding first_granted
    first_granted-any [] = refl
    first_granted-any (c ∷ cs) = elim (Option-cases (try c)) [
      | inl refused ↦ ground (arith, refused, first_granted-any cs)
      | inr (lease, granted) ↦ ground (arith, granted)
    ]

    -- A pass over the nodes places the job exactly if some candidate that is not rejected grants a
    -- lease, one with a GPU where the job requires one, whatever the scores and the earlier tries.
    pub place_pass-is_eligible :
        (wish : GpuWish) (tried : Map String ℕ) (cands : List (ScoredNode F))
        → is_given (place_pass ops try wish tried cands)
          ≡ any (λ c. is_eligible wish c && is_given (try c)) cands
    unfolding place_pass candidate_order
    place_pass-is_eligible wish tried cands =
        let p = λ (c : ScoredNode F). is_given (try c) in
        first_granted-any (candidate_order ops wish tried cands)
        ∙ any-sort_stable p (fewer ops tried) (wished ops wish cands)
        ∙ any-wished p wish cands
