-- ===== src/Ring/Fair.antt =====
-- When a rank is dropped for being slow, and that a ring whose size the user chose keeps it
-- (src/internal/daemonapi/ddprebalance.go and rebalanceFor of ddppacing.go).
use pipedpeer.Base.{
  ℕ, zero, suc, ◌+◌, ◌≡◌, ◌≤◌, ◌<◌, refl, ◌∙◌, true, if◌then◌else◌, leb, ◌||◌, some, List, [], ◌∷◌,
  length, arith, Bool-cases, Option-cases, inl, inr,
}
use pipedpeer.Base.Eq.{nat_eq}
use pipedpeer.Base.Int.{pos}
use pipedpeer.Base.Float.{FloatOps}
use pipedpeer.Base.Map.{Map}
use pipedpeer.Ring.Sum.{FloatBits}
use pipedpeer.Ring.Run.{Run, Report, copies, zero_f}
use pipedpeer.Ring.Plan.{
  Rebalance, keep, drop, reshare, Gathered, rate, slowest_from, worst_freeloader, put_at,
  add_report, nothing_gathered, gather, reshare_by, plan_gathered, plan_rebalance, solo_for,
  take_plan, rebalance_for,
}

length-put_at : {A : Type 0} (i : ℕ) (x : A) (xs : List A) → length (put_at i x xs) ≡ length xs
unfolding put_at
length-put_at i x [] = refl
length-put_at zero x (y ∷ ys) = refl
length-put_at (suc i) x (y ∷ ys) = omega (arith, length-put_at i x ys)

module _ {F : Type 0} (ops : FloatOps F) where
  length-copies : (n : ℕ) (x : F) → length (copies ops n x) ≡ n
  unfolding copies
  length-copies zero x = refl
  length-copies (suc n) x = omega (arith, length-copies n x)

  slowest_from-lt :
      (i best : ℕ) (low : F) (rs : List F)
      → best < i
      → (slowest_from ops i best low rs).0 < i + length rs
  unfolding slowest_from
  slowest_from-lt i best low [] h = omega (arith, h)
  slowest_from-lt i best low (r ∷ rs) h =
      let less = ops.lt r low in
      omega (
        arith,
        slowest_from-lt (suc i) (if less then i else best) (if less then r else low) rs
            (ground arith),
      )

  worst_freeloader-range :
      (rates : List F) (total samples sync : F) (world rank : ℕ)
      → worst_freeloader ops rates total samples sync world ≡ some rank
      → (0 < rank) × (rank < length rates) × (2 < world)
  unfolding worst_freeloader
  worst_freeloader-range [] total samples sync world rank h = cc
  worst_freeloader-range (r ∷ rs) total samples sync world rank h =
      ground (arith, slowest_from-lt 1 0 r rs)

  length-gather :
      (world : ℕ) (reports : Map ℕ (Report F)) (g g' : Gathered F)
      → gather ops world reports g ≡ some g'
      → length g'.rates ≡ length g.rates
  unfolding gather add_report
  length-gather world [] g g' h = ground (arith, h)
  length-gather world ((rank, rep) ∷ reports) g g' h =
      elim (Bool-cases (leb world rank || ops.le (rate ops rep) (zero_f ops))) [
        | inl bad ↦ absurd (ground (arith, h, bad))
        | inr good ↦
            let next = add_report ops rank rep g in
            let done : gather ops world reports next ≡ some g' = ground (arith, h, good) in
            length-gather world reports next g' done ∙ length-put_at rank (rate ops rep) g.rates
      ]

  reshare_by-ne-drop :
      (current : List F) (g : Gathered F) (rank : ℕ) → reshare_by ops current g ≡ drop rank → ⊥
  unfolding reshare_by
  reshare_by-ne-drop current g rank h = ground (arith, h)

  plan_gathered-drop :
      (current : List F) (world rank : ℕ) (g : Gathered F)
      → plan_gathered ops current world g ≡ drop rank
      → (0 < rank) × (rank < length g.rates) × (2 < world)
  unfolding plan_gathered
  plan_gathered-drop current world rank g h =
      let sync = ops.div (ops.div g.sync_sum (ops.of_int (pos g.sync_n))) (ops.of_int (pos 1000)) in
      ground (
        arith,
        h,
        reshare_by-ne-drop current g rank,
        worst_freeloader-range g.rates g.total_rate g.step_samples sync world rank,
      )

  -- A plan that drops a rank is made on the reports of as many ranks as the ring has, three at
  -- least, and never drops rank 0, which holds the board, nor a rank outside the ring.
  pub plan_rebalance-drop :
      (reports : Map ℕ (Report F)) (current : List F) (world rank : ℕ)
      → plan_rebalance ops reports current world ≡ drop rank
      → (0 < rank) × (rank < world) × (2 < world) × (world ≤ length reports)
  unfolding plan_rebalance nothing_gathered
  plan_rebalance-drop reports current world rank h =
      elim (Option-cases (gather ops world reports (nothing_gathered ops world))) [
        | inl e ↦ absurd (ground (arith, h, e))
        | inr (g, e) ↦ ground (
          arith,
          h,
          e,
          plan_gathered-drop current world rank g,
          length-gather world reports (nothing_gathered ops world) g e,
          length-copies world (ops.of_int (pos 0)),
        )
      ]

-- The ring has the same ranks after as before.
abbrev pub SameRanks : {F : Type 0} → Run F → Run F → Type 0
SameRanks r r' = (r'.dropped ≡ r.dropped) × (r'.released ≡ r.released) × (r'.fixed ≡ r.fixed)

module _ {F : Type 0} (ops : FloatOps F) (bits : FloatBits F) where
  solo_for-fixed :
      (world : ℕ) (r : Run F) → r.fixed ≡ true → SameRanks r (solo_for ops bits world r).0
  unfolding solo_for
  solo_for-fixed world r own = ground (arith, own)

  take_plan-fixed :
      (p : Rebalance F) (r : Run F) → r.fixed ≡ true → SameRanks r (take_plan ops bits p r).0
  unfolding take_plan
  take_plan-fixed keep r own = (refl, refl, refl)
  take_plan-fixed (drop rank) r own = ground (arith, own)
  take_plan-fixed (reshare want) r own = (refl, refl, refl)

  -- Whatever its ranks report, a ring whose size the user chose is not made smaller: a sync neither
  -- drops a rank nor releases the others.
  pub rebalance_for-fixed :
      (world : ℕ) (r : Run F) → r.fixed ≡ true → SameRanks r (rebalance_for ops bits world r).0
  unfolding rebalance_for
  rebalance_for-fixed world r own =
      let s : Run F = record r { round = suc r.round } in
      let plan = plan_rebalance ops r.reports r.weights world in
      ground (arith, own, solo_for-fixed world s own, take_plan-fixed plan s own)
