-- ===== src/Ring/Plan.antt =====
-- What the ring does about its shares, from what its ranks report
-- (src/internal/daemonapi/ddprebalance.go and rebalanceFor of ddppacing.go).
use pipedpeer.Base.{
  ℕ, zero, suc, ◌-◌, ◌%◌, Bool, true, false, not, if◌then◌else◌, ltb, leb, ◌&&◌, ◌||◌, Option, none,
  some, List, [], ◌∷◌, map, length,
}
use pipedpeer.Base.Eq.{◌==◌, nat_eq}
use pipedpeer.Base.Int.{ℤ, pos, leb_ℤ}
use pipedpeer.Base.Float.{FloatOps}
use pipedpeer.Base.Map.{Map}
use pipedpeer.Ring.Ranks.{in_set, add_to}
use pipedpeer.Ring.Sum.{FloatBits}
use pipedpeer.Ring.Run.{
  Run, Report, Note, drop_rank, shares, release, use_diloco, ring_fragment, zero_f, one_f, live_of,
  copies,
}

pub data Rebalance (F : Type 0) : Type 0 where
  keep : Rebalance F
  drop : ℕ → Rebalance F
  reshare : List F → Rebalance F

-- rebalanceEvery
abbrev pub rebalance_every : ℕ
rebalance_every = 20

-- dilocoEvery, over the table dilocoRanks; 0 where no interval passed.
unfoldable pub diloco_every : ℕ → ℕ
diloco_every n = if leb n 2 then 32 else if leb n 3 then 16 else if leb n 4 then 4 else 0

-- xs[i] = x
unfoldable pub put_at : {A : Type 0} → ℕ → A → List A → List A
put_at i x [] = []
put_at zero x (y ∷ ys) = x ∷ ys
put_at (suc i) x (y ∷ ys) = y ∷ put_at i x ys

-- What the loop of planRebalance adds up.
pub record Gathered (F : Type 0) : Type 0 where
  pub rates : List F
  pub total_rate : F
  pub step_samples : F
  pub sync_sum : F
  pub sync_n : ℕ

module _ {F : Type 0} (ops : FloatOps F) where
  abbrev thousand : F
  thousand = ops.of_int (pos 1000)

  unfoldable pub rate : Report F → F
  rate r =
      if ops.le r.step_millis (zero_f ops) || leb_ℤ r.samples (pos 0)
      then zero_f ops
      else ops.div (ops.of_int r.samples) (ops.div r.step_millis thousand)

  -- The index of the least rate, the first of equals, from a candidate on.
  unfoldable pub slowest_from : ℕ → ℕ → F → List F → ℕ × F
  slowest_from i best low [] = (best, low)
  slowest_from i best low (r ∷ rs) =
      let less = ops.lt r low in
      slowest_from (suc i) (if less then i else best) (if less then r else low) rs

  unfoldable pub worst_freeloader : List F → F → F → F → ℕ → Option ℕ
  worst_freeloader [] total samples sync world = none
  worst_freeloader (r ∷ rs) total samples sync world =
      let (slowest, low) = slowest_from 1 0 r rs in
      let remaining = ops.sub total low in
      let added = ops.sub (ops.div samples remaining) (ops.div samples total) in
      let saved = ops.div sync (ops.of_int (pos (world - 1))) in
      if leb world 2
        || leb slowest 0
        || ops.le remaining (zero_f ops)
        || ops.le samples (zero_f ops)
        || ops.le saved added
      then none
      else some slowest

  abbrev magnitude : F → F
  magnitude x = if ops.lt x (zero_f ops) then ops.sub (zero_f ops) x else x

  any_shift : List F → List F → Bool
  any_shift (w ∷ ws) (c ∷ cs) = ops.le (ops.ratio 1 10) (magnitude (ops.sub w c)) || any_shift ws cs
  any_shift ws cs = false

  unfoldable pub shifted_enough : List F → List F → Bool
  unfolding any_shift
  shifted_enough current want = not (length current == length want) || any_shift want current

  unfoldable pub add_report : ℕ → Report F → Gathered F → Gathered F
  add_report rank rep g =
      let timed = ops.lt (zero_f ops) rep.sync_millis in
      record {
        rates = put_at rank (rate rep) g.rates;
        total_rate = ops.add g.total_rate (rate rep);
        step_samples = ops.add g.step_samples (ops.of_int rep.samples);
        sync_sum = if timed then ops.add g.sync_sum rep.sync_millis else g.sync_sum;
        sync_n = if timed then suc g.sync_n else g.sync_n;
      }

  -- none where the loop returns: a rank out of range, or one that has not measured itself.
  unfoldable pub gather : ℕ → Map ℕ (Report F) → Gathered F → Option (Gathered F)
  gather world [] g = some g
  gather world ((rank, rep) ∷ reports) g =
      let rest = gather world reports (add_report rank rep g) in
      if leb world rank || ops.le (rate rep) (zero_f ops) then none else rest

  unfoldable pub reshare_by : List F → Gathered F → Rebalance F
  reshare_by current g =
      let want = map (λ (r : F). ops.div r g.total_rate) g.rates in
      if shifted_enough current want then reshare want else keep

  unfoldable pub plan_gathered : List F → ℕ → Gathered F → Rebalance F
  plan_gathered current world g =
      let sync = ops.div (ops.div g.sync_sum (ops.of_int (pos g.sync_n))) thousand in
      if ops.le g.total_rate (zero_f ops)
      then keep
      else if g.sync_n == 0
      then reshare_by current g
      else elim (worst_freeloader g.rates g.total_rate g.step_samples sync world) [
        | some rank ↦ drop rank
        | none ↦ reshare_by current g
      ]

  unfoldable pub nothing_gathered : ℕ → Gathered F
  nothing_gathered world = record {
    rates = copies ops world (zero_f ops);
    total_rate = zero_f ops;
    step_samples = zero_f ops;
    sync_sum = zero_f ops;
    sync_n = 0;
  }

  unfoldable pub plan_rebalance : Map ℕ (Report F) → List F → ℕ → Rebalance F
  plan_rebalance reports current world =
      if ltb world 2 || ltb (length reports) world
      then keep
      else elim (gather world reports (nothing_gathered world)) [
        | none ↦ keep
        | some g ↦ plan_gathered current world g
      ]

-- A comparison of one rank alone with the split: the fastest rank, the samples of a step, the time
-- of a split step.
pub record Solo (F : Type 0) : Type 0 where
  pub fast : Option ℕ
  pub fast_rate : F
  pub samples : F
  pub split : F

module _ {F : Type 0} (ops : FloatOps F) (bits : FloatBits F) where
  unfoldable pub solo_from : F → Map ℕ (Report F) → Solo F → Option (Solo F)
  solo_from h [] s = some s
  solo_from h ((rank, rep) ∷ reports) s =
      let faster = ops.lt s.fast_rate (rate ops rep) in
      let rest = solo_from h reports (record {
        fast = if faster then some rank else s.fast;
        fast_rate = if faster then rate ops rep else s.fast_rate;
        samples = ops.add s.samples (ops.of_int rep.samples);
        split = ops.min s.split (ops.add rep.step_millis (ops.div rep.sync_millis h));
      }) in
      if ops.le (rate ops rep) (zero_f ops) || ops.le rep.sync_millis (zero_f ops)
      then none
      else rest

  abbrev margin : F
  margin = ops.ratio 11 10

  -- The rank that would do better alone, the time of a step on it, and that of a split step.
  unfoldable pub plan_solo : Map ℕ (Report F) → ℕ → ℤ → Option ℕ × F × F
  plan_solo reports live sync_every =
      let h = ops.of_int (if leb_ℤ sync_every (pos 1) then pos 1 else sync_every) in
      let start : Solo F = record {
        fast = none;
        fast_rate = zero_f ops;
        samples = zero_f ops;
        split = bits.max_float;
      } in
      let verdict : Solo F → Option ℕ × F × F = λ s.
        let solo = ops.div (ops.mul (thousand ops) s.samples) s.fast_rate in
        (if ops.le s.split (ops.mul solo margin) then none else s.fast, solo, s.split) in
      if ltb live 2 || ltb (length reports) live
      then (none, zero_f ops, zero_f ops)
      else elim (solo_from h reports start) [
        | none ↦ (none, zero_f ops, zero_f ops)
        | some s ↦ verdict s
      ]

  unfoldable pub least_step : F → Map ℕ (Report F) → F → F
  least_step every [] best = best
  least_step every ((rank, rep) ∷ reports) best =
      least_step every reports
        (ops.min best (ops.add rep.step_millis (ops.div rep.sync_millis every)))

  -- The time of a step and whether it is to be taken.
  unfoldable pub plan_diloco : Map ℕ (Report F) → ℕ → F → F → F × Bool
  plan_diloco reports live solo split =
      let every = diloco_every live in
      let fast = least_step (ops.of_int (pos every)) reports bits.max_float in
      if every == 0
        || ltb live 2
        || ltb (length reports) live
        || ops.le solo (zero_f ops)
        || ops.le split (zero_f ops)
      then (zero_f ops, false)
      else (fast, ops.lt (ops.mul fast margin) (ops.min split solo))

  abbrev absent : {A : Type 0} → Option A → Bool
  absent none = true
  absent (some a) = false

  -- Releasing every rank but one, which takes the whole step.
  unfoldable pub release_others : ℕ → ℕ → ℕ → F → F → Run F → Run F × Option (Note F)
  release_others rank live world solo split r =
      let r' : Run F = record r {
        released = true;
        weights = put_at rank (one_f ops) (copies ops world (zero_f ops));
      } in
      (r', some (release (ring_fragment r') rank solo split live))

  unfoldable pub solo_for : ℕ → Run F → Run F × Option (Note F)
  solo_for world r =
      let live = live_of r world in
      let (alone, solo, split) = plan_solo r.reports live r.sync_every in
      let bar = if r.fixed then bits.max_float else solo in
      let diloco : Run F = record r { diloco = true } in
      if r.released || not (absent r.join) || not (absent r.loading)
      then (r, none)
      else if r.auto_sync && not r.diloco && (plan_diloco r.reports live bar split).1
      then (diloco, some (use_diloco (diloco_every live)))
      else if r.fixed || not r.sharded
      then (r, none)
      else elim alone [ none ↦ (r, none) | some rank ↦ release_others rank live world solo split r ]

  unfoldable pub take_plan : Rebalance F → Run F → Run F × Option (Note F)
  take_plan keep r = (r, none)
  take_plan (drop rank) r =
      if r.fixed || in_set rank r.dropped
      then (r, none)
      else (record r { dropped = add_to rank r.dropped }, some (drop_rank rank))
  take_plan (reshare want) r = (record r { weights = want }, some (shares want))

  -- The run exists: its caller has made it.
  unfoldable pub rebalance_for : ℕ → Run F → Run F × Option (Note F)
  rebalance_for world r0 =
      let r : Run F = record r0 { round = suc r0.round } in
      let solo = solo_for world r in
      if r.released || not (r.round % rebalance_every == 0) then (r, none) else elim solo.1 [
        | some n ↦ solo
        | none ↦ take_plan (plan_rebalance ops r.reports r.weights world) r
      ]
