-- ===== src/Place.antt =====
-- Which nodes join a training ring (src/internal/ddpplace/ddpplace.go), over the answers of the
-- probes. sort.Slice is a parameter, since it leaves the order of equals open.
pub mod Worth
use Prim.Native.String.{◌++◌ as ◌⧺◌}
use pipedpeer.Base.{
  ℕ, zero, suc, ◌+◌, ◌-◌, ◌/◌, Bool, true, false, if◌then◌else◌, ltb, leb, ◌&&◌, ◌||◌, not, Option,
  none, some, List, [], ◌∷◌, ◌++◌, map, length, take, drop, String,
}
use pipedpeer.Base.Eq.{◌==◌, nat_eq, string_eq}
use pipedpeer.Base.Int.{ℤ, pos, negsuc, leb_ℤ, ltb_ℤ, pos_part}
use pipedpeer.Base.Float.{FloatOps}
use pipedpeer.Base.Map.{Map, get, insert}
use pipedpeer.Schedule.{Device, Kind, cpu, gpu, Share, Plan, compute}
use pipedpeer.Schedule as Schedule

pub record Candidate : Type 0 where
  pub node_id : String
  pub host : String
  pub cores : ℤ
  pub mem_bytes : ℤ
  pub has_gpu : Bool
  pub slots : ℤ

pub record Choice (F : Type 0) : Type 0 where
  pub candidate : Candidate
  pub score : F
  pub weight : F
  pub slot : ℕ

pub data Reason : Type 0 where
  by_schedule : Schedule.Reason → Reason
  sets_the_pace too_slow capped : Reason

pub record Options : Type 0 where
  -- 0 for no cap
  pub max : ℕ
  pub working_set_bytes : ℤ
  pub proportional_batches : Bool
  pub keep_all : Bool

-- nominalStep
abbrev pub nominal_step : ℕ
nominal_step = 100_000

unfoldable pub kind_of : Candidate → Kind
kind_of c = if c.has_gpu then gpu else cpu

-- A quotient that drops the fraction, by a number above 0.
unfoldable pub quot_ℤ : ℤ → ℕ → ℤ
quot_ℤ (pos a) n = pos (a / n)
quot_ℤ (negsuc a) n = let q = suc a / n in if q == 0 then pos 0 else negsuc (q - 1)

module _ {F : Type 0} (ops : FloatOps F) where
  abbrev pub of_ℕ : ℕ → F
  of_ℕ n = ops.of_int (pos n)

  -- A probe's answer, if it is one: no error and a score above 0.
  unfoldable pub measured : Option F → Option F
  measured none = none
  measured (some s) = if ops.lt (of_ℕ 0) s then some s else none

  sum_measured : List (Option F) → F → ℕ → F × ℕ
  sum_measured [] sum n = (sum, n)
  sum_measured (none ∷ ps) sum n = sum_measured ps sum n
  sum_measured (some s ∷ ps) sum n = sum_measured ps (ops.add sum s) (suc n)

  by_cores : Candidate → F
  by_cores c = if ltb_ℤ (pos 0) c.cores then ops.of_int c.cores else of_ℕ 1

  or_mean : F → Option F → F
  or_mean mean none = mean
  or_mean mean (some s) = s

  -- The end of probeAll: the scores, and whether any was measured.
  unfoldable pub scores_of : List Candidate → List (Option F) → List F × Bool
  unfolding sum_measured by_cores or_mean
  scores_of cands probes =
      let answers = map measured probes in
      let (sum, n) = sum_measured answers (of_ℕ 0) 0 in
      if n == 0
      then (map by_cores cands, false)
      else (map (or_mean (ops.div sum (of_ℕ n))) answers, true)

  -- The prefix of the fastest that is worth most when each waits for the slowest: its length, and
  -- what it is worth, from a candidate on.
  unfoldable pub best_from : ℕ → ℕ → F → List (Share F) → ℕ × F
  best_from k best worth [] = (best, worth)
  best_from k best worth (s ∷ ss) =
      let now = ops.mul (of_ℕ (suc k)) s.device.rate in
      let better = ops.lt worth now in
      best_from (suc k) (if better then suc k else best) (if better then now else worth) ss

  sum_rates : F → List (Share F) → F
  sum_rates total [] = total
  sum_rates total (s ∷ ss) = sum_rates (ops.add total s.device.rate) ss

  -- A rank's share of a step: by what it can do, or the same for all.
  unfoldable pub share_of : Options → ℕ → F → Share F → Share F
  share_of opts best rate s =
      if opts.proportional_batches && ops.lt (of_ℕ 0) rate
      then record s {
        items = ops.to_int (ops.div (ops.mul (of_ℕ nominal_step) s.device.rate) rate);
      }
      else record s { items = pos (nominal_step / best) }

  abbrev pub from_plan : Device F × Schedule.Reason → Device F × Reason
  from_plan (d, why) = (d, by_schedule why)

  abbrev pub slower : Share F → Device F × Reason
  slower s = (s.device, sets_the_pace)

  abbrev pub over_cap : Choice F → Candidate × Reason
  over_cap c = (c.candidate, capped)

  -- What is admitted, and what is turned down. Over `by_rate`, the sort by rate, fastest first.
  module _ (by_rate : List (Share F) → List (Share F)) where
    unfoldable pub best_count : Options → List (Share F) → ℕ
    best_count opts shares =
        if opts.keep_all then length shares else (best_from 0 0 (of_ℕ 0) shares).0

    unfoldable pub admit : Plan F → Options → List (Share F) × List (Device F × Reason)
    unfolding sum_rates
    admit p opts =
        let shares = by_rate p.shares in
        let best = best_count opts shares in
        let rate = sum_rates (of_ℕ 0) (take best shares) in
        (
          map (share_of opts best rate) (take best shares),
          map from_plan p.rejected ++ map slower (drop best shares),
        )

  -- slotID, over `itoa`, the text of a number.
  module _ (itoa : ℕ → String) where
    unfoldable pub slot_id : String → ℕ → String
    slot_id node slot = if slot == 0 then node else node ⧺ ("#" ⧺ itoa slot)

    abbrev pub SlotRef : Type 0
    SlotRef = Candidate × ℕ × F

    -- The devices of a candidate with `n` slots in all, the last `left` of them.
    unfoldable pub slot_devices : ℕ → ℕ → Candidate → F → List (Device F × SlotRef)
    slot_devices n zero c score = []
    slot_devices n (suc left) c score =
        let slot = n - suc left in
        let d : Device F = record {
          id = slot_id c.node_id slot;
          node = c.host;
          kind = kind_of c;
          rate = score;
          bytes_per_sec = of_ℕ 0;
          setup_sec = of_ℕ 0;
          mem_bytes = quot_ℤ c.mem_bytes n;
        } in
        (d, (c, slot, score)) ∷ slot_devices n left c score

    abbrev slots_of : Candidate → ℕ
    slots_of c = if ltb_ℤ c.slots (pos 1) then 1 else pos_part c.slots

    unfoldable pub devices_of : List Candidate → List F → List (Device F × SlotRef)
    devices_of (c ∷ cs) (score ∷ scores) =
        slot_devices (slots_of c) (slots_of c) c score ++ devices_of cs scores
    devices_of _ _ = []

    slots_by_id : List (Device F × SlotRef) → Map String SlotRef → Map String SlotRef
    slots_by_id [] m = m
    slots_by_id ((d, ref) ∷ ds) m = slots_by_id ds (insert d.id ref m)

    no_candidate : Candidate
    no_candidate = record {
      node_id = "";
      host = "";
      cores = pos 0;
      mem_bytes = pos 0;
      has_gpu = false;
      slots = pos 0;
    }

    -- slotOf[id], which is empty for an id that is not there.
    unfoldable pub ref_of : Map String SlotRef → Device F → SlotRef
    unfolding no_candidate
    ref_of refs d = elim (get d.id refs) [ none ↦ (no_candidate, 0, of_ℕ 0) | some ref ↦ ref ]

    abbrev pub named : Map String SlotRef → Device F × Reason → Candidate × Reason
    named refs (d, why) = ((ref_of refs d).0, why)

    -- The loop over the admitted shares: the choices and those too small to be one.
    unfoldable pub choices_of :
        Map String SlotRef → List (Share F) → List (Choice F) × List (Candidate × Reason)
    choices_of refs [] = ([], [])
    choices_of refs (s ∷ ss) =
        let (chosen, rejected) = choices_of refs ss in
        let (c, slot, score) = ref_of refs s.device in
        let choice : Choice F = record {
          candidate = c;
          score = score;
          weight = ops.div (ops.of_int s.items) (of_ℕ nominal_step);
          slot = slot;
        } in
        if leb_ℤ s.items (pos 0)
        then (chosen, (c, too_slow) ∷ rejected)
        else (choice ∷ chosen, rejected)

    sum_weights : F → List (Choice F) → F
    sum_weights total [] = total
    sum_weights total (c ∷ cs) = sum_weights (ops.add total c.weight) cs

    unfoldable pub renormalise : List (Choice F) → List (Choice F)
    unfolding sum_weights
    renormalise cs =
        let total = sum_weights (of_ℕ 0) cs in
        if ops.lt (of_ℕ 0) total
        then map (λ (c : Choice F). record c { weight = ops.div c.weight total }) cs
        else cs

    -- The ring capped at its greatest size: who is in it, and who is left out.
    unfoldable pub cap_ring : ℕ → List (Choice F) → List (Choice F) × List (Candidate × Reason)
    cap_ring max cs =
        if ltb 0 max && ltb max (length cs)
        then (take max cs, map over_cap (drop max cs))
        else (cs, [])

    -- Select, from the answers of the probes on; `by_rate` and `by_score` are the two sorts. none is
    -- never met: the plan is always made.
    module _ (by_rate : List (Share F) → List (Share F))
        (by_score : List (Choice F) → List (Choice F)) where
      unfoldable pub ring_of :
          Options → Map String SlotRef → Plan F → List (Choice F) × List (Candidate × Reason)
      ring_of opts refs plan =
          let (shares, rejected) = admit by_rate plan opts in
          let (chosen, small) = choices_of refs shares in
          let others = map (named refs) rejected in
          let (ring, over) = cap_ring opts.max (by_score chosen) in
          (renormalise ring, small ++ (others ++ over))

      unfoldable pub select :
          List Candidate
          → List (Option F)
          → Options
          → Option ((List (Choice F) × List (Candidate × Reason)) × Bool)
      unfolding slots_by_id
      select cands probes opts =
          let (scores, any) = scores_of cands probes in
          let devices = devices_of cands scores in
          let sized =
            compute ops
              (record {
                items = pos nominal_step;
                bytes_per_item = of_ℕ 0;
                working_set_bytes = opts.working_set_bytes;
                min_items = pos 0;
              })
              (map (λ (d : Device F × SlotRef). d.0) devices) in
          if length cands == 0 then some (([], []), false) else elim sized [
            | none ↦ none
            | some plan ↦ some (ring_of opts (slots_by_id devices []) plan, any)
          ]
