-- ===== src/Schedule.antt =====
-- How work is shared out over the devices of the cluster (src/internal/schedule/schedule.go, pool.go).
-- Numbers of type float64 are over FloatOps; int and int64 values are integers.
pub mod Search
pub mod Account
pub mod Split
use pipedpeer.Base.{
  ℕ, zero, suc, String, Bool, true, false, if◌then◌else◌, Option, none, some, List, [], ◌∷◌, ◌++◌,
  ◌&&◌, ◌||◌, map, not, length, get_or, keep_if, ltb, nat_beq,
}
use pipedpeer.Base.Int.{ℤ, pos, negsuc, ◌+ℤ◌, ◌-ℤ◌, leb_ℤ, ltb_ℤ, eq_ℤ}
use pipedpeer.Base.Float.{FloatOps}

pub data Kind : Type 0 where
  cpu : Kind
  gpu : Kind

pub record Device (F : Type 0) : Type 0 where
  pub id : String
  pub node : String
  pub kind : Kind
  pub rate : F
  pub bytes_per_sec : F
  pub setup_sec : F
  pub mem_bytes : ℤ

pub record Share (F : Type 0) : Type 0 where
  pub device : Device F
  pub items : ℤ

pub data Reason : Type 0 where
  no_throughput : Reason
  not_enough_memory : Reason
  too_late : Reason
  share_too_small : Reason

abbrev pub Rejection : Type 0 → Type 0
Rejection F = Device F × Reason

pub record Plan (F : Type 0) : Type 0 where
  pub shares : List (Share F)
  pub makespan : F
  pub alone : F
  pub rejected : List (Rejection F)

pub record Options (F : Type 0) : Type 0 where
  pub items : ℤ
  pub bytes_per_item : F
  pub working_set_bytes : ℤ
  pub min_items : ℤ

module _ {F : Type 0} (ops : FloatOps F) where
  open ops use {of_int, to_int, ratio, inf, add, sub, mul, div, lt, le}

  abbrev pub zero_f : F
  zero_f = of_int (pos 0)

  unfoldable pub eff_rate : Device F → Options F → F
  eff_rate d opts =
      if le d.bytes_per_sec zero_f || le opts.bytes_per_item zero_f
      then d.rate
      else (let sec_per_item =
            add (div (of_int (pos 1)) d.rate) (div opts.bytes_per_item d.bytes_per_sec) in
          if le sec_per_item zero_f then d.rate else div (of_int (pos 1)) sec_per_item)

  -- sort.Slice by setup. It leaves the order of equal setups open; here they keep theirs.
  unfoldable pub insert_dev : F × F → List (F × F) → List (F × F)
  insert_dev d [] = d ∷ []
  insert_dev d (e ∷ es) = let rest = insert_dev d es in if lt e.0 d.0 then e ∷ rest else d ∷ e ∷ es

  unfoldable pub sort_devs : List (F × F) → List (F × F)
  sort_devs [] = []
  sort_devs (d ∷ ds) = insert_dev d (sort_devs ds)

  -- What the devices already started clear by `next`: a finish time, or the work done.
  unfoldable pub clear_by : F → F → F → F → F → F × Option F
  clear_by work prev sum_rate done next =
      if lt zero_f sum_rate
      then (let capacity = mul sum_rate (sub next prev) in
          if le work (add done capacity)
          then (done, some (add prev (div (sub work done) sum_rate)))
          else (add done capacity, none))
      else (done, none)

  -- The walk over the breakpoints; the last one is at infinity.
  unfoldable pub walk : F → F → F → F → List (F × F) → F
  walk work prev sum_rate done [] = elim (clear_by work prev sum_rate done inf).1 [
    | some t ↦ t
    | none ↦ inf
  ]
  walk work prev sum_rate done (d ∷ ds) =
      let cleared = clear_by work prev sum_rate done d.0 in
      let later = walk work d.0 (add sum_rate d.1) cleared.0 ds in
      elim cleared.1 [ some t ↦ t | none ↦ later ]

  unfoldable pub solve_makespan : List (Device F) → Options F → F
  solve_makespan devices opts =
      elim (sort_devs (map (λ d. (d.setup_sec, eff_rate d opts)) devices)) [
        | [] ↦ inf
        | d ∷ ds ↦ walk (of_int opts.items) d.0 zero_f zero_f (d ∷ ds)
      ]

  -- int((makespan - setup) * rate), not below 0
  unfoldable pub items_by : Options F → F → Device F → ℤ
  items_by opts makespan d =
      let items = to_int (mul (sub makespan d.setup_sec) (eff_rate d opts)) in
      if ltb_ℤ items (pos 0) then pos 0 else items

  -- The index of the fastest device: the loop's `best`, -1 as none, with `best_rate`.
  unfoldable pub fastest : Options F → Option ℕ → F → ℕ → List (Device F) → Option ℕ
  fastest opts best best_rate i [] = best
  fastest opts best best_rate i (d ∷ ds) =
      let taken = fastest opts (some i) (eff_rate d opts) (suc i) ds in
      let kept = fastest opts best best_rate (suc i) ds in
      if lt best_rate (eff_rate d opts) then taken else kept

  -- shares[i].Items += more, not below 0
  unfoldable pub top_up : ℕ → ℤ → List (Share F) → List (Share F)
  top_up i more [] = []
  top_up zero more (s ∷ ss) =
      let items = s.items +ℤ more in
      record s { items = if ltb_ℤ items (pos 0) then pos 0 else items } ∷ ss
  top_up (suc i) more (s ∷ ss) = s ∷ top_up i more ss

  unfoldable pub sum_items : List (Share F) → ℤ
  sum_items [] = pos 0
  sum_items (s ∷ ss) = s.items +ℤ sum_items ss

  -- The rounding that is left goes to the fastest device, if there is one.
  unfoldable pub settle_rounding : Options F → List (Share F) → Option ℕ → List (Share F)
  settle_rounding opts shares none = shares
  settle_rounding opts shares (some best) =
      if eq_ℤ (sum_items shares) opts.items
      then shares
      else top_up best (opts.items -ℤ sum_items shares) shares

  unfoldable pub shares_by : Options F → F → List (Device F) → List (Share F)
  shares_by opts makespan [] = []
  shares_by opts makespan (d ∷ ds) =
      record { device = d; items = items_by opts makespan d } ∷ shares_by opts makespan ds

  unfoldable pub allocate : List (Device F) → Options F → F → List (Share F)
  allocate devices opts makespan =
      settle_rounding opts (shares_by opts makespan devices) (fastest opts none zero_f 0 devices)

  unfoldable pub predict_from : F → List (Share F) → Options F → F
  predict_from worst [] opts = worst
  predict_from worst (s ∷ ss) opts =
      let t = add s.device.setup_sec (div (of_int s.items) (eff_rate s.device opts)) in
      let more = predict_from t ss opts in
      let same = predict_from worst ss opts in
      if eq_ℤ s.items (pos 0) then same else if lt worst t then more else same

  unfoldable pub predict : List (Share F) → Options F → F
  predict shares opts = predict_from zero_f shares opts

  -- The first switch of Compute: why a device is turned down, if it is.
  unfoldable pub turned_down : Options F → Device F → Option Reason
  turned_down opts d =
      if le d.rate zero_f
      then some no_throughput
      else if ltb_ℤ (pos 0) opts.working_set_bytes && ltb_ℤ d.mem_bytes opts.working_set_bytes
      then some not_enough_memory
      else none

  -- The devices that pass, and the rejections in order.
  unfoldable pub screen : Options F → List (Device F) → List (Device F) × List (Rejection F)
  screen opts [] = ([], [])
  screen opts (d ∷ ds) =
      let rest = screen opts ds in
      elim (turned_down opts d) [
        | some why ↦ (rest.0, (d, why) ∷ rest.1)
        | none ↦ (d ∷ rest.0, rest.1)
      ]

  unfoldable pub alone_from : F → Options F → List (Device F) → F
  alone_from best opts [] = best
  alone_from best opts (d ∷ ds) =
      let t = add d.setup_sec (div (of_int opts.items) (eff_rate d opts)) in
      let less = alone_from t opts ds in
      let same = alone_from best opts ds in if lt t best then less else same

  -- The devices that cannot start by the makespan.
  abbrev pub late : F → Device F → Bool
  late makespan d = not (lt d.setup_sec makespan)

  abbrev pub any_of : List (Device F) → Bool
  any_of [] = false
  any_of (d ∷ ds) = true

  -- The loop that drops late devices until none is late; on fuel, one unit for a pass. The devices
  -- kept, their makespan, and the rejections added.
  unfoldable pub settle :
      ℕ → Options F → List (Device F) → Option (List (Device F) × F × List (Rejection F))
  settle zero opts active = none
  settle (suc fuel) opts active =
      let makespan = solve_makespan active opts in
      let kept = keep_if (λ d. lt d.setup_sec makespan) active in
      let dropped = keep_if (late makespan) active in
      let rest = settle fuel opts kept in
      if not (any_of dropped) || not (any_of kept) then some (active, makespan, []) else elim rest [
        | none ↦ none
        | some (last, t, rs) ↦ some (last, t, map (λ d. (d, too_late)) dropped ++ rs)
      ]

  -- The share is at least the caller's floor, or there is one device only.
  abbrev pub big_enough : Options F → List (Device F) → Share F → Bool
  big_enough opts active s = leb_ℤ opts.min_items s.items || nat_beq (length active) 1

  unfoldable pub drop_tiny_shares : Plan F → Options F → List (Device F) → Plan F
  drop_tiny_shares plan opts active =
      let keep = map (λ s. s.device) (keep_if (big_enough opts active) plan.shares) in
      let small : List (Rejection F) =
        map (λ s. (s.device, share_too_small))
          (keep_if (λ s. not (big_enough opts active s)) plan.shares) in
      let noted : Plan F = record plan { rejected = plan.rejected ++ small } in
      if not (any_of keep) || nat_beq (length keep) (length plan.shares)
      then noted
      else record noted { shares = allocate keep opts (solve_makespan keep opts) }

  abbrev pub no_plan : Plan F
  no_plan = record { shares = []; makespan = zero_f; alone = zero_f; rejected = [] }

  -- Compute once the loop has settled on `active`.
  unfoldable pub finish_plan :
      Options F → F → List (Rejection F) → List (Device F) × F × List (Rejection F) → Plan F
  finish_plan opts alone rejected (active, makespan, dropped) =
      let split : Plan F = record {
        shares = allocate active opts makespan;
        makespan = zero_f;
        alone = alone;
        rejected = rejected ++ dropped;
      } in
      let plan =
        if ltb_ℤ (pos 1) opts.min_items then drop_tiny_shares split opts active else split in
      record plan { makespan = predict plan.shares opts }

  unfoldable pub compute : Options F → List (Device F) → Option (Plan F)
  compute opts devices =
      if leb_ℤ opts.items (pos 0)
      then some no_plan
      else (let (eligible, rejected) = screen opts devices in
          if not (any_of eligible)
          then some (record no_plan { rejected = rejected })
          else elim (settle (suc (length eligible)) opts eligible) [
            | none ↦ none
            | some settled ↦ some (finish_plan opts (alone_from inf opts eligible) rejected settled)
          ])

  -- PartSec
  unfoldable pub part_sec : F → F → F
  part_sec setup rtt =
      ops.max (ops.max (mul (of_int (pos 9)) setup) (mul (of_int (pos 9)) rtt)) (ratio 25 100)
