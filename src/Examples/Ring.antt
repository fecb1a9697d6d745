-- ===== src/Examples/Ring.antt =====
-- The ring's theorems at concrete inputs, over whole numbers in the place of floats.
use pipedpeer.Base.{
  ℕ, ◌+◌, ◌-◌, ◌*◌, ◌%◌, ◌^◌, ◌≤◌, ◌<◌, ◌≡◌, refl, true, false, none, some, List, [], ◌∷◌, length,
  String, arith, inr,
}
use Prim.Native.Nat.{max}
use pipedpeer.Base.Int.{ℤ, pos, ◌+ℤ◌}
use pipedpeer.Base.Float.{whole}
use pipedpeer.Ring.Half.{
  float16_to_float32, float32_to_float16, float32_to_float16-float16_to_float32,
  float32_to_float16-nearest,
}
use pipedpeer.Ring.Sum.{FloatBits, f32, i8, size, is_i8, Sum, new_sum, add_segmented}
use pipedpeer.Ring.Mean.{mean_residual, segments_of}
use pipedpeer.Ring.Replies.{Replied, mean_residual-sum_up}
use pipedpeer.Ring.Answers.{Contribution, sum_up}
use pipedpeer.Ring.Sum.{with_segments}
use pipedpeer.Ring.Ranks.{in_set, add_to, count_below, count_live, Covers}
use pipedpeer.Ring.Run.{Run, Report, new_run, mark_down, publish, drop_rank, Note, Join}
use pipedpeer.Ring.Down.{mark_down-once}
use pipedpeer.Ring.Notes.{times_told, times_told-publish}
use pipedpeer.Ring.Plan.{plan_rebalance, drop}
use pipedpeer.Ring.Fair.{SameRanks, plan_rebalance-drop}
use pipedpeer.Ring.Fixed.{arrive_at-fixed}
use pipedpeer.Ring.Round.{Request, Round, answered, fold_in}
use pipedpeer.Ring.Sync.{reduce, open_round, sum_for, new_round, contribute, arrive_at}
use pipedpeer.Ring.Answers.{core, IsAccounted}
use pipedpeer.Ring.Events.{
  Event, arrives, asks_hold, impatient, goes_down, steps, steps-IsAccounted,
}
use pipedpeer.Ring.Waiters.{steps-answered}
use pipedpeer.Ring.Closing.{contribute-closes}
use pipedpeer.Ring.Joining.{join_ring, put_snapshot, joining_as, snapshot_sent, join_ring-admits}

abbrev pub bits : FloatBits ℕ
bits = record {
  of_bits32 = λ n. n;
  to_bits32 = λ n. n;
  of_bits64 = λ n. n;
  to_bits64 = λ n. n;
  max_float = 1_000_000_000;
  sqrt = λ n. n;
  round = λ n. n;
}

abbrev pub itoa : ℤ → String
itoa n = "7"

float32_to_float16-float16_to_float32_example :
    float32_to_float16 (float16_to_float32 0x3c01) ≡ 0x3c01
float32_to_float16-float16_to_float32_example =
    float32_to_float16-float16_to_float32 0x3c01 (omega arith)

float32_to_float16-nearest_example :
    let v : ℕ = (127 - 112) * 2 ^ 23 + 4097 in
    let q = float32_to_float16 (1 * 2 ^ 31 + 127 * 2 ^ 23 + 4097) % 2 ^ 15 in
    (q * 2 ^ 13 + q % 2 ≤ v + 2 ^ 12) × (v + q % 2 ≤ q * 2 ^ 13 + 2 ^ 12) × (q ≤ 0x7c00)
float32_to_float16-nearest_example =
    float32_to_float16-nearest 1 127 4097 (omega arith) (omega arith) (omega arith) (omega arith)

-- One rank's request to average one value, for a shard that carries no control.
abbrev pub request : ℕ → ℕ → Request ℕ
request rank world = record {
  seq = pos 2;
  rank = rank;
  world = world;
  dtype = f32;
  count = pos 1;
  scale = 0;
  scales = [];
  counts = [];
  kind = "weights";
  sync_every = pos 1;
  samples = pos 1;
  sharded = false;
  start_wait = 0;
  manifest = none;
  fixed = false;
  sync_mode = "exact";
  shard = pos 1;
  contributors = rank ∷ [];
  reports = [];
}

abbrev payload : List ℕ
payload = 8 ∷ 0 ∷ 0 ∷ 0 ∷ []

abbrev pub start : Sum ℕ
start = record { dtype = f32; segments = []; values = 0 ∷ []; count = 0; weight = 0; sum_sq = 0 }

abbrev round_at : ℕ → Round ℕ
round_at world = record {
  blobs = [];
  fetched = [];
  done = false;
  world = world;
  created = 0;
  acc = some start;
  result = none;
  result_scales = [];
  kind = "weights";
  drift = none;
  seen = [];
  step_millis = [];
  err = none;
  partial_at = pos 45_000_000_000;
  sync_every = pos 0;
  expected = 0;
  partial = 0;
  hold_expired = false;
  held = false;
  fingerprint = 0;
  same_work = false;
  checked = false;
  fingerprinted = 0;
  opening = false;
  manifest = none;
  shard = pos 1;
}

opens : open_round whole bits itoa 0 (request 0 2) reduce ≡ some (round_at 2)
unfolding open_round sum_for size new_round new_sum ◌+ℤ◌
opens = refl

abbrev history : List (Event ℕ)
history = arrives 5 (request 1 2) payload ∷ []

steps-IsAccounted_example :
    IsAccounted whole bits itoa start
      ((request 1 2, payload) ∷ [])
      (new_run 0 ∷ [])
      (core (steps whole bits itoa (new_run 0, round_at 2) history).1)
steps-IsAccounted_example =
    steps-IsAccounted whole bits itoa 0 (request 0 2) (new_run 0) (round_at 2) start history opens
      refl

-- After the first payload a waiter asks whether a join holds the round, and its patience ends.
abbrev asked : List (Event ℕ)
asked = asks_hold 45_000_000_006 ∷ []

abbrev state_then : Run ℕ × Round ℕ
state_then = steps whole bits itoa (new_run 0, round_at 2) history

abbrev state_last : Run ℕ × Round ℕ
state_last = steps whole bits itoa state_then asked

abbrev answered_round : Round ℕ
answered_round = record (round_at 2) { result = some payload; acc = none; done = true }

steps-answered_example :
    let e = (steps whole bits itoa (new_run 0, answered_round) history).1 in
    (e.result ≡ some payload) × (e.result_scales ≡ []) × (e.err ≡ none)
steps-answered_example = steps-answered whole bits itoa history (new_run 0, answered_round) refl

abbrev lone_round : Round ℕ
lone_round = record (round_at 1) { expected = 1 }

only_rank_in : (fold_in whole bits (request 0 1) payload start lone_round).seen ≡ 0 ∷ []
unfolding fold_in pipedpeer.Ring.Ranks.any_in in_set pipedpeer.Ring.Round.check_kind
    pipedpeer.Ring.Round.check_manifest pipedpeer.Ring.Round.add_payload add_segmented
    pipedpeer.Ring.Sum.add_flat size pipedpeer.Ring.Ranks.add_all add_to
    pipedpeer.Ring.Round.fingerprint_in
only_rank_in = refl

all_in : Covers 1 (fold_in whole bits (request 0 1) payload start lone_round).seen []
unfolding in_set
all_in k h = rw only_rank_in (ground (arith, h))

one_live : 0 < count_live [] (fold_in whole bits (request 0 1) payload start lone_round).seen
unfolding count_live in_set
one_live = rw only_rank_in (omega arith)

nobody_dropped : lone_round.expected ≡ max 1 (lone_round.world - count_below 1 [])
unfolding count_below
nobody_dropped = refl

contribute-closes_example :
    let s = contribute whole bits itoa (request 0 1) payload (new_run 0, lone_round) in
    (answered s.1 ≡ true) × (s.1.done ≡ true)
contribute-closes_example =
    contribute-closes whole bits itoa (request 0 1) payload (new_run 0) lone_round start refl refl
      nobody_dropped all_in one_live

mark_down-once_example :
    let (r', left, look) = mark_down whole 1 3 (new_run 0) in
    (in_set 1 r'.dropped ≡ true)
    × (left ≡ r'.world - count_below r'.world r'.dropped)
    × (mark_down whole 1 5 r' ≡ (r', left, false))
mark_down-once_example = mark_down-once whole 1 3 5 (new_run 0) tt (omega arith)

abbrev third_down : Note ℕ
third_down = drop_rank 3

times_told-publish_example :
    times_told 2
      ((1, pos 4) ∷ (2, pos 3) ∷ (2, pos 5) ∷ (2, pos 6) ∷ [])
      (publish (pos 4) third_down (new_run 0))
    ≡ 1
times_told-publish_example =
    times_told-publish 2 (pos 4) third_down ((1, pos 4) ∷ (2, pos 3) ∷ (2, pos 5) ∷ (2, pos 6) ∷ [])
      (new_run 0)

abbrev pub cut_request : Request ℕ
cut_request = record (request 0 2) {
  dtype = i8;
  count = pos 2;
  scales = 1 ∷ 1 ∷ [];
  counts = pos 1 ∷ pos 1 ∷ [];
}

abbrev pub two_values : Sum ℕ
two_values = record start { dtype = i8; segments = 1 ∷ 1 ∷ []; values = 0 ∷ 0 ∷ [] }

cut_opens : sum_for whole bits itoa cut_request ≡ some two_values
unfolding sum_for size with_segments pipedpeer.Ring.Sum.total_of pipedpeer.Base.Int.int64 ◌+ℤ◌
    new_sum
cut_opens = refl

abbrev one_payload : List (Contribution ℕ)
one_payload = (cut_request, 5 ∷ 250 ∷ []) ∷ []

one_in : (sum_up whole bits two_values one_payload).count ≡ 1
unfolding add_segmented pipedpeer.Ring.Sum.add_segments pipedpeer.Ring.Sum.fold_segments
    pipedpeer.Ring.Sum.counted
one_in = refl

mean_residual-sum_up_example :
    let a = sum_up whole bits two_values one_payload in
    Replied whole bits 2
      (length (segments_of whole bits a))
      (mean_residual whole bits (0 ∷ 0 ∷ []) a).0
    × (length (mean_residual whole bits (0 ∷ 0 ∷ []) a).1 ≡ 2)
unfolding size
mean_residual-sum_up_example =
    mean_residual-sum_up whole bits itoa cut_request two_values one_payload (0 ∷ 0 ∷ [])
      (omega arith) cut_opens (omega (arith, one_in)) refl

-- Segment lengths that wrap around to the number of values are taken.
wrapping_lengths :
    (with_segments whole bits (pos (2 ^ 63 - 1) ∷ pos (2 ^ 63 - 1) ∷ pos 4 ∷ []) two_values).1
    ≡ none
unfolding with_segments pipedpeer.Ring.Sum.total_of pipedpeer.Base.Int.int64 ◌+ℤ◌
wrapping_lengths = refl

abbrev report : ℕ → Report ℕ
report samples = record { step_millis = 1000; sync_millis = 9_000_000; samples = pos samples }

abbrev reports : List (ℕ × Report ℕ)
reports = (0, report 50) ∷ (1, report 50) ∷ (2, report 1) ∷ []

slow_one : plan_rebalance whole reports [] 3 ≡ drop 2
unfolding plan_rebalance pipedpeer.Ring.Plan.gather pipedpeer.Ring.Plan.rate
    pipedpeer.Ring.Plan.plan_gathered pipedpeer.Ring.Plan.add_report
    pipedpeer.Ring.Plan.nothing_gathered pipedpeer.Ring.Plan.worst_freeloader
    pipedpeer.Ring.Plan.put_at pipedpeer.Ring.Run.copies pipedpeer.Ring.Plan.slowest_from
slow_one = refl

plan_rebalance-drop_example : (0 < 2) × (2 < 3) × (2 < 3) × (3 ≤ length reports)
plan_rebalance-drop_example = plan_rebalance-drop whole reports [] 3 2 slow_one

abbrev own_ring : Run ℕ
own_ring = record (new_run 0) { fixed = true; round = 19; reports = reports; world = 3 }

arrive_at-fixed_example :
    SameRanks own_ring (arrive_at whole bits itoa 7 (request 1 3) payload (own_ring, round_at 3)).0
arrive_at-fixed_example =
    arrive_at-fixed whole bits itoa 7 (request 1 3) payload own_ring (round_at 3) refl

abbrev ready_run : Run ℕ
ready_run = record (new_run 0) { world = 2; sharded = true; last_seq = pos 9 }

taken_in : (join_ring whole 4 2 false ready_run).1 ≡ none
unfolding join_ring pipedpeer.Ring.Joining.vet pipedpeer.Ring.Joining.starting
    pipedpeer.Ring.Run.first_live in_set
taken_in = refl

join_ring-admits_example :
    let r' = (join_ring whole 4 2 false ready_run).0 in
    (ready_run.join ≡ none)
    × (2 ≤ 2)
    × (r'.world ≡ 3)
    × ((from : ℕ) × (from < 2)
        × (in_set from [] ≡ false)
        × (r'.join
            ≡ some (record { id = 4; rank = 2; from = some from; old_world = 2; snap = none })))
join_ring-admits_example = join_ring-admits whole 4 2 ready_run taken_in
