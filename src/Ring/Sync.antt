-- ===== src/Ring/Sync.antt =====
-- The steps of a request on its round and run, up to the wait (handleDDPSync of
-- src/internal/daemonapi/ddpsync.go, startWait of ddpboard.go). The clock and durations are
-- nanoseconds.
use Prim.Native.Nat.{max}
use pipedpeer.Base.{
  ℕ, ◌-◌, ◌*◌, ◌^◌, Bool, false, not, if◌then◌else◌, leb, ◌&&◌, ◌||◌, Option, none, some, List, [],
  ◌∷◌, map, length, String,
}
use pipedpeer.Base.Eq.{◌==◌, nat_eq, string_eq}
use pipedpeer.Base.Int.{ℤ, pos, leb_ℤ, ltb_ℤ, eq_ℤ, ◌+ℤ◌, pos_part}
use pipedpeer.Base.Float.{FloatOps}
use pipedpeer.Base.Map.{insert}
use pipedpeer.Ring.Ranks.{in_set, count_below, count_live}
use pipedpeer.Ring.Sum.{FloatBits, Sum, size, new_sum, with_segments}
use pipedpeer.Ring.Run.{Cause, Run, Report, Join, Note, observe, publish, zero_f}
use pipedpeer.Ring.Plan.{rebalance_for}
use pipedpeer.Ring.Round.{Request, Round, answered, expected_count, fold_in, settle_reduce, close}

abbrev pub second : ℕ
second = 10 ^ 9

-- ddpPartialAfter, ddpStartWait and ddpStartWaitMax
abbrev pub partial_after : ℕ
partial_after = 45 * second

abbrev start_wait_default : ℤ
start_wait_default = pos (300 * second)

abbrev start_wait_max : ℤ
start_wait_max = pos (3600 * second)

pub data Mode : Type 0 where
  blackboard reduce : Mode

-- What a request meets under the lock: a refusal, or whether the round is complete and when its
-- patience ends.
pub data Arrival : Type 0 where
  aborted : Cause → Arrival
  missed_start bad_request world_differs : Arrival
  accepted : Bool → ℤ → Arrival

module _ {F : Type 0} (ops : FloatOps F) (bits : FloatBits F) (itoa : ℤ → String) where
  unfoldable pub start_wait : F → ℤ
  start_wait secs =
      let asked = ops.to_int (ops.mul secs (ops.of_int (pos second))) in
      if ops.le secs (zero_f ops)
      then start_wait_default
      else if ltb_ℤ start_wait_max asked
      then start_wait_max
      else asked

  abbrev pub is_opening : Request F → Bool
  is_opening req = eq_ℤ req.shard (pos 0) && req.kind == "weights" && eq_ℤ req.seq (pos 1)

  unfoldable pub new_round : ℕ → Request F → Round F
  new_round now req = record {
    blobs = [];
    fetched = [];
    done = false;
    world = req.world;
    created = now;
    acc = none;
    result = none;
    result_scales = [];
    kind = req.kind;
    drift = none;
    seen = [];
    step_millis = [];
    err = none;
    partial_at =
        pos now +ℤ (if is_opening req then start_wait req.start_wait else pos partial_after);
    sync_every = pos 0;
    expected = 0;
    partial = 0;
    hold_expired = false;
    held = false;
    fingerprint = 0;
    same_work = false;
    checked = false;
    fingerprinted = 0;
    opening = is_opening req;
    manifest = none;
    shard = req.shard;
  }

  -- The empty sum of a request; none is a bad request.
  unfoldable pub sum_for : Request F → Option (Sum F)
  sum_for req =
      let a = new_sum ops bits req.dtype (pos_part req.count) in
      let cut = with_segments ops bits req.counts a in
      if leb_ℤ req.count (pos 0) || size req.dtype == 0
      then none
      else if leb (length req.counts) 1
      then some a
      else elim cut.1 [ some e ↦ none | none ↦ some cut.0 ]

  abbrev with_sum : Round F → Option (Sum F) → Option (Round F)
  with_sum e none = none
  with_sum e (some a) = some (record e { acc = some a })

  -- The round that a first contribution makes; none is a bad request.
  unfoldable pub open_round : ℕ → Request F → Mode → Option (Round F)
  open_round now req blackboard = some (new_round now req)
  open_round now req reduce = with_sum (new_round now req) (sum_for req)

  abbrev pub drop_loading : ℕ → Option Join → Option Join
  drop_loading rank none = none
  drop_loading rank (some j) = if j.rank == rank then none else some j

  abbrev publish_some : ℤ → Run F × Option (Note F) → Run F
  publish_some seq (r, none) = r
  publish_some seq (r, some n) = elim r.join [ none ↦ publish seq n r | some j ↦ r ]

  -- What a request of shard 0 tells the run: once for each sync, the shares are looked at.
  unfoldable pub control : ℕ → Request F → Run F → Run F
  control now req r0 =
      let r : Run F = record r0 {
        world = max r0.world req.world;
        sharded = r0.sharded || req.sharded;
        fixed = r0.fixed || req.fixed;
        auto_sync = req.sync_mode == "auto";
        sync_every = if ltb_ℤ (pos 0) req.sync_every then req.sync_every else r0.sync_every;
        loading = drop_loading req.rank r0.loading;
      } in
      let r' : Run F = record r { last_seq = req.seq; seen = now } in
      if not (eq_ℤ req.shard (pos 0))
      then r0
      else if ltb_ℤ r.last_seq req.seq
      then publish_some req.seq (rebalance_for ops bits r'.world r')
      else r

  -- A pad step's report says nothing about speed.
  unfoldable pub note_report : ℕ → ℕ → Report F → Run F × Round F → Run F × Round F
  note_report now rank rep (r, e) =
      let timed : Round F = record e { step_millis = insert rank rep.step_millis e.step_millis } in
      if ops.le rep.step_millis (zero_f ops) || ltb_ℤ rep.samples (pos 0)
      then (r, e)
      else (observe now rank rep r, timed)

  unfoldable pub note_reports : ℕ → List (ℕ × Report F) → Run F × Round F → Run F × Round F
  note_reports now [] s = s
  note_reports now ((rank, rep) ∷ reps) s = note_reports now reps (note_report now rank rep s)

  -- What the round expects and averages at, before the contribution is looked at.
  abbrev pub expect : Request F → Run F → Round F → Round F
  expect req r e = record e { expected = max 1 (e.world - count_below e.world r.dropped) }

  abbrev pub agree : Request F → Round F → Round F
  agree req e = record e {
    sync_every = if ltb_ℤ e.sync_every req.sync_every then req.sync_every else e.sync_every;
  }

  -- The contribution itself.
  unfoldable pub contribute : Request F → List ℕ → Run F × Round F → Run F × Round F
  contribute req blob (r, e) =
      let kept : Round F = record e { blobs = insert req.rank blob e.blobs } in
      if answered e then (r, close e) else elim e.acc [
        | some a ↦ settle_reduce ops bits itoa (r, fold_in ops bits req blob a e)
        | none ↦
            if leb (expected_count kept)
              (count_live r.dropped (map (λ (b : ℕ × List ℕ). b.0) kept.blobs))
            then (r, close kept)
            else (r, kept)
      ]

  -- A request on the round of its sync.
  unfoldable pub arrive_at : ℕ → Request F → List ℕ → Run F × Round F → Run F × Round F
  arrive_at now req blob (r, e) =
      let lead = eq_ℤ req.shard (pos 0) in
      contribute req blob (
        note_reports now (if lead then req.reports else [])
          (control now req r, agree req (expect req r e)))

  -- A request on a round that is there.
  unfoldable pub join_round : ℕ → Request F → List ℕ → Run F × Round F → (Run F × Round F) × Arrival
  join_round now req blob (r, e) =
      let (r', e') = arrive_at now req blob (r, e) in
      if not (e.world == req.world)
      then ((r, e), world_differs)
      else ((r', e'), accepted e'.done e'.partial_at)

  abbrev kept : (Run F × Round F) × Arrival → (Run F × Option (Round F)) × Arrival
  kept ((r, e), answer) = ((r, some e), answer)

  abbrev found_or : Option (Round F) → Option (Round F) → Option (Round F)
  found_or (some e) opened = some e
  found_or none opened = opened

  -- The first stretch under the lock. A run that the code makes on first need stands from here on: a
  -- new run answers every question as none does.
  unfoldable pub arrive :
      ℕ
      → Request F
      → List ℕ
      → Mode
      → Run F
      → Option (Round F)
      → (Run F × Option (Round F)) × Arrival
  arrive now req blob mode r entry = elim r.aborted [
    | some why ↦ ((r, entry), aborted why)
    | none ↦
        if is_opening req && in_set req.rank r.dropped
        then ((r, entry), missed_start)
        else elim (found_or entry (open_round now req mode)) [
          | none ↦ ((r, entry), bad_request)
          | some e ↦ kept (join_round now req blob (r, e))
        ]
  ]
