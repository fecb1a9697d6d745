-- ===== src/Examples/Machine.antt =====
-- The rounds of one machine at concrete inputs (src/internal/daemonapi/ddplocal.go).
use pipedpeer.Base.{
  ◌<◌, ℕ, suc, ◌+◌, ◌*◌, ◌≡◌, refl, Bool, true, false, if◌then◌else◌, Option, none, some, List, [],
  ◌∷◌, length, String, arith,
}
use pipedpeer.Base.Int.{pos}
use pipedpeer.Base.Float.{whole}
use pipedpeer.Ring.Sum.{Sum, i8, size, add_segmented}
use pipedpeer.Ring.Run.{Run, Report, new_run}
use pipedpeer.Ring.Round.{residual_of}
use pipedpeer.Ring.Local.{LocalRequest, LocalRound, open_local, local_round, forward_local}
use pipedpeer.Ring.Forwards.{
  LocalEvent, comes, wait_ends, local_steps, IsGathered, Posts, local_steps-once,
  forward_local-Posts,
}
use pipedpeer.Examples.Ring.{bits, itoa, cut_request, two_values}

abbrev machine_request : ℕ → LocalRequest ℕ
machine_request rank = record {
  request = record cut_request { rank = rank };
  report = record { step_millis = 10; sync_millis = 20; samples = pos 1 };
  local = 0 ∷ 1 ∷ [];
  shards = pos 0;
  upstream = "http://10.0.0.1/v1/ddp/sync";
}

abbrev machine_round : LocalRound ℕ
machine_round = local_round whole bits itoa 5 (machine_request 0) two_values

machine_opens : open_local whole bits itoa 5 (machine_request 0) ≡ some machine_round
unfolding open_local pipedpeer.Ring.Sync.sum_for size pipedpeer.Ring.Sum.with_segments
    pipedpeer.Ring.Sum.total_of pipedpeer.Base.Int.int64 pipedpeer.Base.Int.◌+ℤ◌
    pipedpeer.Ring.Sum.new_sum
machine_opens = refl

abbrev one_payload : List (LocalEvent ℕ)
one_payload = comes (machine_request 0) (5 ∷ 250 ∷ []) ∷ []

abbrev history : List (LocalEvent ℕ)
history =
    comes (machine_request 0) (5 ∷ 250 ∷ [])
    ∷ comes (machine_request 0) (5 ∷ 250 ∷ [])
    ∷ wait_ends
    ∷ comes (machine_request 1) (1 ∷ 2 ∷ [])
    ∷ []

local_steps-once_example :
    let (lr, started) = local_steps whole bits itoa machine_round history in
    (started ≡ (if lr.sent then 1 else 0)) × IsGathered whole bits itoa i8 2 lr
local_steps-once_example =
    local_steps-once whole bits itoa 5 (machine_request 0) machine_round history (omega arith)
      machine_opens

-- A payload with a bad scale in its second segment is refused, and its first segment stays in the sum.
first_stays :
    (add_segmented whole bits (3 ∷ 4 ∷ []) (1 ∷ 0 ∷ []) 1 two_values).0.values ≡ 3 ∷ 0 ∷ []
unfolding add_segmented pipedpeer.Ring.Sum.add_segments pipedpeer.Ring.Sum.fold_segments
    pipedpeer.Ring.Sum.fold_values pipedpeer.Ring.Sum.decode pipedpeer.Ring.Sum.int8
    pipedpeer.Ring.Sum.sample_weight
first_stays = refl

one_member : 0 < length (local_steps whole bits itoa machine_round one_payload).0.members
unfolding local_steps pipedpeer.Ring.Local.join_local pipedpeer.Ring.Local.local_add
    pipedpeer.Ring.Ranks.in_set add_segmented pipedpeer.Ring.Sum.add_segments
    pipedpeer.Ring.Sum.fold_segments pipedpeer.Ring.Local.send_when
one_member = omega arith

no_residual : (k : String) → length (residual_of whole bits itoa (new_run 0) k 2) ≡ 2
unfolding residual_of pipedpeer.Base.Map.get pipedpeer.Ring.Run.copies
no_residual k = refl

forward_local-Posts_example :
    let lr = (local_steps whole bits itoa machine_round one_payload).0 in
    (a : Sum ℕ) × (lr.acc ≡ some a)
    × Posts whole bits itoa 2 lr (forward_local whole bits itoa a (new_run 0, lr)).1
unfolding size
forward_local-Posts_example =
    forward_local-Posts whole bits itoa 5 (machine_request 0) machine_round
      (local_steps whole bits itoa machine_round one_payload).0 one_payload
      (local_steps whole bits itoa machine_round one_payload).1 (new_run 0) (omega arith)
      machine_opens refl one_member (no_residual _)
