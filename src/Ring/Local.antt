-- ===== src/Ring/Local.antt =====
-- The rounds of the ranks that share one machine (src/internal/daemonapi/ddplocal.go): their payloads
-- are summed here and go to the ring's daemon as one. One function for each stretch that holds the
-- lock; the answer of the ring's daemon is an argument.
use Prim.Native.String.{◌++◌ as ◌⧺◌}
use pipedpeer.Base.{
  ℕ, suc, Bool, true, false, not, if◌then◌else◌, leb, ◌&&◌, ◌||◌, Option, none, some, List, [], ◌∷◌,
  ◌++◌, length, String,
}
use pipedpeer.Base.Eq.{◌==◌, nat_eq, string_eq}
use pipedpeer.Base.Int.{ℤ, pos, negsuc, leb_ℤ, ltb_ℤ}
use pipedpeer.Base.Float.{FloatOps}
use pipedpeer.Base.Map.{insert}
use pipedpeer.Ring.Ranks.{Ranks, in_set}
use pipedpeer.Ring.Sum.{FloatBits, Sum, SumError, size, is_i8, num, add_segmented}
use pipedpeer.Ring.Mean.{Mean, encoded, failed, mean_residual}
use pipedpeer.Ring.Run.{Run, Report}
use pipedpeer.Ring.Round.{Request, scales_of, residual_of}
use pipedpeer.Ring.Sync.{Mode, blackboard, reduce, sum_for}

-- A request of a machine's rank, with the ranks of its machine.
pub record LocalRequest (F : Type 0) : Type 0 where
  pub request : Request F
  pub report : Report F
  pub local : Ranks
  pub shards : ℤ
  pub upstream : String

-- The status, the content type and the body of the lead's reply.
abbrev pub Answer : Type 0
Answer = ℕ × String × List ℕ

pub record LocalRound (F : Type 0) : Type 0 where
  -- none once it was forwarded
  pub acc : Option (Sum F)
  pub hdr : Request F
  pub members : List (ℕ × Report F)
  pub want : ℕ
  pub sent : Bool
  pub fetched : ℕ
  pub answer : Option Answer
  pub created : ℕ

abbrev pub ranks_of : {F : Type 0} → List (ℕ × Report F) → Ranks
ranks_of [] = []
ranks_of ((rank, rep) ∷ ms) = rank ∷ ranks_of ms

-- What a request meets under the lock: a refusal, or a wait; whether it starts the forward.
pub data LocalArrival : Type 0 where
  bad_local refused : LocalArrival
  waits : Bool → LocalArrival

module _ {F : Type 0} (ops : FloatOps F) (bits : FloatBits F) (itoa : ℤ → String) where
  -- Over `is_lead`, the test of an upstream address.
  unfoldable pub is_local : (String → Bool) → LocalRequest F → Mode → Bool
  is_local is_lead q blackboard = false
  is_local is_lead q reduce =
      not (leb_ℤ q.request.count (pos 0))
      && not (size q.request.dtype == 0)
      && not (ltb_ℤ (pos 0) q.shards)
      && in_set q.request.rank q.local
      && is_lead q.upstream

  abbrev pub local_round : ℕ → LocalRequest F → Sum F → LocalRound F
  local_round now q a = record {
    acc = some a;
    hdr = q.request;
    members = [];
    want = length q.local;
    sent = false;
    fetched = 0;
    answer = none;
    created = now;
  }

  -- The round that a first request makes; none for segment lengths that do not fit.
  unfoldable pub open_local : ℕ → LocalRequest F → Option (LocalRound F)
  open_local now q = elim (sum_for ops bits itoa q.request) [
    | none ↦ none
    | some a ↦ some (local_round now q a)
  ]

  -- The header that the forward is made from, with what one more rank says.
  abbrev pub merged : Request F → Request F → Request F
  merged hdr req = record hdr {
    sync_every = if ltb_ℤ hdr.sync_every req.sync_every then req.sync_every else hdr.sync_every;
    sharded = hdr.sharded || req.sharded;
    fixed = hdr.fixed || req.fixed;
  }

  -- The round with what the sum made of a payload, and whether it was refused.
  abbrev pub joined : LocalRequest F → LocalRound F → Sum F × Option SumError → LocalRound F × Bool
  joined q lr (a, some why) = (record lr { acc = some a }, true)
  joined q lr (a, none) = (
    record lr {
      acc = some a;
      members = lr.members ++ (q.request.rank, q.report) ∷ [];
      hdr = merged lr.hdr q.request;
    },
    false,
  )

  unfoldable pub local_add : LocalRequest F → List ℕ → LocalRound F → LocalRound F × Bool
  local_add q blob lr = elim lr.acc [
    | none ↦ (lr, false)
    | some a ↦
        if in_set q.request.rank (ranks_of lr.members) || lr.sent
        then (lr, false)
        else joined q lr (
            add_segmented ops bits blob (scales_of ops bits q.request)
              (ops.of_int q.request.samples) a)
  ]

  -- The round when a condition to forward it is looked at, and whether this starts the forward.
  unfoldable pub send_when : Bool → LocalRound F → LocalRound F × Bool
  send_when ready lr =
      if not lr.sent && ready then (record lr { sent = true }, true) else (lr, false)

  abbrev pub after_add : LocalRound F × Bool → LocalRound F × LocalArrival
  after_add (lr, true) = (lr, refused)
  after_add (lr, false) =
      let (lr', starts) = send_when (leb lr.want (length lr.members)) lr in (lr', waits starts)

  unfoldable pub join_local : LocalRequest F → List ℕ → LocalRound F → LocalRound F × LocalArrival
  join_local q blob lr = after_add (local_add q blob lr)

  abbrev kept_local : LocalRound F × LocalArrival → Option (LocalRound F) × LocalArrival
  kept_local (lr, answer) = (some lr, answer)

  abbrev found_local : Option (LocalRound F) → Option (LocalRound F) → Option (LocalRound F)
  found_local (some lr) opened = some lr
  found_local none opened = opened

  -- The first stretch of handleDDPLocal.
  unfoldable pub arrive_local :
      (String → Bool)
      → ℕ
      → LocalRequest F
      → List ℕ
      → Mode
      → Option (LocalRound F)
      → Option (LocalRound F) × LocalArrival
  arrive_local is_lead now q blob mode entry =
      if not (is_local is_lead q mode)
      then (entry, bad_local)
      else elim (found_local entry (open_local now q)) [
        | none ↦ (entry, bad_local)
        | some lr ↦ kept_local (join_local q blob lr)
      ]

  -- A waiter whose patience ended: the round goes on with whoever is there.
  unfoldable pub local_patience_ends : LocalRound F → LocalRound F × Bool
  local_patience_ends lr = send_when (not (length lr.members == 0)) lr

  -- A member takes the reply home: the round goes (none) once all have.
  unfoldable pub take_local : LocalRound F → Option (LocalRound F)
  take_local lr =
      let lr' : LocalRound F = record lr { fetched = suc lr.fetched } in
      if leb (length lr.members) lr'.fetched then none else some lr'

  unfoldable pub up_key : Request F → ℕ → String
  up_key hdr n = "up/" ⧺ (hdr.kind ⧺ ("/" ⧺ itoa (pos n)))

  -- The header of the one contribution of a machine, for its sum and the scales of its mean.
  unfoldable pub forwarded : LocalRound F → Sum F → ℕ → List F → Request F
  forwarded lr a first scales =
      let quantised = is_i8 a.dtype in
      record lr.hdr {
        rank = first;
        contributors = ranks_of lr.members;
        reports = lr.members;
        samples =
            if ops.le a.weight (num ops bits 0) then negsuc 0 else ops.to_int (bits.round a.weight);
        scale =
            if quantised
            then (elim scales [ [] ↦ num ops bits 0 | sc ∷ scs ↦ sc ])
            else num ops bits 0;
        scales = if quantised then scales else [];
      }

  abbrev pub posted : LocalRound F → Sum F → Mean F → Option (Request F × List ℕ)
  posted lr a (failed why) = none
  posted lr a (encoded out scales) = elim lr.members [
    | [] ↦ none
    | m ∷ ms ↦ some (forwarded lr a m.0 scales, out)
  ]

  abbrev pub sent_up :
      Run F
      → LocalRound F
      → Sum F
      → Mean F × List F
      → (Run F × LocalRound F) × Option (Request F × List ℕ)
  sent_up r lr a (mean, res) = (
    (
      (if is_i8 a.dtype
          then record r { residual = insert (up_key lr.hdr (length a.values)) res r.residual }
          else r),
      record lr { acc = none },
    ),
    posted lr a mean,
  )

  -- The first stretch of ddpForwardLocal: the contribution that is posted to the lead, none where
  -- there is no mean.
  unfoldable pub forward_local :
      Sum F → Run F × LocalRound F → (Run F × LocalRound F) × Option (Request F × List ℕ)
  forward_local a (r, lr) =
      let k = up_key lr.hdr (length a.values) in
      sent_up r lr a (mean_residual ops bits (residual_of ops bits itoa r k (length a.values)) a)

  -- The last stretch of ddpForwardLocal.
  unfoldable pub answer_local : Answer → LocalRound F → LocalRound F
  answer_local ans lr = record lr { answer = some ans }
