-- ===== src/Ring/Board.antt =====
-- The board of the lead daemon: every round by its name, every run by its group
-- (src/internal/daemonapi/ddpboard.go, ddpdown.go and ddpsync.go). What is kept only to be logged
-- once is left out; the rounds of one machine are not modelled.
use Prim.Native.String.{◌++◌ as ◌⧺◌}
use pipedpeer.Base.{ℕ, ◌-◌, Bool, if◌then◌else◌, leb, Option, none, some, List, [], ◌∷◌, String}
use pipedpeer.Base.Eq.{string_eq}
use pipedpeer.Base.Int.{ℤ, pos, ltb_ℤ}
use pipedpeer.Base.Float.{FloatOps}
use pipedpeer.Base.Map.{Map, get, insert, remove, filter_map}
use pipedpeer.Ring.Sum.{FloatBits}
use pipedpeer.Ring.Run.{Run, new_run, mark_down}
use pipedpeer.Ring.Round.{Request, Round}
use pipedpeer.Ring.Sync.{Mode, Arrival, arrive}
use pipedpeer.Ring.Reply.{Reply, collect}
use pipedpeer.Ring.Patience.{look_again}

pub record Board (F : Type 0) : Type 0 where
  pub entries : Map String (Round F)
  pub runs : Map String (Run F)

-- Over `itoa`, the text of an integer, and `has_prefix` (strings.HasPrefix).
module _ {F : Type 0} (ops : FloatOps F) (bits : FloatBits F) (itoa : ℤ → String)
    (has_prefix : String → String → Bool) where
  unfoldable pub round_key : String → ℤ → ℤ → String
  round_key group seq shard =
      let k = group ⧺ ("/" ⧺ itoa seq) in if ltb_ℤ (pos 0) shard then k ⧺ ("#" ⧺ itoa shard) else k

  unfoldable pub run_of : String → ℕ → Board F → Run F
  run_of group now b = elim (get group b.runs) [ none ↦ new_run now | some r ↦ r ]

  put_entry : String → Option (Round F) → Map String (Round F) → Map String (Round F)
  put_entry key none entries = remove key entries
  put_entry key (some e) entries = insert key e entries

  -- The two stretches of handleDDPSync under the lock.
  unfoldable pub sync : String → ℕ → Request F → List ℕ → Mode → Board F → Board F × Arrival
  unfolding put_entry
  sync group now req blob mode b =
      let key = round_key group req.seq req.shard in
      let ((r, e), answer) =
        arrive ops bits itoa now req blob mode (run_of group now b) (get key b.entries) in
      (record { entries = put_entry key e b.entries; runs = insert group r b.runs }, answer)

  unfoldable pub take_home : String → ℕ → Request F → Board F → Board F × Option (Reply F)
  unfolding put_entry
  take_home group now req b =
      let key = round_key group req.seq req.shard in
      elim (get key b.entries) [
        | none ↦ (b, none)
        | some e ↦
            let ((r, e'), reply) = collect req (run_of group now b, e) in
            (
              record { entries = put_entry key e' b.entries; runs = insert group r b.runs },
              some reply,
            )
      ]

  -- The loop over the rounds of the group; each may change the run's residuals.
  unfoldable pub look_all : String → Run F → Map String (Round F) → Run F × Map String (Round F)
  look_all prefix r [] = (r, [])
  look_all prefix r ((key, e) ∷ entries) =
      let (r', e') = if has_prefix key prefix then look_again ops bits itoa (r, e) else (r, e) in
      let (r2, rest) = look_all prefix r' entries in (r2, (key, e') ∷ rest)

  -- markRankDownLocked: the board, and how many ranks are left.
  unfoldable pub mark_rank_down : String → ℕ → ℕ → ℕ → Board F → Board F × ℕ
  mark_rank_down group now rank world b =
      let (r, left, look) = mark_down ops rank world (run_of group now b) in
      let (r', entries) = look_all (group ⧺ "/") r b.entries in
      if look
      then (record { entries = entries; runs = insert group r' b.runs }, left)
      else (record b { runs = insert group r b.runs }, left)

  -- What is older than `age` goes.
  unfoldable pub sweep : ℕ → ℕ → Board F → Board F
  sweep now age b = record {
    entries = filter_map (λ k e. leb (now - e.created) age) b.entries;
    runs = filter_map (λ k r. leb (now - r.seen) age) b.runs;
  }
