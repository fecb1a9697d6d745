-- ===== src/Ring/Fixed.antt =====
-- What a request does to the ranks of a ring whose size the user chose (the steps of handleDDPSync up
-- to its wait, src/internal/daemonapi/ddpsync.go).
use pipedpeer.Base.{
  ℕ, ◌≡◌, refl, ◌∙◌, ◌||◌, true, if◌then◌else◌, inl, inr, List, [], ◌∷◌, String, arith, Bool-cases,
  Option-cases,
}
use pipedpeer.Base.Int.{ℤ, pos, eq_ℤ, ltb_ℤ}
use pipedpeer.Base.Float.{FloatOps}
use pipedpeer.Ring.Sum.{FloatBits, Sum}
use pipedpeer.Ring.Run.{Cause, Run, Report, observe, abort, publish}
use pipedpeer.Ring.Plan.{rebalance_for}
use pipedpeer.Ring.Fair.{SameRanks, rebalance_for-fixed}
use pipedpeer.Ring.Round.{
  Request, Round, answered, fold_in, finish, settle_reduce, settle_open, settle_finished,
}
use pipedpeer.Ring.Sync.{
  control, note_report, note_reports, contribute, arrive_at, expect, agree, drop_loading,
}
use Prim.Native.Nat.{max}
use pipedpeer.Base.Eq.{◌==◌, string_eq, nat_eq}

module _ {F : Type 0} (ops : FloatOps F) (bits : FloatBits F) (itoa : ℤ → String) where
  trans-SameRanks : (r s t : Run F) → SameRanks r s → SameRanks s t → SameRanks r t
  trans-SameRanks r s t a b = (b.0 ∙ a.0, b.1 ∙ a.1, b.2 ∙ a.2)

  abort-SameRanks : (why : Cause) (r : Run F) → SameRanks r (abort why r)
  unfolding abort
  abort-SameRanks why r = ground arith

  observe-SameRanks :
      (now rank : ℕ) (rep : Report F) (r : Run F) → SameRanks r (observe now rank rep r)
  unfolding observe
  observe-SameRanks now rank rep r = ground arith

  note_reports-SameRanks :
      (now : ℕ) (reps : List (ℕ × Report F)) (s : Run F × Round F)
      → SameRanks s.0 (note_reports ops bits itoa now reps s).0
  unfolding note_reports note_report
  note_reports-SameRanks now [] s = (refl, refl, refl)
  note_reports-SameRanks now ((rank, rep) ∷ reps) (r, e) = ground (
    arith,
    observe-SameRanks now rank rep r,
    note_reports-SameRanks now reps (note_report ops bits itoa now rank rep (r, e)),
  )

  finish-SameRanks : (a : Sum F) (s : Run F × Round F) → SameRanks s.0 (finish ops bits itoa a s).0
  unfolding finish
  finish-SameRanks a (r, e) = ground arith

  settle_reduce-SameRanks : (s : Run F × Round F) → SameRanks s.0 (settle_reduce ops bits itoa s).0
  unfolding settle_reduce settle_open settle_finished
  settle_reduce-SameRanks (r, e) = elim (Option-cases e.err) [
    | inr (why, bad) ↦ ground (arith, bad, abort-SameRanks why r)
    | inl fine ↦ elim (Option-cases e.acc) [
      | inl nothing ↦ ground (arith, fine, nothing)
      | inr (a, there) ↦
          let f = finish ops bits itoa a (r, e) in
          let same = finish-SameRanks a (r, e) in
          elim (Option-cases f.1.err) [
            | inl good ↦ ground (arith, fine, there, good, same)
            | inr (why, bad) ↦ ground (arith, fine, there, bad, same, abort-SameRanks why f.0)
          ]
    ]
  ]

  contribute-SameRanks :
      (req : Request F) (blob : List ℕ) (s : Run F × Round F)
      → SameRanks s.0 (contribute ops bits itoa req blob s).0
  unfolding contribute
  contribute-SameRanks req blob (r, e) = elim (Bool-cases (answered e)) [
    | inl there ↦ ground (arith, there)
    | inr waiting ↦ elim (Option-cases e.acc) [
      | inl nothing ↦ ground (arith, waiting, nothing)
      | inr (a, sum) ↦
          ground (arith, waiting, sum, settle_reduce-SameRanks (r, fold_in ops bits req blob a e))
    ]
  ]

  control-fixed :
      (now : ℕ) (req : Request F) (r : Run F)
      → r.fixed ≡ true
      → SameRanks r (control ops bits itoa now req r)
  unfolding control publish
  control-fixed now req r own =
      let s : Run F = record r {
        world = max r.world req.world;
        sharded = r.sharded || req.sharded;
        fixed = r.fixed || req.fixed;
        auto_sync = req.sync_mode == "auto";
        sync_every = if ltb_ℤ (pos 0) req.sync_every then req.sync_every else r.sync_every;
        loading = drop_loading ops bits itoa req.rank r.loading;
        last_seq = req.seq;
        seen = now;
      } in
      let looked = rebalance_for ops bits s.world s in
      let same = rebalance_for-fixed ops bits s.world s (ground (arith, own)) in
      ground (arith, own, same)

  -- A request never makes a ring smaller whose size the user chose: whatever it says and reports, on
  -- whatever round, it neither drops a rank nor releases the others. (The end of the wait of the
  -- opening sync, which may drop ranks that are not ready, is not a request.)
  pub arrive_at-fixed :
      (now : ℕ) (req : Request F) (blob : List ℕ) (r : Run F) (e : Round F)
      → r.fixed ≡ true
      → SameRanks r (arrive_at ops bits itoa now req blob (r, e)).0
  unfolding arrive_at
  arrive_at-fixed now req blob r e own =
      let reps = if eq_ℤ req.shard (pos 0) then req.reports else [] in
      let a = control ops bits itoa now req r in
      let b =
        note_reports ops bits itoa now reps
          (a, agree ops bits itoa req (expect ops bits itoa req r e)) in
      trans-SameRanks r a (contribute ops bits itoa req blob b).0 (control-fixed now req r own) (
        trans-SameRanks a b.0 (contribute ops bits itoa req blob b).0
          (note_reports-SameRanks now reps
            (a, agree ops bits itoa req (expect ops bits itoa req r e)))
          (contribute-SameRanks req blob b))
