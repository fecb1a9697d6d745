-- ===== src/Ring/Closing.antt =====
-- A round closes as soon as no live rank is missing (src/internal/daemonapi/ddpsync.go).
use pipedpeer.Base.{
  ℕ, ◌-◌, ◌≡◌, ◌<◌, refl, ◌∙◌, sym, subst, true, false, leb, ◌&&◌, inl, inr, Option, none, some,
  List, String, arith, Bool-cases, Option-cases,
}
use Prim.Native.Nat.{max}
use pipedpeer.Base.Eq.{nat_eq}
use pipedpeer.Base.Int.{ℤ}
use pipedpeer.Base.Float.{FloatOps}
use pipedpeer.Ring.Ranks.{count_live, count_below, Covers, Covers-count_live}
use pipedpeer.Ring.Sum.{FloatBits, SumError, Sum}
use pipedpeer.Ring.Run.{Cause, Run}
use pipedpeer.Ring.Round.{
  Request, Round, answered, no_err, finish, expected_count, settle_reduce, settle_open,
  settle_finished, fold_in, add_payload, placed, fingerprint_in, check_kind, check_manifest, fresh,
}
use pipedpeer.Ring.Sync.{contribute}
use pipedpeer.Ring.Answers.{contribute_open, settle_reduce_open, settle_reduce_failed}
use pipedpeer.Ring.Events.{State}
use pipedpeer.Ring.Waiters.{answered-core, finish-answered}

module _ {F : Type 0} (ops : FloatOps F) (bits : FloatBits F) (itoa : ℤ → String) where
  settle_finished-answered :
      (s : State ops bits itoa)
      → answered s.1 ≡ true
      → (answered (settle_finished ops bits itoa s).1 ≡ true)
        × ((settle_finished ops bits itoa s).1.done ≡ true)
  unfolding settle_finished
  settle_finished-answered (r, e) there = (ground (arith, there), ground arith)

  -- With every rank in or dropped, and one live rank in, the round has all that it expects.
  expected_count-met :
      (r : Run F) (e : Round F)
      → e.expected ≡ max 1 (e.world - count_below e.world r.dropped)
      → Covers e.world e.seen r.dropped
      → 0 < count_live r.dropped e.seen
      → leb (expected_count e) (count_live r.dropped e.seen) ≡ true
  unfolding expected_count
  expected_count-met r e size all live =
      ground (arith, size, live, Covers-count_live e.world e.seen r.dropped all)

  settle_reduce_failed_done :
      (r : Run F) (e : Round F) (why : Cause)
      → e.err ≡ some why
      → (settle_reduce ops bits itoa (r, e)).1.done ≡ true
  unfolding settle_reduce
  settle_reduce_failed_done r e why bad = ground (arith, bad)

  settle_reduce-closes :
      (r : Run F) (e : Round F) (a : Sum F)
      → e.acc ≡ some a
      → e.expected ≡ max 1 (e.world - count_below e.world r.dropped)
      → Covers e.world e.seen r.dropped
      → 0 < count_live r.dropped e.seen
      → let s = settle_reduce ops bits itoa (r, e) in (answered s.1 ≡ true) × (s.1.done ≡ true)
  unfolding settle_open
  settle_reduce-closes r e a there size all live = elim (Option-cases e.err) [
    | inr (why, bad) ↦
        let same = settle_reduce_failed ops bits itoa r e why bad in
        (
          answered-core ops bits itoa e (settle_reduce ops bits itoa (r, e)).1 same
              ∙ ground (arith, bad),
          settle_reduce_failed_done r e why bad,
        )
    | inl fine ↦
        let f = finish ops bits itoa a (r, e) in
        rw (settle_reduce_open ops bits itoa r e a fine there, expected_count-met r e size all live)
          (settle_finished-answered f (finish-answered ops bits itoa a (r, e)))
  ]

  -- What a contribution leaves of its round: a sum, the size, what is expected.
  abbrev Keeps : Round F → Round F → Type 0
  Keeps e e' = ((a : Sum F) × (e'.acc ≡ some a)) × (e'.world ≡ e.world) × (e'.expected ≡ e.expected)

  placed-Keeps :
      (req : Request F) (e : Round F) (p : Sum F × Option SumError)
      → Keeps e (placed ops bits req e p)
  placed-Keeps req e (a, none) = ((a, refl), refl, refl)
  placed-Keeps req e (a, some why) = ((a, refl), refl, refl)

  checks-keep :
      (req : Request F) (e : Round F)
      → let e' = check_kind req (check_manifest req e) in
        (e'.acc ≡ e.acc) × (e'.world ≡ e.world) × (e'.expected ≡ e.expected)
  unfolding check_kind check_manifest
  checks-keep req e = ground arith

  fingerprint_in-keeps :
      (req : Request F) (blob : List ℕ) (e : Round F)
      → let e' = fingerprint_in req blob e in (e'.world ≡ e.world) × (e'.expected ≡ e.expected)
  unfolding fingerprint_in
  fingerprint_in-keeps req blob e = ground arith

  fold_in-Keeps :
      (req : Request F) (blob : List ℕ) (a : Sum F) (e : Round F)
      → e.acc ≡ some a
      → Keeps e (fold_in ops bits req blob a e)
  unfolding fold_in add_payload
  fold_in-Keeps req blob a e there =
      let e2 = check_kind req (check_manifest req e) in
      let kept = checks-keep req e in
      let marked = fingerprint_in-keeps req blob e2 in
      elim (Bool-cases (fresh req e && no_err e2)) [
        | inl new ↦
            let p = placed-Keeps req (fingerprint_in req blob e2) _ in
            rw new (p.0, p.1 ∙ marked.0 ∙ kept.1, p.2 ∙ marked.1 ∙ kept.2)
        | inr old ↦ rw old ((a, kept.0 ∙ there), kept.1, kept.2)
      ]

  -- A contribution that leaves no rank missing but those the run goes on without closes its round
  -- with an answer, at once: the round expects the ring's size less its dropped ranks, and with the
  -- contribution looked at every rank below that size is in it or dropped, one of them being live.
  pub contribute-closes :
      (req : Request F) (blob : List ℕ) (r : Run F) (e : Round F) (a : Sum F)
      → answered e ≡ false
      → e.acc ≡ some a
      → e.expected ≡ max 1 (e.world - count_below e.world r.dropped)
      → Covers e.world (fold_in ops bits req blob a e).seen r.dropped
      → 0 < count_live r.dropped (fold_in ops bits req blob a e).seen
      → let s = contribute ops bits itoa req blob (r, e) in
        (answered s.1 ≡ true) × (s.1.done ≡ true)
  contribute-closes req blob r e a waiting there size all live =
      let e' = fold_in ops bits req blob a e in
      let kept = fold_in-Keeps req blob a e there in
      let size' : e'.expected ≡ max 1 (e'.world - count_below e'.world r.dropped) =
        ground (arith, size, kept.1, kept.2) in
      rw (contribute_open ops bits itoa req blob r e a waiting there) (
        settle_reduce-closes r e' kept.0.0 kept.0.1 size'
          (subst (λ w. Covers w e'.seen r.dropped) (sym kept.1) all) live)
