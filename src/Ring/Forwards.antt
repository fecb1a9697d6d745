-- ===== src/Ring/Forwards.antt =====
-- What a machine forwards of its ranks' payloads (src/internal/daemonapi/ddplocal.go), over the
-- histories of one machine-local round up to its forward.
use pipedpeer.Base.{
  ℕ, ◌+◌, ◌*◌, ◌^◌, ◌≡◌, ◌<◌, refl, sym, ap, ◌∙◌, Bool, true, false, not, if◌then◌else◌, ◌||◌,
  Option, none, some, List, [], ◌∷◌, ◌++◌, map, length, String, arith, Bool-cases, Option-cases,
  inl, inr, length-append, subst,
}
use pipedpeer.Base.Eq.{◌==◌, nat_eq}
use pipedpeer.Base.Int.{ℤ, pos_part}
use pipedpeer.Base.Float.{FloatOps}
use pipedpeer.Ring.Ranks.{in_set}
use pipedpeer.Ring.Down.{Distinct}
use pipedpeer.Ring.Sum.{FloatBits, DType, Sum, SumError, size, is_i8, add_segmented}
use pipedpeer.Ring.Run.{Run, Report}
use pipedpeer.Ring.Round.{Request, scales_of, residual_of}
use pipedpeer.Ring.Sync.{sum_for}
use pipedpeer.Ring.Sizes.{sum_of, IsSized, Added, add_segmented-IsSized, add_segmented-Added}
use pipedpeer.Ring.Replies.{
  sum_for-IsSized, sum_for-empty, is_float, Replied, mean_residual-Replied,
}
use pipedpeer.Ring.Mean.{mean_residual, Mean, encoded, failed}
use pipedpeer.Ring.Local.{
  LocalRequest, LocalRound, LocalArrival, waits, ranks_of, open_local, local_round, joined, posted,
  forwarded, local_add, after_add, send_when, join_local, local_patience_ends, forward_local,
  up_key,
}

pub data LocalEvent (F : Type 0) : Type 0 where
  comes : LocalRequest F → List ℕ → LocalEvent F
  wait_ends : LocalEvent F

abbrev starts : LocalArrival → ℕ
starts (waits true) = 1
starts _ = 0

in_set-later :
    {F : Type 0} (ms : List (ℕ × Report F)) (k j : ℕ) (rep : Report F)
    → in_set j (ranks_of (ms ++ (k, rep) ∷ [])) ≡ (in_set j (ranks_of ms) || k == j)
unfolding in_set
in_set-later [] k j rep = ground arith
in_set-later ((m, r) ∷ ms) k j rep = ground (arith, in_set-later ms k j rep)

ranks_of-Distinct :
    {F : Type 0} (ms : List (ℕ × Report F)) (k : ℕ) (rep : Report F)
    → in_set k (ranks_of ms) ≡ false
    → Distinct (ranks_of ms)
    → Distinct (ranks_of (ms ++ (k, rep) ∷ []))
unfolding in_set
ranks_of-Distinct [] k rep new d = (refl, tt)
ranks_of-Distinct ((m, r) ∷ ms) k rep new d = (
  ground (arith, in_set-later ms k m rep, new, d.0),
  ranks_of-Distinct ms k rep (ground (arith, new)) d.1,
)

module _ {F : Type 0} (ops : FloatOps F) (bits : FloatBits F) (itoa : ℤ → String) where
  -- A step, and how many forwards it starts.
  local_step : LocalRound F → LocalEvent F → LocalRound F × ℕ
  local_step lr (comes q blob) =
      let (lr', arrival) = join_local ops bits itoa q blob lr in (lr', starts arrival)
  local_step lr wait_ends =
      let (lr', sends) = local_patience_ends ops bits itoa lr in (lr', if sends then 1 else 0)

  unfoldable pub local_steps : LocalRound F → List (LocalEvent F) → LocalRound F × ℕ
  unfolding local_step
  local_steps lr [] = (lr, 0)
  local_steps lr (ev ∷ evs) =
      let (lr', n) = local_step lr ev in let (lr2, more) = local_steps lr' evs in (lr2, n + more)

  -- Each rank at most once, the sum counts as many payloads as there are ranks, and its values are
  -- `n` of one type.
  abbrev pub IsGathered : DType → ℕ → LocalRound F → Type 0
  IsGathered t n lr =
      (a : Sum F) × (lr.acc ≡ some a)
      × (a.count ≡ length lr.members)
      × IsSized ops bits t n a
      × Distinct (ranks_of lr.members)

  abbrev sent_count : LocalRound F → ℕ
  sent_count lr = if lr.sent then 1 else 0

  send_when-once :
      (ready : Bool) (lr : LocalRound F)
      → let (lr', starts_now) = send_when ops bits itoa ready lr in
        (sent_count lr' ≡ sent_count lr + (if starts_now then 1 else 0))
        × (lr'.members ≡ lr.members)
        × (lr'.acc ≡ lr.acc)
  unfolding send_when
  send_when-once ready lr = ground arith

  joined-IsGathered :
      {t : DType} {n : ℕ} (blob : List ℕ) (q : LocalRequest F) (lr : LocalRound F) (a b : Sum F)
      (err : Option SumError)
      → in_set q.request.rank (ranks_of lr.members) ≡ false
      → Distinct (ranks_of lr.members)
      → a.count ≡ length lr.members
      → IsSized ops bits t n b
      → Added ops bits (n * size t) blob a (b, err)
      → IsGathered t n (joined ops bits itoa q lr (b, err)).0
  joined-IsGathered blob q lr a b (some why) new d counts sized added =
      (b, refl, added.0 ∙ counts, sized, d)
  joined-IsGathered blob q lr a b none new d counts sized added = (
    b,
    refl,
    omega (arith, added.1, counts, length-append lr.members ((q.request.rank, q.report) ∷ [])),
    sized,
    ranks_of-Distinct lr.members q.request.rank q.report new d,
  )

  joined-sent :
      (q : LocalRequest F) (lr : LocalRound F) (out : Sum F × Option SumError)
      → (joined ops bits itoa q lr out).0.sent ≡ lr.sent
  joined-sent q lr (b, none) = refl
  joined-sent q lr (b, some why) = refl

  local_add-IsGathered :
      {t : DType} {n : ℕ} (q : LocalRequest F) (blob : List ℕ) (lr : LocalRound F)
      → IsGathered t n lr
      → IsGathered t n (local_add ops bits itoa q blob lr).0
        × ((local_add ops bits itoa q blob lr).0.sent ≡ lr.sent)
  unfolding local_add
  local_add-IsGathered {t} {n} q blob lr (a, here, counts, sized, d) =
      let req = q.request in
      let scales = scales_of ops bits req in
      let out = add_segmented ops bits blob scales (ops.of_int req.samples) a in
      elim (Bool-cases (in_set req.rank (ranks_of lr.members) || lr.sent)) [
        | inl late ↦
            let same : (lr, false) ≡ local_add ops bits itoa q blob lr =
              ground (arith, here, late) in
            subst (λ x. IsGathered t n x.0 × (x.0.sent ≡ lr.sent)) same
              ((a, here, counts, sized, d), refl)
        | inr new ↦
            let same : joined ops bits itoa q lr out ≡ local_add ops bits itoa q blob lr =
              ground (arith, here, new) in
            subst (λ x. IsGathered t n x.0 × (x.0.sent ≡ lr.sent)) same
              (
                joined-IsGathered blob q lr a out.0 out.1 (ground (arith, new)) d counts
                    (add_segmented-IsSized ops bits blob scales (ops.of_int req.samples) a sized)
                    (add_segmented-Added ops bits blob scales (ops.of_int req.samples) a sized),
                joined-sent q lr out,
              )
      ]

  after_add-once :
      (x : LocalRound F × Bool)
      → let (lr, arrival) = after_add ops bits itoa x in
        (sent_count lr ≡ sent_count x.0 + starts arrival)
        × (lr.members ≡ x.0.members)
        × (lr.acc ≡ x.0.acc)
  unfolding send_when
  after_add-once (lr, true) = (omega arith, refl, refl)
  after_add-once (lr, false) = ground arith

  IsGathered-same :
      {t : DType} {n : ℕ} (lr lr' : LocalRound F)
      → lr'.members ≡ lr.members
      → lr'.acc ≡ lr.acc
      → IsGathered t n lr
      → IsGathered t n lr'
  IsGathered-same lr lr' ms acc (a, here, counts, sized, d) = (
    a,
    acc ∙ here,
    counts ∙ sym (ap length ms),
    sized,
    subst (λ m. Distinct (ranks_of m)) (sym ms) d,
  )

  local_step-once :
      {t : DType} {n : ℕ} (lr : LocalRound F) (ev : LocalEvent F)
      → IsGathered t n lr
      → let (lr', k) = local_step lr ev in IsGathered t n lr' × (sent_count lr' ≡ sent_count lr + k)
  unfolding local_step join_local local_patience_ends
  local_step-once lr (comes q blob) g =
      let x = local_add ops bits itoa q blob lr in
      let (g', same) = local_add-IsGathered q blob lr g in
      let once = after_add-once x in
      (
        IsGathered-same x.0 (after_add ops bits itoa x).0 once.1 once.2 g',
        once.0 ∙ ap (λ s. (if s then 1 else 0) + starts (after_add ops bits itoa x).1) same,
      )
  local_step-once lr wait_ends g =
      let once = send_when-once (not (length lr.members == 0)) lr in
      (IsGathered-same lr (local_patience_ends ops bits itoa lr).0 once.1 once.2 g, once.0)

  steps_once :
      {t : DType} {n : ℕ} (lr : LocalRound F) (evs : List (LocalEvent F))
      → IsGathered t n lr
      → let (lr', k) = local_steps lr evs in
        IsGathered t n lr' × (sent_count lr' ≡ sent_count lr + k)
  unfolding local_steps
  steps_once lr [] g = (g, omega arith)
  steps_once lr (ev ∷ evs) g =
      let one = local_step-once lr ev g in
      let more = steps_once (local_step lr ev).0 evs one.0 in (more.0, omega (arith, one.1, more.1))

  open_local-IsGathered :
      (now : ℕ) (q : LocalRequest F) (lr : LocalRound F)
      → sum_of (map pos_part q.request.counts) < 2 ^ 63
      → open_local ops bits itoa now q ≡ some lr
      → IsGathered q.request.dtype (pos_part q.request.count) lr
        × (lr.sent ≡ false)
        × ((is_i8 q.request.dtype || is_float ops bits q.request.dtype) ≡ true)
  unfolding open_local
  open_local-IsGathered now q lr small h = elim (Option-cases (sum_for ops bits itoa q.request)) [
    | inl bad ↦ absurd (ground (arith, bad, h))
    | inr (a, opens) ↦
        let same : local_round ops bits itoa now q a ≡ lr = ground (arith, opens, h) in
        subst
          (λ x.
            IsGathered q.request.dtype (pos_part q.request.count) x
            × (x.sent ≡ false)
            × ((is_i8 q.request.dtype || is_float ops bits q.request.dtype) ≡ true))
          same
          (
            (
              a,
              refl,
              sum_for-empty ops bits itoa q.request a opens,
              (sum_for-IsSized ops bits itoa q.request a small opens).0,
              tt,
            ),
            refl,
            (sum_for-IsSized ops bits itoa q.request a small opens).1,
          )
  ]

  -- In any history of a machine's round that a request opened, its segment lengths adding up to less
  -- than 2 ^ 63, the forward is started once at most, and it is started as soon as the round is marked
  -- sent; no rank is a member twice, and the sum counts as many payloads as there are members.
  pub local_steps-once :
      (now : ℕ) (q : LocalRequest F) (lr : LocalRound F) (evs : List (LocalEvent F))
      → sum_of (map pos_part q.request.counts) < 2 ^ 63
      → open_local ops bits itoa now q ≡ some lr
      → let (lr', started) = local_steps lr evs in
        (started ≡ (if lr'.sent then 1 else 0))
        × IsGathered q.request.dtype (pos_part q.request.count) lr'
  local_steps-once now q lr evs small opens =
      let (g, fresh, known) = open_local-IsGathered now q lr small opens in
      let all = steps_once lr evs g in (ground (arith, all.1, fresh), all.0)

  -- One contribution, of a payload of `n` bytes, that names a round's members with their reports.
  abbrev pub Posts : ℕ → LocalRound F → Option (Request F × List ℕ) → Type 0
  Posts n lr sent =
      (req : Request F) × (out : List ℕ) × (sent ≡ some (req, out))
      × (length out ≡ n)
      × (req.contributors ≡ ranks_of lr.members)
      × (req.reports ≡ lr.members)

  posted-Posts :
      (n k : ℕ) (lr : LocalRound F) (a : Sum F) (m : Mean F) (ms : List (ℕ × Report F))
      → lr.members ≡ ms
      → Replied ops bits n k m
      → 0 < length ms
      → Posts n lr (posted ops bits itoa lr a m)
  unfolding forwarded
  posted-Posts n k lr a (failed why) ms here fits some_in = absurd fits
  posted-Posts n k lr a (encoded out scales) [] here fits some_in = absurd (omega (arith, some_in))
  posted-Posts n k lr a (encoded out scales) (m ∷ ms) here fits some_in =
      (forwarded ops bits itoa lr a m.0 scales, out, ground (arith, here), fits.0, refl, refl)

  -- After any history of a machine's round in which a rank's payload was accepted, and with a residual
  -- of the round's length, the forward posts one contribution: its payload has the size that the
  -- round's first request declared, and it names the round's members with their reports.
  pub forward_local-Posts :
      (now : ℕ) (q : LocalRequest F) (lr lr' : LocalRound F) (evs : List (LocalEvent F))
      (started : ℕ) (r : Run F)
      → sum_of (map pos_part q.request.counts) < 2 ^ 63
      → open_local ops bits itoa now q ≡ some lr
      → local_steps lr evs ≡ (lr', started)
      → 0 < length lr'.members
      → length (
          residual_of ops bits itoa r
            (up_key ops bits itoa lr'.hdr (pos_part q.request.count))
            (pos_part q.request.count))
        ≡ pos_part q.request.count
      → (a : Sum F) × (lr'.acc ≡ some a)
        × Posts
            (pos_part q.request.count * size q.request.dtype)
            lr'
            (forward_local ops bits itoa a (r, lr')).1
  unfolding forward_local
  forward_local-Posts now q lr lr' evs started r small opens history some_in res =
      let t = q.request.dtype in
      let n = pos_part q.request.count in
      let (g, fresh, known) = open_local-IsGathered now q lr small opens in
      let (a, here, counts, sized, d) : IsGathered t n lr' =
        subst (λ x. IsGathered t n x.0) history (steps_once lr evs g).0 in
      let stored = λ (k : ℕ). residual_of ops bits itoa r (up_key ops bits itoa lr'.hdr k) k in
      let fits : length (stored (length a.values)) ≡ n =
        subst (λ k. length (stored k) ≡ n) (sym sized.values) res in
      let m = mean_residual ops bits (stored (length a.values)) a in
      let replied =
        mean_residual-Replied ops bits (stored (length a.values)) a sized
          (omega (arith, counts, some_in)) known fits in
      (a, here, posted-Posts (n * size t) _ lr' a m.0 lr'.members refl replied.0 some_in)
