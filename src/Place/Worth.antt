-- ===== src/Place/Worth.antt =====
-- How many shares admit keeps, and where each candidate ends up (src/internal/ddpplace/ddpplace.go).
use pipedpeer.Base.{
  ℕ, zero, suc, ◌+◌, ◌≤◌, ◌≡◌, refl, ap, ◌∙◌, Bool, none, false, if◌then◌else◌, ltb, ◌&&◌, some,
  List, [], ◌∷◌, ◌++◌, map, length, take, drop, get_elem?, arith, Bool-cases, inl, inr, length-map,
  length-take-le, String,
}
use pipedpeer.Base.Eq.{nat_eq}
use pipedpeer.Base.Float.{FloatOps, OrderLaws}
use pipedpeer.Base.Map.{Map}
use pipedpeer.Schedule.{Device, Share, Plan}
use pipedpeer.Schedule.Search.{count, count-append}
use pipedpeer.Place.{
  Candidate, Choice, Reason, Options, ref_of, of_ℕ, best_from, best_count, from_plan, slower,
  over_cap, named, sum_rates, sum_weights, admit, share_of, choices_of, cap_ring, renormalise,
  ring_of, SlotRef,
}

module _ {F : Type 0} (ops : FloatOps F) (laws : OrderLaws ops) where
  -- What the first `suc k` are worth together, when each waits for the slowest of them.
  abbrev worth_of : ℕ → Share F → F
  worth_of k s = ops.mul (of_ℕ ops (suc k)) s.device.rate

  best_from-keeps :
      (k best : ℕ) (worth x : F) (ss : List (Share F))
      → ops.lt worth x ≡ false
      → ops.lt (best_from ops k best worth ss).1 x ≡ false
  unfolding best_from
  best_from-keeps k best worth x [] h = h
  best_from-keeps k best worth x (s ∷ ss) h = elim (Bool-cases (ops.lt worth (worth_of k s))) [
    | inl better ↦
        rw (better, best_from)
          (best_from-keeps (suc k) (suc k) (worth_of k s) x ss
            (ground (arith, h, better, laws.lt_trans worth (worth_of k s) x)))
    | inr worse ↦ rw (worse, best_from) (best_from-keeps (suc k) best worth x ss h)
  ]

  best_from-best :
      (k best i : ℕ) (worth : F) (ss : List (Share F)) (s : Share F)
      → get_elem? ss i ≡ some s
      → ops.lt (best_from ops k best worth ss).1 (worth_of (k + i) s) ≡ false
  unfolding best_from
  best_from-best k best i worth [] s h = absurd (ground (arith, h))
  best_from-best k best zero worth (t ∷ ts) s h =
      let better = ops.lt worth (worth_of k t) in
      let this : s ≡ t = ground (arith, h) in
      let here : k + 0 ≡ k = omega arith in
      rw (here, this)
        (best_from-keeps (suc k) (if better then suc k else best)
          (if better then worth_of k t else worth) (worth_of k t) ts
          (ground (arith, laws.lt_irrefl (worth_of k t))))
  best_from-best k best (suc i) worth (t ∷ ts) s h =
      let better = ops.lt worth (worth_of k t) in
      let here : k + suc i ≡ suc k + i = omega arith in
      rw here (
        best_from-best (suc k) (if better then suc k else best) i
          (if better then worth_of k t else worth) ts s h)

  -- The worth of the first `n` of some shares together.
  abbrev pub worth_at : List (Share F) → ℕ → F
  worth_at all zero = of_ℕ ops 0
  worth_at all (suc k) = elim (get_elem? all k) [ none ↦ of_ℕ ops 0 | some s ↦ worth_of k s ]

  best_from-worth_at :
      (all : List (Share F)) (k best : ℕ) (worth : F) (ss : List (Share F))
      → ((i : ℕ) → get_elem? all (k + i) ≡ get_elem? ss i)
      → worth ≡ worth_at all best
      → best ≤ k
      → let (n, w) = best_from ops k best worth ss in (w ≡ worth_at all n) × (n ≤ k + length ss)
  unfolding best_from
  best_from-worth_at all k best worth [] part here low = (here, omega (arith, low))
  best_from-worth_at all k best worth (s ∷ ss) part here low =
      let at_k : get_elem? all k ≡ some s = ap (get_elem? all) (omega arith) ∙ part 0 in
      let later : (i : ℕ) → get_elem? all (suc k + i) ≡ get_elem? ss i =
        λ i. ap (get_elem? all) (omega arith) ∙ part (suc i) in
      elim (Bool-cases (ops.lt worth (worth_of k s))) [
        | inl better ↦
            let now : worth_of k s ≡ worth_at all (suc k) = ground (arith, at_k) in
            let rest =
              best_from-worth_at all (suc k) (suc k) (worth_of k s) ss later now (omega arith) in
            rw (better, best_from) (rest.0, omega (arith, rest.1))
        | inr worse ↦
            let rest =
              best_from-worth_at all (suc k) best worth ss later here (omega (arith, low)) in
            rw (worse, best_from) (rest.0, omega (arith, rest.1))
      ]

  -- Without keep_all, the number of shares that admit keeps, from the front of the shares that it has
  -- sorted, is worth most: there are that many, and no other number of them from the front, each
  -- waiting for the last of them, is worth more.
  pub best_count-worth :
      (by_rate : List (Share F) → List (Share F)) (opts : Options) (ss : List (Share F)) (i : ℕ)
      (s : Share F)
      → opts.keep_all ≡ false
      → get_elem? ss i ≡ some s
      → let best = best_count ops by_rate opts ss in
        (best ≤ length ss)
        × (ops.lt (worth_at ss best) (ops.mul (of_ℕ ops (suc i)) s.device.rate) ≡ false)
  unfolding best_count
  best_count-worth by_rate opts ss i s fits h =
      let here : 0 + i ≡ i = omega arith in
      let top = best_from-best 0 0 i (of_ℕ ops 0) ss s h in
      let at =
        best_from-worth_at ss 0 0 (of_ℕ ops 0) ss (λ i. ap (get_elem? ss) (omega arith)) refl
          (omega arith) in
      rw fits (omega (arith, at.1), rw (← at.0) (rw (← here) top))

module _ {A : Type 0} where
  count-map :
      {B : Type 0} (q : B → Bool) (f : A → B) (xs : List A)
      → count q (map f xs) ≡ count (λ x. q (f x)) xs
  unfolding count
  count-map q f [] = refl
  count-map q f (x ∷ xs) = ground (arith, count-map q f xs)

  count-same : (p q : A → Bool) (xs : List A) → ((x : A) → p x ≡ q x) → count p xs ≡ count q xs
  unfolding count
  count-same p q [] h = refl
  count-same p q (x ∷ xs) h = ground (arith, h x, count-same p q xs h)

  count-take-drop :
      (q : A → Bool) (n : ℕ) (xs : List A) → count q (take n xs) + count q (drop n xs) ≡ count q xs
  unfolding count
  count-take-drop q zero xs = omega arith
  count-take-drop q (suc n) [] = omega arith
  count-take-drop q (suc n) (x ∷ xs) = ground (arith, count-take-drop q n xs)

module _ {F : Type 0} (ops : FloatOps F) (itoa : ℕ → String) (p : Candidate → Bool) where
  -- Whether the candidate of a device passes the test.
  abbrev pub device_passes : Map String (SlotRef ops itoa) → Device F → Bool
  device_passes refs d = p (ref_of ops itoa refs d).0

  share_of-device :
      (opts : Options) (n : ℕ) (rate : F) (s : Share F)
      → (share_of ops opts n rate s).device ≡ s.device
  unfolding share_of
  share_of-device opts n rate s = ground arith

  count-admit :
      (refs : Map String (SlotRef ops itoa)) (by_rate : List (Share F) → List (Share F))
      (plan : Plan F) (opts : Options)
      → ((q : Share F → Bool) (ss : List (Share F)) → count q (by_rate ss) ≡ count q ss)
      → let (shares, others) = admit ops by_rate plan opts in
        count (λ s. device_passes refs s.device) shares + count (λ d. device_passes refs d.0) others
        ≡ count (λ s. device_passes refs s.device) plan.shares
          + count (λ d. device_passes refs d.0) plan.rejected
  unfolding admit
  count-admit refs by_rate plan opts same =
      let q : Share F → Bool = λ s. device_passes refs s.device in
      let r : Device F × Reason → Bool = λ d. device_passes refs d.0 in
      let shares = by_rate plan.shares in
      let best = best_count ops by_rate opts shares in
      let taken = take best shares in
      let left = drop best shares in
      let rate = sum_rates ops (of_ℕ ops 0) taken in
      let share = share_of ops opts best rate in
      omega (
        arith,
        same q plan.shares,
        count-map q share taken,
        count-same (λ s. q (share s)) q taken
            (λ s. ap (device_passes refs) (share_of-device opts best rate s)),
        count-append r (map (from_plan ops) plan.rejected) (map (slower ops) left),
        count-map r (from_plan ops) plan.rejected,
        count-map r (slower ops) left,
        count-take-drop q best shares,
      )

  count-choices_of :
      (refs : Map String (SlotRef ops itoa)) (ss : List (Share F))
      → let (chosen, small) = choices_of ops itoa refs ss in
        count (λ c. p c.candidate) chosen + count (λ x. p x.0) small
        ≡ count (λ s. device_passes refs s.device) ss
  unfolding choices_of count
  count-choices_of refs [] = omega arith
  count-choices_of refs (s ∷ ss) = ground (arith, count-choices_of refs ss)

  count-cap_ring :
      (max : ℕ) (cs : List (Choice F))
      → let (ring, over) = cap_ring ops itoa max cs in
        (count (λ c. p c.candidate) ring + count (λ x. p x.0) over ≡ count (λ c. p c.candidate) cs)
        × ((if ltb 0 max then length ring else 0) ≤ max)
  unfolding cap_ring count
  count-cap_ring max cs = elim (Bool-cases (ltb 0 max && ltb max (length cs))) [
    | inl over ↦ rw over (
      omega (
        arith,
        count-take-drop (λ c. p c.candidate) max cs,
        count-map (λ (x : Candidate × Reason). p x.0) (over_cap ops) (drop max cs),
      ),
      ground (arith, length-take-le max cs),
    )
    | inr fits ↦ rw fits (omega arith, ground (arith, fits))
  ]

  count-renormalise :
      (cs : List (Choice F))
      → (count (λ c. p c.candidate) (renormalise ops itoa cs) ≡ count (λ c. p c.candidate) cs)
        × (length (renormalise ops itoa cs) ≡ length cs)
  unfolding renormalise
  count-renormalise cs =
      let total = sum_weights ops itoa (of_ℕ ops 0) cs in
      elim (Bool-cases (ops.lt (of_ℕ ops 0) total)) [
        | inl some_weight ↦ rw some_weight (count-map _ _ cs, length-map _ cs)
        | inr no_weight ↦ rw no_weight (refl, refl)
      ]

  -- Nobody is lost and nobody is made up, over sorts that keep what they sort: of any candidates that
  -- a test picks, the ring and the rejections together hold as many as the shares of the plan and the
  -- devices that it turned down; and a ring with a cap has no more ranks than that.
  pub count-ring_of :
      (by_rate : List (Share F) → List (Share F)) (by_score : List (Choice F) → List (Choice F))
      (opts : Options) (refs : Map String (SlotRef ops itoa)) (plan : Plan F)
      → ((q : Share F → Bool) (ss : List (Share F)) → count q (by_rate ss) ≡ count q ss)
      → ((q : Choice F → Bool) (cs : List (Choice F)) → count q (by_score cs) ≡ count q cs)
      → let (ring, rejected) = ring_of ops itoa by_rate by_score opts refs plan in
        (count (λ c. p c.candidate) ring + count (λ x. p x.0) rejected
          ≡ count (λ s. device_passes refs s.device) plan.shares
            + count (λ d. device_passes refs d.0) plan.rejected)
        × ((if ltb 0 opts.max then length ring else 0) ≤ opts.max)
  unfolding ring_of
  count-ring_of by_rate by_score opts refs plan keeps_rate keeps_score =
      let q : Candidate × Reason → Bool = λ x. p x.0 in
      let a = admit ops by_rate plan opts in
      let c = choices_of ops itoa refs a.0 in
      let ring = cap_ring ops itoa opts.max (by_score c.0) in
      let others = map (named ops itoa refs) a.1 in
      let capped_at = count-cap_ring opts.max (by_score c.0) in
      let same = count-renormalise ring.0 in
      (
        omega (
          arith,
          capped_at.0,
          same.0,
          count-append q c.1 (others ++ ring.1),
          count-append q others ring.1,
          count-map q (named ops itoa refs) a.1,
          count-choices_of refs a.0,
          keeps_score (λ c. p c.candidate) c.0,
          count-admit refs by_rate plan opts keeps_rate,
        ),
        rw same.1 capped_at.1,
      )
