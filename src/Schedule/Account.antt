-- ===== src/Schedule/Account.antt =====
-- Which devices a plan accounts for (src/internal/schedule/schedule.go, Compute).
use pipedpeer.Base.{
  ℕ, zero, suc, ◌+◌, ◌≤◌, ◌≡◌, refl, ap, ◌∙◌, subst, Bool, true, false, Option, none, some, List,
  [], ◌∷◌, ◌++◌, map, length, keep_if, not, ◌||◌, nat_beq, arith, Bool-cases, Option-cases, inl,
  inr,
}
use pipedpeer.Base.Int.{ℤ, pos, leb_ℤ, ltb_ℤ, eq_ℤ, ◌-ℤ◌}
use pipedpeer.Base.Float.{FloatOps}
use pipedpeer.Schedule.{
  Device, Share, Plan, Options, Rejection, screen, any_of, settle, solve_makespan, allocate,
  settle_rounding, shares_by, top_up, fastest, big_enough, share_too_small, sum_items,
  drop_tiny_shares, finish_plan, alone_from, no_plan, compute, zero_f,
}
use pipedpeer.Schedule.Search.{
  count, rejections, devices_of, Covers, rejections-append, screen-covers, settle-Covers,
  settle-ends,
}

has_work : (items : ℤ) → ltb_ℤ (pos 0) items ≡ true → leb_ℤ items (pos 0) ≡ false
has_work items h = ground arith

module _ {F : Type 0} (ops : FloatOps F) where
  -- The devices that hold a share.
  abbrev pub devices_by : List (Share F) → List (Device F)
  devices_by = map (λ s. s.device)

  devices_by-shares_by :
      (opts : Options F) (t : F) (ds : List (Device F)) → devices_by (shares_by ops opts t ds) ≡ ds
  unfolding shares_by
  devices_by-shares_by opts t [] = refl
  devices_by-shares_by opts t (d ∷ ds) = ap (◌∷◌ d) (devices_by-shares_by opts t ds)

  devices_by-top_up :
      (i : ℕ) (more : ℤ) (ss : List (Share F)) → devices_by (top_up ops i more ss) ≡ devices_by ss
  unfolding top_up
  devices_by-top_up i more [] = refl
  devices_by-top_up zero more (s ∷ ss) = refl
  devices_by-top_up (suc i) more (s ∷ ss) = ap (◌∷◌ s.device) (devices_by-top_up i more ss)

  devices_by-settle_rounding :
      (opts : Options F) (ss : List (Share F)) (best : Option ℕ)
      → devices_by (settle_rounding ops opts ss best) ≡ devices_by ss
  unfolding settle_rounding
  devices_by-settle_rounding opts ss none = refl
  devices_by-settle_rounding opts ss (some best) =
      elim (Bool-cases (eq_ℤ (sum_items ops ss) opts.items)) [
        | inl e ↦ rw e refl
        | inr e ↦ rw e (devices_by-top_up best (opts.items -ℤ sum_items ops ss) ss)
      ]

  devices_by-allocate :
      (ds : List (Device F)) (opts : Options F) (t : F) → devices_by (allocate ops ds opts t) ≡ ds
  unfolding allocate
  devices_by-allocate ds opts t =
      devices_by-settle_rounding opts (shares_by ops opts t ds)
        (fastest ops opts none (zero_f ops) 0 ds)
      ∙ devices_by-shares_by opts t ds

  module _ (p : Device F → Bool) where
    -- How many devices that pass the test hold a share or are turned down.
    unfoldable pub accounted : Plan F → ℕ
    accounted plan = count p (devices_by plan.shares) + rejections ops p plan.rejected

    count-devices_by :
        (q : Share F → Bool) (ss : List (Share F))
        → count p (devices_by (keep_if q ss)) + count p (devices_by (keep_if (λ s. not (q s)) ss))
          ≡ count p (devices_by ss)
    unfolding count
    count-devices_by q [] = refl
    count-devices_by q (s ∷ ss) = ground (arith, count-devices_by q ss)

    rejections-small :
        (ss : List (Share F))
        → rejections ops p (map (λ s. (s.device, share_too_small)) ss) ≡ count p (devices_by ss)
    unfolding rejections devices_of count
    rejections-small [] = refl
    rejections-small (s ∷ ss) = ground (arith, rejections-small ss)

    drop_tiny_shares-accounted :
        (plan : Plan F) (opts : Options F) (active : List (Device F))
        → accounted plan ≤ accounted (drop_tiny_shares ops plan opts active)
    unfolding drop_tiny_shares accounted
    drop_tiny_shares-accounted plan opts active =
        let kept = keep_if (big_enough ops opts active) plan.shares in
        let keep = devices_by kept in
        let small = keep_if (λ s. not (big_enough ops opts active s)) plan.shares in
        let noted =
          rejections-append ops p plan.rejected (map (λ s. (s.device, share_too_small)) small) in
        elim (Bool-cases (not (any_of ops keep) || nat_beq (length keep) (length plan.shares))) [
          | inl stop ↦ rw stop (omega (arith, noted))
          | inr on ↦ rw on (
              omega (
                arith,
                noted,
                rejections-small small,
                count-devices_by (big_enough ops opts active) plan.shares,
                ap (count p) (devices_by-allocate keep opts (solve_makespan ops keep opts)),
              ))
        ]

    -- The devices that hold a share or are turned down are no fewer, and just as many if the
    -- caller sets no floor above one item.
    abbrev Accounts : Options F → ℕ → ℕ → Type 0
    Accounts opts n m = (n ≤ m) × (ltb_ℤ (pos 1) opts.min_items ≡ false → n ≡ m)

    finish_plan-accounted :
        (opts : Options F) (alone t : F) (rejected dropped : List (Rejection F))
        (active : List (Device F))
        → Accounts opts
            (count p active + rejections ops p dropped + rejections ops p rejected)
            (accounted (finish_plan ops opts alone rejected (active, t, dropped)))
    unfolding finish_plan accounted
    finish_plan-accounted opts alone t rejected dropped active =
        let split : Plan F = record {
          shares = allocate ops active opts t;
          makespan = zero_f ops;
          alone = alone;
          rejected = rejected ++ dropped;
        } in
        let all = rejections-append ops p rejected dropped in
        let held = ap (count p) (devices_by-allocate active opts t) in
        elim (Bool-cases (ltb_ℤ (pos 1) opts.min_items)) [
          | inl floor ↦ rw floor (
            omega (arith, all, held, drop_tiny_shares-accounted split opts active),
            λ f. absurd (ground (arith, f)),
          )
          | inr no_floor ↦ rw no_floor (omega (arith, all, held), λ f. omega (arith, all, held))
        ]

    Accounts-exact : (opts : Options F) {n m : ℕ} → n ≡ m → Accounts opts n m
    Accounts-exact opts h = (omega (arith, h), λ f. h)

    no-devices : (ds : List (Device F)) → any_of ops ds ≡ false → count p ds ≡ 0
    unfolding count
    no-devices [] h = refl
    no-devices (d ∷ ds) h = absurd (ground (arith, h))

    accounted_rejected :
        (rs : List (Rejection F))
        → accounted (record (no_plan ops) { rejected = rs }) ≡ rejections ops p rs
    unfolding accounted count
    accounted_rejected rs = omega arith

    compute-accounted :
        (opts : Options F) (devices : List (Device F))
        → ltb_ℤ (pos 0) opts.items ≡ true
        → (plan : Plan F) × (compute ops opts devices ≡ some plan)
          × Accounts opts (count p devices) (accounted plan)
    unfolding compute
    compute-accounted opts devices work =
        let eligible = (screen ops opts devices).0 in
        let rejected = (screen ops opts devices).1 in
        let covers = screen-covers ops p opts devices in
        elim (Bool-cases (any_of ops eligible)) [
          | inr empty ↦ (
            record (no_plan ops) { rejected = rejected },
            rw (has_work opts.items work, empty, compute) refl,
            Accounts-exact opts
                (omega (arith, covers, no-devices eligible empty, accounted_rejected rejected)),
          )
          | inl some_device ↦
              elim (Option-cases (settle ops (suc (length eligible)) opts eligible)) [
                | inl ended ↦
                    absurd
                      (settle-ends ops (suc (length eligible)) opts eligible (omega arith) ended)
                | inr ((last, t, dropped), e) ↦
                    let alone = alone_from ops ops.inf opts eligible in
                    let settled =
                      subst (Covers ops p eligible) e
                        (settle-Covers ops p (suc (length eligible)) opts eligible) in
                    (
                      finish_plan ops opts alone rejected (last, t, dropped),
                      rw (has_work opts.items work, some_device, e, compute) refl,
                      subst
                          (λ n.
                            Accounts opts n
                              (accounted (finish_plan ops opts alone rejected (last, t, dropped))))
                          (omega (arith, covers, settled))
                          (finish_plan-accounted opts alone t rejected dropped last),
                    )
              ]
        ]

    -- For work of at least one item Compute answers a plan, however many passes it takes, and leaves
    -- out no device: whatever is counted, the devices that hold a share and those turned down are
    -- together no fewer than the devices offered.
    pub compute-leaves_out_none :
        (opts : Options F) (devices : List (Device F))
        → ltb_ℤ (pos 0) opts.items ≡ true
        → (plan : Plan F) × (compute ops opts devices ≡ some plan)
          × (count p devices ≤ accounted plan)
    compute-leaves_out_none opts devices work =
        let (plan, e, counts) = compute-accounted opts devices work in (plan, e, counts.0)

    -- For work of at least one item and no floor above one item a share, each device offered either
    -- holds a share or is turned down, and just once.
    pub compute-counts_once :
        (opts : Options F) (devices : List (Device F))
        → ltb_ℤ (pos 0) opts.items ≡ true
        → ltb_ℤ (pos 1) opts.min_items ≡ false
        → (plan : Plan F) × (compute ops opts devices ≡ some plan)
          × (count p devices ≡ accounted plan)
    compute-counts_once opts devices work no_floor =
        let (plan, e, counts) = compute-accounted opts devices work in (plan, e, counts.1 no_floor)
