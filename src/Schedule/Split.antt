-- ===== src/Schedule/Split.antt =====
-- How the work is split over the devices (src/internal/schedule/schedule.go, allocate).
use pipedpeer.Base.{
  ℕ, zero, suc, ◌+◌, ◌<◌, ◌≡◌, refl, sym, ap, ◌∙◌, subst, true, false, Option, none, some, List, [],
  ◌∷◌, length, All, arith, Bool-cases, ◌⊎◌, inl, inr,
}
use pipedpeer.Base.Int.{ℤ, pos, ◌+ℤ◌, ◌-ℤ◌, ◌≤ℤ◌, ltb_ℤ, eq_ℤ, eq_of_parts}
use pipedpeer.Base.Float.{FloatOps}
use pipedpeer.Schedule.{
  Device, Share, Options, eff_rate, items_by, fastest, top_up, sum_items, shares_by,
  settle_rounding, allocate, zero_f,
}

add_last : (a b c : ℤ) → a +ℤ (b +ℤ c) ≡ (a +ℤ b) +ℤ c
unfolding ◌+ℤ◌
add_last a b c = ground (arith, eq_of_parts (a +ℤ (b +ℤ c)) ((a +ℤ b) +ℤ c))

add_swap : (a b c : ℤ) → (a +ℤ c) +ℤ b ≡ (a +ℤ b) +ℤ c
unfolding ◌+ℤ◌
add_swap a b c = ground (arith, eq_of_parts ((a +ℤ c) +ℤ b) ((a +ℤ b) +ℤ c))

add_difference : (a b : ℤ) → a +ℤ (b -ℤ a) ≡ b
unfolding ◌+ℤ◌ ◌-ℤ◌
add_difference a b = ground (arith, eq_of_parts (a +ℤ (b -ℤ a)) b)

difference_pos : (a b : ℤ) → a ≤ℤ b → pos 0 ≤ℤ (b -ℤ a)
unfolding ◌-ℤ◌
difference_pos a b h = ground arith

sum_pos : (a b : ℤ) → pos 0 ≤ℤ a → pos 0 ≤ℤ b → pos 0 ≤ℤ (a +ℤ b)
unfolding ◌+ℤ◌
sum_pos a b ha hb = ground arith

not_below : (a : ℤ) → pos 0 ≤ℤ a → ltb_ℤ a (pos 0) ≡ false
not_below a h = ground arith

eq_ℤ-eq : (a b : ℤ) → eq_ℤ a b ≡ true → a ≡ b
eq_ℤ-eq a b h = ground (arith, eq_of_parts a b)

module _ {F : Type 0} (ops : FloatOps F) where
  -- No share is negative.
  abbrev pub NonNegative : List (Share F) → Type 0
  NonNegative = All (λ s. pos 0 ≤ℤ s.items)

  sum_items-top_up :
      (i : ℕ) (more : ℤ) (ss : List (Share F))
      → i < length ss
      → pos 0 ≤ℤ more
      → NonNegative ss
      → (sum_items ops (top_up ops i more ss) ≡ sum_items ops ss +ℤ more)
        × NonNegative (top_up ops i more ss)
  unfolding sum_items top_up
  sum_items-top_up i more [] h m n = absurd (omega arith)
  sum_items-top_up zero more (s ∷ ss) h m n =
      let more_pos = sum_pos s.items more n.0 m in
      rw (not_below (s.items +ℤ more) more_pos)
        (add_swap s.items (sum_items ops ss) more, (more_pos, n.1))
  sum_items-top_up (suc i) more (s ∷ ss) h m n =
      let (sum, after) = sum_items-top_up i more ss (omega arith) m n.1 in
      (ap (◌+ℤ◌ s.items) sum ∙ add_last s.items (sum_items ops ss) more, (n.0, after))

  shares_by-NonNegative :
      (opts : Options F) (makespan : F) (ds : List (Device F))
      → NonNegative (shares_by ops opts makespan ds)
  unfolding items_by shares_by
  shares_by-NonNegative opts makespan [] = tt
  shares_by-NonNegative opts makespan (d ∷ ds) =
      (ground arith, shares_by-NonNegative opts makespan ds)

  fastest-range :
      (opts : Options F) (best : Option ℕ) (best_rate : F) (i : ℕ) (ds : List (Device F)) (j : ℕ)
      → fastest ops opts best best_rate i ds ≡ some j
      → (best ≡ some j) ⊎ (j < i + length ds)
  unfolding fastest
  fastest-range opts best best_rate i [] j e = inl e
  fastest-range opts best best_rate i (d ∷ ds) j e =
      elim (Bool-cases (ops.lt best_rate (eff_rate ops d opts))) [
        | inl t ↦
            elim (fastest-range opts (some i) (eff_rate ops d opts) (suc i) ds j
              (ground (arith, t, e))) [
                | inl q ↦ inr (ground (arith, q))
                | inr q ↦ inr (omega (arith, q))
              ]
        | inr f ↦ elim (fastest-range opts best best_rate (suc i) ds j (ground (arith, f, e))) [
          | inl q ↦ inl q
          | inr q ↦ inr (omega (arith, q))
        ]
      ]

  length-shares_by :
      (opts : Options F) (makespan : F) (ds : List (Device F))
      → length (shares_by ops opts makespan ds) ≡ length ds
  unfolding shares_by
  length-shares_by opts makespan [] = refl
  length-shares_by opts makespan (d ∷ ds) = ap suc (length-shares_by opts makespan ds)

  in_range :
      (devices : List (Device F)) (opts : Options F) (makespan : F) (best : ℕ)
      → fastest ops opts none (zero_f ops) 0 devices ≡ some best
      → best < length (shares_by ops opts makespan devices)
  in_range devices opts makespan best e =
      elim (fastest-range opts none (zero_f ops) 0 devices best e) [
        | inl q ↦ absurd (ground (arith, q))
        | inr q ↦ omega (arith, q, length-shares_by opts makespan devices)
      ]

  -- The shares add up to the work, and none is negative.
  abbrev pub Splits : Options F → List (Share F) → Type 0
  Splits opts shares = (sum_items ops shares ≡ opts.items) × NonNegative shares

  settle_rounding-Splits :
      (opts : Options F) (shares : List (Share F)) (best : ℕ)
      → best < length shares
      → sum_items ops shares ≤ℤ opts.items
      → NonNegative shares
      → Splits opts (settle_rounding ops opts shares (some best))
  unfolding settle_rounding
  settle_rounding-Splits opts shares best h le positive =
      let assigned = sum_items ops shares in
      elim (Bool-cases (eq_ℤ assigned opts.items)) [
        | inl same ↦ rw same (eq_ℤ-eq assigned opts.items same, positive)
        | inr other ↦
            let (sum, after) =
              sum_items-top_up best (opts.items -ℤ assigned) shares h
                (difference_pos assigned opts.items le) positive in
            rw other (sum ∙ add_difference assigned opts.items, after)
      ]

  -- The shares that allocate hands out add up to the work, and none is negative, if a device has a
  -- positive rate and the rounded shares do not exceed the work.
  pub sum_items-allocate :
      (devices : List (Device F)) (opts : Options F) (makespan : F) (best : ℕ)
      → fastest ops opts none (zero_f ops) 0 devices ≡ some best
      → sum_items ops (shares_by ops opts makespan devices) ≤ℤ opts.items
      → Splits opts (allocate ops devices opts makespan)
  unfolding allocate
  sum_items-allocate devices opts makespan best e le =
      let shares = shares_by ops opts makespan devices in
      subst (λ b. Splits opts (settle_rounding ops opts shares b)) (sym e)
        (settle_rounding-Splits opts shares best (in_range devices opts makespan best e) le
          (shares_by-NonNegative opts makespan devices))
