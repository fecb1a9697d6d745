-- ===== src/Ring/Down.antt =====
-- What a rank's going down does to its run (src/internal/daemonapi/ddpdown.go): it is counted out
-- once, gets no share back, and every rank is told once.
use pipedpeer.Base.{
  ℕ, zero, suc, ◌+◌, ◌-◌, ◌≤◌, ◌<◌, ◌≡◌, refl, ap, subst, ◌∙◌, sym, Bool, true, false,
  if◌then◌else◌, leb, [], ◌∷◌, arith, Bool-cases, inl, inr,
}
use pipedpeer.Base.Eq.{◌==◌, nat_eq}
use pipedpeer.Base.Float.{FloatOps}
use pipedpeer.Ring.Ranks.{Ranks, in_set, add_to, in_set-add_to, count_below, count_below-add_to}
use pipedpeer.Ring.Run.{
  mark_known, note_stranger, Run, mark_down, take_down, live_of, publish, with_world,
}

-- Each rank stands once.
abbrev pub Distinct : Ranks → Type 0
Distinct [] = Unit {0}
Distinct (r ∷ rs) = (in_set r rs ≡ false) × Distinct rs

pub add_to-Distinct : (k : ℕ) (rs : Ranks) → Distinct rs → Distinct (add_to k rs)
unfolding add_to
add_to-Distinct k rs d = elim (Bool-cases (in_set k rs)) [
  | inl old ↦ rw old d
  | inr new ↦ rw new (new, d)
]

in_set-add_to_self : (k : ℕ) (rs : Ranks) → in_set k (add_to k rs) ≡ true
in_set-add_to_self k rs = ground (arith, in_set-add_to k k rs)

count_below_step :
    (n : ℕ) (rs : Ranks)
    → Distinct rs
    → count_below (suc n) rs ≤ count_below n rs + (if in_set n rs then 1 else 0)
unfolding count_below in_set
count_below_step n [] d = omega arith
count_below_step n (r ∷ rs) d = elim (Bool-cases (r == n)) [
  | inl same ↦ ground (arith, count_below_step n rs d.1, d.0, same)
  | inr apart ↦ ground (arith, count_below_step n rs d.1, apart)
]

none_below_zero : (rs : Ranks) → count_below 0 rs ≡ 0
unfolding count_below
none_below_zero [] = refl
none_below_zero (r ∷ rs) = ground (arith, none_below_zero rs)

pub count_below-le : (n : ℕ) (rs : Ranks) → Distinct rs → count_below n rs ≤ n
count_below-le zero rs d = omega (arith, none_below_zero rs)
count_below-le (suc n) rs d = ground (arith, count_below-le n rs d, count_below_step n rs d)

add_to_old : (k : ℕ) (rs : Ranks) → in_set k rs ≡ true → add_to k rs ≡ rs
unfolding add_to
add_to_old k rs h = rw h refl

module _ {F : Type 0} (ops : FloatOps F) where
  take_down-dropped :
      (rank : ℕ) (r : Run F)
      → ((take_down ops rank r).dropped ≡ add_to rank r.dropped)
        × ((take_down ops rank r).world ≡ r.world)
  unfolding take_down publish
  take_down-dropped rank r = (refl, refl)

  -- What `mark_known` gives in the end, for a rank and the run after it.
  abbrev IsDown : ℕ → Run F × ℕ × Bool → Type 0
  IsDown rank (r', left, look) =
      (in_set rank r'.dropped ≡ true)
      × (left ≡ r'.world - count_below r'.world r'.dropped)
      × (mark_known ops rank r' ≡ (r', left, false))

  mark_known-stranger :
      (rank : ℕ) (r : Run F)
      → leb r.world rank ≡ true
      → in_set rank r.dropped ≡ true
      → mark_known ops rank r ≡ (r, live_of r r.world, false)
  unfolding mark_known
  mark_known-stranger rank r past old = rw past (
      ap (λ (d : Ranks). let s : Run F = record r { dropped = d } in (s, live_of s r.world, false))
        (add_to_old rank r.dropped old))

  mark_known-dropped :
      (rank : ℕ) (r : Run F)
      → in_set rank r.dropped ≡ true
      → mark_known ops rank r ≡ (r, live_of r r.world, false)
  unfolding mark_known
  mark_known-dropped rank r old = elim (Bool-cases (leb r.world rank)) [
    | inl past ↦ mark_known-stranger rank r past old
    | inr inside ↦ rw (inside, old) refl
  ]

  mark_known-past :
      (rank : ℕ) (r : Run F)
      → leb r.world rank ≡ true
      → mark_known ops rank r
        ≡ (note_stranger ops rank r, live_of (note_stranger ops rank r) r.world, false)
  unfolding mark_known
  mark_known-past rank r past = rw past refl

  mark_known-taken :
      (rank : ℕ) (r : Run F)
      → leb r.world rank ≡ false
      → in_set rank r.dropped ≡ false
      → mark_known ops rank r ≡ (take_down ops rank r, live_of r r.world - 1, true)
  unfolding mark_known
  mark_known-taken rank r inside new = rw (inside, new) refl

  mark_known-IsDown :
      (rank : ℕ) (r : Run F) → Distinct r.dropped → IsDown rank (mark_known ops rank r)
  mark_known-IsDown rank r d = elim (Bool-cases (leb r.world rank)) [
    | inl past ↦
        let s = note_stranger ops rank r in
        let there = in_set-add_to_self rank r.dropped in
        subst (IsDown rank) (sym (mark_known-past rank r past))
          (there, refl, mark_known-dropped rank s there)
    | inr inside ↦ elim (Bool-cases (in_set rank r.dropped)) [
      | inl old ↦
          let same = mark_known-dropped rank r old in
          subst (IsDown rank) (sym same) (old, refl, same)
      | inr new ↦
          let t = take_down ops rank r in
          let parts = take_down-dropped rank r in
          let there : in_set rank t.dropped ≡ true =
            rw (parts.0) (in_set-add_to_self rank r.dropped) in
          let left : live_of r r.world - 1 ≡ live_of t t.world =
            ground (arith, parts, count_below-add_to r.world rank r.dropped new, inside) in
          subst (IsDown rank) (sym (mark_known-taken rank r inside new))
            (there, left, rw left (mark_known-dropped rank t there))
    ]
  ]

  mark_known-world : (rank : ℕ) (r : Run F) → (mark_known ops rank r).0.world ≡ r.world
  unfolding mark_known
  mark_known-world rank r = ground (arith, take_down-dropped rank r)

  with_world_known : (world : ℕ) (r : Run F) → 0 < r.world → with_world ops world r ≡ r
  with_world_known world r known =
      let sized : (r.world == 0) ≡ false = ground arith in rw sized refl

  with_world-positive : (world : ℕ) (r : Run F) → 0 < world → 0 < (with_world ops world r).world
  with_world-positive world r size = ground arith

  with_world-dropped : (world : ℕ) (r : Run F) → (with_world ops world r).dropped ≡ r.dropped
  with_world-dropped world r = ground arith

  -- A rank that goes down, whatever the ring knew of it, is among the dropped from then on; what
  -- the call answers is the ring's size less the dropped ranks below it; and the call made again,
  -- with any size, changes nothing and answers the same.
  pub mark_down-once :
      (rank world again : ℕ) (r : Run F)
      → Distinct r.dropped
      → 0 < world
      → let (r', left, look) = mark_down ops rank world r in
        (in_set rank r'.dropped ≡ true)
        × (left ≡ r'.world - count_below r'.world r'.dropped)
        × (mark_down ops rank again r' ≡ (r', left, false))
  unfolding mark_down
  mark_down-once rank world again r d size =
      let k = with_world ops world r in
      let once = mark_known-IsDown rank k (subst Distinct (sym (with_world-dropped world r)) d) in
      let sized = with_world-positive world r size in
      let after = (mark_known ops rank k).0 in
      let known : 0 < after.world = omega (arith, mark_known-world rank k, sized) in
      (once.0, once.1, ap (mark_known ops rank) (with_world_known again after known) ∙ once.2)
