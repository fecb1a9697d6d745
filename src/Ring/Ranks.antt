-- ===== src/Ring/Ranks.antt =====
-- Sets of ranks: a Go map from ranks to true, to which ranks are only added
-- (src/internal/daemonapi/ddpboard.go), and how many of a set the ring still has.
use pipedpeer.Base.{
  ℕ, zero, suc, ◌+◌, ◌≤◌, ◌<◌, ◌≡◌, refl, Bool, true, false, not, if◌then◌else◌, ltb, ◌&&◌, ◌||◌,
  inl, inr, List, [], ◌∷◌, arith, Bool-cases,
}
use pipedpeer.Base.Eq.{◌==◌, nat_eq}

abbrev pub Ranks : Type 0
Ranks = List ℕ

unfoldable pub in_set : ℕ → Ranks → Bool
in_set k [] = false
in_set k (r ∷ rs) = r == k || in_set k rs

-- m[k] = true
unfoldable pub add_to : ℕ → Ranks → Ranks
add_to k rs = if in_set k rs then rs else k ∷ rs

unfoldable pub add_all : Ranks → Ranks → Ranks
add_all [] rs = rs
add_all (k ∷ ks) rs = add_all ks (add_to k rs)

unfoldable pub any_in : Ranks → Ranks → Bool
any_in [] rs = false
any_in (k ∷ ks) rs = in_set k rs || any_in ks rs

-- How many ranks below `n` are in the set.
unfoldable pub count_below : ℕ → Ranks → ℕ
count_below n [] = 0
count_below n (r ∷ rs) = (if ltb r n then 1 else 0) + count_below n rs

-- How many ranks of the set are not among the dropped.
unfoldable pub count_live : Ranks → Ranks → ℕ
count_live dropped [] = 0
count_live dropped (r ∷ rs) = (if in_set r dropped then 0 else 1) + count_live dropped rs

pub in_set-add_to : (k j : ℕ) (rs : Ranks) → in_set j (add_to k rs) ≡ (k == j || in_set j rs)
unfolding add_to in_set
in_set-add_to k j rs = elim (Bool-cases (in_set k rs)) [
  | inl old ↦ elim (Bool-cases (k == j)) [
    | inl same ↦ ground (arith, old, same)
    | inr apart ↦ rw (old, apart) refl
  ]
  | inr new ↦ rw new refl
]

pub in_set-add_all :
    (ks : Ranks) (j : ℕ) (rs : Ranks) → in_set j (add_all ks rs) ≡ (in_set j ks || in_set j rs)
unfolding add_all in_set
in_set-add_all [] j rs = refl
in_set-add_all (k ∷ ks) j rs =
    ground (arith, in_set-add_all ks j (add_to k rs), in_set-add_to k j rs)

pub count_below-add_to :
    (n k : ℕ) (rs : Ranks)
    → in_set k rs ≡ false
    → count_below n (add_to k rs) ≡ (if ltb k n then 1 else 0) + count_below n rs
unfolding add_to count_below
count_below-add_to n k rs new = rw new refl

-- The live ranks of `seen` below `n`.
live_below : ℕ → Ranks → Ranks → ℕ
live_below n dropped [] = 0
live_below n dropped (r ∷ rs) =
    (if ltb r n && not (in_set r dropped) then 1 else 0) + live_below n dropped rs

live_below-le : (n : ℕ) (dropped seen : Ranks) → live_below n dropped seen ≤ count_live dropped seen
unfolding live_below count_live
live_below-le n dropped [] = omega arith
live_below-le n dropped (r ∷ rs) = ground (arith, live_below-le n dropped rs)

live_below-suc :
    (n : ℕ) (dropped seen : Ranks)
    → live_below n dropped seen + (if in_set n seen && not (in_set n dropped) then 1 else 0)
      ≤ live_below (suc n) dropped seen
unfolding live_below in_set
live_below-suc n dropped [] = omega arith
live_below-suc n dropped (r ∷ rs) = elim (Bool-cases (r == n)) [
  | inl same ↦ ground (arith, live_below-suc n dropped rs, same)
  | inr apart ↦ ground (arith, live_below-suc n dropped rs, apart)
]

count_below-suc :
    (n : ℕ) (rs : Ranks)
    → count_below n rs + (if in_set n rs then 1 else 0) ≤ count_below (suc n) rs
unfolding count_below in_set
count_below-suc n [] = omega arith
count_below-suc n (r ∷ rs) = ground (arith, count_below-suc n rs)

-- Every rank below `n` is in one of two sets.
abbrev pub Covers : ℕ → Ranks → Ranks → Type 0
Covers n xs ys = (k : ℕ) → k < n → (in_set k xs || in_set k ys) ≡ true

covered_below :
    (n : ℕ) (seen dropped : Ranks)
    → Covers n seen dropped
    → n ≤ live_below n dropped seen + count_below n dropped
covered_below zero seen dropped c = omega arith
covered_below (suc n) seen dropped c = ground (
  arith,
  c n (omega arith),
  covered_below n seen dropped (λ k h. c k (omega arith)),
  live_below-suc n dropped seen,
  count_below-suc n dropped,
)

-- If every rank below `n` contributed or was dropped, the live ones make up for the dropped.
pub Covers-count_live :
    (n : ℕ) (seen dropped : Ranks)
    → Covers n seen dropped
    → n ≤ count_live dropped seen + count_below n dropped
Covers-count_live n seen dropped c =
    omega (arith, covered_below n seen dropped c, live_below-le n dropped seen)
