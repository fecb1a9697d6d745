-- ===== src/Pool/Rates.antt =====
-- The rate model of the pool: the last observations of a peer and the line that is fitted to them
-- (src/internal/daemonapi/poolrates.go).
use pipedpeer.Base.{
  ℕ, zero, suc, ◌+◌, ◌%◌, String, Bool, if◌then◌else◌, Option, none, some, List, [], ◌∷◌, ◌++◌,
  length, ltb, ◌&&◌, ◌||◌,
}
use pipedpeer.Base.Eq.{string_eq}
use pipedpeer.Base.Int.{ℤ, pos, leb_ℤ}
use pipedpeer.Base.Float.{FloatOps}
use pipedpeer.Base.Map.{Map, get, insert}

abbrev pub obs_window : ℕ
obs_window = 8

pub record Obs (F : Type 0) : Type 0 where
  pub items : F
  pub sec : F

-- `next` is where the next observation goes once the ring is full.
pub record PeerObs (F : Type 0) : Type 0 where
  pub ring : List (Obs F)
  pub next : ℕ

abbrev pub RateModel : Type 0 → Type 0
RateModel F = Map String (PeerObs F)

-- ring[i] = o
unfoldable pub set_at : {A : Type 0} → ℕ → A → List A → List A
set_at i o [] = []
set_at zero o (x ∷ xs) = o ∷ xs
set_at (suc i) o (x ∷ xs) = x ∷ set_at i o xs

module _ {F : Type 0} where
  abbrev pub no_obs : PeerObs F
  no_obs = record { ring = []; next = 0 }

  unfoldable pub add_obs : Obs F → PeerObs F → PeerObs F
  add_obs o p =
      if ltb (length p.ring) obs_window
      then record p { ring = p.ring ++ o ∷ [] }
      else record { ring = set_at p.next o p.ring; next = (p.next + 1) % obs_window }

  unfoldable pub peer_obs : String → RateModel F → PeerObs F
  peer_obs peer m = elim (get peer m) [ none ↦ no_obs | some p ↦ p ]

module _ {F : Type 0} (ops : FloatOps F) where
  open ops use {of_int, ratio, add, sub, mul, div, lt, le}

  -- `d` is in nanoseconds.
  unfoldable pub observe : String → ℤ → ℤ → RateModel F → RateModel F
  observe peer items d m =
      if leb_ℤ items (pos 0) || leb_ℤ d (pos 0)
      then m
      else (let o : Obs F = record {
        items = of_int items;
        sec = div (of_int d) (of_int (pos 1_000_000_000));
      } in
          insert peer (add_obs o (peer_obs peer m)) m)

  -- The sums of a least-squares fit: the count, items, seconds, items², items * seconds.
  pub record Sums : Type 0 where
    pub n : F
    pub sx : F
    pub sy : F
    pub sxx : F
    pub sxy : F

  unfoldable pub sums : Sums → List (Obs F) → Sums
  sums s [] = s
  sums s (o ∷ os) =
      sums
        (record {
          n = add s.n (of_int (pos 1));
          sx = add s.sx o.items;
          sy = add s.sy o.sec;
          sxx = add s.sxx (mul o.items o.items);
          sxy = add s.sxy (mul o.items o.sec);
        })
        os

  -- items per second over the whole sample; none is no evidence
  unfoldable pub mean : Sums → Option (F × F)
  mean s = if le s.sy (of_int (pos 0)) then none else some (div s.sx s.sy, of_int (pos 0))

  -- denom == 0, on floats
  abbrev pub is_zero : F → Bool
  is_zero x = le x (of_int (pos 0)) && le (of_int (pos 0)) x

  unfoldable pub fit_sums : Sums → Option (F × F)
  fit_sums s =
      let denom = sub (mul s.n s.sxx) (mul s.sx s.sx) in
      let slope = div (sub (mul s.n s.sxy) (mul s.sx s.sy)) denom in
      let intercept = div (sub s.sy (mul slope s.sx)) s.n in
      if lt s.n (of_int (pos 2))
      then mean s
      else if is_zero denom
      then mean s
      else if le slope (of_int (pos 0))
      then mean s
      else some (
        div (of_int (pos 1)) slope,
        if lt intercept (of_int (pos 0)) then of_int (pos 0) else intercept,
      )

  abbrev no_sums : Sums
  no_sums = let z = of_int (pos 0) in record { n = z; sx = z; sy = z; sxx = z; sxy = z }

  -- The rate and the fixed cost.
  unfoldable pub fit_line : List (Obs F) → Option (F × F)
  fit_line [] = none
  fit_line (o ∷ os) = fit_sums (sums no_sums (o ∷ os))

  unfoldable pub fit : String → RateModel F → Option (F × F)
  fit peer m = fit_line (peer_obs peer m).ring
