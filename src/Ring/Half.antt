-- ===== src/Ring/Half.antt =====
-- IEEE 754 binary16 to binary32 and back (src/internal/daemonapi/ddpreduce.go). A float is its bits,
-- a number; fields that do not overlap are joined by `+` where the code writes `|`, and the exponent
-- is the biased one, with the bias 127 on the other side of each test.
use pipedpeer.Base.{
  ℕ, zero, suc, ◌+◌, ◌-◌, ◌*◌, ◌/◌, ◌%◌, ◌^◌, ◌≤◌, ◌<◌, ◌≡◌, ◌≢◌, inl, inr, refl, Bool-cases, Bool,
  true, if◌then◌else◌, ltb, ◌&&◌, ◌||◌, arith,
}
use pipedpeer.Base.Eq.{◌==◌, nat_eq}

-- The loop that shifts a subnormal's mantissa up to its leading one, with ten shifts at most.
unfoldable pub normalise : ℕ → ℕ → ℕ → ℕ × ℕ
normalise zero e mant = (e, mant)
normalise (suc fuel) e mant =
    let shifted = normalise fuel (e - 1) (mant * 2) in
    if mant / 2 ^ 10 % 2 == 0 then shifted else (e, mant)

unfoldable pub widen_subnormal : ℕ → ℕ
unfolding normalise
widen_subnormal mant =
    let (e, m) = normalise 10 (127 - 15 + 1) mant in e * 2 ^ 23 + m % 2 ^ 10 * 2 ^ 13

unfoldable pub float16_to_float32 : ℕ → ℕ
float16_to_float32 h =
    let sign = h / 2 ^ 15 % 2 * 2 ^ 31 in
    let exp = h / 2 ^ 10 % 2 ^ 5 in
    let mant = h % 2 ^ 10 in
    if exp == 0
    then (if mant == 0 then sign else sign + widen_subnormal mant)
    else if exp == 0x1f
    then sign + 0xff * 2 ^ 23 + mant * 2 ^ 13
    else sign + (exp + 127 - 15) * 2 ^ 23 + mant * 2 ^ 13

-- The case of an exponent below the normal range: the mantissa with its leading one, rounded.
unfoldable pub round_subnormal : ℕ → ℕ → ℕ
round_subnormal e mant =
    let full = mant + 2 ^ 23 in
    let shift = 127 - e - 1 in
    let q = full / 2 ^ shift in
    let rem = full % 2 ^ shift in
    let half = 2 ^ (shift - 1) in
    (if ltb half rem || (rem == half && q % 2 == 1) then q + 1 else q) % 2 ^ 16

-- The normal case: round to nearest even at bit 13, a carry goes to the exponent.
unfoldable pub round_normal : ℕ → ℕ → ℕ
round_normal e mant =
    let lsb = mant / 2 ^ 13 % 2 in
    let rounded = mant + 0x0fff + lsb in
    if rounded / 2 ^ 23 % 2 == 1
    then (if ltb (15 + 127) (e + 1) then 0x7c00 else (e + 1 + 15 - 127) * 2 ^ 10)
    else (e + 15 - 127) * 2 ^ 10 + rounded / 2 ^ 13

unfoldable pub float32_to_float16 : ℕ → ℕ
float32_to_float16 b =
    let sign = b / 2 ^ 31 % 2 * 2 ^ 15 in
    let e = b / 2 ^ 23 % 2 ^ 8 in
    let mant = b % 2 ^ 23 in
    let m = mant / 2 ^ 13 in
    if e == 0xff
    then (if mant == 0 then sign + 0x7c00 else sign + 0x7c00 + (if m == 0 then 1 else m))
    else if ltb (15 + 127) e
    then sign + 0x7c00
    else if ltb (e + 25) 127
    then sign
    else if ltb (e + 14) 127
    then sign + round_subnormal e mant
    else sign + round_normal e mant

-- Whether a number and its negative come back from single precision.
comes_back : ℕ → Bool
comes_back m =
    float32_to_float16 (float16_to_float32 m) == m
    && float32_to_float16 (float16_to_float32 (2 ^ 15 + m)) == 2 ^ 15 + m

-- Whether all from 0 do, `m` of them.
come_back : ℕ → Bool
come_back zero = true
come_back (suc m) = let rest = come_back m in rest && comes_back m

come_back-each :
    (k m : ℕ)
    → come_back k ≡ true
    → m < k
    → (float32_to_float16 (float16_to_float32 m) ≡ m)
      × (float32_to_float16 (float16_to_float32 (2 ^ 15 + m)) ≡ 2 ^ 15 + m)
unfolding come_back comes_back
come_back-each zero m all less = absurd (omega arith)
come_back-each (suc k) m all less = elim (Bool-cases (m == k)) [
  | inl last ↦
      let here : m ≡ k = ground (arith, last) in rw here (ground (arith, all), ground (arith, all))
  | inr before ↦ come_back-each k m (ground (arith, all)) (ground (arith, less, before))
]

-- The numbers below the normal range, by evaluation.
small_come_back : come_back (2 ^ 10) ≡ true
unfolding come_back comes_back float16_to_float32 widen_subnormal float32_to_float16 round_subnormal
    round_normal
small_come_back = refl

-- Above them the bits of the wide number, and what the narrow one makes of such bits.
wide_bits :
    (h : ℕ)
    → h / 2 ^ 10 % 2 ^ 5 ≢ 0
    → h < 2 ^ 16
    → float16_to_float32 h
      ≡ h / 2 ^ 15 * 2 ^ 31
        + (if h / 2 ^ 10 % 2 ^ 5 == 0x1f then 0xff else h / 2 ^ 10 % 2 ^ 5 + 112) * 2 ^ 23
        + h % 2 ^ 10 * 2 ^ 13
unfolding float16_to_float32
wide_bits h e lt = ground arith

narrow_bits :
    (s e m : ℕ)
    → s < 2
    → 112 < e
    → e < 143
    → m < 2 ^ 10
    → float32_to_float16 (s * 2 ^ 31 + e * 2 ^ 23 + m * 2 ^ 13)
      ≡ s * 2 ^ 15 + (e - 112) * 2 ^ 10 + m
unfolding float32_to_float16 round_normal
narrow_bits s e m hs lo hi hm = ground arith

narrow_special :
    (s m : ℕ)
    → s < 2
    → m < 2 ^ 10
    → float32_to_float16 (s * 2 ^ 31 + 0xff * 2 ^ 23 + m * 2 ^ 13) ≡ s * 2 ^ 15 + 0x7c00 + m
unfolding float32_to_float16
narrow_special s m hs hm = ground arith

-- Every half precision number, infinities and NaNs included, comes back from single precision with
-- the same bits.
pub float32_to_float16-float16_to_float32 :
    (h : ℕ) → h < 2 ^ 16 → float32_to_float16 (float16_to_float32 h) ≡ h
float32_to_float16-float16_to_float32 h lt = elim (Bool-cases (h / 2 ^ 10 % 2 ^ 5 == 0)) [
  | inl low ↦ elim (Bool-cases (h / 2 ^ 15 == 0)) [
    | inl up ↦ (come_back-each (2 ^ 10) h small_come_back (ground (arith, low, up))).0
    | inr down ↦
        let m = h % 2 ^ 10 in
        let split : h ≡ 2 ^ 15 + m = ground (arith, low, down) in
        rw split (come_back-each (2 ^ 10) m small_come_back (omega arith)).1
  ]
  | inr high ↦
      let s = h / 2 ^ 15 in
      let e = h / 2 ^ 10 % 2 ^ 5 in
      let m = h % 2 ^ 10 in
      elim (Bool-cases (e == 0x1f)) [
        | inl top ↦ ground (arith, wide_bits h, narrow_special s m, high, top)
        | inr mid ↦ ground (arith, wide_bits h, narrow_bits s (e + 112) m, high, mid)
      ]
]

-- A single precision number whose exponent is in half precision's normal range goes to the nearest
-- half precision number: with `v` its magnitude's bits in units where one step of the result is
-- 2 ^ 13, the result is at most half a step away, a number halfway goes to an even result, and no
-- result passes infinity.
pub float32_to_float16-nearest :
    (s e m : ℕ)
    → s < 2
    → 112 < e
    → e < 143
    → m < 2 ^ 23
    → let v = (e - 112) * 2 ^ 23 + m in
      let q = float32_to_float16 (s * 2 ^ 31 + e * 2 ^ 23 + m) % 2 ^ 15 in
      (q * 2 ^ 13 + q % 2 ≤ v + 2 ^ 12) × (v + q % 2 ≤ q * 2 ^ 13 + 2 ^ 12) × (q ≤ 0x7c00)
unfolding float32_to_float16 round_normal
float32_to_float16-nearest s e m hs lo hi hm = (ground arith, ground arith, ground arith)
