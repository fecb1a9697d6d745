-- ===== src/Ring/Mean.antt =====
-- The mean of the sum and its encoding (src/internal/daemonapi/ddpreduce.go), with the sizes of what
-- a reply carries.
use pipedpeer.Base.{ℕ, ◌&&◌, not, if◌then◌else◌, List, [], ◌∷◌, ◌++◌, map, length, take, drop}
use pipedpeer.Base.Eq.{◌==◌, nat_eq}
use pipedpeer.Base.Int.{pos, negsuc}
use pipedpeer.Base.Float.{FloatOps}
use pipedpeer.Ring.Half.{float32_to_float16}
use pipedpeer.Ring.Sum.{
  FloatBits, DType, f16, f32, f64, i8, other, is_i8, SumError, no_ranks, unsupported, Sum, byte_of,
  put_le, num, inverse,
}

-- A reply: its bytes and their scales, or why there is none.
pub data Mean (F : Type 0) : Type 0 where
  encoded : List ℕ → List F → Mean F
  failed : SumError → Mean F

module _ {F : Type 0} (ops : FloatOps F) (bits : FloatBits F) where
  abs : F → F
  abs x = if ops.lt x (num ops bits 0) then ops.sub (num ops bits 0) x else x

  -- The largest magnitude, from `peak` on.
  unfoldable pub peak_of : F → List F → F
  unfolding abs
  peak_of peak [] = peak
  peak_of peak (v ∷ vs) = peak_of (if ops.lt peak (abs v) then abs v else peak) vs

  -- One value in steps of `sc`, clamped to the int8 range.
  unfoldable pub quantise : F → F → F
  quantise sc v =
      ops.min (ops.max (bits.round (ops.div v sc)) (ops.of_int (negsuc 126))) (ops.of_int (pos 127))

  -- The int8 branch of `mean`, which has one scale for all.
  unfoldable pub mean_i8 : List F → List ℕ × F
  mean_i8 vs =
      let peak = peak_of (num ops bits 0) vs in
      let scale = ops.div peak (ops.of_int (pos 127)) in
      let clamp = λ (q : F).
        if ops.lt (ops.of_int (pos 127)) q
        then ops.of_int (pos 127)
        else if ops.lt q (ops.of_int (negsuc 126))
        then ops.of_int (negsuc 126)
        else q in
      if ops.le peak (num ops bits 0) && ops.le (num ops bits 0) peak
      then (map (λ _. 0) vs, num ops bits 1)
      else (map (λ (v : F). byte_of (ops.to_int (clamp (bits.round (ops.div v scale))))) vs, scale)

  unfoldable pub encode_value : DType → F → List ℕ
  encode_value f16 v = put_le 2 (float32_to_float16 (bits.to_bits32 v))
  encode_value f32 v = put_le 4 (bits.to_bits32 v)
  encode_value f64 v = put_le 8 (bits.to_bits64 v)
  encode_value _ v = []

  unfoldable pub encode : DType → List F → List ℕ
  encode t [] = []
  encode t (v ∷ vs) = encode_value t v ++ encode t vs

  abbrev scaled : F → List F → List F
  scaled inv sums = map (λ (s : F). ops.mul s inv) sums

  unfoldable pub encode_mean : DType → List F → Mean F
  encode_mean i8 vs = let (out, scale) = mean_i8 vs in encoded out (scale ∷ [])
  encode_mean other vs = failed unsupported
  encode_mean t vs = encoded (encode t vs) (num ops bits 0 ∷ [])

  unfoldable pub mean : Sum F → Mean F
  mean a =
      if a.count == 0
      then failed no_ranks
      else encode_mean a.dtype (scaled (inverse ops bits a.weight) a.values)

  -- The values with the residual added, where there is one.
  unfoldable pub corrected : List F → List F → List F
  corrected (v ∷ vs) (r ∷ rs) = ops.add v r ∷ corrected vs rs
  corrected vs rs = vs

  -- One segment: its bytes, its scale, and what rounding drops.
  unfoldable pub encode_segment : List F → List ℕ × F × List F
  encode_segment vs =
      let peak = peak_of (num ops bits 0) vs in
      let sc =
        if ops.lt (num ops bits 0) peak
        then ops.div peak (ops.of_int (pos 127))
        else num ops bits 1 in
      (
        map (λ (v : F). byte_of (ops.to_int (quantise sc v))) vs,
        sc,
        map (λ (v : F). ops.sub v (ops.mul (quantise sc v) sc)) vs,
      )

  unfoldable pub encode_segments : List ℕ → List F → List ℕ × List F × List F
  encode_segments [] vs = ([], [], [])
  encode_segments (n ∷ ns) vs =
      let (out, sc, left) = encode_segment (take n vs) in
      let (outs, scs, lefts) = encode_segments ns (drop n vs) in
      (out ++ outs, sc ∷ scs, left ++ lefts)

  abbrev pub segments_of : Sum F → List ℕ
  segments_of a = elim a.segments [ [] ↦ length a.values ∷ [] | n ∷ ns ↦ n ∷ ns ]

  -- The mean as a reply, and the residual that it leaves in the place of `res`; a residual of
  -- another length than the sum is not used.
  unfoldable pub mean_residual : List F → Sum F → Mean F × List F
  mean_residual res a =
      let usable = length res == length a.values in
      let vs = scaled (inverse ops bits a.weight) a.values in
      let (out, scales, left) =
        encode_segments (segments_of a) (if usable then corrected vs res else vs) in
      if not (is_i8 a.dtype)
      then (mean a, res)
      else if a.count == 0
      then (failed no_ranks, res)
      else (encoded out scales, if usable then left else res)
