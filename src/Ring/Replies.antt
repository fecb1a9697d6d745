-- ===== src/Ring/Replies.antt =====
-- Sizes of replies (src/internal/daemonapi/ddpreduce.go), from the request that opens a round on
-- (src/internal/daemonapi/ddpsync.go).
use pipedpeer.Base.{
  ℕ, zero, suc, ◌+◌, ◌*◌, ◌/◌, ◌^◌, ◌≡◌, refl, Bool, true, false, if◌then◌else◌, leb, none, some,
  List, [], ◌∷◌, map, length, String, take, drop, arith, length-append, length-map,
  length-take-drop, length-take, Bool-cases, inl, inr, ◌||◌, Option-cases, subst, ◌∙◌, ap, sym, ◌<◌,
  sym, ◌<◌,
}
use pipedpeer.Base.Eq.{◌==◌, nat_eq}
use pipedpeer.Base.Float.{FloatOps}
use pipedpeer.Ring.Sum.{
  FloatBits, DType, f16, f32, f64, i8, other, size, is_i8, Sum, put_le, new_sum, inverse,
}
use pipedpeer.Ring.Mean.{
  Mean, encoded, failed, encode, encode_value, encode_mean, mean, corrected, encode_segment,
  encode_segments, segments_of, mean_residual,
}
use pipedpeer.Ring.Sizes.{sum_of, IsSized, size_i8, new_sum-IsSized, add_segmented-IsSized}
use pipedpeer.Ring.Round.{Request, scales_of}
use pipedpeer.Ring.Sync.{sum_for}
use pipedpeer.Ring.Answers.{Contribution, sum_up}
use pipedpeer.Ring.Sum.{total_of, with_segments}
use pipedpeer.Base.Int.{ℤ, pos, negsuc, pos_part, int64, leb_ℤ, eq_ℤ, ◌+ℤ◌}

length-put_le : (k n : ℕ) → length (put_le k n) ≡ k
unfolding put_le
length-put_le zero n = refl
length-put_le (suc k) n = omega (arith, length-put_le k (n / 256))

-- Lengths whose sum an int64 holds are added up exactly.
total_of-exact :
    (t : ℕ) (cs : List ℤ) (r : ℤ)
    → t + sum_of (map pos_part cs) < 2 ^ 63
    → total_of (pos t) cs ≡ some r
    → r ≡ pos (t + sum_of (map pos_part cs))
unfolding total_of int64 ◌+ℤ◌
total_of-exact t [] r small h = ground (arith, h)
total_of-exact t (negsuc k ∷ cs) r small h = absurd (ground (arith, h))
total_of-exact t (pos k ∷ cs) r small h = ground (arith, h, small, total_of-exact (t + k) cs r)

module _ {F : Type 0} (ops : FloatOps F) (bits : FloatBits F) where
  -- The types that a mean is encoded at without a scale.
  abbrev pub is_float : DType → Bool
  is_float f16 = true
  is_float f32 = true
  is_float f64 = true
  is_float _ = false

  length-encode_value :
      (t : DType) (v : F) → is_float t ≡ true → length (encode_value ops bits t v) ≡ size t
  unfolding encode_value size
  length-encode_value f16 v h = length-put_le 2 _
  length-encode_value f32 v h = length-put_le 4 _
  length-encode_value f64 v h = length-put_le 8 _
  length-encode_value i8 v h = cc
  length-encode_value other v h = cc

  length-encode :
      (t : DType) (vs : List F)
      → is_float t ≡ true
      → length (encode ops bits t vs) ≡ length vs * size t
  unfolding encode
  length-encode t [] h = omega arith
  length-encode t (v ∷ vs) h = grind (
    arith,
    length-append (encode_value ops bits t v) (encode ops bits t vs),
    length-encode_value t v h,
    length-encode t vs h,
  )

  length-encode_segment :
      (vs : List F)
      → (length (encode_segment ops bits vs).0 ≡ length vs)
        × (length (encode_segment ops bits vs).2 ≡ length vs)
  unfolding encode_segment
  length-encode_segment vs = (length-map _ vs, length-map _ vs)

  length-encode_segments :
      (ns : List ℕ) (vs : List F)
      → sum_of ns ≡ length vs
      → (length (encode_segments ops bits ns vs).0 ≡ length vs)
        × (length (encode_segments ops bits ns vs).1 ≡ length ns)
        × (length (encode_segments ops bits ns vs).2 ≡ length vs)
  unfolding encode_segments
  length-encode_segments [] vs h = (h, refl, h)
  length-encode_segments (n ∷ ns) vs h =
      let seg = encode_segment ops bits (take n vs) in
      let rest = encode_segments ops bits ns (drop n vs) in
      let one = length-encode_segment (take n vs) in
      let cut = length-take-drop n vs in
      let first = length-take n vs (omega (arith, h)) in
      let more = length-encode_segments ns (drop n vs) (omega (arith, h, cut, first)) in
      (
        omega (arith, length-append seg.0 rest.0, one, more, cut),
        omega (arith, more),
        omega (arith, length-append seg.2 rest.2, one, more, cut),
      )

  sum_of-segments_of :
      {t : DType} {n : ℕ} (a : Sum F) → IsSized ops bits t n a → sum_of (segments_of ops bits a) ≡ n
  sum_of-segments_of a z = elim z.covered [
    | inl e ↦ rw e (omega (arith, z.values))
    | inr e ↦ ground (arith, z.values)
  ]

  -- The reply to a sum of `n` values: bytes as many as a payload has, and their scales.
  abbrev pub Replied : ℕ → ℕ → Mean F → Type 0
  Replied n k (encoded out scales) = (length out ≡ n) × (length scales ≡ k)
  Replied n k (failed e) = ⊥

  encode_mean-Replied :
      (t : DType) (vs : List F)
      → is_float t ≡ true
      → Replied (length vs * size t) 1 (encode_mean ops bits t vs)
  unfolding encode_mean
  encode_mean-Replied f16 vs h = (length-encode f16 vs h, refl)
  encode_mean-Replied f32 vs h = (length-encode f32 vs h, refl)
  encode_mean-Replied f64 vs h = (length-encode f64 vs h, refl)
  encode_mean-Replied i8 vs h = cc
  encode_mean-Replied other vs h = cc

  length-corrected : (vs rs : List F) → length (corrected ops bits vs rs) ≡ length vs
  unfolding corrected
  length-corrected [] rs = refl
  length-corrected (v ∷ vs) [] = refl
  length-corrected (v ∷ vs) (r ∷ rs) = omega (arith, length-corrected vs rs)

  mean-Replied :
      {t : DType} {n : ℕ} (a : Sum F)
      → IsSized ops bits t n a
      → 0 < a.count
      → is_float t ≡ true
      → Replied (n * size t) 1 (mean ops bits a)
  unfolding mean
  mean-Replied {t} {n} a z some_in known =
      let scale = λ (s : F). ops.mul s (inverse ops bits a.weight) in
      let vs = map scale a.values in
      let same : length vs ≡ n = length-map scale a.values ∙ z.values in
      let none_in : (a.count == 0) ≡ false = ground arith in
      rw none_in (rw z.typed (rw (← same) (encode_mean-Replied t vs known)))

  -- The reply to a sum that somebody contributed to is encoded, with as many bytes as each payload
  -- had; an int8 reply has one scale for each segment, another has one; and the residual keeps its
  -- length.
  pub mean_residual-Replied :
      {t : DType} {n : ℕ} (res : List F) (a : Sum F)
      → IsSized ops bits t n a
      → 0 < a.count
      → (is_i8 t || is_float t) ≡ true
      → length res ≡ n
      → Replied
          (n * size t)
          (if is_i8 t then length (segments_of ops bits a) else 1)
          (mean_residual ops bits res a).0
        × (length (mean_residual ops bits res a).1 ≡ n)
  unfolding mean_residual
  mean_residual-Replied {t} {n} res a z some_in known fits =
      let scale = λ (s : F). ops.mul s (inverse ops bits a.weight) in
      let vs = map scale a.values in
      let same : length vs ≡ n = length-map scale a.values ∙ z.values in
      let none_in : (a.count == 0) ≡ false = ground arith in
      let usable : (length res == length a.values) ≡ true = ground (arith, fits, z.values) in
      let all = length-corrected vs res in
      let cut = sum_of-segments_of a z in
      let out =
        length-encode_segments (segments_of ops bits a) (corrected ops bits vs res)
          (cut ∙ sym (all ∙ same)) in
      elim (Bool-cases (is_i8 t)) [
        | inl quantised ↦
            let one = size_i8 t quantised in
            let unit : n ≡ n * size t = grind (arith, one) in
            let here : is_i8 a.dtype ≡ true = ap is_i8 z.typed ∙ quantised in
            rw (usable, none_in, here, quantised)
              ((out.0 ∙ all ∙ same ∙ unit, out.1), out.2 ∙ all ∙ same)
        | inr plain ↦
            let float : is_float t ≡ true = ground (arith, known, plain) in
            let here : is_i8 a.dtype ≡ false = ap is_i8 z.typed ∙ plain in
            rw (here, plain) (mean-Replied a z some_in float, fits)
      ]

  known_size : (t : DType) → (size t == 0) ≡ false → (is_i8 t || is_float t) ≡ true
  unfolding size
  known_size f16 h = refl
  known_size f32 h = refl
  known_size f64 h = refl
  known_size i8 h = refl
  known_size other h = cc

  with_segments-IsSized :
      {t : DType} {n : ℕ} (counts : List ℤ) (a : Sum F)
      → sum_of (map pos_part counts) < 2 ^ 63
      → IsSized ops bits t n a
      → (with_segments ops bits counts a).1 ≡ none
      → IsSized ops bits t n (with_segments ops bits counts a).0
  unfolding with_segments
  with_segments-IsSized {t} {n} counts a small z h = elim (Option-cases (total_of (pos 0) counts)) [
    | inl none_of ↦ absurd (ground (arith, none_of, h))
    | inr (total, made) ↦
        let exact = total_of-exact 0 counts total (omega (arith, small)) made in
        let cut : Sum F = record a { segments = map pos_part counts } in
        elim (Bool-cases (eq_ℤ total (pos (length a.values)))) [
          | inl fits ↦
              let same : (with_segments ops bits counts a).0 ≡ cut = ground (arith, made, fits) in
              subst (IsSized ops bits t n) (sym same) (record {
                typed = z.typed;
                values = z.values;
                covered = inr (ground (arith, exact, fits, z.values));
              })
          | inr misses ↦ absurd (ground (arith, made, misses, h))
        ]
  ]

  pub sum_for-IsSized :
      (itoa : ℤ → String) (req : Request F) (start : Sum F)
      → sum_of (map pos_part req.counts) < 2 ^ 63
      → sum_for ops bits itoa req ≡ some start
      → IsSized ops bits req.dtype (pos_part req.count) start
        × ((is_i8 req.dtype || is_float req.dtype) ≡ true)
  unfolding sum_for
  sum_for-IsSized itoa req start small h =
      let n = pos_part req.count in
      let a = new_sum ops bits req.dtype n in
      let cut = with_segments ops bits req.counts a in
      elim (Bool-cases (leb_ℤ req.count (pos 0) || size req.dtype == 0)) [
        | inl bad ↦ absurd (ground (arith, bad, h))
        | inr good ↦
            let known = known_size req.dtype (ground (arith, good)) in
            elim (Bool-cases (leb (length req.counts) 1)) [
              | inl whole ↦
                  let same : a ≡ start = ground (arith, good, whole, h) in
                  (
                    subst (IsSized ops bits req.dtype n) same
                        (new_sum-IsSized ops bits req.dtype n),
                    known,
                  )
              | inr parts ↦ elim (Option-cases cut.1) [
                | inr (e, refused) ↦ absurd (ground (arith, good, parts, refused, h))
                | inl fine ↦
                    let same : cut.0 ≡ start = ground (arith, good, parts, fine, h) in
                    (
                      subst (IsSized ops bits req.dtype n) same (
                          with_segments-IsSized req.counts a small
                            (new_sum-IsSized ops bits req.dtype n) fine),
                      known,
                    )
              ]
            ]
      ]

  with_segments-count :
      (counts : List ℤ) (a : Sum F) → (with_segments ops bits counts a).0.count ≡ a.count
  unfolding with_segments
  with_segments-count counts a = ground arith

  pub sum_for-empty :
      (itoa : ℤ → String) (req : Request F) (start : Sum F)
      → sum_for ops bits itoa req ≡ some start
      → start.count ≡ 0
  unfolding sum_for new_sum
  sum_for-empty itoa req start h =
      let a = new_sum ops bits req.dtype (pos_part req.count) in
      ground (arith, h, with_segments-count req.counts a)

  sum_up-IsSized :
      {t : DType} {n : ℕ} (start : Sum F) (cs : List (Contribution F))
      → IsSized ops bits t n start
      → IsSized ops bits t n (sum_up ops bits start cs)
  sum_up-IsSized start [] z = z
  sum_up-IsSized start ((req, blob) ∷ cs) z =
      add_segmented-IsSized ops bits blob (scales_of ops bits req) (ops.of_int req.samples)
        (sum_up ops bits start cs) (sum_up-IsSized start cs z)

  -- The reply of a round that a request opened, its segment lengths adding up to less than 2 ^ 63,
  -- once a payload of any contributions has been accepted, and with a residual of the round's length:
  -- it is encoded, with as many bytes as a payload of that request has; an int8 reply has one scale
  -- for each segment, another has one; and the residual keeps its length.
  pub mean_residual-sum_up :
      (itoa : ℤ → String) (req : Request F) (start : Sum F) (cs : List (Contribution F))
      (res : List F)
      → sum_of (map pos_part req.counts) < 2 ^ 63
      → sum_for ops bits itoa req ≡ some start
      → 0 < (sum_up ops bits start cs).count
      → length res ≡ pos_part req.count
      → Replied
          (pos_part req.count * size req.dtype)
          (if is_i8 req.dtype then length (segments_of ops bits (sum_up ops bits start cs)) else 1)
          (mean_residual ops bits res (sum_up ops bits start cs)).0
        × (length (mean_residual ops bits res (sum_up ops bits start cs)).1 ≡ pos_part req.count)
  mean_residual-sum_up itoa req start cs res small opens some_in fits =
      let (sized, known) = sum_for-IsSized itoa req start small opens in
      mean_residual-Replied res (sum_up ops bits start cs) (sum_up-IsSized start cs sized) some_in
        known fits
