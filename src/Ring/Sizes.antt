-- ===== src/Ring/Sizes.antt =====
-- Sizes of sums (src/internal/daemonapi/ddpreduce.go).
use pipedpeer.Base.{
  ℕ, zero, suc, ◌+◌, ◌*◌, ◌≡◌, refl, true, not, leb, Option, none, some, List, [], ◌∷◌, length,
  take, drop, arith, length-append, length-take-drop, Bool-cases, inl, inr, ◌⊎◌, ◌&&◌, ◌||◌,
  nat_beq_iff, Option-cases, subst, ◌∙◌, ap,
}
use pipedpeer.Base.Eq.{◌==◌, nat_eq}
use pipedpeer.Base.Float.{FloatOps}
use pipedpeer.Ring.Sum.{
  FloatBits, DType, f16, f32, f64, i8, other, size, is_i8, SumError, Sum, num, new_sum, fold_values,
  fold_segments, add_flat, add_segments, add_segmented, first_or, counted, sample_weight, decode,
}

abbrev pub sum_of : List ℕ → ℕ
sum_of [] = 0
sum_of (n ∷ ns) = n + sum_of ns

pub size_i8 : (t : DType) → is_i8 t ≡ true → size t ≡ 1
unfolding size
size_i8 i8 h = refl
size_i8 f16 h = cc
size_i8 f32 h = cc
size_i8 f64 h = cc
size_i8 other h = cc

module _ {F : Type 0} (ops : FloatOps F) (bits : FloatBits F) where
  length-fold_values :
      (w : F) (ss vs : List F) (sq : F) → length (fold_values ops bits w ss vs sq).0 ≡ length ss
  unfolding fold_values
  length-fold_values w [] vs sq = refl
  length-fold_values w (s ∷ ss) [] sq = refl
  length-fold_values w (s ∷ ss) (v ∷ vs) sq =
      omega (arith, length-fold_values w ss vs (ops.add sq (ops.mul v v)))

  length-fold_segments :
      (w : F) (i : ℕ) (ns : List ℕ) (scs sums : List F) (payload : List ℕ) (sq : F)
      → length (fold_segments ops bits w i ns scs sums payload sq).0 ≡ length sums
  unfolding fold_segments
  length-fold_segments w i [] scs sums payload sq = refl
  length-fold_segments w i (n ∷ ns) [] sums payload sq = refl
  length-fold_segments w i (n ∷ ns) (sc ∷ scs) sums payload sq =
      let vs = decode ops bits i8 sc (take n payload) in
      let (part, sq') = fold_values ops bits w (take n sums) vs sq in
      let rest = (fold_segments ops bits w (suc i) ns scs (drop n sums) (drop n payload) sq').0 in
      elim (Bool-cases (ops.le sc (num ops bits 0))) [
        | inl bad ↦ rw bad refl
        | inr good ↦ rw good (
            omega (
              arith,
              length-append part rest,
              length-fold_values w (take n sums) vs sq,
              length-fold_segments w (suc i) ns scs (drop n sums) (drop n payload) sq',
              length-take-drop n sums,
            ))
      ]

  -- A sum of `n` values of one type, its segments covering them.
  pub record IsSized (t : DType) (n : ℕ) (a : Sum F) : Type 0 where
    pub typed : a.dtype ≡ t
    pub values : length a.values ≡ n
    pub covered : (a.segments ≡ []) ⊎ (sum_of a.segments ≡ n)

  length-zeros : (n : ℕ) → length (new_sum ops bits f64 n).values ≡ n
  unfolding new_sum
  length-zeros zero = refl
  length-zeros (suc n) = omega (arith, length-zeros n)

  pub new_sum-IsSized : (t : DType) (n : ℕ) → IsSized t n (new_sum ops bits t n)
  unfolding new_sum
  new_sum-IsSized t n = record { typed = refl; values = length-zeros n; covered = inl refl }

  abbrev SameShape : Sum F → Sum F → Type 0
  SameShape a b =
      (b.dtype ≡ a.dtype) × (length b.values ≡ length a.values) × (b.segments ≡ a.segments)

  add_flat-SameShape :
      (payload : List ℕ) (scale w : F) (a : Sum F)
      → SameShape a (add_flat ops bits payload scale w a).0
  unfolding add_flat counted
  add_flat-SameShape payload scale w a =
      let weight = sample_weight ops bits w in
      let vs = decode ops bits a.dtype scale payload in
      let same = length-fold_values weight a.values vs (num ops bits 0) in
      (ground arith, ground (arith, same), ground arith)

  add_segments-SameShape :
      (payload : List ℕ) (scales : List F) (w : F) (a : Sum F)
      → SameShape a (add_segments ops bits payload scales w a).0
  unfolding add_segments counted
  add_segments-SameShape payload scales w a =
      let weight = sample_weight ops bits w in
      let same =
        length-fold_segments weight 0 a.segments scales a.values payload (num ops bits 0) in
      (ground arith, ground (arith, same), ground arith)

  add_segmented-SameShape :
      (payload : List ℕ) (scales : List F) (w : F) (a : Sum F)
      → SameShape a (add_segmented ops bits payload scales w a).0
  unfolding add_segmented
  add_segmented-SameShape payload scales w a =
      elim (Bool-cases (not (is_i8 a.dtype) || leb (length a.segments) 1)) [
        | inl flat ↦
            rw flat (add_flat-SameShape payload (first_or ops bits (num ops bits 0) scales) w a)
        | inr cut ↦ rw cut (add_segments-SameShape payload scales w a)
      ]

  pub add_segmented-IsSized :
      {t : DType} {n : ℕ} (payload : List ℕ) (scales : List F) (w : F) (a : Sum F)
      → IsSized t n a
      → IsSized t n (add_segmented ops bits payload scales w a).0
  add_segmented-IsSized payload scales w a z =
      let same = add_segmented-SameShape payload scales w a in
      record {
        typed = same.0 ∙ z.typed;
        values = same.1 ∙ z.values;
        covered = elim z.covered [ inl e ↦ inl (same.2 ∙ e) | inr e ↦ inr (ap sum_of same.2 ∙ e) ];
      }

  -- An accepted payload has `k` bytes and counts once; a refused one counts nothing.
  abbrev pub Added : ℕ → List ℕ → Sum F → Sum F × Option SumError → Type 0
  Added k payload a (b, none) = (length payload ≡ k) × (b.count ≡ suc a.count)
  Added k payload a (b, some e) =
      (b.count ≡ a.count) × (b.weight ≡ a.weight) × (b.sum_sq ≡ a.sum_sq)

  add_flat-Added :
      (payload : List ℕ) (scale w : F) (a : Sum F)
      → Added (length a.values * size a.dtype) payload a (add_flat ops bits payload scale w a)
  unfolding add_flat counted
  add_flat-Added payload scale w a =
      elim (Bool-cases (length payload == length a.values * size a.dtype)) [
        | inr no_fit ↦ rw no_fit (refl, refl, refl)
        | inl fit ↦ rw fit (elim (Bool-cases (is_i8 a.dtype && ops.le scale (num ops bits 0))) [
          | inl bad ↦ rw bad (refl, refl, refl)
          | inr good ↦ rw good (elim (Bool-cases (size a.dtype == 0)) [
            | inl none_known ↦ rw none_known (refl, refl, refl)
            | inr known ↦ rw known ((nat_beq_iff _ _).0 fit, refl)
          ])
        ])
      ]

  add_segments-Added :
      (payload : List ℕ) (scales : List F) (w : F) (a : Sum F)
      → Added (length a.values) payload a (add_segments ops bits payload scales w a)
  unfolding add_segments counted
  add_segments-Added payload scales w a = elim (Bool-cases (length scales == length a.segments)) [
    | inr few ↦ rw few (refl, refl, refl)
    | inl all ↦ rw all (elim (Bool-cases (length payload == length a.values)) [
      | inr no_fit ↦ rw no_fit (refl, refl, refl)
      | inl fit ↦
          rw fit
            let err =
                (fold_segments ops bits (sample_weight ops bits w) 0 a.segments scales a.values
                  payload (num ops bits 0)).2 in
              elim (Option-cases err) [
                | inl fine ↦ rw fine ((nat_beq_iff _ _).0 fit, refl)
                | inr (e, bad) ↦ rw bad (refl, refl, refl)
              ]
    ])
  ]

  -- A payload is accepted only if it has the size of `n` values of the sum's type, and then counts
  -- once; a refused one leaves the count, the weight and the sum of squares as they were.
  pub add_segmented-Added :
      {t : DType} {n : ℕ} (payload : List ℕ) (scales : List F) (w : F) (a : Sum F)
      → IsSized t n a
      → Added (n * size t) payload a (add_segmented ops bits payload scales w a)
  unfolding add_segmented
  add_segmented-Added {t} payload scales w a z =
      elim (Bool-cases (not (is_i8 a.dtype) || leb (length a.segments) 1)) [
        | inl flat ↦ rw flat (
            rw (← z.values) (
              rw (← z.typed)
                (add_flat-Added payload (first_or ops bits (num ops bits 0) scales) w a)))
        | inr cut ↦
            let one : size a.dtype ≡ 1 = size_i8 a.dtype (ground (arith, cut)) in
            let same : length a.values ≡ length a.values * size a.dtype = grind (arith, one) in
            rw cut (
              rw (← z.values) (
                rw (← z.typed) (
                  subst (λ k. Added k payload a (add_segments ops bits payload scales w a)) same
                    (add_segments-Added payload scales w a))))
      ]
