-- ===== src/Ring/Sum.antt =====
-- The sum of the ranks' payloads (src/internal/daemonapi/ddpreduce.go). A payload is its bytes; the
-- float64 operations and the conversions of the math package are parameters.
use pipedpeer.Base.{
  ℕ, zero, suc, ◌+◌, ◌-◌, ◌*◌, ◌/◌, ◌%◌, ◌^◌, Bool, true, false, not, if◌then◌else◌, ltb, leb, ◌&&◌,
  ◌||◌, Option, none, some, List, [], ◌∷◌, ◌++◌, map, length, take, drop,
}
use pipedpeer.Base.Eq.{◌==◌, nat_eq}
use pipedpeer.Base.Int.{ℤ, pos, negsuc, ◌+ℤ◌, int64, leb_ℤ, eq_ℤ, pos_part}
use pipedpeer.Base.Float.{FloatOps}
use pipedpeer.Ring.Half.{float16_to_float32}

-- The conversions between a float64 and the bits of a float32 or a float64, with math.Sqrt and
-- math.Round.
pub record FloatBits (F : Type 0) : Type 0 where
  pub of_bits32 : ℕ → F
  pub to_bits32 : F → ℕ
  pub of_bits64 : ℕ → F
  pub to_bits64 : F → ℕ
  -- math.MaxFloat64
  pub max_float : F
  pub sqrt : F → F
  pub round : F → F

-- The element type; `other` stands for every name that the code does not know.
pub data DType : Type 0 where
  f16 f32 f64 i8 other : DType

unfoldable pub size : DType → ℕ
size f16 = 2
size f32 = 4
size f64 = 8
size i8 = 1
size other = 0

abbrev pub is_i8 : DType → Bool
is_i8 i8 = true
is_i8 _ = false

pub data SumError : Type 0 where
  segment_size segment_total : SumError
  scale_count payload_size unsupported no_ranks : SumError
  bad_scale : ℕ → SumError

pub record Sum (F : Type 0) : Type 0 where
  pub dtype : DType
  pub segments : List ℕ
  pub values : List F
  pub count : ℕ
  pub weight : F
  pub sum_sq : F

-- The value of a byte as an int8, and back.
unfoldable pub int8 : ℕ → ℤ
int8 b = if ltb b 128 then pos b else negsuc (255 - b)

unfoldable pub byte_of : ℤ → ℕ
byte_of (pos n) = n % 256
byte_of (negsuc n) = 255 - n % 256

-- An unsigned number, lowest byte first.
unfoldable pub put_le : ℕ → ℕ → List ℕ
put_le zero n = []
put_le (suc k) n = n % 256 ∷ put_le k (n / 256)

unfoldable pub get_le : List ℕ → ℕ
get_le [] = 0
get_le (b ∷ bs) = b + 256 * get_le bs

-- The total that the loop of withSegments adds up; none at a length that is not positive.
unfoldable pub total_of : ℤ → List ℤ → Option ℤ
total_of total [] = some total
total_of total (c ∷ cs) =
    let rest = total_of (int64 (total +ℤ c)) cs in if leb_ℤ c (pos 0) then none else rest

module _ {F : Type 0} (ops : FloatOps F) (bits : FloatBits F) where
  abbrev pub num : ℕ → F
  num n = ops.of_int (pos n)

  abbrev zeros : ℕ → List F
  zeros zero = []
  zeros (suc n) = num 0 ∷ zeros n

  unfoldable pub new_sum : DType → ℕ → Sum F
  new_sum t n = record {
    dtype = t;
    segments = [];
    values = zeros n;
    count = 0;
    weight = num 0;
    sum_sq = num 0;
  }

  unfoldable pub with_segments : List ℤ → Sum F → Sum F × Option SumError
  with_segments counts a = elim (total_of (pos 0) counts) [
    | none ↦ (a, some segment_size)
    | some total ↦
        if eq_ℤ total (pos (length a.values))
        then (record a { segments = map pos_part counts }, none)
        else (a, some segment_total)
  ]

  unfoldable pub sample_weight : F → F
  sample_weight w =
      if ops.lt w (num 0) then num 0 else if ops.le w (num 0) && ops.le (num 0) w then num 1 else w

  -- The values that a payload holds, `scale` being the step of an int8.
  unfoldable pub decode : DType → F → List ℕ → List F
  decode f16 scale (a ∷ b ∷ bs) =
      bits.of_bits32 (float16_to_float32 (get_le (a ∷ b ∷ []))) ∷ decode f16 scale bs
  decode f32 scale (a ∷ b ∷ c ∷ d ∷ bs) =
      bits.of_bits32 (get_le (a ∷ b ∷ c ∷ d ∷ [])) ∷ decode f32 scale bs
  decode f64 scale (a ∷ b ∷ c ∷ d ∷ e ∷ f ∷ g ∷ h ∷ bs) =
      bits.of_bits64 (get_le (a ∷ b ∷ c ∷ d ∷ e ∷ f ∷ g ∷ h ∷ [])) ∷ decode f64 scale bs
  decode i8 scale (b ∷ bs) = ops.mul (ops.of_int (int8 b)) scale ∷ decode i8 scale bs
  decode _ scale bs = []

  -- sum[i] += v * weight; sq += v * v
  unfoldable pub fold_values : F → List F → List F → F → List F × F
  fold_values w [] vs sq = ([], sq)
  fold_values w (s ∷ ss) [] sq = (s ∷ ss, sq)
  fold_values w (s ∷ ss) (v ∷ vs) sq =
      let (rest, total) = fold_values w ss vs (ops.add sq (ops.mul v v)) in
      (ops.add s (ops.mul v w) ∷ rest, total)

  -- The sums of an accepted payload are in: the counts go up.
  unfoldable pub counted : F → List F → F → Sum F → Sum F
  counted w values sq a = record a {
    values = values;
    count = suc a.count;
    weight = ops.add a.weight w;
    sum_sq = ops.add a.sum_sq (ops.mul sq w);
  }

  unfoldable pub add_flat : List ℕ → F → F → Sum F → Sum F × Option SumError
  add_flat payload scale w a =
      let weight = sample_weight w in
      let (values, sq) = fold_values weight a.values (decode a.dtype scale payload) (num 0) in
      if not (length payload == length a.values * size a.dtype)
      then (a, some payload_size)
      else if is_i8 a.dtype && ops.le scale (num 0)
      then (a, some (bad_scale 0))
      else if size a.dtype == 0
      then (a, some unsupported)
      else (counted weight values sq a, none)

  -- The loop over the segments: the sums of a segment whose scale is refused and of those after it
  -- are left, those before it are changed. Past the end of the sum the code panics.
  unfoldable pub fold_segments :
      F → ℕ → List ℕ → List F → List F → List ℕ → F → List F × F × Option SumError
  fold_segments w i (n ∷ ns) (sc ∷ scs) sums payload sq =
      let (part, sq') = fold_values w (take n sums) (decode i8 sc (take n payload)) sq in
      let (rest, total, err) = fold_segments w (suc i) ns scs (drop n sums) (drop n payload) sq' in
      if ops.le sc (num 0) then (sums, sq, some (bad_scale i)) else (part ++ rest, total, err)
  fold_segments w i [] scales sums payload sq = (sums, sq, none)
  fold_segments w i (n ∷ ns) [] sums payload sq = (sums, sq, none)

  unfoldable pub add_segments : List ℕ → List F → F → Sum F → Sum F × Option SumError
  add_segments payload scales w a =
      let weight = sample_weight w in
      let (values, sq, err) = fold_segments weight 0 a.segments scales a.values payload (num 0) in
      if not (length scales == length a.segments)
      then (a, some scale_count)
      else if not (length payload == length a.values)
      then (a, some payload_size)
      else elim err [
        | none ↦ (counted weight values sq a, none)
        | some e ↦ (record a { values = values }, some e)
      ]

  abbrev pub first_or : F → List F → F
  first_or d [] = d
  first_or d (x ∷ xs) = x

  -- The code reads scales[0]; its caller passes one scale at least.
  unfoldable pub add_segmented : List ℕ → List F → F → Sum F → Sum F × Option SumError
  add_segmented payload scales w a =
      if not (is_i8 a.dtype) || leb (length a.segments) 1
      then add_flat payload (first_or (num 0) scales) w a
      else add_segments payload scales w a

  unfoldable pub inverse : F → F
  inverse w = if ops.lt (num 0) w then ops.div (num 1) w else num 0

  unfoldable pub square_sum : F → List F → F → F
  square_sum inv [] m2 = m2
  square_sum inv (s ∷ ss) m2 = let m = ops.mul s inv in square_sum inv ss (ops.add m2 (ops.mul m m))

  -- none where the code answers false.
  unfoldable pub drift : Sum F → Option F
  drift a =
      let inv = inverse a.weight in
      let m2 = square_sum inv a.values (num 0) in
      let spread = ops.max (ops.sub (ops.mul a.sum_sq inv) m2) (num 0) in
      let cap = num (10 ^ 9) in
      if ltb a.count 2 || ops.le a.weight (num 0)
      then none
      else if ops.le m2 (num 0)
      then some (if ops.lt (num 0) spread then cap else num 0)
      else some (ops.min (bits.sqrt (ops.div spread m2)) cap)
