-- ===== src/Wire/Read.antt =====
-- What a body that is parsed was made of (src/internal/daemonapi/poolwire.go).
use pipedpeer.Base.{
  ℕ, zero, suc, ◌/◌, ◌%◌, ◌^◌, ◌<◌, ◌≤◌, ◌≡◌, refl, sym, ap, ◌∙◌, subst, Bool, true, false, Option,
  none, some, List, [], ◌∷◌, ◌++◌, length, take, drop, All, arith, ◌⊎◌, inl, inr,
}
use mathlib.Core.List.{append_assoc}
use pipedpeer.Wire.Frames.{
  Bytes, FrameError, Result, ok, err, put_uint32, get_uint32, read_frame, parse_items, parse_frames,
}
use pipedpeer.Wire.Trips.{frame, frames, globals_frame, is_some}

-- Every element is a byte.
abbrev pub AreBytes : Bytes → Type 0
AreBytes = All (λ b. b < 256)

take-append-drop : {A : Type 0} (n : ℕ) (xs : List A) → take n xs ++ drop n xs ≡ xs
take-append-drop zero xs = refl
take-append-drop (suc n) [] = refl
take-append-drop (suc n) (x ∷ xs) = ap (◌∷◌ x) (take-append-drop n xs)

length-take : {A : Type 0} (n : ℕ) (xs : List A) → n ≤ length xs → length (take n xs) ≡ n
length-take zero xs h = refl
length-take (suc n) [] h = absurd (omega arith)
length-take (suc n) (x ∷ xs) h = ap suc (length-take n xs (omega arith))

AreBytes-drop : (n : ℕ) (xs : Bytes) → AreBytes xs → AreBytes (drop n xs)
AreBytes-drop zero xs h = h
AreBytes-drop (suc n) [] h = h
AreBytes-drop (suc n) (x ∷ xs) h = AreBytes-drop n xs h.1

put_uint32_lem :
    (a b c d : ℕ) (t : Bytes)
    → a < 256
    → b < 256
    → c < 256
    → d < 256
    → put_uint32 (get_uint32 (a ∷ b ∷ c ∷ d ∷ t)) ≡ a ∷ b ∷ c ∷ d ∷ []
put_uint32_lem a b c d t ha hb hc hd =
    let n = get_uint32 (a ∷ b ∷ c ∷ d ∷ t) in
    let e0 : n % 2 ^ 32 / 16_777_216 ≡ a = omega arith in
    let e1 : n % 2 ^ 32 / 65_536 % 256 ≡ b = omega arith in
    let e2 : n % 2 ^ 32 / 256 % 256 ≡ c = omega arith in
    let e3 : n % 2 ^ 32 % 256 ≡ d = omega arith in ground (arith, e0, e1, e2, e3)

-- What is read off as a frame stands in the source as one.
abbrev IsRead : Bytes → Bytes × Bytes → Type 0
IsRead src (f, after) = (src ≡ frame f ++ after) × AreBytes after

read_frame-IsRead :
    (src f after : Bytes) → AreBytes src → read_frame src ≡ ok (f, after) → IsRead src (f, after)
unfolding read_frame frame
read_frame-IsRead [] f after h e = absurd (ground (arith, e))
read_frame-IsRead (a ∷ []) f after h e = absurd (ground (arith, e))
read_frame-IsRead (a ∷ b ∷ []) f after h e = absurd (ground (arith, e))
read_frame-IsRead (a ∷ b ∷ c ∷ []) f after h e = absurd (ground (arith, e))
read_frame-IsRead (a ∷ b ∷ c ∷ d ∷ t) f after h e =
    let n = get_uint32 (a ∷ b ∷ c ∷ d ∷ t) in
    let fits : n ≤ length t = ground (arith, e) in
    let payload : f ≡ take n t = ground (arith, e) in
    let rest : after ≡ drop n t = ground (arith, e) in
    let size : put_uint32 (length (take n t)) ≡ a ∷ b ∷ c ∷ d ∷ [] =
      ap put_uint32 (length-take n t fits) ∙ put_uint32_lem a b c d t h.0 h.1.0 h.1.1.0 h.1.1.1.0 in
    rw (payload, rest)
      (
        sym (
            ap (λ l. (l ++ take n t) ++ drop n t) size
            ∙ ap (λ l. a ∷ b ∷ c ∷ d ∷ l) (take-append-drop n t)),
        AreBytes-drop n t h.1.1.1.1,
      )

Result-cases :
    {A : Type 0} (r : Result A) → ((x : FrameError) × (r ≡ err x)) ⊎ ((a : A) × (r ≡ ok a))
Result-cases (err x) = inl (x, refl)
Result-cases (ok a) = inr (a, refl)

-- The source is the items as frames, and a rest.
abbrev pub IsMadeOf : ℕ → Bytes → List Bytes → Type 0
IsMadeOf count src items = (rest : Bytes) × (src ≡ frames items ++ rest) × (length items ≡ count)

more-IsMadeOf :
    (count : ℕ) (src f after : Bytes) (fs : List Bytes)
    → src ≡ frame f ++ after
    → IsMadeOf count after fs
    → IsMadeOf (suc count) src (f ∷ fs)
unfolding frames
more-IsMadeOf count src f after fs e (rest, made, size) = (
  rest,
  e ∙ ap (λ l. frame f ++ l) made ∙ sym (append_assoc (frame f) (frames fs) rest),
  ap suc size,
)

parse_items-IsMadeOf :
    (count : ℕ) (src : Bytes) (items : List Bytes)
    → AreBytes src
    → parse_items count src ≡ ok items
    → IsMadeOf count src items
unfolding parse_items frames
parse_items-IsMadeOf zero src items h e =
    let empty : [] ≡ items = ground (arith, e) in subst (IsMadeOf zero src) empty (src, refl, refl)
parse_items-IsMadeOf (suc count) src items h e = elim (Result-cases (read_frame src)) [
  | inl (x, r) ↦ absurd (ground (arith, e, r))
  | inr ((f, after), r) ↦
      let found = read_frame-IsRead src f after h r in
      elim (Result-cases (parse_items count after)) [
        | inl (x, q) ↦ absurd (ground (arith, e, r, q))
        | inr (fs, q) ↦
            let items_are : f ∷ fs ≡ items = ground (arith, e, r, q) in
            subst (IsMadeOf (suc count) src) items_are (
              more-IsMadeOf count src f after fs found.0
                (parse_items-IsMadeOf count after fs found.1 q))
      ]
]

-- A body that parses is the globals frame, where one is announced, then as many item frames as are
-- asked for, and a rest that is not read; nothing else parses. Its elements are bytes.
pub parse_frames-made :
    (src : Bytes) (has_globals : Bool) (count : ℕ) (g : Option Bytes) (items : List Bytes)
    → AreBytes src
    → parse_frames src has_globals count ≡ ok (g, items)
    → (is_some g ≡ has_globals)
      × (length items ≡ count)
      × ((rest : Bytes) × (src ≡ globals_frame g ++ (frames items ++ rest)))
unfolding parse_frames globals_frame
parse_frames-made src false count g items h e = elim (Result-cases (parse_items count src)) [
  | inl (x, q) ↦ absurd (ground (arith, e, q))
  | inr (fs, q) ↦
      let no_globals : none ≡ g = ground (arith, e, q) in
      let same : fs ≡ items = ground (arith, e, q) in
      let (rest, made, size) = parse_items-IsMadeOf count src items h (q ∙ ap ok same) in
      subst
        (λ o.
          (is_some o ≡ false)
          × (length items ≡ count)
          × ((rest : Bytes) × (src ≡ globals_frame o ++ (frames items ++ rest))))
        no_globals (refl, size, (rest, made))
]
parse_frames-made src true count g items h e = elim (Result-cases (read_frame src)) [
  | inl (x, r) ↦ absurd (ground (arith, e, r))
  | inr ((f, after), r) ↦
      let found = read_frame-IsRead src f after h r in
      elim (Result-cases (parse_items count after)) [
        | inl (x, q) ↦ absurd (ground (arith, e, r, q))
        | inr (fs, q) ↦
            let with : some f ≡ g = ground (arith, e, r, q) in
            let same : fs ≡ items = ground (arith, e, r, q) in
            let (rest, made, size) =
              parse_items-IsMadeOf count after items found.1 (q ∙ ap ok same) in
            subst
              (λ o.
                (is_some o ≡ true)
                × (length items ≡ count)
                × ((rest : Bytes) × (src ≡ globals_frame o ++ (frames items ++ rest))))
              with (refl, size, (rest, found.0 ∙ ap (λ l. frame f ++ l) made))
      ]
]
