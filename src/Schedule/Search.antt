-- ===== src/Schedule/Search.antt =====
-- What a plan accounts for, and that the search for it ends (src/internal/schedule/schedule.go,
-- Compute).
use pipedpeer.Base.{
  ℕ, zero, suc, ◌+◌, ◌<◌, ◌≡◌, ◌≢◌, refl, ap, ◌∙◌, Bool, true, if◌then◌else◌, Option, none, some,
  List, [], ◌∷◌, ◌++◌, map, length, keep_if, not, ◌||◌, arith, Bool-cases, Option-cases, inl, inr,
}
use pipedpeer.Base.Float.{FloatOps}
use pipedpeer.Schedule.{
  Device, Options, Rejection, Reason, too_late, turned_down, screen, any_of, settle, solve_makespan,
  late,
}

module _ {A : Type 0} (p : A → Bool) where
  -- How many elements pass the test.
  unfoldable pub count : List A → ℕ
  count [] = 0
  count (x ∷ xs) = let rest = count xs in if p x then suc rest else rest

  pub count-append : (xs ys : List A) → count (xs ++ ys) ≡ count xs + count ys
  unfolding count
  count-append [] ys = omega arith
  count-append (x ∷ xs) ys = ground (arith, count-append xs ys)

  -- A test parts a list in two.
  pub count-keep_if :
      (q : A → Bool) (xs : List A)
      → count (keep_if q xs) + count (keep_if (λ x. not (q x)) xs) ≡ count xs
  unfolding count
  count-keep_if q [] = refl
  count-keep_if q (x ∷ xs) = ground (arith, count-keep_if q xs)

pub length-keep_if_less :
    {A : Type 0} (q : A → Bool) (xs : List A)
    → length (keep_if q xs) + length (keep_if (λ x. not (q x)) xs) ≡ length xs
length-keep_if_less q [] = refl
length-keep_if_less q (x ∷ xs) = ground (arith, length-keep_if_less q xs)

module _ {F : Type 0} (ops : FloatOps F) where
  unfoldable pub devices_of : List (Rejection F) → List (Device F)
  devices_of = map (λ r. r.0)

  any_of-positive : (ds : List (Device F)) → any_of ops ds ≡ true → 0 < length ds
  any_of-positive [] h = absurd (ground (arith, h))
  any_of-positive (d ∷ ds) h = omega arith

  pub settle-ends :
      (fuel : ℕ) (opts : Options F) (active : List (Device F))
      → length active < fuel
      → settle ops fuel opts active ≢ none
  unfolding settle
  settle-ends zero opts active h e = absurd (omega arith)
  settle-ends (suc fuel) opts active h e =
      let t = solve_makespan ops active opts in
      let kept = keep_if (λ d. ops.lt d.setup_sec t) active in
      let dropped = keep_if (late ops t) active in
      elim (Bool-cases (not (any_of ops dropped) || not (any_of ops kept))) [
        | inl stop ↦ absurd (ground (arith, stop, e))
        | inr on ↦ elim (Option-cases (settle ops fuel opts kept)) [
          | inl ended ↦
              settle-ends fuel opts kept
                (omega (
                  arith,
                  any_of-positive dropped (ground (arith, on)),
                  length-keep_if_less (λ d. ops.lt d.setup_sec t) active,
                ))
                ended
          | inr (r, more) ↦ absurd (ground (arith, on, more, e))
        ]
      ]

  devices_of-map : (why : Reason) (ds : List (Device F)) → devices_of (map (λ d. (d, why)) ds) ≡ ds
  unfolding devices_of
  devices_of-map why [] = refl
  devices_of-map why (d ∷ ds) = ap (◌∷◌ d) (devices_of-map why ds)

  devices_of-append :
      (xs ys : List (Rejection F)) → devices_of (xs ++ ys) ≡ devices_of xs ++ devices_of ys
  unfolding devices_of
  devices_of-append [] ys = refl
  devices_of-append (x ∷ xs) ys = ap (◌∷◌ x.0) (devices_of-append xs ys)

  module _ (p : Device F → Bool) where
    -- How many of the devices turned down pass the test.
    unfoldable pub rejections : List (Rejection F) → ℕ
    rejections rs = count p (devices_of rs)

    pub rejections-append :
        (xs ys : List (Rejection F)) → rejections (xs ++ ys) ≡ rejections xs + rejections ys
    unfolding rejections
    rejections-append xs ys =
        ap (count p) (devices_of-append xs ys) ∙ count-append p (devices_of xs) (devices_of ys)

    rejections-map :
        (why : Reason) (ds : List (Device F)) → rejections (map (λ d. (d, why)) ds) ≡ count p ds
    unfolding rejections
    rejections-map why ds = ap (count p) (devices_of-map why ds)

    abbrev pub Covers : List (Device F) → Option (List (Device F) × F × List (Rejection F)) → Type 0
    Covers active none = Unit {0}
    Covers active (some (last, t, rs)) = count p last + rejections rs ≡ count p active

    pub rejections-none : (n : ℕ) → n + rejections [] ≡ n
    unfolding rejections devices_of count
    rejections-none n = omega arith

    continue-Covers :
        (active kept dropped : List (Device F))
        → count p kept + count p dropped ≡ count p active
        → (rest : Option (List (Device F) × F × List (Rejection F))) → Covers kept rest
        → Covers active (elim rest [
          | none ↦ none
          | some (last, t, rs) ↦ some (last, t, map (λ d. (d, too_late)) dropped ++ rs)
        ])
    continue-Covers active kept dropped parts none c = tt
    continue-Covers active kept dropped parts (some (last, t, rs)) c = omega (
      arith,
      parts,
      c,
      rejections-append (map (λ d. (d, too_late)) dropped) rs,
      rejections-map too_late dropped,
    )

    pub settle-Covers :
        (fuel : ℕ) (opts : Options F) (active : List (Device F))
        → Covers active (settle ops fuel opts active)
    unfolding settle
    settle-Covers zero opts active = tt
    settle-Covers (suc fuel) opts active =
        let t = solve_makespan ops active opts in
        let kept = keep_if (λ d. ops.lt d.setup_sec t) active in
        let dropped = keep_if (late ops t) active in
        elim (Bool-cases (not (any_of ops dropped) || not (any_of ops kept))) [
          | inl stop ↦ rw stop (rejections-none (count p active))
          | inr on ↦ rw on (
              continue-Covers active kept dropped
                (count-keep_if p (λ d. ops.lt d.setup_sec t) active) (settle ops fuel opts kept)
                (settle-Covers fuel opts kept))
        ]

    pub screen-covers :
        (opts : Options F) (ds : List (Device F))
        → count p (screen ops opts ds).0 + rejections (screen ops opts ds).1 ≡ count p ds
    unfolding screen count rejections devices_of
    screen-covers opts [] = refl
    screen-covers opts (d ∷ ds) = elim (Option-cases (turned_down ops opts d)) [
      | inl e ↦ rw (e, screen) (ground (arith, screen-covers opts ds))
      | inr (why, e) ↦ rw (e, screen) (ground (arith, screen-covers opts ds))
    ]
