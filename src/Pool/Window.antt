-- ===== src/Pool/Window.antt =====
-- The ring of a peer's observations as a queue (src/internal/daemonapi/poolrates.go).
use pipedpeer.Base.{
  ℕ, zero, suc, ◌+◌, ◌%◌, ◌<◌, ◌≡◌, refl, sym, ap, ◌∙◌, if◌then◌else◌, List, [], ◌∷◌, ◌++◌, length,
  take, drop, ltb, ◌⊎◌, inl, inr, arith, Bool-cases, lt→ltb, length-append,
}
use mathlib.Core.List.{append_assoc, append-nil}
use pipedpeer.Base.Eq.{string_eq}
use pipedpeer.Pool.Rates.{Obs, PeerObs, obs_window, set_at, add_obs}

-- The observations, oldest first.
unfoldable pub oldest_first : {F : Type 0} → PeerObs F → List (Obs F)
oldest_first p = drop p.next p.ring ++ take p.next p.ring

-- A list that forgets its first element once it has as many as the window.
unfoldable pub remember : {F : Type 0} → List (Obs F) → Obs F → List (Obs F)
remember os o = if ltb (length os) obs_window then os ++ o ∷ [] else drop 1 os ++ o ∷ []

-- The ring is not full and starts at its first place, or it is full and the next place is in it.
abbrev pub IsRing : {F : Type 0} → PeerObs F → Type 0
IsRing p =
    ((length p.ring < obs_window) × (p.next ≡ 0))
    ⊎ ((length p.ring ≡ obs_window) × (p.next < obs_window))

length-set_at : {A : Type 0} (i : ℕ) (o : A) (xs : List A) → length (set_at i o xs) ≡ length xs
unfolding set_at
length-set_at i o [] = refl
length-set_at zero o (x ∷ xs) = refl
length-set_at (suc i) o (x ∷ xs) = ap suc (length-set_at i o xs)

drop-set_at :
    {A : Type 0} (i : ℕ) (o : A) (xs : List A) → drop (suc i) (set_at i o xs) ≡ drop (suc i) xs
unfolding set_at
drop-set_at i o [] = refl
drop-set_at zero o (x ∷ xs) = refl
drop-set_at (suc i) o (x ∷ xs) = drop-set_at i o xs

take-set_at :
    {A : Type 0} (i : ℕ) (o : A) (xs : List A)
    → i < length xs
    → take (suc i) (set_at i o xs) ≡ take i xs ++ o ∷ []
unfolding set_at
take-set_at i o [] h = absurd (omega arith)
take-set_at zero o (x ∷ xs) h = refl
take-set_at (suc i) o (x ∷ xs) h = ap (◌∷◌ x) (take-set_at i o xs (omega arith))

drop-drop_append :
    {A : Type 0} (i : ℕ) (xs ys : List A)
    → i < length xs
    → drop 1 (drop i xs ++ ys) ≡ drop (suc i) xs ++ ys
drop-drop_append i [] ys h = absurd (omega arith)
drop-drop_append zero (x ∷ xs) ys h = refl
drop-drop_append (suc i) (x ∷ xs) ys h = drop-drop_append i xs ys (omega arith)

-- The ring read from the place after the one that is set.
set_at-rotates :
    {A : Type 0} (i : ℕ) (o : A) (xs : List A)
    → i < length xs
    → drop (suc i) (set_at i o xs) ++ take (suc i) (set_at i o xs)
      ≡ drop 1 (drop i xs ++ take i xs) ++ o ∷ []
set_at-rotates i o xs h =
    rw (drop-set_at i o xs, take-set_at i o xs h, drop-drop_append i xs (take i xs) h)
      (sym (append_assoc (drop (suc i) xs) (take i xs) (o ∷ [])))

drop_all : {A : Type 0} (xs : List A) → drop (length xs) xs ≡ []
drop_all [] = refl
drop_all (x ∷ xs) = drop_all xs

take_all : {A : Type 0} (xs : List A) → take (length xs) xs ≡ xs
take_all [] = refl
take_all (x ∷ xs) = ap (◌∷◌ x) (take_all xs)

-- A place past the last one is the first.
rotate_all : {A : Type 0} (n : ℕ) (xs : List A) → n ≡ length xs → drop n xs ++ take n xs ≡ xs ++ []
rotate_all n xs h = rw (h, drop_all xs, take_all xs) (sym (append-nil xs))

length-rotate : {A : Type 0} (n : ℕ) (xs : List A) → length (drop n xs ++ take n xs) ≡ length xs
length-rotate zero xs = omega (arith, length-append xs [])
length-rotate (suc n) [] = refl
length-rotate (suc n) (x ∷ xs) = omega (
  arith,
  length-append (drop n xs) (x ∷ take n xs),
  length-append (drop n xs) (take n xs),
  length-rotate n xs,
)

module _ {F : Type 0} where
  add_obs-IsRing : (o : Obs F) (p : PeerObs F) → IsRing p → IsRing (add_obs o p)
  unfolding add_obs
  add_obs-IsRing o p (inl (room, first)) =
      ground (arith, room, first, length-append p.ring (o ∷ []))
  add_obs-IsRing o p (inr (full, inside)) =
      ground (arith, full, inside, length-set_at p.next o p.ring)

  add_room :
      (o : Obs F) (os : List (Obs F))
      → length os < obs_window
      → (os ++ o ∷ []) ++ [] ≡ remember (os ++ []) o
  unfolding remember
  add_room o os room =
      rw (append-nil os, append-nil (os ++ o ∷ []), lt→ltb (length os) obs_window room) refl

  -- The ring after a place of a full one is set, whether the next place is past the last or not.
  add_full :
      (o : Obs F) (n : ℕ) (os : List (Obs F))
      → length os ≡ obs_window
      → n < obs_window
      → drop ((n + 1) % obs_window) (set_at n o os) ++ take ((n + 1) % obs_window) (set_at n o os)
        ≡ drop (suc n) (set_at n o os) ++ take (suc n) (set_at n o os)
  add_full o n os full inside = elim (Bool-cases (ltb (n + 1) obs_window)) [
    | inl on ↦
        let next : (n + 1) % obs_window ≡ suc n = ground (arith, on) in
        ap (λ k. drop k (set_at n o os) ++ take k (set_at n o os)) next
    | inr last ↦
        let next : (n + 1) % obs_window ≡ 0 = ground (arith, last, inside) in
        let end : suc n ≡ length (set_at n o os) =
          ground (arith, last, inside, full, length-set_at n o os) in
        ap (λ k. drop k (set_at n o os) ++ take k (set_at n o os)) next
        ∙ sym (rotate_all (suc n) (set_at n o os) end)
  ]

  remember-full :
      (o : Obs F) (os : List (Obs F)) → length os ≡ obs_window → remember os o ≡ drop 1 os ++ o ∷ []
  unfolding remember
  remember-full o os full = rw full refl

  add_obs-remember :
      (o : Obs F) (p : PeerObs F)
      → IsRing p
      → oldest_first (add_obs o p) ≡ remember (oldest_first p) o
  unfolding add_obs oldest_first
  add_obs-remember o p (inl (room, first)) =
      rw (lt→ltb (length p.ring) obs_window room, first) (add_room o p.ring room)
  add_obs-remember o p (inr (full, inside)) = rw full (
      add_full o p.next p.ring full inside
      ∙ set_at-rotates p.next o p.ring (omega (arith, full, inside))
      ∙ sym (
          remember-full o (drop p.next p.ring ++ take p.next p.ring)
            (length-rotate p.next p.ring ∙ full)))

  -- The ring of a peer is a queue of the last eight observations: each new one goes to its end, and
  -- the oldest is forgotten only once there are eight. The ring stays well formed.
  pub add_obs-refines :
      (o : Obs F) (p : PeerObs F)
      → IsRing p
      → IsRing (add_obs o p) × (oldest_first (add_obs o p) ≡ remember (oldest_first p) o)
  add_obs-refines o p v = (add_obs-IsRing o p v, add_obs-remember o p v)
