-- ===== src/Base/Map.antt =====
-- Finite maps with keys compared by an `Eq`, as association lists: a Go map, with its iteration
-- order. A key stands once in a map that is built by `insert`.
use Prim.Native.Nat.{◌+◌, ◌≤◌}
use mathlib.Core.Path.{◌≡◌, refl}
use mathlib.Core.Logic.{inl, inr}
use mathlib.Core.Bool.{Bool, true, false}
use mathlib.Core.List.{List, [], ◌∷◌}
use mathlib.Core.Option.{Option, none, some}
use native.Mathlib.Omega.{arith}
use pipedpeer.Base.Tests.{if◌then◌else◌, Bool-cases}
use pipedpeer.Base.Lists.{length}
use pipedpeer.Base.Eq.{Eq, ◌==◌}

abbrev pub Map : Type 0 → Type 0 → Type 0
Map K V = List (K × V)

module _ {K V : Type 0} ⦃e : Eq K⦄ where
  unfoldable pub get : K → Map K V → Option V
  get k [] = none
  get k ((j, v) ∷ m) = if j == k then some v else get k m

  unfoldable pub has : K → Map K V → Bool
  has k [] = false
  has k ((j, v) ∷ m) = if j == k then true else has k m

  -- m[k] = v, for a key that is new or not.
  unfoldable pub insert : K → V → Map K V → Map K V
  insert k v [] = (k, v) ∷ []
  insert k v ((j, w) ∷ m) = if j == k then (k, v) ∷ m else (j, w) ∷ insert k v m

  -- delete(m, k)
  unfoldable pub remove : K → Map K V → Map K V
  remove k [] = []
  remove k ((j, w) ∷ m) = let rest = remove k m in if j == k then rest else (j, w) ∷ rest

  -- A loop over the map that deletes the entries which fail a test.
  unfoldable pub filter_map : (K → V → Bool) → Map K V → Map K V
  filter_map p [] = []
  filter_map p ((j, w) ∷ m) = let rest = filter_map p m in if p j w then (j, w) ∷ rest else rest

  pub get-insert :
      (k j : K) (v : V) (m : Map K V) → get j (insert k v m) ≡ (if k == j then some v else get j m)
  unfolding get insert
  get-insert k j v [] = refl
  get-insert k j v ((i, w) ∷ m) =
      ground (arith, e.beq_iff k j, e.beq_iff i k, e.beq_iff i j, get-insert k j v m)

  pub get-remove : (k j : K) (m : Map K V) → get j (remove k m) ≡ (if k == j then none else get j m)
  unfolding get remove
  get-remove k j [] = ground arith
  get-remove k j ((i, w) ∷ m) =
      ground (arith, e.beq_iff k j, e.beq_iff i k, e.beq_iff i j, get-remove k j m)

  pub has-get : (k : K) (m : Map K V) → get k m ≡ none → has k m ≡ false
  unfolding get has
  has-get k [] h = refl
  has-get k ((i, w) ∷ m) h = ground (arith, has-get k m)

  get-has : (k : K) (m : Map K V) → has k m ≡ false → get k m ≡ none
  unfolding get has
  get-has k [] h = refl
  get-has k ((i, w) ∷ m) h = ground (arith, get-has k m)

  remove_absent : (k : K) (m : Map K V) → get k m ≡ none → remove k m ≡ m
  unfolding get remove
  remove_absent k [] h = refl
  remove_absent k ((i, w) ∷ m) h = ground (arith, remove_absent k m)

  -- Each key stands once.
  abbrev pub Distinct : Map K V → Type 0
  Distinct [] = Unit {0}
  Distinct ((j, w) ∷ m) = (has j m ≡ false) × Distinct m

  has-insert :
      (k j : K) (v : V) (m : Map K V) → has j (insert k v m) ≡ (if k == j then true else has j m)
  unfolding has insert
  has-insert k j v [] = refl
  has-insert k j v ((i, w) ∷ m) =
      ground (arith, e.beq_iff k j, e.beq_iff i k, e.beq_iff i j, has-insert k j v m)

  has-filter_map :
      (p : K → V → Bool) (j : K) (m : Map K V) → has j m ≡ false → has j (filter_map p m) ≡ false
  unfolding has filter_map
  has-filter_map p j [] h = refl
  has-filter_map p j ((i, w) ∷ m) h = ground (arith, has-filter_map p j m)

  has-remove : (k j : K) (m : Map K V) → has j m ≡ false → has j (remove k m) ≡ false
  unfolding has remove
  has-remove k j [] h = refl
  has-remove k j ((i, w) ∷ m) h = ground (arith, has-remove k j m)

  pub insert-Distinct : (k : K) (v : V) (m : Map K V) → Distinct m → Distinct (insert k v m)
  unfolding insert has
  insert-Distinct k v [] d = (refl, tt)
  insert-Distinct k v ((i, w) ∷ m) d =
      ground (arith, e.beq_iff i k, e.beq_iff k i, has-insert k i v m, insert-Distinct k v m d.1)

  pub remove-Distinct : (k : K) (m : Map K V) → Distinct m → Distinct (remove k m)
  unfolding remove
  remove-Distinct k [] d = d
  remove-Distinct k ((i, w) ∷ m) d = ground (arith, has-remove k i m d.0, remove-Distinct k m d.1)

  pub filter_map-Distinct :
      (p : K → V → Bool) (m : Map K V) → Distinct m → Distinct (filter_map p m)
  unfolding filter_map
  filter_map-Distinct p [] d = d
  filter_map-Distinct p ((i, w) ∷ m) d =
      ground (arith, has-filter_map p i m d.0, filter_map-Distinct p m d.1)

  -- What a filtering loop leaves at a key, where keys are distinct.
  pub get-filter_map :
      (p : K → V → Bool) (k : K) (m : Map K V)
      → Distinct m
      → get k (filter_map p m)
        ≡ elim (get k m) [ none ↦ none | some v ↦ if p k v then some v else none ]
  unfolding get filter_map
  get-filter_map p k [] d = refl
  get-filter_map p k ((i, w) ∷ m) d = elim (Bool-cases (i == k)) [
    | inl hit ↦
        let same : i ≡ k = (e.beq_iff i k).0 hit in
        let gone : get k m ≡ none = get-has k m (rw same at d.0) in
        ground (arith, get-filter_map p k m d.1)
    | inr miss ↦ ground (arith, get-filter_map p k m d.1)
  ]

  pub length-insert-le : (k : K) (v : V) (m : Map K V) → length (insert k v m) ≤ length m + 1
  unfolding insert
  length-insert-le k v [] = omega arith
  length-insert-le k v ((i, w) ∷ m) = ground (arith, length-insert-le k v m)

  -- Overwriting a key that is there adds no entry.
  pub length-insert_old :
      (k : K) (v w : V) (m : Map K V) → get k m ≡ some w → length (insert k v m) ≡ length m
  unfolding insert get
  length-insert_old k v w [] h = cc
  length-insert_old k v w ((i, u) ∷ m) h = ground (arith, length-insert_old k v w m)

  pub length-remove-le : (k : K) (m : Map K V) → length (remove k m) ≤ length m
  unfolding remove
  length-remove-le k [] = omega arith
  length-remove-le k ((i, w) ∷ m) = ground (arith, length-remove-le k m)

  pub length-filter_map-le : (p : K → V → Bool) (m : Map K V) → length (filter_map p m) ≤ length m
  unfolding filter_map
  length-filter_map-le p [] = omega arith
  length-filter_map-le p ((i, w) ∷ m) = ground (arith, length-filter_map-le p m)

  -- Removing a key that was inserted new gives the map back.
  pub remove-insert_new :
      (k : K) (v : V) (m : Map K V) → get k m ≡ none → remove k (insert k v m) ≡ m
  unfolding get insert remove
  remove-insert_new k v [] h = ground (arith, e.beq_iff k k)
  remove-insert_new k v ((i, w) ∷ m) h =
      ground (arith, e.beq_iff i k, remove-insert_new k v m, remove_absent k m)

  pub insert-insert : (k : K) (v w : V) (m : Map K V) → insert k v (insert k w m) ≡ insert k v m
  unfolding insert
  insert-insert k v w [] = ground (arith, e.beq_iff k k)
  insert-insert k v w ((i, u) ∷ m) =
      ground (arith, e.beq_iff i k, e.beq_iff k k, insert-insert k v w m)
