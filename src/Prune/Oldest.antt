-- ===== src/Prune/Oldest.antt =====
-- What the eviction of the cache removes, and what it reports (src/internal/narpack/prune.go).
use pipedpeer.Base.{
  ℕ, zero, suc, ◌+◌, ◌-◌, ◌≤◌, ◌<◌, ◌≡◌, refl, sym, ap, ◌∙◌, subst, String, Bool, false,
  if◌then◌else◌, Option, List, [], ◌∷◌, take, All, ltb, leb, leb→le, arith, Bool-cases, ◌⊎◌, inl,
  inr,
}
use pipedpeer.Base.Int.{ℤ, pos, leb_ℤ, pos_part}
use pipedpeer.Base.Map.{Map}
use pipedpeer.Prune.{
  Entry, File, Disk, scan, insert_entry, sort_entries, remove_entry, evict, prune, sum_size,
}

-- The oldest `n` entries, their metadata and archives, one after the other.
unfoldable pub remove_oldest : (String → Bool) → ℕ → List Entry → Disk → Disk
remove_oldest removable zero es disk = disk
remove_oldest removable (suc n) [] disk = disk
remove_oldest removable (suc n) (e ∷ es) disk =
    remove_oldest removable n es (remove_entry removable e disk).0

-- The bytes of those whose metadata file is removed.
unfoldable pub freed_by : (String → Bool) → ℕ → List Entry → Disk → ℕ
freed_by removable zero es disk = 0
freed_by removable (suc n) [] disk = 0
freed_by removable (suc n) (e ∷ es) disk =
    let rest = freed_by removable n es (remove_entry removable e disk).0 in
    if (remove_entry removable e disk).1 then e.size + rest else rest

module _ (removable : String → Bool) (max total : ℕ) where
  -- Eviction takes the first `n` entries and no more than it needs to: before each of them the cache
  -- was over its cap, and after them it is not, or no entry is left.
  abbrev pub Evicted : ℕ → List Entry → Disk → Disk × ℕ → Type 0
  Evicted freed es disk r =
      (n : ℕ) × (r.0 ≡ remove_oldest removable n es disk)
      × (r.1 ≡ freed + freed_by removable n es disk)
      × ((m : ℕ) → m < n → max < total - (freed + freed_by removable m es disk))
      × ((total - r.1 ≤ max) ⊎ (take n es ≡ es))

  abbrev next_freed : ℕ → Entry → Disk → ℕ
  next_freed freed e disk = if (remove_entry removable e disk).1 then freed + e.size else freed

  freed_more :
      (freed n : ℕ) (e : Entry) (es : List Entry) (disk : Disk)
      → next_freed freed e disk + freed_by removable n es (remove_entry removable e disk).0
        ≡ freed + freed_by removable (suc n) (e ∷ es) disk
  unfolding freed_by
  freed_more freed n e es disk = ground arith

  over :
      (freed n : ℕ) (e : Entry) (es : List Entry) (disk : Disk)
      → leb (total - freed) max ≡ false
      → ((m : ℕ)
          → m < n
          → max
            < total
              - (next_freed freed e disk
                  + freed_by removable m es (remove_entry removable e disk).0))
      → (m : ℕ) → m < suc n
      → max < total - (freed + freed_by removable m (e ∷ es) disk)
  unfolding freed_by
  over freed n e es disk on before zero h = ground (arith, on)
  over freed n e es disk on before (suc m) h =
      subst (λ k. max < total - k) (freed_more freed m e es disk) (before m (omega arith))

  Evicted-more :
      (freed : ℕ) (e : Entry) (es : List Entry) (disk : Disk) {r : Disk × ℕ}
      → leb (total - freed) max ≡ false
      → Evicted (next_freed freed e disk) es (remove_entry removable e disk).0 r
      → Evicted freed (e ∷ es) disk r
  unfolding remove_oldest
  Evicted-more freed e es disk on (n, gone, bytes, before, last) = (
    suc n,
    gone,
    bytes ∙ freed_more freed n e es disk,
    over freed n e es disk on before,
    elim last [ inl h ↦ inl h | inr h ↦ inr (ap (◌∷◌ e) h) ],
  )

  evict-Evicted :
      (freed : ℕ) (es : List Entry) (disk : Disk)
      → Evicted freed es disk (evict removable max total freed es disk)
  unfolding evict remove_oldest freed_by
  evict-Evicted freed [] disk = (0, refl, omega arith, λ m h. absurd (omega arith), inr refl)
  evict-Evicted freed (e ∷ es) disk = elim (Bool-cases (leb (total - freed) max)) [
    | inl stop ↦
        rw (stop, evict)
          (0, refl, omega arith, λ m h. absurd (omega arith), inl (leb→le (total - freed) max stop))
    | inr on ↦
        rw (on, evict)
          (Evicted-more freed e es disk on
            (evict-Evicted (next_freed freed e disk) es (remove_entry removable e disk).0))
  ]

-- No entry stands before one that was used earlier.
unfoldable pub IsOrdered : List Entry → Type 0
IsOrdered [] = Unit {0}
IsOrdered (e ∷ es) = All (λ d. e.used ≤ d.used) es × IsOrdered es

All-le : (a b : ℕ) (es : List Entry) → a ≤ b → All (λ d. b ≤ d.used) es → All (λ d. a ≤ d.used) es
All-le a b [] h hs = tt
All-le a b (e ∷ es) h hs = (omega (arith, hs.0), All-le a b es h hs.1)

All-insert_entry :
    (a : ℕ) (e : Entry) (es : List Entry)
    → a ≤ e.used
    → All (λ d. a ≤ d.used) es
    → All (λ d. a ≤ d.used) (insert_entry e es)
unfolding insert_entry
All-insert_entry a e [] h hs = (h, tt)
All-insert_entry a e (d ∷ ds) h hs = elim (Bool-cases (ltb d.used e.used)) [
  | inl t ↦ rw t (hs.0, All-insert_entry a e ds h hs.1)
  | inr t ↦ rw t (h, hs)
]

insert_entry-IsOrdered :
    (e : Entry) (es : List Entry) → IsOrdered es → IsOrdered (insert_entry e es)
unfolding insert_entry IsOrdered
insert_entry-IsOrdered e [] h = (tt, tt)
insert_entry-IsOrdered e (d ∷ ds) h = elim (Bool-cases (ltb d.used e.used)) [
  | inl t ↦
      rw t (All-insert_entry d.used e ds (ground (arith, t)) h.0, insert_entry-IsOrdered e ds h.1)
  | inr t ↦
      let le : e.used ≤ d.used = ground (arith, t) in rw t ((le, All-le e.used d.used ds le h.0), h)
]

sort_entries-IsOrdered : (es : List Entry) → IsOrdered (sort_entries es)
unfolding sort_entries IsOrdered
sort_entries-IsOrdered [] = tt
sort_entries-IsOrdered (e ∷ es) =
    insert_entry-IsOrdered e (sort_entries es) (sort_entries-IsOrdered es)

sum_size-insert_entry :
    (e : Entry) (es : List Entry) → sum_size (insert_entry e es) ≡ e.size + sum_size es
unfolding sum_size insert_entry
sum_size-insert_entry e [] = refl
sum_size-insert_entry e (d ∷ ds) = ground (arith, sum_size-insert_entry e ds)

sum_size-sort_entries : (es : List Entry) → sum_size (sort_entries es) ≡ sum_size es
unfolding sum_size sort_entries
sum_size-sort_entries [] = refl
sum_size-sort_entries (e ∷ es) =
    omega (arith, sum_size-insert_entry e (sort_entries es), sum_size-sort_entries es)

positive : (max : ℕ) → 1 ≤ max → leb_ℤ (pos max) (pos 0) ≡ false
positive max h = ground arith

no_eviction :
    (removable : String → Bool) (max total : ℕ) (es : List Entry) (disk : Disk)
    → total ≤ max
    → Evicted removable max total 0 es disk (disk, 0)
unfolding remove_oldest freed_by
no_eviction removable max total es disk h =
    (0, refl, omega arith, λ m k. absurd (omega arith), inl (omega arith))

-- With a cap of at least one byte, Prune removes the entries that come first in the order of last
-- use, and no more than it needs to: before each of them the cache was over its cap, and after them
-- it is not, or no entry is left.
pub prune-Evicted :
    (removable : String → Bool) (max total : ℕ) (entries : List Entry) (disk : Disk)
    → 1 ≤ max
    → IsOrdered (sort_entries entries)
      × Evicted removable max total 0
          (sort_entries entries)
          disk
          (prune removable (pos max) (entries, total) disk)
unfolding prune
prune-Evicted removable max total entries disk h = (
  sort_entries-IsOrdered entries,
  elim (Bool-cases (leb total max)) [
    | inl under ↦
        rw (positive max h, under)
          (no_eviction removable max total (sort_entries entries) disk (leb→le total max under))
    | inr over_cap ↦
        rw (positive max h, over_cap)
          (evict-Evicted removable max total 0 (sort_entries entries) disk)
  ],
)

freed_by-le :
    (removable : String → Bool) (n : ℕ) (es : List Entry) (disk : Disk)
    → freed_by removable n es disk ≤ sum_size es
unfolding freed_by sum_size
freed_by-le removable zero es disk = omega arith
freed_by-le removable (suc n) [] disk = omega arith
freed_by-le removable (suc n) (e ∷ es) disk =
    ground (arith, freed_by-le removable n es (remove_entry removable e disk).0)

scan_total :
    (readable : String → Bool) (parse : String → Option String) (disk : Disk)
    (names : Map String File)
    → (scan readable parse disk names).1 ≡ sum_size (scan readable parse disk names).0
unfolding scan sum_size
scan_total readable parse disk [] = refl
scan_total readable parse disk ((path, f) ∷ names) = elim (Bool-cases (readable path)) [
  | inl r ↦ rw r (omega (arith, scan_total readable parse disk names))
  | inr r ↦ rw r (scan_total readable parse disk names)
]

evict-le :
    (removable : String → Bool) (max total : ℕ) (es : List Entry) (disk : Disk)
    → (evict removable max total 0 es disk).1 ≤ sum_size es
evict-le removable max total es disk =
    let (n, gone, bytes, before, last) = evict-Evicted removable max total 0 es disk in
    omega (arith, bytes, freed_by-le removable n es disk)

prune-freed_all :
    (removable : String → Bool) (max : ℤ) (total : ℕ) (entries : List Entry) (disk : Disk)
    → (prune removable max (entries, total) disk).1 ≤ sum_size entries
unfolding prune
prune-freed_all removable max total entries disk = elim (Bool-cases (leb_ℤ max (pos 0))) [
  | inl z ↦ rw z (omega arith)
  | inr z ↦ elim (Bool-cases (leb total (pos_part max))) [
    | inl u ↦ rw (z, u) (omega arith)
    | inr u ↦
        rw (z, u, sym (sum_size-sort_entries entries))
          (evict-le removable (pos_part max) total (sort_entries entries) disk)
  ]
]

-- Whatever the cap, and whichever files cannot be read, parsed or removed, Prune never reports more
-- bytes than the scan found.
pub prune-freed_le :
    (removable readable : String → Bool) (parse : String → Option String) (max : ℤ) (disk : Disk)
    (names : Map String File)
    → let found = scan readable parse disk names in (prune removable max found disk).1 ≤ found.1
prune-freed_le removable readable parse max disk names =
    let found = scan readable parse disk names in
    subst (λ n. (prune removable max found disk).1 ≤ n) (sym (scan_total readable parse disk names))
      (prune-freed_all removable max found.1 found.0 disk)
