-- ===== src/Prune.antt =====
-- The cache of packed archives and its eviction (src/internal/narpack/prune.go). Paths are texts; the
-- clock and file sizes are numbers.
pub mod Oldest
use pipedpeer.Base.{
  ℕ, zero, suc, ◌+◌, ◌-◌, ◌≤◌, ◌<◌, ◌≡◌, refl, sym, ap, ◌∙◌, subst, String, Bool, true, false,
  if◌then◌else◌, Option, none, some, List, [], ◌∷◌, take, All, ltb, leb, leb→le, arith, Bool-cases,
  Option-cases, not, ◌⊎◌, inl, inr,
}
use pipedpeer.Base.Eq.{◌==◌, string_eq}
use pipedpeer.Base.Int.{ℤ, pos, negsuc, leb_ℤ, pos_part}
use pipedpeer.Base.Map.{Map, get, insert, remove}

-- A file on disk: its size and the time it was last used.
pub record File : Type 0 where
  pub size : ℕ
  pub used : ℕ

-- One cached path: its metadata file, its archive ("" when there is none), and their size.
pub record Entry : Type 0 where
  pub narinfo : String
  pub nar : String
  pub size : ℕ
  pub used : ℕ

abbrev pub Disk : Type 0
Disk = Map String File

-- Over `readable`, whether a metadata file can be opened, and `parse`, the archive path that it
-- names, if it is parsed and names one.
module _ (readable : String → Bool) (parse : String → Option String) (disk : Disk) where
  unfoldable pub entry_of : String → File → Entry
  entry_of path f =
      let alone : Entry = record { narinfo = path; nar = ""; size = f.size; used = f.used } in
      elim (parse path) [
        | none ↦ alone
        | some nar ↦ elim (get nar disk) [
          | none ↦ alone
          | some a ↦ record alone { nar = nar; size = f.size + a.size }
        ]
      ]

  -- The loop over the metadata files of the directory, and the total that it adds up.
  unfoldable pub scan : Map String File → List Entry × ℕ
  scan [] = ([], 0)
  scan ((path, f) ∷ names) =
      let rest = scan names in
      if readable path then (entry_of path f ∷ rest.0, (entry_of path f).size + rest.1) else rest

-- sort.SliceStable by time of use: entries of one time keep their order.
unfoldable pub insert_entry : Entry → List Entry → List Entry
insert_entry e [] = e ∷ []
insert_entry e (d ∷ ds) =
    let rest = insert_entry e ds in if ltb d.used e.used then d ∷ rest else e ∷ d ∷ ds

unfoldable pub sort_entries : List Entry → List Entry
sort_entries [] = []
sort_entries (e ∷ es) = insert_entry e (sort_entries es)

-- Over `removable`, whether the system lets a file be removed (os.Remove).
module _ (removable : String → Bool) where
  -- The disk after os.Remove, and whether it succeeded.
  unfoldable pub remove_file : String → Disk → Disk × Bool
  remove_file path disk = elim (get path disk) [
    | none ↦ (disk, false)
    | some f ↦ if removable path then (remove path disk, true) else (disk, false)
  ]

  unfoldable pub remove_entry : Entry → Disk → Disk × Bool
  remove_entry e disk =
      remove_file e.narinfo (if e.nar == "" then disk else (remove_file e.nar disk).0)

  -- The loop of Prune from `freed` bytes on.
  unfoldable pub evict : ℕ → ℕ → ℕ → List Entry → Disk → Disk × ℕ
  evict max total freed [] disk = (disk, freed)
  evict max total freed (e ∷ es) disk =
      let (after, gone) = remove_entry e disk in
      let rest = evict max total (if gone then freed + e.size else freed) es after in
      if leb (total - freed) max then (disk, freed) else rest

  unfoldable pub prune : ℤ → List Entry × ℕ → Disk → Disk × ℕ
  prune max (entries, total) disk =
      if leb_ℤ max (pos 0)
      then (disk, 0)
      else if leb total (pos_part max)
      then (disk, 0)
      else evict (pos_part max) total 0 (sort_entries entries) disk

unfoldable pub sum_size : List Entry → ℕ
sum_size [] = 0
sum_size (e ∷ es) = e.size + sum_size es
