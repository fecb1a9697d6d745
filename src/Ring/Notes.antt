-- ===== src/Ring/Notes.antt =====
-- How a note reaches the ranks (publish and noteFor of src/internal/daemonapi/ddpdown.go).
use pipedpeer.Base.{
  ℕ, ◌+◌, ◌≡◌, refl, Bool, true, false, not, if◌then◌else◌, ◌&&◌, ◌||◌, Option, none, some, List,
  [], ◌∷◌, arith, Bool-cases, inl, inr,
}
use pipedpeer.Base.Eq.{◌==◌, nat_eq}
use pipedpeer.Base.Int.{ℤ, ltb_ℤ}
use pipedpeer.Ring.Ranks.{in_set, add_to, in_set-add_to}
use pipedpeer.Ring.Run.{Run, Note, note_for, publish}

-- A rank asks in its reply to a sync: the rank and the sync's number.
abbrev pub Ask : Type 0
Ask = ℕ × ℤ

-- The rank asks at the sync or later.
abbrev pub asks_from : ℕ → ℤ → List Ask → Bool
asks_from k seq [] = false
asks_from k seq ((j, s) ∷ asks) = (j == k && not (ltb_ℤ s seq)) || asks_from k seq asks

module _ {F : Type 0} where
  abbrev given : Option (Note F) → Bool
  given none = false
  given (some n) = true

  -- How often the rank is handed the note while the ranks ask in this order.
  unfoldable pub times_told : ℕ → List Ask → Run F → ℕ
  times_told k [] r = 0
  times_told k ((j, s) ∷ asks) r =
      let (r', got) = note_for j s r in
      (if j == k && given got then 1 else 0) + times_told k asks r'

  note_for-early :
      (j : ℕ) (s : ℤ) (r : Run F) (n : Note F)
      → r.note ≡ some n
      → (ltb_ℤ s r.note_seq || in_set j r.note_told) ≡ true
      → note_for j s r ≡ (r, none)
  unfolding note_for
  note_for-early j s r n there late = ground (arith, there, late)

  note_for-due :
      (j : ℕ) (s : ℤ) (r : Run F) (n : Note F)
      → r.note ≡ some n
      → (ltb_ℤ s r.note_seq || in_set j r.note_told) ≡ false
      → note_for j s r ≡ (record r { note_told = add_to j r.note_told }, some n)
  unfolding note_for
  note_for-due j s r n there due = ground (arith, there, due)

  times_told-note :
      (k : ℕ) (asks : List Ask) (r : Run F) (n : Note F)
      → r.note ≡ some n
      → times_told k asks r
        ≡ (if not (in_set k r.note_told) && asks_from k r.note_seq asks then 1 else 0)
  unfolding times_told
  times_told-note k [] r n there = ground arith
  times_told-note k ((j, s) ∷ asks) r n there =
      elim (Bool-cases (ltb_ℤ s r.note_seq || in_set j r.note_told)) [
        | inl early ↦ rw (note_for-early j s r n there early) (elim (Bool-cases (j == k)) [
          | inl same ↦ ground (arith, times_told-note k asks r n there, early, same)
          | inr apart ↦ ground (arith, times_told-note k asks r n there, early, apart)
        ])
        | inr due ↦
            let r' : Run F = record r { note_told = add_to j r.note_told } in
            rw (note_for-due j s r n there due) (
              ground (arith, times_told-note k asks r' n there, in_set-add_to j k r.note_told, due))
      ]

  -- A published note reaches every rank that asks at its sync or later, in whatever order the ranks
  -- ask and however often: exactly once. It reaches nobody before that sync.
  pub times_told-publish :
      (k : ℕ) (seq : ℤ) (n : Note F) (asks : List Ask) (r : Run F)
      → times_told k asks (publish seq n r) ≡ (if asks_from k seq asks then 1 else 0)
  unfolding publish in_set
  times_told-publish k seq n asks r =
      times_told-note k asks (record r { note = some n; note_seq = seq; note_told = [] }) n refl
