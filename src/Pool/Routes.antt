-- ===== src/Pool/Routes.antt =====
-- What the choice of peers guarantees (src/internal/daemonapi/pool.go, poolrun.go, poolsteal.go).
use pipedpeer.Base.{
  ℕ, zero, suc, ◌+◌, ◌%◌, ◌<◌, ◌≡◌, refl, sym, ap, ◌∙◌, subst, String, true, false, Option, none,
  some, List, [], ◌∷◌, ◌++◌, not, length, get_or, get_elem?, keep_if, All, arith, Bool-cases,
  Option-cases, ◌⊎◌, inl, inr,
}
use mathlib.Core.List.{append-nil}
use native.Mathlib.Nat.{mod-lt}
use pipedpeer.Base.Eq.{◌==◌, string_eq}
use pipedpeer.Base.Int.{pos}
use pipedpeer.Base.Float.{FloatOps}
use pipedpeer.Pool.Book.{Book, Slot, Release, free, book, try_acquire}
use pipedpeer.Pool.Peers.{
  PoolManager, on_machine, offload_peers, sink, sink_peer_last, first_other, best_of, best_peer,
  peer_dead, backup_worth, better_backup, pick_backup, start_copy, backup_peer, soonest_from,
  soonest_peer,
}

-- The peers other than the submitter.
abbrev pub Others : String → List String → Type 0
Others submitter = All (λ p. (p == submitter) ≡ false)

sink-moves :
    (submitter x : String) (before after : List String)
    → Others submitter before
    → sink submitter (before ++ submitter ∷ x ∷ after) ≡ before ++ (x ∷ after) ++ submitter ∷ []
unfolding sink
sink-moves submitter x [] after h = ground (arith, string_eq.beq_iff submitter submitter)
sink-moves submitter x (p ∷ []) after h = rw h.0 (ap (◌∷◌ p) (sink-moves submitter x [] after tt))
sink-moves submitter x (p ∷ q ∷ before) after h =
    rw h.0 (ap (◌∷◌ p) (sink-moves submitter x (q ∷ before) after h.1))

sink-last :
    (submitter : String) (before : List String)
    → Others submitter before
    → sink submitter (before ++ submitter ∷ []) ≡ before ++ submitter ∷ []
unfolding sink
sink-last submitter [] h = refl
sink-last submitter (p ∷ []) h = rw h.0 refl
sink-last submitter (p ∷ q ∷ before) h = rw h.0 (ap (◌∷◌ p) (sink-last submitter (q ∷ before) h.1))

sink-Others : (submitter : String) (ps : List String) → Others submitter ps → sink submitter ps ≡ ps
unfolding sink
sink-Others submitter [] h = refl
sink-Others submitter (p ∷ []) h = refl
sink-Others submitter (p ∷ q ∷ ps) h = rw h.0 (ap (◌∷◌ p) (sink-Others submitter (q ∷ ps) h.1))

sink_once :
    (submitter : String) (before after : List String)
    → Others submitter before
    → sink submitter (before ++ submitter ∷ after) ≡ before ++ after ++ submitter ∷ []
sink_once submitter before [] h =
    sink-last submitter before h ∙ ap (λ l. l ++ submitter ∷ []) (sym (append-nil before))
sink_once submitter before (x ∷ after) h = sink-moves submitter x before after h

-- The first occurrence of a submitter that is named goes to the end of the order, the others keep
-- theirs, and an order without it stays.
pub sink_peer_last-order :
    (submitter : String) (before after : List String)
    → (submitter == "") ≡ false
    → Others submitter before
    → (sink_peer_last (before ++ submitter ∷ after) submitter ≡ before ++ after ++ submitter ∷ [])
      × (sink_peer_last before submitter ≡ before)
unfolding sink_peer_last
sink_peer_last-order submitter before after named h =
    rw named (sink_once submitter before after h, sink-Others submitter before h)

-- What is said of a peer that is picked from the peers that are kept.
abbrev pub BestOf : String → List String → String → Type 0
BestOf submitter kept best =
    ((kept ≡ []) × (best ≡ ""))
    ⊎ ((i : ℕ) × (get_elem? kept i ≡ some best)
        × (((best == submitter) ≡ false) ⊎ All (λ p. (p == submitter) ≡ true) kept))

first_other-none :
    (submitter : String) (ps : List String)
    → first_other submitter ps ≡ none
    → All (λ p. (p == submitter) ≡ true) ps
unfolding first_other
first_other-none submitter [] e = tt
first_other-none submitter (p ∷ ps) e = elim (Bool-cases (p == submitter)) [
  | inl t ↦ (t, first_other-none submitter ps (ground (arith, t, e)))
  | inr f ↦ absurd (ground (arith, f, e))
]

first_other-some :
    (submitter : String) (ps : List String) (q : String)
    → first_other submitter ps ≡ some q
    → ((q == submitter) ≡ false) × ((i : ℕ) × (get_elem? ps i ≡ some q))
unfolding first_other
first_other-some submitter [] q e = absurd (ground (arith, e))
first_other-some submitter (p ∷ ps) q e = elim (Bool-cases (p == submitter)) [
  | inl t ↦
      let (other, (i, found)) = first_other-some submitter ps q (ground (arith, t, e)) in
      (other, (suc i, found))
  | inr f ↦ (ground (arith, f, e), (0, ground (arith, f, e)))
]

only_submitter :
    (submitter : String) (ps : List String)
    → All (λ p. (p == submitter) ≡ true) ps
    → BestOf submitter ps (get_or ps 0 "")
only_submitter submitter [] all = inl (refl, refl)
only_submitter submitter (p ∷ ps) all = inr (0, refl, inr all)

best_of-BestOf :
    (submitter : String) (ps : List String) → BestOf submitter ps (best_of submitter ps)
unfolding best_of
best_of-BestOf submitter ps = elim (Option-cases (first_other submitter ps)) [
  | inr (q, e) ↦
      let (other, (i, found)) = first_other-some submitter ps q e in
      rw (e, best_of) (inr (i, found, inl other))
  | inl e ↦ rw (e, best_of) (only_submitter submitter ps (first_other-none submitter ps e))
]

not-on_machine :
    (pm : PoolManager) (machine : String) (ps : List String)
    → All (λ p. on_machine pm machine p ≡ false) (keep_if (λ p. not (on_machine pm machine p)) ps)
not-on_machine pm machine [] = tt
not-on_machine pm machine (p ∷ ps) = elim (Bool-cases (on_machine pm machine p)) [
  | inl t ↦ rw t (not-on_machine pm machine ps)
  | inr f ↦ rw f (f, not-on_machine pm machine ps)
]

-- No peer on the machine that a run is taken off stays, where one is named, and the peer that
-- bestPeer names is one that stays. It is the submitter only if no other peer stays, and "" only if
-- none does or a peer is named so.
pub best_peer-BestOf :
    (pm : PoolManager) (self_machine submitter offload : String) (ranked : List String)
    → (offload == "") ≡ false
    → let kept = (offload_peers pm self_machine ranked offload).0 in
      All (λ p. on_machine pm offload p ≡ false) kept
      × BestOf submitter kept (best_peer pm self_machine (some ranked) submitter offload)
unfolding best_peer offload_peers
best_peer-BestOf pm self_machine submitter offload ranked named = rw named (
  not-on_machine pm offload ranked,
  best_of-BestOf submitter (keep_if (λ p. not (on_machine pm offload p)) ranked),
)

positive : (m n : ℕ) → m < n → 0 < n
positive m n h = omega arith

module _ {F : Type 0} (ops : FloatOps F) where
  soonest_from-range :
      (secs : List F) (rotate best : ℕ) (best_sec : F) (k left : ℕ)
      → best < length secs
      → soonest_from ops secs rotate best best_sec k left < length secs
  unfolding soonest_from
  soonest_from-range secs rotate best best_sec k zero h = h
  soonest_from-range secs rotate best best_sec k (suc left) h =
      let j = (rotate + k) % length secs in
      let sec = get_or secs j ops.inf in
      elim (Bool-cases (ops.lt sec (ops.mul best_sec (ops.ratio 9 10)))) [
        | inl t ↦ rw t (
            soonest_from-range secs rotate j sec (suc k) left
              (mod-lt (rotate + k) (positive best (length secs) h)))
        | inr f ↦ rw f (soonest_from-range secs rotate best best_sec (suc k) left h)
      ]

  -- What backupPeer may rely on of a peer, its slot and the gain of a copy.
  abbrev pub Worth : PoolManager → F → F → Book F → String → Slot F → F → Type 0
  Worth pm expected elapsed b peer c gain =
      (peer_dead pm peer ≡ false)
      × (free c b ≡ true)
      × (backup_worth ops expected elapsed c.pred (ops.of_int (pos 0)) ≡ (true, gain))

  abbrev Picked : PoolManager → F → F → Book F → Option (String × Slot F) × F → Type 0
  Picked pm expected elapsed b (none, gain) = Unit {0}
  Picked pm expected elapsed b (some (peer, c), gain) = Worth pm expected elapsed b peer c gain

  better_backup-Worth :
      (pm : PoolManager) (expected elapsed : F) (b : Book F) (most : F) (peer : String) (c : Slot F)
      → better_backup ops pm expected elapsed b most (peer, c) ≡ true
      → Worth pm expected elapsed b peer c
          (backup_worth ops expected elapsed c.pred (ops.of_int (pos 0))).1
  unfolding better_backup
  better_backup-Worth pm expected elapsed b most peer c t =
      (ground (arith, t), ground (arith, t), ground (arith, t))

  pick_backup-Picked :
      (pm : PoolManager) (expected elapsed : F) (b : Book F) (best : Option (String × Slot F))
      (most : F) (cs : List (String × Slot F))
      → Picked pm expected elapsed b (best, most)
      → Picked pm expected elapsed b (pick_backup ops pm expected elapsed b best most cs)
  unfolding pick_backup
  pick_backup-Picked pm expected elapsed b best most [] p = p
  pick_backup-Picked pm expected elapsed b best most ((peer, c) ∷ cs) p =
      elim (Bool-cases (better_backup ops pm expected elapsed b most (peer, c))) [
        | inl t ↦
            rw (t, pick_backup)
              (pick_backup-Picked pm expected elapsed b (some (peer, c)) _ cs
                (better_backup-Worth pm expected elapsed b most peer c t))
        | inr f ↦ rw (f, pick_backup) (pick_backup-Picked pm expected elapsed b best most cs p)
      ]

  start_copy-Worth :
      (pm : PoolManager) (expected elapsed : F) (now : ℕ) (b : Book F)
      (p : Option (String × Slot F) × F)
      → Picked pm expected elapsed b p
      → (peer : String) (r : Release) (gain : F) → (start_copy ops now b p).0 ≡ some (peer, r, gain)
      → (c : Slot F) × Worth pm expected elapsed b peer c gain
        × ((start_copy ops now b p).1 ≡ (book c now b).1)
        × (r ≡ (book c now b).0)
  unfolding start_copy try_acquire
  start_copy-Worth pm expected elapsed now b (none, g) w peer r gain e = absurd (ground (arith, e))
  start_copy-Worth pm expected elapsed now b (some (q, c), g) w peer r gain e =
      elim (Bool-cases (q == "")) [
        | inl t ↦ absurd (ground (arith, t, e))
        | inr f ↦ (
          c,
          subst {A = String × F} (λ u. Worth pm expected elapsed b u.0 c u.1)
              (ground (arith, f, w.1, e)) w,
          ground (arith, f, w.1, e),
          ground (arith, f, w.1, e),
        )
      ]

  -- A copy of a late part goes to a peer that has not failed and has room, and of which the copy is
  -- predicted to save time; it takes one slot of that peer.
  pub backup_peer-Worth :
      (pm : PoolManager) (expected elapsed : F) (now : ℕ) (others : List (String × Slot F))
      (b : Book F) (peer : String) (r : Release) (gain : F)
      → (backup_peer ops pm expected elapsed now others b).0 ≡ some (peer, r, gain)
      → (c : Slot F) × Worth pm expected elapsed b peer c gain
        × ((backup_peer ops pm expected elapsed now others b).1 ≡ (book c now b).1)
        × (r ≡ (book c now b).0)
  unfolding backup_peer
  backup_peer-Worth pm expected elapsed now others b peer r gain e =
      start_copy-Worth pm expected elapsed now b
        (pick_backup ops pm expected elapsed b none (ops.of_int (pos 0)) others)
        (pick_backup-Picked pm expected elapsed b none (ops.of_int (pos 0)) others tt) peer r gain e

-- The index that soonestPeer answers is that of a peer, if there is one.
pub soonest_peer-range :
    {F : Type 0} (ops : FloatOps F) (secs : List F) (rotate : ℕ)
    → 0 < length secs
    → soonest_peer ops secs rotate < length secs
unfolding soonest_peer
soonest_peer-range ops secs rotate h =
    soonest_from-range ops secs rotate 0 ops.inf 0 (length secs) h
