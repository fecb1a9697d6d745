-- ===== src/Wire/Held.antt =====
-- Globals sent by hash: a peer that is taken to hold a blob gets its hash only
-- (src/internal/daemonapi/poolwire.go).
use pipedpeer.Base.{
  ℕ, suc, ◌<◌, ◌≤◌, ◌≡◌, refl, ap, String, Bool, true, false, if◌then◌else◌, Option, none, some, [],
  ◌∷◌, ◌++◌, length, ltb, leb, ◌||◌, not, arith, Bool-cases, Option-cases, ◌⊎◌, inl, inr,
}
use pipedpeer.Base.Eq.{◌==◌, nat_eq, string_eq}
use pipedpeer.Base.Int.{ℤ, pos, leb_ℤ}
use pipedpeer.Base.Map.{
  Map, get, has, insert, remove, get-insert, length-insert-le, length-remove-le,
}
use pipedpeer.Wire.Frames.{Bytes, Result, ok, err, read_frame, put_globals}

-- JSON headers, as a parameter: encoding/json. A field that is absent, or of another type, reads as
-- false, or as no number.
pub record Json (H : Type 0) : Type 0 where
  pub unmarshal : Bytes → Option H
  pub marshal : H → Bytes
  pub items_frames : H → Option ℤ
  pub globals : H → Bool
  -- "" for a field that is absent or no text
  pub globals_sha256 : H → String
  pub set_globals : Bool → H → H
  pub set_sha : String → H → H

-- bytes.IndexByte(body, '\n'): what is before the first newline, and what follows it.
unfoldable pub split_line : Bytes → Option (Bytes × Bytes)
split_line [] = none
split_line (b ∷ bs) =
    let rest = split_line bs in
    if b == 10
    then some ([], bs)
    else elim rest [ none ↦ none | some (line, after) ↦ some (b ∷ line, after) ]

-- globalsByHashMin and heldPerPeer
abbrev pub globals_by_hash_min : ℕ
globals_by_hash_min = 1_048_576

abbrev pub held_per_peer : ℕ
held_per_peer = 64

-- For each peer the hashes of the globals sent to it, with the time; a peer that is not in the map
-- holds none.
abbrev pub Links : Type 0
Links = Map String (Map String ℕ)

unfoldable pub held_of : String → Links → Map String ℕ
held_of peer links = elim (get peer links) [ none ↦ [] | some m ↦ m ]

-- The loop of evictOldest: a key "" counts as none found yet.
unfoldable pub oldest : String → ℕ → Map String ℕ → String
oldest old_k old_t [] = old_k
oldest old_k old_t ((k, t) ∷ m) =
    let taken = oldest k t m in
    let kept = oldest old_k old_t m in if old_k == "" || ltb t old_t then taken else kept

unfoldable pub evict_oldest : Map String ℕ → Map String ℕ
evict_oldest m = remove (oldest "" 0 m) m

-- The entry for `sha`, after one is evicted if it is new and the map is full.
unfoldable pub mark_held : String → ℕ → Map String ℕ → Map String ℕ
mark_held sha now m =
    if has sha m
    then insert sha now m
    else if leb held_per_peer (length m)
    then insert sha now (evict_oldest m)
    else insert sha now m

-- forgetPeerGlobals
unfoldable pub forget_peer_globals : String → String → Links → Links
forget_peer_globals peer sha links = elim (get peer links) [
  | none ↦ links
  | some m ↦ insert peer (remove sha m) links
]

module _ {H : Type 0} (json : Json H) where
  -- An empty header line counts as none.
  unfoldable pub read_header : Option (Bytes × Bytes) → Option (H × Bytes)
  read_header none = none
  read_header (some ([], rest)) = none
  read_header (some (b ∷ line, rest)) = elim (json.unmarshal (b ∷ line)) [
    | none ↦ none
    | some hdr ↦ elim (json.items_frames hdr) [
      | none ↦ none
      | some n ↦ if leb_ℤ n (pos 0) then none else some (hdr, rest)
    ]
  ]

  unfoldable pub split_frames_header : Bytes → Option (H × Bytes)
  split_frames_header body = read_header (split_line body)

  unfoldable pub join_frames : H → Option Bytes → Bytes → Bytes
  join_frames hdr globals rest = put_globals (json.marshal hdr ++ 10 ∷ []) globals ++ rest

module _ {H : Type 0} (json : Json H) (sha256 : Bytes → String) where
  -- What follows once the globals frame `g` is read: the body sent, and the links.
  unfoldable pub send_globals : String → ℕ → Links → H → Bytes → Bytes → Bytes × Links
  send_globals peer now links hdr g after =
      let sha = sha256 g in
      let m = held_of peer links in
      let named = json.set_sha sha hdr in
      (
        if has sha m
            then join_frames json (json.set_globals false named) none after
            else join_frames json named (some g) after,
        insert peer (mark_held sha now m) links,
      )

  unfoldable pub send_read : String → ℕ → Links → Bytes → H → Result (Bytes × Bytes) → Bytes × Links
  send_read peer now links body hdr (err e) = (body, links)
  send_read peer now links body hdr (ok (g, after)) =
      if ltb (length g) globals_by_hash_min
      then (body, links)
      else send_globals peer now links hdr g after

  unfoldable pub globals_by_hash : String → ℕ → Links → Bytes → Bytes × Links
  globals_by_hash peer now links body = elim (split_frames_header json body) [
    | none ↦ (body, links)
    | some (hdr, rest) ↦
        if not (json.globals hdr)
        then (body, links)
        else send_read peer now links body hdr (read_frame rest)
  ]

has-remove-length :
    (k : String) (m : Map String ℕ) → has k m ≡ true → length (remove k m) < length m
unfolding has remove
has-remove-length k [] h = absurd (ground (arith, h))
has-remove-length k ((j, t) ∷ m) h = elim (Bool-cases (j == k)) [
  | inl e ↦ rw e (omega (arith, length-remove-le k m))
  | inr e ↦ rw e (omega (arith, has-remove-length k m (ground (arith, e, h))))
]

-- The key `k`, or one of the map.
abbrev Among : String → Map String ℕ → String → Type 0
Among k m x = (x ≡ k) ⊎ (has x m ≡ true)

has-cons :
    (j : String) (u : ℕ) (m : Map String ℕ) (x : String) → Among j m x → has x ((j, u) ∷ m) ≡ true
unfolding has
has-cons j u m x (inl q) = ground (arith, string_eq.beq_iff j x, q)
has-cons j u m x (inr q) = ground (arith, q)

has-later :
    (j : String) (u : ℕ) (m : Map String ℕ) (k x : String) → Among k m x → Among k ((j, u) ∷ m) x
has-later j u m k x (inl q) = inl q
has-later j u m k x (inr q) = inr (has-cons j u m x (inr q))

oldest-Among : (k : String) (t : ℕ) (m : Map String ℕ) → Among k m (oldest k t m)
unfolding oldest
oldest-Among k t [] = inl refl
oldest-Among k t ((j, u) ∷ m) = elim (Bool-cases (k == "" || ltb u t)) [
  | inl e ↦ rw e (inr (has-cons j u m (oldest j u m) (oldest-Among j u m)))
  | inr e ↦ rw e (has-later j u m k (oldest k t m) (oldest-Among k t m))
]

evict_oldest-length : (m : Map String ℕ) → 0 < length m → length (evict_oldest m) < length m
unfolding evict_oldest oldest
evict_oldest-length [] h = absurd (omega arith)
evict_oldest-length ((k, t) ∷ m) h =
    has-remove-length (oldest k t m) ((k, t) ∷ m)
      (has-cons k t m (oldest k t m) (oldest-Among k t m))

length-insert_known :
    (k : String) (v : ℕ) (m : Map String ℕ) → has k m ≡ true → length (insert k v m) ≡ length m
unfolding has insert
length-insert_known k v [] h = absurd (ground (arith, h))
length-insert_known k v ((j, w) ∷ m) h = elim (Bool-cases (j == k)) [
  | inl e ↦ rw e refl
  | inr e ↦ rw e (ap suc (length-insert_known k v m (ground (arith, e, h))))
]

ltb_of_room : (n : ℕ) → leb held_per_peer n ≡ false → n < held_per_peer
ltb_of_room n h = ground arith

mark_held-le :
    (sha : String) (now : ℕ) (m : Map String ℕ)
    → length m ≤ held_per_peer
    → length (mark_held sha now m) ≤ held_per_peer
unfolding mark_held
mark_held-le sha now m h = elim (Bool-cases (has sha m)) [
  | inl known ↦ rw known (omega (arith, length-insert_known sha now m known))
  | inr new ↦ elim (Bool-cases (leb held_per_peer (length m))) [
    | inl full ↦
        rw (new, full)
          (omega (
            arith,
            length-insert-le sha now (evict_oldest m),
            evict_oldest-length m (ground (arith, full)),
            h,
          ))
    | inr room ↦
        rw (new, room) (omega (arith, length-insert-le sha now m, ltb_of_room (length m) room))
  ]
]

-- No peer is taken to hold more blobs than the limit.
abbrev pub IsBounded : Links → Type 0
IsBounded links = (peer : String) → length (held_of peer links) ≤ held_per_peer

held_of-insert :
    (peer k : String) (m : Map String ℕ) (links : Links)
    → held_of k (insert peer m links) ≡ (if peer == k then m else held_of k links)
unfolding held_of
held_of-insert peer k m links = ground (arith, get-insert peer k m links)

insert-IsBounded :
    (peer : String) (m : Map String ℕ) (links : Links)
    → length m ≤ held_per_peer
    → IsBounded links
    → IsBounded (insert peer m links)
insert-IsBounded peer m links h g k = ground (arith, held_of-insert peer k m links, h, g k)

module _ {H : Type 0} (json : Json H) (sha256 : Bytes → String) where
  read-IsBounded :
      (peer : String) (now : ℕ) (links : Links) (body : Bytes) (hdr : H)
      → IsBounded links
      → (r : Result (Bytes × Bytes)) → IsBounded (send_read json sha256 peer now links body hdr r).1
  unfolding send_read send_globals
  read-IsBounded peer now links body hdr g (err e) = g
  read-IsBounded peer now links body hdr g (ok (f, after)) =
      elim (Bool-cases (ltb (length f) globals_by_hash_min)) [
        | inl small ↦ rw small g
        | inr big ↦ rw big (
            insert-IsBounded peer (mark_held (sha256 f) now (held_of peer links)) links
              (mark_held-le (sha256 f) now (held_of peer links) (g peer)) g)
      ]

  -- Whatever bodies are sent, a peer is taken to hold no more blobs than the limit, if that was so
  -- before.
  pub globals_by_hash-IsBounded :
      (peer : String) (now : ℕ) (links : Links) (body : Bytes)
      → IsBounded links
      → IsBounded (globals_by_hash json sha256 peer now links body).1
  unfolding globals_by_hash
  globals_by_hash-IsBounded peer now links body g =
      elim (Option-cases (split_frames_header json body)) [
        | inl e ↦ rw (e, globals_by_hash) g
        | inr ((hdr, rest), e) ↦ elim (Bool-cases (not (json.globals hdr))) [
          | inl off ↦ rw (e, off, globals_by_hash) g
          | inr on ↦
              rw (e, on, globals_by_hash)
                (read-IsBounded peer now links body hdr g (read_frame rest))
        ]
      ]
