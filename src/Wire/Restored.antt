-- ===== src/Wire/Restored.antt =====
-- What a peer has after it has decoded a body (src/internal/daemonapi/poolwire.go).
use pipedpeer.Base.{
  ℕ, ◌-◌, ◌≡◌, refl, ap, ◌∙◌, subst, String, Bool, true, false, Option, none, some, [], ◌∷◌, length,
  leb, ◌||◌, not, arith, Bool-cases, Option-cases, inl, inr,
}
use pipedpeer.Base.Eq.{◌==◌, string_eq}
use pipedpeer.Base.Int.{ℤ, pos, leb_ℤ}
use pipedpeer.Base.Map.{get, has, insert, remove, get-insert, get-remove}
use pipedpeer.Wire.Frames.{Bytes, Result, ok, err, read_frame}
use pipedpeer.Wire.Trips.{globals_frame}
use pipedpeer.Wire.Held.{Json, split_frames_header, join_frames, Links, held_of, send_globals}
use pipedpeer.Wire.Sent.{JsonLaws, split_frames_header-join_frames}
use pipedpeer.Wire.Decode.{
  Blob, Cache, body, valid_sha256, drop_oldest, prune_globals, store_globals, put_back,
  keep_globals, decode_frames, decode_pool_body,
}

-- Every blob stands under its own hash.
abbrev pub IsSound : (Bytes → String) → Cache → Type 0
IsSound sha256 cache = (sha : String) (b : Blob) → get sha cache ≡ some b → sha256 b.bytes ≡ sha

module _ (sha256 : Bytes → String) where
  insert-IsSound :
      (sha : String) (b : Blob) (cache : Cache)
      → sha256 b.bytes ≡ sha
      → IsSound sha256 cache
      → IsSound sha256 (insert sha b cache)
  insert-IsSound sha b cache e v k c found = elim (Bool-cases (sha == k)) [
    | inl same ↦
        let stored : some b ≡ some c = ground (arith, get-insert sha k b cache, found, same) in
        ground (arith, e, stored, (string_eq.beq_iff sha k).0 same)
    | inr other ↦ v k c (ground (arith, get-insert sha k b cache, found, other))
  ]

  remove-IsSound :
      (sha : String) (cache : Cache) → IsSound sha256 cache → IsSound sha256 (remove sha cache)
  remove-IsSound sha cache v k c found = v k c (ground (arith, get-remove sha k cache, found))

  drop_oldest-IsSound :
      (removable : String → Bool) (max total : ℕ) (items cache : Cache)
      → IsSound sha256 cache
      → IsSound sha256 (drop_oldest removable max total items cache)
  unfolding drop_oldest
  drop_oldest-IsSound removable max total [] cache v = v
  drop_oldest-IsSound removable max total ((k, b) ∷ items) cache v =
      elim (Bool-cases (leb total max)) [
        | inl under ↦ rw under v
        | inr over ↦ elim (Bool-cases (removable k)) [
          | inl gone ↦
              rw (over, gone)
                (drop_oldest-IsSound removable max (total - length b.bytes) items (remove k cache)
                  (remove-IsSound k cache v))
          | inr stays ↦ rw (over, stays) (drop_oldest-IsSound removable max total items cache v)
        ]
      ]

  store_globals-IsSound :
      (removable : String → Bool) (writes : Bool) (now : ℕ) (sha : String) (g : Bytes)
      (cache : Cache)
      → IsSound sha256 cache
      → IsSound sha256 (store_globals removable sha256 writes now sha g cache)
  unfolding store_globals prune_globals
  store_globals-IsSound removable writes now sha g cache v =
      elim (Bool-cases ((has sha cache || not (sha256 g == sha)) || not writes)) [
        | inl kept ↦ rw kept v
        | inr stored ↦ rw stored (
            drop_oldest-IsSound removable _ _ _ _ (
              insert-IsSound sha (record { bytes = g; used = now }) cache
                ((string_eq.beq_iff (sha256 g) sha).0 (ground (arith, stored))) v))
      ]

valid-named : (sha : String) → valid_sha256 sha ≡ true → (sha == "") ≡ false
unfolding valid_sha256
valid-named sha valid = elim (Bool-cases (sha == "")) [
  | inr named ↦ named
  | inl empty ↦ absurd (
      ground (arith, subst (λ s. valid_sha256 s ≡ true) ((string_eq.beq_iff sha "").0 empty) valid))
]

module _ {H : Type 0} (json : Json H) (sha256 : Bytes → String) (unzip : Bytes → Option Bytes)
    (removable : String → Bool) (writes : Bool) (now : ℕ) where
  keep_globals-IsSound :
      (raw : Bytes) (sha : String) (r : Result (Bytes × Bytes)) (cache : Cache)
      → IsSound sha256 cache
      → IsSound sha256 (keep_globals json sha256 unzip removable writes now raw sha r cache).1
  unfolding keep_globals
  keep_globals-IsSound raw sha (err e) cache v = v
  keep_globals-IsSound raw sha (ok (g, after)) cache v =
      store_globals-IsSound sha256 removable writes now sha g cache v

  put_back-IsSound :
      (hdr : H) (sha : String) (rest : Bytes) (cache : Cache)
      → IsSound sha256 cache
      → IsSound sha256 (put_back json sha256 unzip removable writes now hdr sha rest cache).1
  unfolding put_back
  put_back-IsSound hdr sha rest cache v = elim (Option-cases (get sha cache)) [
    | inl e ↦ rw (e, put_back) v
    | inr (b, e) ↦
        rw (e, put_back) (insert-IsSound sha256 sha (record b { used = now }) cache (v sha b e) v)
  ]

  decode_frames-IsSound :
      (raw : Bytes) (split : Option (H × Bytes)) (cache : Cache)
      → IsSound sha256 cache
      → IsSound sha256 (decode_frames json sha256 unzip removable writes now raw split cache).1
  unfolding decode_frames
  decode_frames-IsSound raw none cache v = v
  decode_frames-IsSound raw (some (hdr, rest)) cache v =
      let sha = json.globals_sha256 hdr in
      elim (Bool-cases (sha == "")) [
        | inl none_named ↦ rw none_named v
        | inr named ↦ elim (Bool-cases (not (valid_sha256 sha))) [
          | inl bad ↦ rw (named, bad) v
          | inr good ↦ elim (Bool-cases (json.globals hdr)) [
            | inl full ↦
                rw (named, good, full) (keep_globals-IsSound raw sha (read_frame rest) cache v)
            | inr by_hash ↦ rw (named, good, by_hash) (put_back-IsSound hdr sha rest cache v)
          ]
        ]
      ]

  -- Whatever body comes in, every blob in the cache of a node stands under its own hash, if that was
  -- so before.
  pub decode_pool_body-IsSound :
      (encoding : String) (raw : Bytes) (cache : Cache)
      → IsSound sha256 cache
      → IsSound sha256
          (decode_pool_body json sha256 unzip removable writes now encoding raw cache).1
  unfolding decode_pool_body
  decode_pool_body-IsSound encoding raw cache v =
      elim (Bool-cases (encoding == "" || encoding == "identity")) [
        | inl plain ↦ rw plain (decode_frames-IsSound raw (split_frames_header json raw) cache v)
        | inr coded ↦ elim (Bool-cases (encoding == "zstd")) [
          | inr other ↦ rw (coded, other) v
          | inl zstd ↦ elim (Option-cases (unzip raw)) [
            | inl e ↦ rw (coded, zstd, e, decode_pool_body) v
            | inr (plain, e) ↦
                rw (coded, zstd, e, decode_pool_body)
                  (decode_frames-IsSound plain (split_frames_header json plain) cache v)
          ]
        ]
      ]

  decode_frames-hit :
      (raw : Bytes) (hdr : H) (rest : Bytes) (sha : String) (cache : Cache) (b : Blob)
      → json.globals_sha256 hdr ≡ sha
      → valid_sha256 sha ≡ true
      → json.globals hdr ≡ false
      → get sha cache ≡ some b
      → (decode_frames json sha256 unzip removable writes now raw (some (hdr, rest)) cache).0
        ≡ body (join_frames json (json.set_globals true hdr) (some b.bytes) rest)
  unfolding decode_frames put_back
  decode_frames-hit raw hdr rest sha cache b read valid by_hash found =
      rw (read, valid-named sha valid, valid, by_hash, found, put_back) refl

  -- A body that goes by hash is, once decoded by a peer that has the blob, the body that would have
  -- gone in full. The header announces globals and at least one item, the hash has the form of one
  -- and is what is read of the header, and JSON behaves as documented.
  pub decode_pool_body-send_globals :
      (laws : JsonLaws json) (peer : String) (at : ℕ) (links : Links) (hdr : H) (g after : Bytes)
      (n : ℤ) (cache : Cache) (b : Blob)
      → json.items_frames hdr ≡ some n
      → leb_ℤ n (pos 0) ≡ false
      → json.globals hdr ≡ true
      → json.globals_sha256 (json.set_sha (sha256 g) hdr) ≡ sha256 g
      → valid_sha256 (sha256 g) ≡ true
      → has (sha256 g) (held_of peer links) ≡ true
      → get (sha256 g) cache ≡ some b
      → b.bytes ≡ g
      → (decode_pool_body json sha256 unzip removable writes now ""
          (send_globals json sha256 peer at links hdr g after).0
          cache).0
        ≡ body (join_frames json (json.set_sha (sha256 g) hdr) (some g) after)
  unfolding decode_pool_body send_globals globals_frame
  decode_pool_body-send_globals laws peer at links hdr g after n cache b i some_items full read
        valid held found same =
      let sha = sha256 g in
      let named = json.set_sha sha hdr in
      let off = json.set_globals false named in
      let items =
        laws.items_frames-set_globals named false ∙ laws.items_frames-set_sha hdr sha ∙ i in
      let split : split_frames_header json (join_frames json off none after) ≡ some (off, after) =
        split_frames_header-join_frames json laws off none after n items some_items in
      let again = laws.set_globals_again named false (laws.globals-set_sha hdr sha ∙ full) in
      rw (held, split)
        (decode_frames-hit (join_frames json off none after) off after sha cache b
            (laws.globals_sha256-set_globals named false ∙ read) valid
            (laws.globals-set_globals named false) found
          ∙ ap (λ h. body (join_frames json h (some b.bytes) after)) again
          ∙ ap (λ x. body (join_frames json named (some x) after)) same)
