-- ===== src/Wire/Decode.antt =====
-- What a peer does with a body that it receives: unpacking it, and putting back the globals that were
-- sent by hash (src/internal/daemonapi/poolwire.go).
use pipedpeer.Base.{
  ℕ, ◌+◌, ◌-◌, String, Bool, true, if◌then◌else◌, Option, none, some, List, [], ◌∷◌, length, ltb,
  leb, nat_beq, ◌&&◌, ◌||◌, not,
}
use Prim.Native.Char.{code}
use pipedpeer.Base.Eq.{◌==◌, string_eq}
use pipedpeer.Base.Map.{Map, get, has, insert, remove}
use pipedpeer.Wire.Frames.{Bytes, FrameError, Result, ok, err, read_frame}
use pipedpeer.Wire.Held.{Json, split_frames_header, join_frames}

abbrev codes : String → List ℕ
codes String.[] = []
codes (String.◌∷◌ c s) = code c ∷ codes s

-- hex.DecodeString takes digits of both cases.
abbrev is_hex : ℕ → Bool
is_hex c = (leb 48 c && leb c 57) || (leb 97 c && leb c 102) || (leb 65 c && leb c 70)

abbrev all_hex : List ℕ → Bool
all_hex [] = true
all_hex (c ∷ cs) = is_hex c && all_hex cs

unfoldable pub valid_sha256 : String → Bool
valid_sha256 s = nat_beq (length (codes s)) 64 && all_hex (codes s)

-- A blob in the globals cache of a node, with the time of its last use; files are named by hash.
pub record Blob : Type 0 where
  pub bytes : Bytes
  pub used : ℕ

abbrev pub Cache : Type 0
Cache = Map String Blob

abbrev pub globals_cache_max : ℕ
globals_cache_max = 2_147_483_648

-- sort.Slice by the last use. It leaves the order of equal times open; here they keep theirs.
unfoldable pub insert_blob : String × Blob → Cache → Cache
insert_blob b [] = b ∷ []
insert_blob b (c ∷ cs) =
    let rest = insert_blob b cs in if ltb c.1.used b.1.used then c ∷ rest else b ∷ c ∷ cs

unfoldable pub by_use : Cache → Cache
by_use [] = []
by_use (b ∷ bs) = insert_blob b (by_use bs)

unfoldable pub total_size : Cache → ℕ
total_size [] = 0
total_size ((k, b) ∷ bs) = length b.bytes + total_size bs

-- Whether the system lets a file be removed or written, and the clock.
module _ (removable : String → Bool) where
  unfoldable pub drop_oldest : ℕ → ℕ → Cache → Cache → Cache
  drop_oldest max total [] cache = cache
  drop_oldest max total ((k, b) ∷ items) cache =
      let gone = drop_oldest max (total - length b.bytes) items (remove k cache) in
      let stays = drop_oldest max total items cache in
      if leb total max then cache else if removable k then gone else stays

  -- pruneGlobals, over the files whose names are hashes: no other file is ever written there.
  unfoldable pub prune_globals : ℕ → Cache → Cache
  prune_globals max cache = drop_oldest max (total_size cache) (by_use cache) cache

  module _ (sha256 : Bytes → String) (writes : Bool) (now : ℕ) where
    unfoldable pub store_globals : String → Bytes → Cache → Cache
    store_globals sha g cache =
        if has sha cache || not (sha256 g == sha) || not writes
        then cache
        else prune_globals globals_cache_max (insert sha (record { bytes = g; used = now }) cache)

pub data DecodeError : Type 0 where
  bad_zstd : DecodeError
  unsupported_encoding : String → DecodeError
  bad_sha : String → DecodeError
  bad_frame : FrameError → DecodeError
  missing_globals : String → DecodeError

pub data Decoded : Type 0 where
  body : Bytes → Decoded
  refused : DecodeError → Decoded

module _ {H : Type 0} (json : Json H) (sha256 : Bytes → String) (unzip : Bytes → Option Bytes)
    (removable : String → Bool) (writes : Bool) (now : ℕ) where
  -- A body whose globals came by hash: they are read from the cache, and marked as used.
  unfoldable pub put_back : H → String → Bytes → Cache → Decoded × Cache
  put_back hdr sha rest cache = elim (get sha cache) [
    | none ↦ (refused (missing_globals sha), cache)
    | some b ↦ (
      body (join_frames json (json.set_globals true hdr) (some b.bytes) rest),
      insert sha (record b { used = now }) cache,
    )
  ]

  -- A body whose globals came in full: they are kept.
  unfoldable pub keep_globals : Bytes → String → Result (Bytes × Bytes) → Cache → Decoded × Cache
  keep_globals raw sha (err e) cache = (refused (bad_frame e), cache)
  keep_globals raw sha (ok (g, after)) cache =
      (body raw, store_globals removable sha256 writes now sha g cache)

  unfoldable pub decode_frames : Bytes → Option (H × Bytes) → Cache → Decoded × Cache
  decode_frames raw none cache = (body raw, cache)
  decode_frames raw (some (hdr, rest)) cache =
      if json.globals_sha256 hdr == ""
      then (body raw, cache)
      else if not (valid_sha256 (json.globals_sha256 hdr))
      then (refused (bad_sha (json.globals_sha256 hdr)), cache)
      else if json.globals hdr
      then keep_globals raw (json.globals_sha256 hdr) (read_frame rest) cache
      else put_back hdr (json.globals_sha256 hdr) rest cache

  unfoldable pub decode_pool_body : String → Bytes → Cache → Decoded × Cache
  decode_pool_body encoding raw cache =
      if encoding == "" || encoding == "identity"
      then decode_frames raw (split_frames_header json raw) cache
      else if encoding == "zstd"
      then elim (unzip raw) [
        | none ↦ (refused bad_zstd, cache)
        | some plain ↦ decode_frames plain (split_frames_header json plain) cache
      ]
      else (refused (unsupported_encoding encoding), cache)
