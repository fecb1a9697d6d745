-- ===== src/Wire/Sent.antt =====
-- What a peer reads of a body whose globals go by hash (src/internal/daemonapi/poolwire.go).
use pipedpeer.Base.{
  ℕ, true, ◌<◌, ◌≡◌, refl, sym, ap, ◌∙◌, subst, String, Bool, false, if◌then◌else◌, Option, none,
  some, [], ◌∷◌, ◌++◌, length, All, arith, Bool-cases, inl, inr,
}
use mathlib.Core.List.{append_assoc}
use pipedpeer.Base.Eq.{◌==◌, nat_eq, string_eq}
use pipedpeer.Base.Int.{ℤ, pos, leb_ℤ}
use pipedpeer.Base.Map.{has}
use pipedpeer.Wire.Frames.{Bytes, ok, read_frame}
use pipedpeer.Wire.Trips.{Fits, globals_frame, put_globals_lem, read_frame-frame}
use pipedpeer.Wire.Held.{
  Json, Links, held_of, split_line, read_header, split_frames_header, join_frames, send_globals,
}

-- What encoding/json documents of a header: it is one line, it reads back, and setting a field leaves
-- the others.
pub record JsonLaws {H : Type 0} (json : Json H) : Type 0 where
  pub one_line : (h : H) → All (λ b. (b == 10) ≡ false) (json.marshal h)
  pub not_empty : (h : H) → 0 < length (json.marshal h)
  pub reads_back : (h : H) → json.unmarshal (json.marshal h) ≡ some h
  pub items_frames-set_globals :
      (h : H) (b : Bool) → json.items_frames (json.set_globals b h) ≡ json.items_frames h
  pub items_frames-set_sha :
      (h : H) (sha : String) → json.items_frames (json.set_sha sha h) ≡ json.items_frames h
  pub globals-set_globals : (h : H) (b : Bool) → json.globals (json.set_globals b h) ≡ b
  pub globals-set_sha : (h : H) (sha : String) → json.globals (json.set_sha sha h) ≡ json.globals h
  pub globals_sha256-set_globals :
      (h : H) (b : Bool) → json.globals_sha256 (json.set_globals b h) ≡ json.globals_sha256 h
  pub set_globals_again :
      (h : H) (b : Bool) → json.globals h ≡ true → json.set_globals true (json.set_globals b h) ≡ h

split_line_lem :
    (line rest : Bytes)
    → All (λ b. (b == 10) ≡ false) line
    → split_line (line ++ 10 ∷ rest) ≡ some (line, rest)
unfolding split_line
split_line_lem [] rest h = refl
split_line_lem (b ∷ line) rest h = rw (h.0, split_line_lem line rest h.1) refl

module _ {H : Type 0} (json : Json H) (laws : JsonLaws json) where
  split_header :
      (line rest : Bytes) (hdr : H) (n : ℤ)
      → 0 < length line
      → All (λ b. (b == 10) ≡ false) line
      → json.unmarshal line ≡ some hdr
      → json.items_frames hdr ≡ some n
      → leb_ℤ n (pos 0) ≡ false
      → split_frames_header json (line ++ 10 ∷ rest) ≡ some (hdr, rest)
  unfolding split_frames_header read_header
  split_header [] rest hdr n p one u i some_items = absurd (omega arith)
  split_header (b ∷ line) rest hdr n p one u i some_items =
      subst (λ l. read_header json l ≡ some (hdr, rest)) (sym (split_line_lem (b ∷ line) rest one))
        (rw (u, i, some_items, read_header) refl)

  -- A joined body is split into its header and the frames that were put after it.
  pub split_frames_header-join_frames :
      (hdr : H) (g : Option Bytes) (rest : Bytes) (n : ℤ)
      → json.items_frames hdr ≡ some n
      → leb_ℤ n (pos 0) ≡ false
      → split_frames_header json (join_frames json hdr g rest) ≡ some (hdr, globals_frame g ++ rest)
  unfolding join_frames
  split_frames_header-join_frames hdr g rest n i some_items =
      let line = json.marshal hdr in
      subst (λ b. split_frames_header json b ≡ some (hdr, globals_frame g ++ rest))
        (sym (
          ap (λ b. b ++ rest) (put_globals_lem (line ++ 10 ∷ []) g)
          ∙ append_assoc (line ++ 10 ∷ []) (globals_frame g) rest
          ∙ append_assoc line (10 ∷ []) (globals_frame g ++ rest)))
        (split_header line (globals_frame g ++ rest) hdr n (laws.not_empty hdr) (laws.one_line hdr)
          (laws.reads_back hdr) i some_items)

  -- What a peer that is taken to hold the blob, or not, reads of a body.
  abbrev pub Received : Bool → H → Bytes → Bytes → Bytes → Type 0
  Received held named g after body =
      if held
      then split_frames_header json body ≡ some (json.set_globals false named, after)
      else (rest : Bytes) × (split_frames_header json body ≡ some (named, rest))
        × (read_frame rest ≡ ok (g, after))

  -- From a body that is sent with its globals, less than 2^32 bytes of them, the peer reads the header
  -- with the hash and then the blob and what follows it; or, if it is taken to hold the blob, a
  -- header that announces none and what follows. The header asks for at least one item, and JSON
  -- behaves as documented.
  pub send_globals-Received :
      (sha256 : Bytes → String) (peer : String) (now : ℕ) (links : Links) (hdr : H)
      (g after : Bytes) (n : ℤ)
      → json.items_frames hdr ≡ some n
      → leb_ℤ n (pos 0) ≡ false
      → Fits g
      → Received
          (has (sha256 g) (held_of peer links))
          (json.set_sha (sha256 g) hdr)
          g
          after
          (send_globals json sha256 peer now links hdr g after).0
  unfolding send_globals globals_frame
  send_globals-Received sha256 peer now links hdr g after n i some_items fits =
      let named = json.set_sha (sha256 g) hdr in
      let i' = laws.items_frames-set_sha hdr (sha256 g) ∙ i in
      elim (Bool-cases (has (sha256 g) (held_of peer links))) [
        | inl held ↦ rw held (
            split_frames_header-join_frames (json.set_globals false named) none after n
              (laws.items_frames-set_globals named false ∙ i') some_items)
        | inr new ↦ rw new (
          globals_frame (some g) ++ after,
          split_frames_header-join_frames named (some g) after n i' some_items,
          read_frame-frame g after fits,
        )
      ]
