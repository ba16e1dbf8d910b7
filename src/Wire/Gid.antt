-- ===== src/Wire/Gid.antt =====
-- rdma-core/pingpong.c: `gid_to_wire_gid`, `wire_gid_to_gid` and `pp_mtu_to_enum`. A GID is its 16
-- bytes in memory; the functions go through four words of the host, which is little-endian here.
use ibv_bench.Base.{
  ℕ, ◌+◌, ◌*◌, ◌/◌, ◌%◌, ◌^◌, ◌<◌, ◌≡◌, refl, sym, ap, ◌∙◌, Bool, not, ◌&&◌, Option, none, some, [],
  ◌++◌, append-nil, append_assoc, arith, ◌==◌, if◌then◌else◌, length, length-append, take, drop,
  take-append_of_length, drop-append_of_length,
}
use ibv_bench.Base.Text.{Text}
use ibv_bench.Wire.Hex.{
  NoSpace, NoSpace-append, NoSpace-print_hex, print_hex, scan_hex, hex_fixed, length-hex_fixed,
  print_hex-fits, scan_hex-hex_fixed,
}

-- Four bytes in the order of their addresses.
pub record Word : Type 0 where
  pub b0 : ℕ
  pub b1 : ℕ
  pub b2 : ℕ
  pub b3 : ℕ

-- `union ibv_gid`: `raw`, in groups of four.
pub record Gid : Type 0 where
  pub w0 : Word
  pub w1 : Word
  pub w2 : Word
  pub w3 : Word

pub record IsBytes (w : Word) : Type 0 where
  pub small0 : w.b0 < 256
  pub small1 : w.b1 < 256
  pub small2 : w.b2 < 256
  pub small3 : w.b3 < 256

pub record IsGid (g : Gid) : Type 0 where
  pub bytes0 : IsBytes g.w0
  pub bytes1 : IsBytes g.w1
  pub bytes2 : IsBytes g.w2
  pub bytes3 : IsBytes g.w3

-- `memcpy` between a word of the host and four bytes.
pub load32 : Word → ℕ
load32 w = w.b0 + 256 * w.b1 + 65536 * w.b2 + 16777216 * w.b3

pub store32 : ℕ → Word
store32 v = record {
  b0 = v % 256;
  b1 = v / 256 % 256;
  b2 = v / 65536 % 256;
  b3 = v / 16777216 % 256;
}

-- `htobe32` and `be32toh` on a little-endian host: the bytes in the other order.
pub swap32 : ℕ → ℕ
swap32 v =
    16777216 * (v % 256) + 65536 * (v / 256 % 256) + 256 * (v / 65536 % 256) + v / 16777216 % 256

unfoldable pub wire_word : Word → Text
wire_word w = print_hex 8 (swap32 (load32 w))

-- The four rounds of the loop; each `sprintf` writes behind the one before.
unfoldable pub gid_to_wire_gid : Gid → Text
unfolding wire_word
gid_to_wire_gid g = wire_word g.w0 ++ (wire_word g.w1 ++ (wire_word g.w2 ++ wire_word g.w3))

-- Where `sscanf` reads no number, `v32` keeps its value.
assigned : Option (ℕ × Text) → ℕ → ℕ
assigned none v32 = v32
assigned (some (v, _)) v32 = v

-- One round of the loop: eight characters at `i * 8`.
read_word : Text → ℕ → ℕ → ℕ
unfolding assigned
read_word wgid i v32 = assigned (scan_hex (take 8 (drop (i * 8) wgid))) v32

-- `junk` is what the uninitialised `v32` holds.
pub wire_gid_to_gid : ℕ → Text → Gid
unfolding read_word
wire_gid_to_gid junk wgid =
    let v0 = read_word wgid 0 junk in
    let v1 = read_word wgid 1 v0 in
    let v2 = read_word wgid 2 v1 in
    let v3 = read_word wgid 3 v2 in
    record {
      w0 = store32 (swap32 v0);
      w1 = store32 (swap32 v1);
      w2 = store32 (swap32 v2);
      w3 = store32 (swap32 v3);
    }

-- `if (dest->gid.global.interface_id)`: whether the last eight bytes are not all zero.
pub has_interface_id : Gid → Bool
has_interface_id g = not (load32 g.w2 == 0 && load32 g.w3 == 0)

-- `enum ibv_mtu` of the verbs library; the numbers of its constants are not used.
pub data Mtu : Type 0 where
  mtu_256 mtu_512 mtu_1024 mtu_2048 mtu_4096 : Mtu

-- `pp_mtu_to_enum`; `none` is the 0 of its default case.
pub pp_mtu_to_enum : ℕ → Option Mtu
pp_mtu_to_enum mtu =
    if mtu == 256
    then some mtu_256
    else if mtu == 512
    then some mtu_512
    else if mtu == 1024
    then some mtu_1024
    else if mtu == 2048
    then some mtu_2048
    else if mtu == 4096
    then some mtu_4096
    else none

-- The bytes of a word, first byte highest.
abbrev network : Word → ℕ
network w = 16777216 * w.b0 + 65536 * w.b1 + 256 * w.b2 + w.b3

swap32-load32 : (w : Word) → IsBytes w → swap32 (load32 w) ≡ network w
unfolding swap32 load32
swap32-load32 w h = omega arith

store32-swap32 : (w : Word) → IsBytes w → store32 (swap32 (network w)) ≡ w
unfolding store32 swap32
store32-swap32 w h = ground arith

word-lt : (w : Word) → IsBytes w → swap32 (load32 w) < 2 ^ 32
word-lt w h = rw (swap32-load32 w h) (omega arith)

wire_word-fixed : (w : Word) → IsBytes w → wire_word w ≡ hex_fixed 8 (network w)
unfolding wire_word
wire_word-fixed w h =
    print_hex-fits 8 (swap32 (load32 w)) (word-lt w h) ∙ ap (hex_fixed 8) (swap32-load32 w h)

length-wire_word : (w : Word) → IsBytes w → length (wire_word w) ≡ 8
length-wire_word w h = ap length (wire_word-fixed w h) ∙ length-hex_fixed 8 (network w)

scan_hex-wire_word : (w : Word) → IsBytes w → scan_hex (wire_word w) ≡ some (network w, [])
scan_hex-wire_word w h =
    ap scan_hex (wire_word-fixed w h ∙ sym (append-nil (hex_fixed 8 (network w))))
    ∙ scan_hex-hex_fixed 6 (network w) [] (omega arith) (omega arith) tt

-- The loop reads the word that stands behind `i * 8` characters.
read_word-wire_word :
    (w : Word) (before rest text : Text) (i junk : ℕ)
    → IsBytes w
    → text ≡ before ++ (wire_word w ++ rest)
    → length before ≡ i * 8
    → read_word text i junk ≡ network w
unfolding read_word
read_word-wire_word w before rest text i junk h split at =
    ap (λ o. assigned o junk) (ap scan_hex here ∙ scan_hex-wire_word w h)
  where
    here : take 8 (drop (i * 8) text) ≡ wire_word w
    here =
        ap (λ t. take 8 (drop (i * 8) t)) split
        ∙ ap (take 8) (drop-append_of_length before (wire_word w ++ rest) (i * 8) 0 (omega arith))
        ∙ take-append_of_length (wire_word w) rest 8 (omega (arith, length-wire_word w h))

module _ (g : Gid) (h : IsGid g) where
  open g use {w0, w1, w2, w3}

  length-two_words : length (wire_word w0 ++ wire_word w1) ≡ 16
  length-two_words = omega (
    arith,
    length-append (wire_word w0) (wire_word w1),
    length-wire_word w0 h.bytes0,
    length-wire_word w1 h.bytes1,
  )

  length-three_words : length ((wire_word w0 ++ wire_word w1) ++ wire_word w2) ≡ 24
  length-three_words = omega (
    arith,
    length-append (wire_word w0 ++ wire_word w1) (wire_word w2),
    length-two_words,
    length-wire_word w2 h.bytes2,
  )

  -- The text of a GID has 32 characters.
  pub length-gid_to_wire_gid : length (gid_to_wire_gid g) ≡ 32
  unfolding gid_to_wire_gid
  length-gid_to_wire_gid =
      ap length (simp append_assoc)
      ∙ length-append ((wire_word w0 ++ wire_word w1) ++ wire_word w2) (wire_word w3)
      ∙ omega (arith, length-three_words, length-wire_word w3 h.bytes3)

  read_gid-word :
      (junk : ℕ)
      → (read_word (gid_to_wire_gid g) 0 junk ≡ network w0)
        × (read_word (gid_to_wire_gid g) 1 junk ≡ network w1)
        × (read_word (gid_to_wire_gid g) 2 junk ≡ network w2)
        × (read_word (gid_to_wire_gid g) 3 junk ≡ network w3)
  unfolding gid_to_wire_gid
  read_gid-word junk = (
    read_word-wire_word w0 [] _ _ 0 junk h.bytes0 refl refl,
    read_word-wire_word w1 (wire_word w0) _ _ 1 junk h.bytes1 refl (length-wire_word w0 h.bytes0),
    read_word-wire_word w2 (wire_word w0 ++ wire_word w1) (wire_word w3) _ 2 junk h.bytes2
        (simp append_assoc) length-two_words,
    read_word-wire_word w3 ((wire_word w0 ++ wire_word w1) ++ wire_word w2) [] _ 3 junk h.bytes3
        (simp (append_assoc, append-nil)) length-three_words,
  )

  -- `wire_gid_to_gid` gives back every GID (of bytes) that `gid_to_wire_gid` printed, whatever the
  -- uninitialised variable held.
  pub wire_gid_to_gid-gid_to_wire_gid : (junk : ℕ) → wire_gid_to_gid junk (gid_to_wire_gid g) ≡ g
  unfolding wire_gid_to_gid
  wire_gid_to_gid-gid_to_wire_gid junk = λ i. record {
    w0 = stored w0 h.bytes0 (read_gid-word junk).0 i;
    w1 = stored w1 h.bytes1 (read_gid-word v0).1 i;
    w2 = stored w2 h.bytes2 (read_gid-word v1).2 i;
    w3 = stored w3 h.bytes3 (read_gid-word v2).3 i;
  }
    where
      v0 : ℕ
      v0 = read_word (gid_to_wire_gid g) 0 junk

      v1 : ℕ
      v1 = read_word (gid_to_wire_gid g) 1 v0

      v2 : ℕ
      v2 = read_word (gid_to_wire_gid g) 2 v1

      stored : {v : ℕ} (w : Word) → IsBytes w → v ≡ network w → store32 (swap32 v) ≡ w
      stored w b e = ap (λ k. store32 (swap32 k)) e ∙ store32-swap32 w b

NoSpace-wire_word : (w : Word) → NoSpace (wire_word w)
unfolding wire_word
NoSpace-wire_word w = NoSpace-print_hex 8 (swap32 (load32 w))

pub NoSpace-gid_to_wire_gid : (g : Gid) → NoSpace (gid_to_wire_gid g)
unfolding gid_to_wire_gid
NoSpace-gid_to_wire_gid g = NoSpace-append (wire_word g.w0) _ (NoSpace-wire_word g.w0) (
    NoSpace-append (wire_word g.w1) _ (NoSpace-wire_word g.w1)
      (NoSpace-append (wire_word g.w2) _ (NoSpace-wire_word g.w2) (NoSpace-wire_word g.w3)))
