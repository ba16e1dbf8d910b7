-- ===== src/Wire/Nul.antt =====
-- The texts that the conversions of rdma-core/pingpong.c write hold no NUL, so that as C strings they
-- end where they are meant to.
use ibv_bench.Base.{
  ℕ, zero, suc, ◌/◌, ◌%◌, max, ◌≡◌, refl, false, [], ◌∷◌, ◌++◌, arith, ◌==◌, if◌then◌else◌,
}
use ibv_bench.Base.Text.{Text}
use ibv_bench.Wire.Hex.{hex_digit, hex_fixed, hex_width, print_hex}
use ibv_bench.Wire.Gid.{Gid, wire_word, gid_to_wire_gid}

abbrev pub NoNul : Text → Type 0
NoNul [] = Unit
NoNul (c ∷ s) = ((c == 0) ≡ false) × NoNul s

pub NoNul-append : (s t : Text) → NoNul s → NoNul t → NoNul (s ++ t)
NoNul-append [] t hs ht = ht
NoNul-append (c ∷ s) t hs ht = (hs.0, NoNul-append s t hs.1 ht)

hex_digit-pos : (d : ℕ) → (hex_digit d == 0) ≡ false
unfolding hex_digit
hex_digit-pos d = ground arith

NoNul-hex_fixed : (w v : ℕ) → NoNul (hex_fixed w v)
unfolding hex_fixed
NoNul-hex_fixed zero v = tt
NoNul-hex_fixed (suc w) v =
    NoNul-append (hex_fixed w (v / 16)) _ (NoNul-hex_fixed w (v / 16)) (hex_digit-pos (v % 16), tt)

pub NoNul-print_hex : (w v : ℕ) → NoNul (print_hex w v)
unfolding print_hex
NoNul-print_hex w v = NoNul-hex_fixed (max w (hex_width 8 v)) v

pub NoNul-gid_to_wire_gid : (g : Gid) → NoNul (gid_to_wire_gid g)
unfolding gid_to_wire_gid wire_word
NoNul-gid_to_wire_gid g = NoNul-append (wire_word g.w0) _ (NoNul-print_hex 8 _) (
    NoNul-append (wire_word g.w1) _ (NoNul-print_hex 8 _)
      (NoNul-append (wire_word g.w2) _ (NoNul-print_hex 8 _) (NoNul-print_hex 8 _)))

-- The C string at the start of some bytes.
unfoldable pub c_string : Text → Text
c_string [] = []
c_string (c ∷ s) = let rest = c_string s in if c == 0 then [] else c ∷ rest

pub c_string-NoNul : (s rest : Text) → NoNul s → c_string (s ++ (0 ∷ rest)) ≡ s
unfolding c_string
c_string-NoNul [] rest h = refl
c_string-NoNul (c ∷ s) rest h = ground (arith, h.0, c_string-NoNul s rest h.1)
