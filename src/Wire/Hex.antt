-- ===== src/Wire/Hex.antt =====
-- The conversions `%0Nx` of `sprintf` and `%x` of `sscanf`, which rdma-core/pingpong.c and the
-- address lines use. A C string is the list of its bytes, without the closing NUL.
use ibv_bench.Base.Text.{Text}
use native.Mathlib.Nat.{pow-suc, pow-le-pow_right, le_trans}
use ibv_bench.Base.{
  ℕ, zero, suc, ◌+◌, ◌-◌, ◌*◌, ◌/◌, ◌%◌, ◌^◌, ◌<◌, ◌≤◌, max, ◌≡◌, ◌↔◌, refl, sym, ap, ◌∙◌, Bool,
  false, ◌&&◌, ◌||◌, Option, none, some, [], ◌∷◌, ◌++◌, append_assoc, arith, ltb, leb, ◌==◌,
  if◌then◌else◌, length, length-append,
}

unfoldable pub hex_digit : ℕ → ℕ
hex_digit d = if ltb d 10 then b'0' + d else b'a' - 10 + d

-- The value of a digit, in either case of letters.
pub digit_of : ℕ → Option ℕ
digit_of c =
    if leb b'0' c && leb c b'9'
    then some (c - b'0')
    else if leb b'a' c && leb c b'f'
    then some (c + 10 - b'a')
    else if leb b'A' c && leb c b'F'
    then some (c + 10 - b'A')
    else none

unfoldable pub hex_fixed : ℕ → ℕ → Text
hex_fixed zero v = []
hex_fixed (suc w) v = hex_fixed w (v / 16) ++ (hex_digit (v % 16) ∷ [])

-- How many digits `v` has, if at most `fuel`; an `unsigned int` has at most 8.
pub hex_width : ℕ → ℕ → ℕ
hex_width zero v = 0
hex_width (suc fuel) v = let rest = hex_width fuel (v / 16) in if v == 0 then 0 else rest + 1

-- `%0wx` of an `unsigned int`: at least `w` digits, and as many as the value needs.
unfoldable pub print_hex : ℕ → ℕ → Text
unfolding hex_width
print_hex w v = hex_fixed (max w (hex_width 8 v)) v

pub is_space : ℕ → Bool
is_space c = c == b' ' || leb 9 c && leb c 13

pub skip_space : Text → Text
unfolding is_space
skip_space [] = []
skip_space (c ∷ s) = if is_space c then skip_space s else c ∷ s

-- `%s`: white space, then all up to the next white space; `none` where there is nothing.
take_word : Text → Text
unfolding is_space
take_word [] = []
take_word (c ∷ s) = let rest = take_word s in if is_space c then [] else c ∷ rest

some_word : Text → Option Text
some_word [] = none
some_word (c ∷ w) = some (c ∷ w)

pub scan_word : Text → Option Text
unfolding take_word some_word
scan_word s = some_word (take_word (skip_space s))

-- The digits as far as they go, behind the value read so far.
pub scan_digits : ℕ → Text → ℕ × Text
scan_digits acc [] = (acc, [])
scan_digits acc (c ∷ s) = elim (digit_of c) [
  | none ↦ (acc, c ∷ s)
  | some d ↦ scan_digits (acc * 16 + d) s
]

pub strip_prefix : Text → Text
strip_prefix [] = []
strip_prefix (a ∷ []) = a ∷ []
strip_prefix (a ∷ b ∷ s) = if a == b'0' && (b == b'x' || b == b'X') then s else a ∷ b ∷ s

-- The number without its sign; `none` where there is no digit.
pub scan_unsigned : Text → Option (ℕ × Text)
scan_unsigned [] = none
scan_unsigned (c ∷ s) =
    let number = scan_digits 0 (strip_prefix (c ∷ s)) in
    elim (digit_of c) [ none ↦ none | some _ ↦ some number ]

-- `%x`: white space, a sign, `0x`, digits. The value goes into 32 bits. (Above 64 bits the C
-- library has its own rule; nothing is stated of such a text.)
pub scan_hex_at : Text → Option (ℕ × Text)
unfolding scan_unsigned
scan_hex_at [] = none
scan_hex_at (c ∷ s) =
    if c == b'-'
    then elim (scan_unsigned s) [
      | none ↦ none
      | some (v, r) ↦ some ((2 ^ 32 - v % 2 ^ 32) % 2 ^ 32, r)
    ]
    else elim (scan_unsigned (if c == b'+' then s else c ∷ s)) [
      | none ↦ none
      | some (v, r) ↦ some (v % 2 ^ 32, r)
    ]

pub scan_hex : Text → Option (ℕ × Text)
scan_hex s = scan_hex_at (skip_space s)

-- A text at which the digits of a number end.
abbrev pub Stops : Text → Type 0
Stops [] = Unit
Stops (c ∷ _) = digit_of c ≡ none

digit_of-hex_digit : (d : ℕ) → d < 16 → digit_of (hex_digit d) ≡ some d
unfolding digit_of hex_digit
digit_of-hex_digit d h = ground arith

pub length-hex_fixed : (w v : ℕ) → length (hex_fixed w v) ≡ w
unfolding hex_fixed
length-hex_fixed zero v = refl
length-hex_fixed (suc w) v = omega (
  arith,
  length-append (hex_fixed w (v / 16)) (hex_digit (v % 16) ∷ []),
  length-hex_fixed w (v / 16),
)

scan_digits-stop : (acc : ℕ) (rest : Text) → Stops rest → scan_digits acc rest ≡ (acc, rest)
unfolding scan_digits
scan_digits-stop acc [] h = refl
scan_digits-stop acc (c ∷ s) h = ground arith

scan_digits-digit :
    (acc d : ℕ) (rest : Text)
    → d < 16
    → scan_digits acc (hex_digit d ∷ rest) ≡ scan_digits (acc * 16 + d) rest
unfolding scan_digits
scan_digits-digit acc d rest h = ground (arith, digit_of-hex_digit d h)

scan_digits-hex_fixed :
    (w acc v : ℕ) (rest : Text)
    → v < 16 ^ w
    → scan_digits acc (hex_fixed w v ++ rest) ≡ scan_digits (acc * 16 ^ w + v) rest
unfolding hex_fixed
scan_digits-hex_fixed zero acc v rest h = ap (λ k. scan_digits k rest) (omega arith)
scan_digits-hex_fixed (suc w) acc v rest h = rw append_assoc (
    scan_digits-hex_fixed w acc (v / 16) (hex_digit (v % 16) ∷ rest) (omega (arith, pow-suc 16 w))
    ∙ scan_digits-digit (acc * 16 ^ w + v / 16) (v % 16) rest (omega arith)
    ∙ ap (λ k. scan_digits k rest)
        (omega (arith, pow-suc 16 w, ap (λ (t : ℕ). acc * t) (pow-suc 16 w))))

-- A printed number of two digits or more starts with two of them.
hex_fixed-cons :
    (w v : ℕ)
    → (d e : ℕ) × (s : Text) × (d < 16)
      × (e < 16)
      × (hex_fixed (suc (suc w)) v ≡ hex_digit d ∷ hex_digit e ∷ s)
unfolding hex_fixed
hex_fixed-cons zero v = (v / 16 % 16, v % 16, [], omega arith, omega arith, refl)
hex_fixed-cons (suc w) v =
    let (d, e, s, hd, he, eq) = hex_fixed-cons w (v / 16) in
    (d, e, s ++ (hex_digit (v % 16) ∷ []), hd, he, rw eq)

-- At such a start nothing is skipped: no white space, no sign, no prefix.
scan_hex-digits :
    (d e : ℕ) (s : Text)
    → d < 16
    → e < 16
    → let (v, r) = scan_digits 0 (hex_digit d ∷ hex_digit e ∷ s) in
      scan_hex (hex_digit d ∷ hex_digit e ∷ s) ≡ some (v % 2 ^ 32, r)
unfolding scan_hex skip_space scan_hex_at strip_prefix hex_digit digit_of
scan_hex-digits d e s hd he = ground arith

-- What `%0wx` prints, `%x` reads back: the value, and the text behind the number.
pub scan_hex-hex_fixed :
    (w v : ℕ) (rest : Text)
    → v < 16 ^ suc (suc w)
    → v < 2 ^ 32
    → Stops rest
    → scan_hex (hex_fixed (suc (suc w)) v ++ rest) ≡ some (v, rest)
scan_hex-hex_fixed w v rest h small stop =
    let (d, e, s, hd, he, eq) = hex_fixed-cons w v in
    let whole : hex_digit d ∷ hex_digit e ∷ (s ++ rest) ≡ hex_fixed (suc (suc w)) v ++ rest =
      rw eq in
    let digits : scan_digits 0 (hex_digit d ∷ hex_digit e ∷ (s ++ rest)) ≡ (v, rest) =
      ap (scan_digits 0) whole
      ∙ scan_digits-hex_fixed (suc (suc w)) 0 v rest h
      ∙ scan_digits-stop (0 * 16 ^ suc (suc w) + v) rest stop
      ∙ ap (λ (k : ℕ). (k, rest)) (omega arith) in
    ap scan_hex (sym whole)
    ∙ scan_hex-digits d e (s ++ rest) hd he
    ∙ ap (λ (p : ℕ × Text). some (p.0 % 2 ^ 32, p.1)) digits
    ∙ ap (λ (k : ℕ). some (k, rest)) (omega arith)

pub hex_width-le : (fuel w v : ℕ) → v < 16 ^ w → hex_width fuel v ≤ w
unfolding hex_width
hex_width-le zero w v h = omega arith
hex_width-le (suc fuel) zero v h = ground arith
hex_width-le (suc fuel) (suc w) v h =
    ground (arith, hex_width-le fuel w (v / 16) (omega (arith, pow-suc 16 w)))

-- The fuel is enough: the digits counted hold the value.
pub lt-hex_width : (fuel v : ℕ) → v < 16 ^ fuel → v < 16 ^ hex_width fuel v
unfolding hex_width
lt-hex_width zero v h = h
lt-hex_width (suc fuel) v h =
    let ih = lt-hex_width fuel (v / 16) (omega (arith, pow-suc 16 fuel)) in
    ground (arith, ih, pow-suc 16 (hex_width fuel (v / 16)))

pub length-print_hex : (w v : ℕ) → length (print_hex w v) ≡ max w (hex_width 8 v)
unfolding print_hex
length-print_hex w v = length-hex_fixed (max w (hex_width 8 v)) v

pub print_hex-fits : (w v : ℕ) → v < 16 ^ w → print_hex w v ≡ hex_fixed w v
unfolding print_hex
print_hex-fits w v h = ap (λ k. hex_fixed k v) (omega (arith, hex_width-le 8 w v h))

-- A text with no white space.
abbrev pub NoSpace : Text → Type 0
NoSpace [] = Unit
NoSpace (c ∷ s) = (is_space c ≡ false) × NoSpace s

pub NoSpace-append : (s t : Text) → NoSpace s → NoSpace t → NoSpace (s ++ t)
NoSpace-append [] t hs ht = ht
NoSpace-append (c ∷ s) t hs ht = (hs.0, NoSpace-append s t hs.1 ht)

is_space-hex_digit : (d : ℕ) → d < 16 → is_space (hex_digit d) ≡ false
unfolding is_space hex_digit
is_space-hex_digit d h = ground arith

NoSpace-hex_fixed : (w v : ℕ) → NoSpace (hex_fixed w v)
unfolding hex_fixed
NoSpace-hex_fixed zero v = tt
NoSpace-hex_fixed (suc w) v =
    NoSpace-append (hex_fixed w (v / 16)) _ (NoSpace-hex_fixed w (v / 16))
      (is_space-hex_digit (v % 16) (omega arith), tt)

pub NoSpace-print_hex : (w v : ℕ) → NoSpace (print_hex w v)
unfolding print_hex
NoSpace-print_hex w v = NoSpace-hex_fixed (max w (hex_width 8 v)) v

take_word-NoSpace : (s : Text) → NoSpace s → take_word s ≡ s
unfolding take_word
take_word-NoSpace [] h = refl
take_word-NoSpace (c ∷ s) h = ground (arith, take_word-NoSpace s h.1)

skip_space-NoSpace : (s : Text) → NoSpace s → skip_space s ≡ s
unfolding skip_space
skip_space-NoSpace [] h = refl
skip_space-NoSpace (c ∷ s) h = ground arith

-- `%s` reads a text with no white space as a whole.
pub scan_word-NoSpace : (s : Text) → NoSpace s → 0 < length s → scan_word s ≡ some s
unfolding scan_word
scan_word-NoSpace [] h pos = absurd (omega arith)
scan_word-NoSpace (c ∷ s) h pos =
    ap some_word (ap take_word (skip_space-NoSpace (c ∷ s) h) ∙ take_word-NoSpace (c ∷ s) h)

pub Stops-colon : (s : Text) → Stops (b':' ∷ s)
unfolding digit_of
Stops-colon s = refl

-- A number has more digits than `w` exactly if it does not fit in them.
pub hex_width-le_iff : (w v : ℕ) → v < 2 ^ 32 → (hex_width 8 v ≤ w) ↔ (v < 16 ^ w)
hex_width-le_iff w v h = (
  λ le. le_trans (lt-hex_width 8 v h) (pow-le-pow_right (omega arith) le),
  λ lt. hex_width-le 8 w v lt,
)
