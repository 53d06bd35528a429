-- ===== src/Base/Text.antt =====
-- Text as its UTF-8 bytes, and what the code uses of `str`: splitting, trimming, scanning.
use Prim.Native.Nat.{ℕ, suc, ◌+◌, ◌-◌, ◌*◌}
use Prim.Native.Char.{code}
use Prim.Native.String.{String}
use mathlib.Core.Bool.{Bool, true, false, ◌&&◌, ◌||◌}
use mathlib.Core.List.{List, [], ◌∷◌, reverse}
use mathlib.Core.Option.{Option, none, some}
use terraform_ls_rs.Base.Tests.{leb, ltb, ◌==◌, if◌then◌else◌}
use terraform_ls_rs.Base.Lists.{all, length, get_elem?}

abbrev pub Bytes : Type 0
Bytes = List ℕ

-- The code points of a text: its bytes, since every literal of the model is ASCII.
abbrev pub codes : String → Bytes
codes String.[] = []
codes (String.◌∷◌ c s) = code c ∷ codes s

unfoldable pub bytes_eq : Bytes → Bytes → Bool
bytes_eq [] [] = true
bytes_eq [] (y ∷ ys) = false
bytes_eq (x ∷ xs) [] = false
bytes_eq (x ∷ xs) (y ∷ ys) = x == y && bytes_eq xs ys

-- `u8::is_ascii_whitespace`: space, tab, line feed, form feed, carriage return.
abbrev pub is_ascii_whitespace : ℕ → Bool
is_ascii_whitespace b = b == 32 || b == 9 || b == 10 || b == 12 || b == 13

abbrev pub is_ascii_digit : ℕ → Bool
is_ascii_digit b = leb b'0' b && leb b b'9'

abbrev pub is_ascii_alphanumeric : ℕ → Bool
is_ascii_alphanumeric b = is_ascii_digit b || leb b'a' b && leb b b'z' || leb b'A' b && leb b b'Z'

-- `bytes().take_while(p).count()`.
unfoldable pub count_while : (ℕ → Bool) → Bytes → ℕ
count_while p [] = 0
count_while p (b ∷ s) = if p b then suc (count_while p s) else 0

unfoldable pub drop_while : (ℕ → Bool) → Bytes → Bytes
drop_while p [] = []
drop_while p (b ∷ s) = if p b then drop_while p s else b ∷ s

unfoldable pub starts_with : Bytes → Bytes → Bool
starts_with s [] = true
starts_with [] (t ∷ tok) = false
starts_with (b ∷ s) (t ∷ tok) = b == t && starts_with s tok

-- `split(sep).next()`: the text before the first separator, or all of it.
unfoldable pub before : ℕ → Bytes → Bytes
before sep [] = []
before sep (b ∷ s) = if b == sep then [] else b ∷ before sep s

-- The second half of `split_once(sep)`.
unfoldable pub after? : ℕ → Bytes → Option Bytes
after? sep [] = none
after? sep (b ∷ s) = if b == sep then some s else after? sep s

-- A piece is put in front of the list, or extends its first element.
abbrev pub extend_first : ℕ → List Bytes → List Bytes
extend_first b [] = (b ∷ []) ∷ []
extend_first b (p ∷ ps) = (b ∷ p) ∷ ps

-- `split(sep)`: always at least one piece.
unfoldable pub split : ℕ → Bytes → List Bytes
split sep [] = [] ∷ []
split sep (b ∷ s) = let rest = split sep s in if b == sep then [] ∷ rest else extend_first b rest

-- The UTF-8 encoding of a character of Unicode's White_Space, last byte first, and what is before
-- it: U+0009..U+000D, U+0020, U+0085, U+00A0, U+1680, U+2000..U+200A, U+2028, U+2029, U+202F,
-- U+205F, U+3000.
abbrev pub blank1 : ℕ → Bool
blank1 b = leb 9 b && leb b 13 || b == 32

abbrev blank2 : ℕ → ℕ → Bool
blank2 b a = a == 0xC2 && (b == 0x85 || b == 0xA0)

abbrev blank3 : ℕ → ℕ → ℕ → Bool
blank3 c b a =
    a == 0xE1 && b == 0x9A && c == 0x80
    || a == 0xE2 && b == 0x80 && (leb 0x80 c && leb c 0x8A || c == 0xA8 || c == 0xA9 || c == 0xAF)
    || a == 0xE2 && b == 0x81 && c == 0x9F
    || a == 0xE3 && b == 0x80 && c == 0x80

unfoldable pub trim_end_rev : Bytes → Bytes
trim_end_rev [] = []
trim_end_rev (c ∷ []) = if blank1 c then [] else c ∷ []
trim_end_rev (c ∷ b ∷ []) =
    let one = trim_end_rev (b ∷ []) in
    if blank1 c then one else if blank2 c b then [] else c ∷ b ∷ []
trim_end_rev (c ∷ b ∷ a ∷ s) =
    let one = trim_end_rev (b ∷ a ∷ s) in
    let two = trim_end_rev (a ∷ s) in
    let three = trim_end_rev s in
    if blank1 c
    then one
    else if blank2 c b
    then two
    else if blank3 c b a
    then three
    else c ∷ b ∷ a ∷ s

-- `str::trim_end`.
unfoldable pub trim_end : Bytes → Bytes
unfolding trim_end_rev
trim_end s = reverse (trim_end_rev (reverse s))

-- The value of a run of ASCII digits, most significant first, read after `n`.
unfoldable pub decimal : ℕ → Bytes → ℕ
decimal n [] = n
decimal n (b ∷ s) = decimal (n * 10 + (b - b'0')) s

-- `parse::<T>()` of an unsigned decimal: `limit` is one past the largest value of the type.
unfoldable pub parse_below : ℕ → Bytes → Option ℕ
unfolding decimal
parse_below limit [] = none
parse_below limit (b ∷ s) =
    if all is_ascii_digit (b ∷ s) && leb (suc (decimal 0 (b ∷ s))) limit
    then some (decimal 0 (b ∷ s))
    else none

-- The byte is the first one of a character.
unfoldable pub starts_char : Option ℕ → Bool
starts_char none = false
starts_char (some b) = ltb b 128 || leb 192 b

-- `str::is_char_boundary`.
unfoldable pub is_char_boundary : Bytes → ℕ → Bool
unfolding starts_char
is_char_boundary text index =
    index == 0 || index == length text || starts_char (get_elem? text index)
