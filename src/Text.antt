-- ===== src/Text.antt =====
-- Text as the standard library decodes and trims it, where sandbox/core/src/progress/fold.rs turns
-- raw output bytes into lines. A text is the list of its code points, a byte a number below 256.
pub mod Bounds
pub mod Splits
pub mod Paths
use digdir_agents.Base.{
  ltb, leb, ◌==◌, if◌then◌else◌, ℕ, ◌+◌, ◌-◌, ◌*◌, ◌%◌, Bool, true, false, ◌&&◌, ◌||◌, List, [],
  ◌∷◌, ◌++◌,
}

-- `char::len_utf8`.
unfoldable pub utf8_len : ℕ → ℕ
utf8_len c = if ltb c 0x80 then 1 else if ltb c 0x800 then 2 else if ltb c 0x10000 then 3 else 4

-- `str::len`: the length of a text in bytes.
unfoldable pub text_len : List ℕ → ℕ
text_len [] = 0
text_len (c ∷ cs) = utf8_len c + text_len cs

abbrev pub replacement : ℕ
replacement = 0xfffd

-- A decoder between two bytes: at a boundary, or inside a sequence that has read `value`, wants
-- `need` more bytes, and wants the next one between `lo` and `hi`.
pub data Decoder : Type 0 where
  boundary : Decoder
  inside : (value need lo hi : ℕ) → Decoder

-- The first byte of a sequence: what it decodes to, and the decoder behind it.
unfoldable pub lead_byte : ℕ → List ℕ × Decoder
lead_byte b =
    if ltb b 0x80
    then (b ∷ [], boundary)
    else if leb 0xc2 b && leb b 0xdf
    then ([], inside (b % 32) 1 0x80 0xbf)
    else if b == 0xe0
    then ([], inside (b % 16) 2 0xa0 0xbf)
    else if b == 0xed
    then ([], inside (b % 16) 2 0x80 0x9f)
    else if leb 0xe1 b && leb b 0xef
    then ([], inside (b % 16) 2 0x80 0xbf)
    else if b == 0xf0
    then ([], inside (b % 8) 3 0x90 0xbf)
    else if leb 0xf1 b && leb b 0xf3
    then ([], inside (b % 8) 3 0x80 0xbf)
    else if b == 0xf4
    then ([], inside (b % 8) 3 0x80 0x8f)
    else (replacement ∷ [], boundary)

-- One byte. A byte that cannot continue the sequence ends it as one replacement character, and is
-- then read as a first byte.
unfoldable pub feed : Decoder → ℕ → List ℕ × Decoder
feed boundary b = lead_byte b
feed (inside value need lo hi) b =
    let next = value * 64 + b % 64 in
    let (out, d) = lead_byte b in
    if leb lo b && leb b hi
    then (if need == 1 then (next ∷ [], boundary) else ([], inside next (need - 1) 0x80 0xbf))
    else (replacement ∷ out, d)

-- The end of the input inside a sequence.
unfoldable pub finish : Decoder → List ℕ
finish boundary = []
finish (inside value need lo hi) = replacement ∷ []

unfoldable pub decode : Decoder → List ℕ → List ℕ
decode d [] = finish d
decode d (b ∷ bs) = let (out, d') = feed d b in out ++ decode d' bs

-- `String::from_utf8_lossy`.
unfoldable pub from_utf8_lossy : List ℕ → List ℕ
from_utf8_lossy bs = decode boundary bs

-- `char::is_whitespace`: the code points with the property White_Space.
unfoldable pub is_whitespace : ℕ → Bool
is_whitespace c =
    (leb 0x09 c && leb c 0x0d)
    || (c == 0x20)
    || (c == 0x85)
    || (c == 0xa0)
    || (c == 0x1680)
    || (leb 0x2000 c && leb c 0x200a)
    || (c == 0x2028)
    || (c == 0x2029)
    || (c == 0x202f)
    || (c == 0x205f)
    || (c == 0x3000)

-- `str::trim_start`.
unfoldable pub trim_start : List ℕ → List ℕ
trim_start [] = []
trim_start (c ∷ cs) = if is_whitespace c then trim_start cs else c ∷ cs

unfoldable pub keep_unless_blank : ℕ → List ℕ → List ℕ
keep_unless_blank c [] = if is_whitespace c then [] else c ∷ []
keep_unless_blank c (d ∷ ds) = c ∷ d ∷ ds

-- `str::trim_end`.
unfoldable pub trim_end : List ℕ → List ℕ
unfolding keep_unless_blank
trim_end [] = []
trim_end (c ∷ cs) = keep_unless_blank c (trim_end cs)

-- `str::is_empty`.
abbrev pub is_empty : List ℕ → Bool
is_empty [] = true
is_empty (_ ∷ _) = false
