-- ===== src/Text/Bounds.antt =====
-- How long decoded and trimmed text can be, for the limits that fold.rs keeps.
use digdir_agents.Base.{
  leb, ◌==◌, Bool-cases, length, ℕ, ◌+◌, ◌*◌, ◌%◌, ◌≤◌, ◌≡◌, inl, inr, ◌&&◌, List, [], ◌∷◌, ◌++◌,
  arith,
}
use digdir_agents.Text.{
  utf8_len, text_len, Decoder, boundary, inside, lead_byte, feed, finish, decode, from_utf8_lossy,
  keep_unless_blank, trim_end,
}

pub utf8_len-le : (c : ℕ) → utf8_len c ≤ 4
unfolding utf8_len
utf8_len-le c = ground arith

pub text_len-append : (xs ys : List ℕ) → text_len (xs ++ ys) ≡ text_len xs + text_len ys
unfolding text_len
text_len-append [] ys = omega arith
text_len-append (x ∷ xs) ys = omega (arith, text_len-append xs ys)

-- What a decoder may still write for the bytes that it has read.
owed : Decoder → ℕ
owed boundary = 0
owed (inside _ _ _ _) = 3

lead_byte_cost : (b : ℕ) → text_len (lead_byte b).0 + owed (lead_byte b).1 ≤ 3
unfolding lead_byte text_len utf8_len owed
lead_byte_cost b = ground arith

feed_cost : (d : Decoder) (b : ℕ) → text_len (feed d b).0 + owed (feed d b).1 ≤ owed d + 3
unfolding feed text_len owed utf8_len
feed_cost boundary b = omega (arith, lead_byte_cost b)
feed_cost (inside value need lo hi) b = elim (Bool-cases (leb lo b && leb b hi)) [
  | inl fits ↦ rw fits (elim (Bool-cases (need == 1)) [
    | inl last ↦ rw last (omega (arith, utf8_len-le (value * 64 + b % 64)))
    | inr more ↦ rw more (omega arith)
  ])
  | inr broken ↦ rw broken (omega (arith, lead_byte_cost b, utf8_len-le 0xfffd))
]

text_len-decode : (d : Decoder) (bs : List ℕ) → text_len (decode d bs) ≤ owed d + 3 * length bs
unfolding decode finish owed text_len utf8_len
text_len-decode boundary [] = omega arith
text_len-decode (inside value need lo hi) [] = omega arith
text_len-decode d (b ∷ bs) = omega (
  arith,
  feed_cost d b,
  text_len-append (feed d b).0 (decode (feed d b).1 bs),
  text_len-decode (feed d b).1 bs,
)

-- Each byte decodes to at most three: a replacement character is three bytes long.
pub text_len-from_utf8_lossy : (bs : List ℕ) → text_len (from_utf8_lossy bs) ≤ 3 * length bs
unfolding from_utf8_lossy owed
text_len-from_utf8_lossy bs = omega (arith, text_len-decode boundary bs)

keep_unless_blank-le :
    (c : ℕ) (cs : List ℕ) → text_len (keep_unless_blank c cs) ≤ utf8_len c + text_len cs
unfolding keep_unless_blank text_len
keep_unless_blank-le c [] = ground arith
keep_unless_blank-le c (d ∷ ds) = omega arith

pub text_len-trim_end : (cs : List ℕ) → text_len (trim_end cs) ≤ text_len cs
unfolding trim_end text_len
text_len-trim_end [] = omega arith
text_len-trim_end (c ∷ cs) =
    omega (arith, keep_unless_blank-le c (trim_end cs), text_len-trim_end cs)
