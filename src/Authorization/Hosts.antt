-- ===== src/Authorization/Hosts.antt =====
-- What a pattern matches: agentctl/src/authorization/agent_policy.rs.
use digdir_agents.Base.{
  ltb, ltb→lt, ==→eq, length, drop, length-append, Str, same_text, and3_parts, same_text-IsEquality,
  ℕ, zero, suc, ◌-◌, ◌≡◌, refl, ap, ◌∙◌, ◌↔◌, true, Option, none, some, [], ◌∷◌, ◌++◌, map, arith,
}
use digdir_agents.Authorization.{
  to_lower, trim_dots, strip_wildcard, byte_at, ends_with, is_dot, matches_suffix, matches_either,
  host_matches,
}

some_is : {a b : ℕ} → some a ≡ some b → a ≡ b
some_is h = cc

-- A text is what stands before a byte, the byte, and what stands behind it.
split_at :
    (n : ℕ) (xs : Str) (b : ℕ)
    → byte_at n xs ≡ some b
    → (front : Str) × (xs ≡ front ++ b ∷ drop (suc n) xs)
split_at n [] b h = absurd (cc h)
split_at zero (x ∷ xs) b h = ([], ap (λ y. y ∷ xs) (some_is h))
split_at (suc n) (x ∷ xs) b h = let (front, e) = split_at n xs b h in (x ∷ front, ap (◌∷◌ x) e)

byte_behind :
    (front : Str) (b : ℕ) (back : Str) → byte_at (length front) (front ++ b ∷ back) ≡ some b
byte_behind [] b back = refl
byte_behind (x ∷ front) b back = byte_behind front b back

drop_behind :
    (front : Str) (b : ℕ) (back : Str) → drop (suc (length front)) (front ++ b ∷ back) ≡ back
drop_behind [] b back = refl
drop_behind (x ∷ front) b back = drop_behind front b back

-- A suffix of a host, behind a dot.
abbrev pub IsBehindDot : Str → Str → Type 0
IsBehindDot suffix host = (front : Str) × (host ≡ front ++ b'.' ∷ suffix)

dot_is : (o : Option ℕ) → is_dot o ≡ true → o ≡ some b'.'
dot_is none h = cc
dot_is (some b) h = ap some (==→eq b b'.' h)

after_dot : (s h : ℕ) → ltb s h ≡ true → suc (h - s - 1) ≡ h - s
after_dot s h long = omega (arith, ltb→lt s h long)

suffix_matched : (suffix host : Str) → matches_suffix suffix host ≡ true → IsBehindDot suffix host
unfolding matches_suffix ends_with
suffix_matched suffix host h =
    let n = length host - length suffix - 1 in
    let (long, ends, dot) =
      and3_parts (ltb (length suffix) (length host))
        (same_text (drop (length host - length suffix) host) suffix) (is_dot (byte_at n host)) h in
    let (front, e) = split_at n host b'.' (dot_is (byte_at n host) dot) in
    let behind = ap (λ k. drop k host) (after_dot (length suffix) (length host) long) in
    let is_suffix = same_text-IsEquality.0 (drop (length host - length suffix) host) suffix ends in
    (front, e ∙ ap (λ back. front ++ b'.' ∷ back) (behind ∙ is_suffix))

-- The lengths around a dot.
record Lengths (front suffix host : Str) : Type 0 where
  longer : ltb (length suffix) (length host) ≡ true
  start : length host - length suffix ≡ suc (length front)
  before : length host - length suffix - 1 ≡ length front

Lengths-around : (front suffix : Str) → Lengths front suffix (front ++ b'.' ∷ suffix)
Lengths-around front suffix =
    let total = length-append front (b'.' ∷ suffix) in
    record {
      longer = ground (arith, total);
      start = omega (arith, total);
      before = omega (arith, total);
    }

behind_dot : (front suffix : Str) → matches_suffix suffix (front ++ b'.' ∷ suffix) ≡ true
unfolding matches_suffix ends_with
behind_dot front suffix =
    let l = Lengths-around front suffix in
    rw
      (
        l.longer,
        l.before,
        l.start,
        drop_behind front b'.' suffix,
        same_text-IsEquality.1 suffix,
        byte_behind front b'.' suffix,
      )
      refl

matched_suffix : (suffix host : Str) → IsBehindDot suffix host → matches_suffix suffix host ≡ true
matched_suffix suffix host (front, e) = rw e (behind_dot front suffix)

-- What a pattern asks of a host, both in lower case: without a wildcard, to be the host; with one, to
-- have its rest behind a dot.
abbrev pub IsMatched : Option Str → Str → Str → Type 0
IsMatched none pattern host = host ≡ pattern
IsMatched (some suffix) pattern host = IsBehindDot suffix host

-- A pattern matches a host, in any case and whatever dots the host ends with, exactly when they are the
-- same, or when the pattern starts with `*.` and the rest stands behind a dot at the end of the host.
pub host_matches-IsMatched :
    (pattern host : Str)
    → (host_matches pattern host ≡ true)
      ↔ IsMatched
          (strip_wildcard (map to_lower pattern))
          (map to_lower pattern)
          (map to_lower (trim_dots host))
unfolding host_matches
host_matches-IsMatched pattern host =
    either (strip_wildcard (map to_lower pattern)) (map to_lower pattern)
      (map to_lower (trim_dots host))
  where
    either :
        (wildcard : Option Str) (p h : Str)
        → (matches_either wildcard p h ≡ true) ↔ IsMatched wildcard p h
    either none p h = (same_text-IsEquality.0 h p, λ e. rw e (same_text-IsEquality.1 p))
    either (some suffix) p h = (suffix_matched suffix h, matched_suffix suffix h)
