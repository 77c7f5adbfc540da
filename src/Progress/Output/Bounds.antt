-- ===== src/Progress/Output/Bounds.antt =====
-- What the output log retains stays within its limits, and keeps its numbering:
-- sandbox/core/src/progress/fold.rs.
use digdir_agents.Base.{
  ◌==◌, tests, Bool-cases, length, length-append, All, ℕ, ◌+◌, ◌-◌, ◌≤◌, ◌<◌, String, ◌≡◌, refl,
  inl, inr, false, Option, none, some, List, [], ◌∷◌, ◌++◌, arith,
}
use digdir_agents.Text.{text_len, from_utf8_lossy, trim_start, trim_end, is_empty}
use digdir_agents.Text.Bounds.{text_len-from_utf8_lossy, text_len-trim_end}
use digdir_agents.Progress.{StepId, OutputStream, stdout}
use digdir_agents.Progress.Output.{
  output_lines, output_bytes, line_bytes, OutputLine, Partial, Key, Partials, OutputLog, empty_log,
  entry, without, lines_bytes, first_of_lines, first_sequence, make_room, push_text, push,
  append_byte, append_bytes, partial_or_new, keep_partial, append, push_partial, flush_key,
  flush_keys, flush,
}

-- The lines are numbered without a gap, up to the number of the next one.
abbrev pub Numbered : List OutputLine → ℕ → Type 0
Numbered [] next = Unit {0}
Numbered (l ∷ ls) next = (l.sequence + length (l ∷ ls) ≡ next) × Numbered ls next

first_of_lines-le :
    (ls : List OutputLine) (next : ℕ) → Numbered ls next → first_of_lines ls next ≤ next
first_of_lines-le [] next n = omega arith
first_of_lines-le (l ∷ ls) next n = omega (arith, n.0)

pub first_sequence-le :
    (log : OutputLog)
    → Numbered log.lines log.next_sequence
    → first_sequence log ≤ log.next_sequence
unfolding first_sequence
first_sequence-le log n = first_of_lines-le log.lines log.next_sequence n

-- An unterminated line has a byte, and is shorter than a line may be.
abbrev pub IsShort : Key × Partial → Type 0
IsShort e = (0 < length e.1.bytes) × (length e.1.bytes < line_bytes)

pub record IsValid (log : OutputLog) : Type 0 where
  pub counted : log.bytes ≡ lines_bytes log.lines
  pub few : length log.lines ≤ output_lines
  pub small : log.bytes ≤ output_bytes
  pub numbered : Numbered log.lines log.next_sequence
  pub short : All IsShort log.partial

-- What `make_room` leaves is a suffix that still fits its measures.
make_room_lem :
    (size : ℕ) (ls : List OutputLine) (used next : ℕ)
    → used ≡ lines_bytes ls
    → size ≤ output_bytes
    → length ls ≤ output_lines
    → Numbered ls next
    → let (kept, left) = make_room size ls used in
      (left ≡ lines_bytes kept)
      × (length kept < output_lines)
      × (left + size ≤ output_bytes)
      × Numbered kept next
unfolding make_room lines_bytes
make_room_lem size [] used next c s l n = ground arith
make_room_lem size (x ∷ ls) used next c s l n =
    ground (arith, make_room_lem size ls (used - text_len x.text) next)

Numbered-append :
    (ls : List OutputLine) (l : OutputLine) (next : ℕ)
    → Numbered ls next
    → l.sequence ≡ next
    → Numbered (ls ++ l ∷ []) (next + 1)
Numbered-append [] l next n e = (omega arith, tt)
Numbered-append (x ∷ ls) l next n e =
    (omega (arith, length-append ls (l ∷ []), n.0), Numbered-append ls l next n.1 e)

lines_bytes-append :
    (ls : List OutputLine) (l : OutputLine)
    → lines_bytes (ls ++ l ∷ []) ≡ lines_bytes ls + text_len l.text
unfolding lines_bytes
lines_bytes-append [] l = omega arith
lines_bytes-append (x ∷ ls) l = omega (arith, lines_bytes-append ls l)

abbrev line_of : String → OutputStream → List ℕ → OutputLog → OutputLine
line_of step stream text log = record {
  sequence = log.next_sequence;
  step = step;
  stream = stream;
  text = text;
}

nonempty : (bs : List ℕ) → is_empty bs ≡ false → 0 < length bs
nonempty [] e = cc
nonempty (b ∷ bs) e = omega arith

-- The pushed text fits because the piece of output that it is decoded from does.
fits :
    (bs : List ℕ) → length bs ≤ line_bytes → text_len (trim_end (from_utf8_lossy bs)) ≤ output_bytes
fits bs h = omega (arith, text_len-trim_end (from_utf8_lossy bs), text_len-from_utf8_lossy bs)

push_text-IsValid :
    (step : String) (stream : OutputStream) (text : List ℕ) (log : OutputLog)
    → text_len text ≤ output_bytes
    → IsValid log
    → IsValid (push_text step stream text log)
unfolding push_text
push_text-IsValid step stream text log h v =
    let (counts, fewer, room, numbers) =
      make_room_lem (text_len text) log.lines log.bytes log.next_sequence v.counted h v.few
        v.numbered in
    record {
      counted = omega (
        arith,
        counts,
        lines_bytes-append (make_room (text_len text) log.lines log.bytes).0
            (line_of step stream text log),
      );
      few = omega (
        arith,
        fewer,
        length-append (make_room (text_len text) log.lines log.bytes).0
            (line_of step stream text log ∷ []),
      );
      small = room;
      numbered =
          Numbered-append (make_room (text_len text) log.lines log.bytes).0
            (line_of step stream text log) log.next_sequence numbers refl;
      short = v.short;
    }

push-IsValid :
    (step : String) (stream : OutputStream) (bs : List ℕ) (log : OutputLog)
    → length bs ≤ line_bytes
    → IsValid log
    → IsValid (push step stream bs log)
unfolding push
push-IsValid step stream bs log h v =
    elim (Bool-cases (is_empty (trim_start (trim_end (from_utf8_lossy bs))))) [
      | inl blank ↦ rw blank v
      | inr shown ↦
          rw shown (push_text-IsValid step stream (trim_end (from_utf8_lossy bs)) log (fits bs h) v)
    ]

without-IsShort : (k : Key) (ps : Partials) → All IsShort ps → All IsShort (without k ps)
unfolding without
without-IsShort k [] h = tt
without-IsShort k (e ∷ ps) h = ground (arith, without-IsShort k ps h.1)

forget-IsValid :
    (k : Key) (log : OutputLog)
    → IsValid log
    → IsValid (record log { partial = without k log.partial })
forget-IsValid k log v = record {
  counted = v.counted;
  few = v.few;
  small = v.small;
  numbered = v.numbered;
  short = without-IsShort k log.partial v.short;
}

append_byte-IsValid :
    (byte : ℕ) (p : Partial) (log : OutputLog)
    → length p.bytes < line_bytes
    → IsValid log
    → let (p', log') = append_byte byte p log in (length p'.bytes < line_bytes) × IsValid log'
unfolding append_byte
append_byte-IsValid byte p log h v = elim (Bool-cases (byte == b'\n')) [
  | inl ended ↦ rw ended (omega arith, push-IsValid p.step p.stream p.bytes log (omega arith) v)
  | inr goes_on ↦ rw goes_on (elim (Bool-cases (length (p.bytes ++ byte ∷ []) == line_bytes)) [
    | inl full ↦ rw full (
      omega arith,
      push-IsValid p.step p.stream (p.bytes ++ byte ∷ []) log (omega (tests, full)) v,
    )
    | inr room ↦ rw room (ground (arith, room, length-append p.bytes (byte ∷ [])), v)
  ])
]

append_bytes-IsValid :
    (bs : List ℕ) (p : Partial) (log : OutputLog)
    → length p.bytes < line_bytes
    → IsValid log
    → let (p', log') = append_bytes bs p log in (length p'.bytes < line_bytes) × IsValid log'
unfolding append_bytes
append_bytes-IsValid [] p log h v = (h, v)
append_bytes-IsValid (byte ∷ bs) p log h v =
    let (h', v') = append_byte-IsValid byte p log h v in
    append_bytes-IsValid bs (append_byte byte p log).0 (append_byte byte p log).1 h' v'

entry_short :
    (k : Key) (ps : Partials) (step : String) (stream : OutputStream)
    → All IsShort ps
    → length (partial_or_new (entry k ps) step stream).bytes < line_bytes
unfolding entry
entry_short k [] step stream h = omega arith
entry_short k (e ∷ ps) step stream h = ground (arith, entry_short k ps step stream h.1)

keep_partial-IsValid :
    (k : Key) (p : Partial) (log : OutputLog)
    → length p.bytes < line_bytes
    → IsValid log
    → IsValid (keep_partial k p log)
keep_partial-IsValid k p log h v = elim (Bool-cases (is_empty p.bytes)) [
  | inl e ↦ rw e v
  | inr e ↦ rw e (record {
    counted = v.counted;
    few = v.few;
    small = v.small;
    numbered = v.numbered;
    short = ((nonempty p.bytes e, h), without-IsShort k log.partial v.short);
  })
]

-- Output of any length and content keeps the log valid.
pub append-IsValid :
    (id : StepId) (step : String) (stream : OutputStream) (bs : List ℕ) (log : OutputLog)
    → IsValid log
    → IsValid (append id step stream bs log)
unfolding append
append-IsValid id step stream bs log v =
    let p = partial_or_new (entry (id, stream) log.partial) step stream in
    let log' = record log { partial = without (id, stream) log.partial } in
    let (h', v') =
      append_bytes-IsValid bs p log' (entry_short (id, stream) log.partial step stream v.short)
        (forget-IsValid (id, stream) log v) in
    keep_partial-IsValid (id, stream) (append_bytes bs p log').0 (append_bytes bs p log').1 h' v'

push_partial-IsValid :
    (o : Option Partial) (log : OutputLog)
    → length (partial_or_new o "" stdout).bytes < line_bytes
    → IsValid log
    → IsValid (push_partial o log)
push_partial-IsValid none log h v = v
push_partial-IsValid (some p) log h v = push-IsValid p.step p.stream p.bytes log (omega arith) v

flush_keys-IsValid : (ks : List Key) (log : OutputLog) → IsValid log → IsValid (flush_keys ks log)
unfolding flush_keys flush_key
flush_keys-IsValid [] log v = v
flush_keys-IsValid (k ∷ ks) log v = flush_keys-IsValid ks (flush_key k log) (
    push_partial-IsValid (entry k log.partial) _ (entry_short k log.partial "" stdout v.short)
      (forget-IsValid k log v))

pub flush-IsValid :
    (order : List Key → List Key) (id : Option StepId) (log : OutputLog)
    → IsValid log
    → IsValid (flush order id log)
unfolding flush
flush-IsValid order id log v = flush_keys-IsValid _ log v

pub empty_log-IsValid : IsValid empty_log
unfolding lines_bytes
empty_log-IsValid = omega arith
