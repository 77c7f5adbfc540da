-- ===== src/Progress/Output.antt =====
-- The output log of an operation: `OutputLog` of sandbox/core/src/progress/fold.rs.
-- Sequence numbers are not wrapped: 2 ^ 64 lines are not reached. The map of unterminated lines is
-- an association list; the order in which Rust's `HashMap` lists its keys is not specified, so
-- `flush` takes it as an argument, `order`.
pub mod Bounds
pub mod Growth
pub mod Flush
use digdir_agents.Base.{
  ltb, leb, ◌==◌, if◌then◌else◌, length, drop, filter_by, ℕ, ◌+◌, ◌-◌, String, Bool, true, false,
  ◌&&◌, ◌||◌, Option, none, some, List, [], ◌∷◌, ◌++◌, map,
}
use digdir_agents.Text.{text_len, from_utf8_lossy, trim_start, trim_end, is_empty}
use digdir_agents.Progress.{StepId, OutputStream, stream_eq}

-- `OUTPUT_LINES`, `OUTPUT_BYTES` and `LINE_BYTES`.
abbrev pub output_lines : ℕ
output_lines = 1000

abbrev pub output_bytes : ℕ
output_bytes = 524288

abbrev pub line_bytes : ℕ
line_bytes = 4096

pub record OutputLine : Type 0 where
  pub sequence : ℕ
  pub step : String
  pub stream : OutputStream
  pub text : List ℕ

pub record Partial : Type 0 where
  pub step : String
  pub stream : OutputStream
  pub bytes : List ℕ

abbrev pub Key : Type 0
Key = StepId × OutputStream

abbrev pub Partials : Type 0
Partials = List (Key × Partial)

pub record OutputLog : Type 0 where
  pub lines : List OutputLine
  pub next_sequence : ℕ
  pub bytes : ℕ
  pub partial : Partials

-- `OutputLog::default`.
abbrev pub empty_log : OutputLog
empty_log = record { lines = []; next_sequence = 0; bytes = 0; partial = [] }

abbrev pub key_eq : Key → Key → Bool
key_eq (i, s) (j, t) = (i == j) && stream_eq s t

-- `HashMap::remove`: the entry, and the map without it.
unfoldable pub entry : Key → Partials → Option Partial
entry k [] = none
entry k ((j, p) ∷ ps) = if key_eq j k then some p else entry k ps

unfoldable pub without : Key → Partials → Partials
without k [] = []
without k ((j, p) ∷ ps) = let rest = without k ps in if key_eq j k then rest else (j, p) ∷ rest

-- Whether a list of keys has a key.
unfoldable pub listed : Key → List Key → Bool
listed k [] = false
listed k (j ∷ ks) = key_eq k j || listed k ks

-- The bytes of the texts of some lines.
unfoldable pub lines_bytes : List OutputLine → ℕ
lines_bytes [] = 0
lines_bytes (l ∷ ls) = text_len l.text + lines_bytes ls

-- `OutputLog::tail`.
unfoldable pub tail : ℕ → OutputLog → List OutputLine
tail count log = drop (length log.lines - count) log.lines

-- `OutputLog::is_unused`.
unfoldable pub is_unused : OutputLog → Bool
is_unused log = log.next_sequence == 0

-- `OutputLog::retained`.
unfoldable pub retained : List OutputLine → ℕ → OutputLog
retained lines next = record {
  lines = lines;
  next_sequence = next;
  bytes = lines_bytes lines;
  partial = [];
}

abbrev pub first_of_lines : List OutputLine → ℕ → ℕ
first_of_lines [] next = next
first_of_lines (l ∷ ls) next = l.sequence

-- `OutputLog::first_sequence`.
unfoldable pub first_sequence : OutputLog → ℕ
first_sequence log = first_of_lines log.lines log.next_sequence

-- The `while` loop of `push`: lines leave at the front until the new text fits. Popping an empty
-- queue ends the loop, since both of its tests then fail.
unfoldable pub make_room : ℕ → List OutputLine → ℕ → List OutputLine × ℕ
make_room size [] used = ([], used)
make_room size (l ∷ ls) used =
    if leb output_lines (length (l ∷ ls)) || ltb output_bytes (used + size)
    then make_room size ls (used - text_len l.text)
    else (l ∷ ls, used)

unfoldable pub push_text : String → OutputStream → List ℕ → OutputLog → OutputLog
push_text step stream text log =
    let (kept, used) = make_room (text_len text) log.lines log.bytes in
    record log {
      lines =
          kept
          ++ record { sequence = log.next_sequence; step = step; stream = stream; text = text }
            ∷ [];
      next_sequence = log.next_sequence + 1;
      bytes = used + text_len text;
    }

-- `OutputLog::push`: a line that shows nothing is dropped.
unfoldable pub push : String → OutputStream → List ℕ → OutputLog → OutputLog
push step stream bytes log =
    let text = trim_end (from_utf8_lossy bytes) in
    if is_empty (trim_start text) then log else push_text step stream text log

-- One byte of `append`: a line ends at a newline, or when it is as long as a line may be.
unfoldable pub append_byte : ℕ → Partial → OutputLog → Partial × OutputLog
append_byte byte p log =
    let longer = p.bytes ++ byte ∷ [] in
    let none_left = record p { bytes = [] } in
    if byte == b'\n'
    then (none_left, push p.step p.stream p.bytes log)
    else if length longer == line_bytes
    then (none_left, push p.step p.stream longer log)
    else (record p { bytes = longer }, log)

unfoldable pub append_bytes : List ℕ → Partial → OutputLog → Partial × OutputLog
append_bytes [] p log = (p, log)
append_bytes (byte ∷ bs) p log = let (p', log') = append_byte byte p log in append_bytes bs p' log'

abbrev partial_or_new : Option Partial → String → OutputStream → Partial
partial_or_new none step stream = record { step = step; stream = stream; bytes = [] }
partial_or_new (some p) step stream = p

abbrev keep_partial : Key → Partial → OutputLog → OutputLog
keep_partial k p log =
    if is_empty p.bytes then log else record log { partial = (k, p) ∷ without k log.partial }

-- `OutputLog::append`.
unfoldable pub append : StepId → String → OutputStream → List ℕ → OutputLog → OutputLog
append id step stream bs log =
    let (p, log') =
      append_bytes bs (partial_or_new (entry (id, stream) log.partial) step stream)
        (record log { partial = without (id, stream) log.partial }) in
    keep_partial (id, stream) p log'

abbrev push_partial : Option Partial → OutputLog → OutputLog
push_partial none log = log
push_partial (some p) log = push p.step p.stream p.bytes log

unfoldable pub flush_key : Key → OutputLog → OutputLog
flush_key k log =
    push_partial (entry k log.partial) (record log { partial = without k log.partial })

unfoldable pub flush_keys : List Key → OutputLog → OutputLog
flush_keys [] log = log
flush_keys (k ∷ ks) log = flush_keys ks (flush_key k log)

abbrev of_step : Option StepId → Key → Bool
of_step none k = true
of_step (some id) k = k.0 == id

-- `OutputLog::flush`: `none` flushes every step.
unfoldable pub flush : (List Key → List Key) → Option StepId → OutputLog → OutputLog
flush order id log = flush_keys (filter_by (of_step id) (order (map (λ e. e.0) log.partial))) log
