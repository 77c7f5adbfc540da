-- ===== src/Progress/Output/Growth.antt =====
-- How far appended output moves the log's next sequence number:
-- sandbox/core/src/progress/fold.rs.
use digdir_agents.Base.{
  Bool-cases, length, ℕ, ◌+◌, ◌≤◌, String, inl, inr, Option, none, some, List, [], ◌∷◌, ◌++◌, arith,
}
use digdir_agents.Text.{from_utf8_lossy, trim_start, trim_end, is_empty}
use digdir_agents.Progress.{StepId, OutputStream}
use digdir_agents.Progress.Output.{
  Partial, Key, OutputLog, entry, without, push_text, push, append_byte, append_bytes,
  partial_or_new, append, push_partial, flush_key, flush_keys, flush,
}

-- A line that is pushed takes one number at most.
push_next :
    (step : String) (stream : OutputStream) (bs : List ℕ) (log : OutputLog)
    → (log.next_sequence ≤ (push step stream bs log).next_sequence)
      × ((push step stream bs log).next_sequence ≤ log.next_sequence + 1)
unfolding push push_text
push_next step stream bs log =
    elim (Bool-cases (is_empty (trim_start (trim_end (from_utf8_lossy bs))))) [
      | inl blank ↦ rw blank (omega arith)
      | inr shown ↦ rw shown (omega arith)
    ]

append_byte_next :
    (byte : ℕ) (p : Partial) (log : OutputLog)
    → let next = (append_byte byte p log).1.next_sequence in
      (log.next_sequence ≤ next) × (next ≤ log.next_sequence + 1)
unfolding append_byte
append_byte_next byte p log = ground (
  arith,
  push_next p.step p.stream p.bytes log,
  push_next p.step p.stream (p.bytes ++ byte ∷ []) log,
)

append_bytes_next :
    (bs : List ℕ) (p : Partial) (log : OutputLog)
    → let next = (append_bytes bs p log).1.next_sequence in
      (log.next_sequence ≤ next) × (next ≤ log.next_sequence + length bs)
unfolding append_bytes
append_bytes_next [] p log = omega arith
append_bytes_next (b ∷ bs) p log = omega (
  arith,
  append_byte_next b p log,
  append_bytes_next bs (append_byte b p log).0 (append_byte b p log).1,
)

-- Output never goes back to an earlier number, and a piece of it takes at most as many numbers as
-- it has bytes.
pub append_next :
    (id : StepId) (step : String) (stream : OutputStream) (bs : List ℕ) (log : OutputLog)
    → let next = (append id step stream bs log).next_sequence in
      (log.next_sequence ≤ next) × (next ≤ log.next_sequence + length bs)
unfolding append
append_next id step stream bs log =
    let p = partial_or_new (entry (id, stream) log.partial) step stream in
    let forgot = record log { partial = without (id, stream) log.partial } in
    elim (Bool-cases (is_empty (append_bytes bs p forgot).0.bytes)) [
      | inl e ↦ rw e (append_bytes_next bs p forgot)
      | inr e ↦ rw e (append_bytes_next bs p forgot)
    ]

push_partial_next :
    (o : Option Partial) (log : OutputLog) → log.next_sequence ≤ (push_partial o log).next_sequence
push_partial_next none log = omega arith
push_partial_next (some p) log = omega (arith, push_next p.step p.stream p.bytes log)

flush_keys_next :
    (ks : List Key) (log : OutputLog) → log.next_sequence ≤ (flush_keys ks log).next_sequence
unfolding flush_keys flush_key
flush_keys_next [] log = omega arith
flush_keys_next (k ∷ ks) log = omega (
  arith,
  push_partial_next (entry k log.partial) (record log { partial = without k log.partial }),
  flush_keys_next ks (flush_key k log),
)

pub flush_next :
    (order : List Key → List Key) (id : Option StepId) (log : OutputLog)
    → log.next_sequence ≤ (flush order id log).next_sequence
unfolding flush
flush_next order id log = flush_keys_next _ log
