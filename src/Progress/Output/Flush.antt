-- ===== src/Progress/Output/Flush.antt =====
-- After a flush no unterminated line of the flushed steps is left: sandbox/core/src/progress/fold.rs.
use digdir_agents.Base.{
  if◌then◌else◌, Bool-cases, filter_by, ℕ, String, ◌≡◌, refl, ap, ◌∙◌, inl, inr, Bool, true, false,
  ◌&&◌, Option, none, some, List, [], ◌∷◌, map, arith,
}
use digdir_agents.Text.{from_utf8_lossy, trim_start, trim_end, is_empty}
use digdir_agents.Progress.{StepId, OutputStream}
use digdir_agents.Progress.Output.{
  Partial, Key, Partials, OutputLog, key_eq, entry, without, listed, push_text, push, push_partial,
  flush_key, flush_keys, of_step, flush,
}

-- What the order of a map's keys is relied on for: that it lists every one of them.
abbrev pub IsListing : (List Key → List Key) → Type 0
IsListing order = (k : Key) (ks : List Key) → listed k ks ≡ true → listed k (order ks) ≡ true

push_partials :
    (step : String) (stream : OutputStream) (bs : List ℕ) (log : OutputLog)
    → (push step stream bs log).partial ≡ log.partial
unfolding push push_text
push_partials step stream bs log =
    elim (Bool-cases (is_empty (trim_start (trim_end (from_utf8_lossy bs))))) [
      | inl blank ↦ rw blank
      | inr shown ↦ rw shown
    ]

push_partial_partials :
    (o : Option Partial) (log : OutputLog) → (push_partial o log).partial ≡ log.partial
push_partial_partials none log = refl
push_partial_partials (some p) log = push_partials p.step p.stream p.bytes log

flush_key_partials : (k : Key) (log : OutputLog) → (flush_key k log).partial ≡ without k log.partial
unfolding flush_key
flush_key_partials k log = push_partial_partials (entry k log.partial) _

entry-without :
    (k j : Key) (ps : Partials) → entry k (without j ps) ≡ (if key_eq k j then none else entry k ps)
unfolding entry without
entry-without k j [] = ground arith
entry-without k j (e ∷ ps) = ground (arith, entry-without k j ps)

entry-flush_keys :
    (k : Key) (ks : List Key) (log : OutputLog)
    → entry k (flush_keys ks log).partial ≡ (if listed k ks then none else entry k log.partial)
unfolding flush_keys listed
entry-flush_keys k [] log = refl
entry-flush_keys k (j ∷ ks) log =
    rw
      (
        entry-flush_keys k ks (flush_key j log),
        flush_key_partials j log,
        entry-without k j log.partial,
      )
      (ground arith)

of_step-key_eq : (id : Option StepId) (k j : Key) → key_eq k j ≡ true → of_step id k ≡ of_step id j
of_step-key_eq none k j h = refl
of_step-key_eq (some i) k j h = ground arith

listed-filter_by :
    (k : Key) (id : Option StepId) (ks : List Key)
    → listed k (filter_by (of_step id) ks) ≡ (of_step id k && listed k ks)
unfolding listed
listed-filter_by k id [] = ground arith
listed-filter_by k id (j ∷ ks) = elim (Bool-cases (of_step id j)) [
  | inl y ↦ rw (y, listed, listed-filter_by k id ks) (ground (arith, of_step-key_eq id k j))
  | inr n ↦ rw (n, listed-filter_by k id ks) (ground (arith, of_step-key_eq id k j))
]

entry-listed : (k : Key) (ps : Partials) → listed k (map (λ e. e.0) ps) ≡ false → entry k ps ≡ none
unfolding entry listed
entry-listed k [] h = refl
entry-listed k (e ∷ ps) h = ground (arith, entry-listed k ps)

all_gone : (ps : Partials) → ((k : Key) → entry k ps ≡ none) → ps ≡ []
unfolding entry
all_gone [] h = refl
all_gone (e ∷ ps) h = ground (arith, h e.0)

none_entry : (b : Bool) (o : Option Partial) → o ≡ none → (if b then none else o) ≡ none
none_entry true o e = refl
none_entry false o e = e

module _ (order : List Key → List Key) (complete : IsListing order) where
  -- A flush ends exactly the unterminated lines of the steps that it is for.
  pub entry-flush :
      (k : Key) (id : Option StepId) (log : OutputLog)
      → entry k (flush order id log).partial ≡ (if of_step id k then none else entry k log.partial)
  unfolding flush
  entry-flush k id log =
      let keys = map {A = Key × Partial} (λ e. e.0) log.partial in
      rw
        (
          entry-flush_keys k (filter_by (of_step id) (order keys)) log,
          listed-filter_by k id (order keys),
        )
        (elim (Bool-cases (listed k keys)) [
          | inl there ↦ rw (complete k keys there) (ground arith)
          | inr absent ↦ rw (entry-listed k log.partial absent) (ground arith)
        ])

  -- A flush of every step leaves no unterminated line.
  pub flush_all : (log : OutputLog) → (flush order none log).partial ≡ []
  flush_all log = all_gone (flush order none log).partial (λ k. entry-flush k none log)

  -- Where no line is unterminated, none is after a flush.
  pub flush_none :
      (id : Option StepId) (log : OutputLog) → log.partial ≡ [] → (flush order id log).partial ≡ []
  unfolding entry
  flush_none id log e =
      all_gone (flush order id log).partial (λ k.
        entry-flush k id log ∙ none_entry (of_step id k) (entry k log.partial) (ap (entry k) e))
