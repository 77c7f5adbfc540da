-- ===== src/Persistence/Tables.antt =====
-- What the statements of agentctl/src/persistence do to the rows of a table.
use digdir_agents.Base.{if◌then◌else◌, ℕ, ◌+◌, Bool, List, [], ◌∷◌}

module _ {Row : Type 0} where
  -- The number that `execute` returns.
  abbrev pub count : (Row → Bool) → List Row → ℕ
  count p [] = 0
  count p (r ∷ rows) = (if p r then 1 else 0) + count p rows

  -- `UPDATE` and `DELETE`, of the rows `p` holds of.
  unfoldable pub update_where : (Row → Bool) → (Row → Row) → List Row → List Row
  update_where p f [] = []
  update_where p f (r ∷ rows) = (if p r then f r else r) ∷ update_where p f rows

  unfoldable pub delete_where : (Row → Bool) → List Row → List Row
  delete_where p [] = []
  delete_where p (r ∷ rows) = let rest = delete_where p rows in if p r then rest else r ∷ rest
