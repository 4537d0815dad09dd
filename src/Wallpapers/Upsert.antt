-- ===== src/Wallpapers/Upsert.antt =====
-- `update_or_create` of the framework, and the loops of the seeder
-- (apps/wallpapers/management/commands/seed_content.py) over a list of fixture rows.
pub mod Settled
pub mod Again
use backend_live_canvas.Prelude.{ℕ, suc, String, Bool, List, [], ◌∷◌, ◌++◌, select, update, str_eq}
use backend_live_canvas.Core.Errors.{Exc}
use backend_live_canvas.Core.Exec.{Result, ok, err, then_result}

-- A table of rows `T` that is written by natural key from values `R`.
pub record Writer (R T : Type 0) : Type 0 where
  -- the natural key, in a value and in a row
  pub wanted : R → String
  pub key_of : T → String
  -- the row with the values, and a new row with them: its time and its primary key
  pub apply : R → T → T
  pub create : ℕ → R → ℕ → T

-- The rows, and the next primary key.
pub record Table (T : Type 0) : Type 0 where
  pub rows : List T
  pub next : ℕ

module _ {R T : Type 0} where
  abbrev pub matches : Writer R T → R → T → Bool
  matches w r x = str_eq (w.key_of x) (w.wanted r)

  -- What the lookup by natural key finds: none, one, or too many.
  abbrev pub written : ℕ → Writer R T → R → Table T → List T → Result (T × Table T)
  written now w r t [] = ok (
    w.create now r t.next,
    record { rows = t.rows ++ w.create now r t.next ∷ []; next = suc t.next },
  )
  written now w r t (x ∷ []) =
      ok (w.apply r x, record t { rows = update (matches w r) (w.apply r) t.rows })
  written now w r t (x ∷ y ∷ xs) = err (Exc.other "MultipleObjectsReturned")

  -- `objects.update_or_create`: the row, and the table behind it.
  unfoldable pub update_or_create : ℕ → Writer R T → R → Table T → Result (T × Table T)
  update_or_create now w r t = written now w r t (select (matches w r) t.rows)

-- The rest of one round of a loop: what it reads of the fixture row, what it does behind the write
-- with a state of its own, and the entry that it adds to the loop's dictionary.
pub record Round (F R T W : Type 0) : Type 0 where
  pub prepare : F → Result R
  pub finish : F → T → W → Result W
  pub entry : F → T → String × ℕ

-- The dictionary of a loop; a later entry stands before an earlier one.
abbrev pub Dict : Type 0
Dict = List (String × ℕ)

-- What a loop leaves: its dictionary, the table and its own state.
pub record Seeded (T W : Type 0) : Type 0 where
  pub dict : Dict
  pub table : Table T
  pub own : W

module _ {F R T W : Type 0} where
  abbrev pub one_round :
      ℕ → Writer R T → Round F R T W → F → Table T → W → Result (T × (Table T × W))
  one_round now w l row t own = then_result (l.prepare row) (λ r.
      then_result (update_or_create now w r t)
        (λ xt. then_result (l.finish row xt.0 own) (λ own'. ok (xt.0, (xt.1, own')))))

  unfoldable pub seed_all :
      ℕ → Writer R T → Round F R T W → List F → Table T → W → Result (Seeded T W)
  unfolding update_or_create
  seed_all now w l [] t own = ok (record { dict = []; table = t; own = own })
  seed_all now w l (row ∷ rows) t own = then_result (one_round now w l row t own) (λ x.
      then_result (seed_all now w l rows x.1.0 x.1.1)
        (λ s. ok (record s { dict = s.dict ++ l.entry row x.0 ∷ [] })))
