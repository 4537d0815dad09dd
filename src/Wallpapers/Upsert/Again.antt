-- ===== src/Wallpapers/Upsert/Again.antt =====
-- A loop of the seeder (apps/wallpapers/management/commands/seed_content.py) that is run again over the
-- table that it left.
pub use backend_live_canvas.Core.Exec.{then_result_ok}
use backend_live_canvas.Prelude.{
  ℕ, String, ◌≡◌, ◌≢◌, refl, sym, ◌∙◌, ap, subst, List, [], ◌∷◌, ◌++◌, All, select,
}
use backend_live_canvas.Core.Exec.{ok}
use backend_live_canvas.Wallpapers.Upsert.{
  Writer, Table, matches, update_or_create, Round, Dict, Seeded, one_round, seed_all,
}
use backend_live_canvas.Wallpapers.Upsert.Settled.{
  IsLawful, SettledAt, update_or_create-SettledAt, update_or_create-other, update_or_create-settled,
}

ok_injective : {A : Type 0} (a b : A) → ok a ≡ ok b → a ≡ b
ok_injective a b h = cc

-- The keys of a fixture are pairwise distinct.
abbrev pub AreDistinct : {F : Type 0} → (F → String) → List F → Type 0
AreDistinct key [] = Unit
AreDistinct key (f ∷ fs) = All (λ g. key g ≢ key f) fs × AreDistinct key fs

module _ {F R T W : Type 0} (w : Writer R T) (l : Round F R T W) where
  -- The table holds each row of the fixture, and the dictionary has their entries.
  abbrev pub Holds : List F → List T → Dict → List T → Type 0
  Holds [] [] d rows = d ≡ []
  Holds [] (x ∷ xs) d rows = ⊥
  Holds (f ∷ fs) [] d rows = ⊥
  Holds (f ∷ fs) (x ∷ xs) d rows =
      (r : R) × (d' : Dict) × (l.prepare f ≡ ok r)
      × SettledAt w r x rows
      × (d ≡ d' ++ l.entry f x ∷ [])
      × Holds fs xs d' rows

  -- The rounds take the loop's own state from one value to another.
  abbrev pub Finished : List F → List T → W → W → Type 0
  Finished [] [] a b = a ≡ b
  Finished [] (x ∷ xs) a b = ⊥
  Finished (f ∷ fs) [] a b = ⊥
  Finished (f ∷ fs) (x ∷ xs) a b = (c : W) × (l.finish f x a ≡ ok c) × Finished fs xs c b

  -- The parts of a first round and of the rest, where a loop succeeds.
  record Rounds (now : ℕ) (f : F) (fs : List F) (t : Table T) (own : W) (s : Seeded T W)
      : Type 0 where
    r : R
    x : T
    table : Table T
    left : W
    rest : Seeded T W
    prepared : l.prepare f ≡ ok r
    written : update_or_create now w r t ≡ ok (x, table)
    finished : l.finish f x own ≡ ok left
    seeded : seed_all now w l fs table left ≡ ok rest
    whole : s ≡ record rest { dict = rest.dict ++ l.entry f x ∷ [] }

  seed_all-Rounds :
      (now : ℕ) (f : F) (fs : List F) (t : Table T) (own : W) {s : Seeded T W}
      → seed_all now w l (f ∷ fs) t own ≡ ok s
      → Rounds now f fs t own s
  unfolding seed_all
  seed_all-Rounds now f fs t own {s} h =
      let (round, one, more) = then_result_ok (one_round now w l f t own) _ h in
      let (rest, seeded, whole) = then_result_ok (seed_all now w l fs round.1.0 round.1.1) _ more in
      let (r, prepared, two) = then_result_ok (l.prepare f) _ one in
      let (xt, written, three) = then_result_ok (update_or_create now w r t) _ two in
      let (left, finished, four) = then_result_ok (l.finish f xt.0 own) _ three in
      let same = ok_injective (xt.0, (xt.1, left)) round four in
      record {
        r = r;
        x = xt.0;
        table = xt.1;
        left = left;
        rest = rest;
        prepared = prepared;
        written = written;
        finished = finished;
        seeded = ap (λ (y : T × (Table T × W)). seed_all now w l fs y.1.0 y.1.1) same ∙ seeded;
        whole =
            sym (ok_injective _ s whole)
            ∙ ap (λ (y : T × (Table T × W)). record rest { dict = rest.dict ++ l.entry f y.0 ∷ [] })
                (sym same);
      }

module _ {F R T W : Type 0} (w : Writer R T) (lawful : IsLawful w) (l : Round F R T W)
    (key : F → String) (keyed : (f : F) (r : R) → l.prepare f ≡ ok r → w.wanted r ≡ key f) where
  -- A loop leaves the rows under a key alone that is none of its own.
  seed_all-other :
      (now : ℕ) (r : R) (fs : List F) (t : Table T) (own : W) {s : Seeded T W}
      → All (λ g. key g ≢ w.wanted r) fs
      → seed_all now w l fs t own ≡ ok s
      → select (matches w r) s.table.rows ≡ select (matches w r) t.rows
  unfolding seed_all
  seed_all-other now r [] t own {s} h a =
      sym (ap (λ (u : Seeded T W). select (matches w r) u.table.rows) (ok_injective _ s a))
  seed_all-other now r (f ∷ fs) t own {s} h a =
      let q = seed_all-Rounds w l now f fs t own a in
      ap (λ (u : Seeded T W). select (matches w r) u.table.rows) q.whole
      ∙ seed_all-other now r fs q.table q.left h.1 q.seeded
      ∙ update_or_create-other w lawful now q.r t r
          (λ e. h.0 (sym (keyed f q.r q.prepared) ∙ sym e)) q.written

  -- A loop over distinct keys that succeeds leaves every row of its fixture in the table.
  pub seed_all-Holds :
      (now : ℕ) (fs : List F) (t : Table T) (own : W) {s : Seeded T W}
      → AreDistinct key fs
      → seed_all now w l fs t own ≡ ok s
      → (xs : List T) × Holds w l fs xs s.dict s.table.rows × Finished w l fs xs own s.own
  unfolding seed_all
  seed_all-Holds now [] t own {s} h a = (
    [],
    sym (ap (λ (u : Seeded T W). u.dict) (ok_injective _ s a)),
    ap (λ (u : Seeded T W). u.own) (ok_injective _ s a),
  )
  seed_all-Holds now (f ∷ fs) t own {s} h a =
      let q = seed_all-Rounds w l now f fs t own a in
      let (xs, held, finished) = seed_all-Holds now fs q.table q.left h.1 q.seeded in
      let others =
        subst (λ (k : String). All (λ g. key g ≢ k) fs) (sym (keyed f q.r q.prepared)) h.0 in
      let kept = seed_all-other now q.r fs q.table q.left others q.seeded in
      let here = update_or_create-SettledAt w lawful now q.r t q.written in
      (
        q.x ∷ xs,
        subst (λ (u : Seeded T W). Holds w l (f ∷ fs) (q.x ∷ xs) u.dict u.table.rows) (sym q.whole)
            (
              q.r,
              q.rest.dict,
              q.prepared,
              record { only = kept ∙ here.only; same = here.same },
              refl,
              held,
            ),
        (
          q.left,
          q.finished,
          subst (λ (u : Seeded T W). Finished w l fs xs q.left u.own) (sym q.whole) finished,
        ),
      )

  -- A loop over a table that holds its fixture changes nothing in it.
  pub seed_all-again :
      (later : ℕ) (fs : List F) (xs : List T) (d : Dict) (t : Table T) (a b : W)
      → Holds w l fs xs d t.rows
      → Finished w l fs xs a b
      → seed_all later w l fs t a ≡ ok (record { dict = d; table = t; own = b })
  unfolding seed_all
  seed_all-again later [] [] d t a b h e = rw (h, e) refl
  seed_all-again later [] (x ∷ xs) d t a b h e = absurd h
  seed_all-again later (f ∷ fs) [] d t a b h e = absurd h
  seed_all-again later (f ∷ fs) (x ∷ xs) d t a b (r, d', p, s, q, h) (c, e, g) = rw p (
      rw (update_or_create-settled w lawful later r t x s)
        (rw e (rw (seed_all-again later fs xs d' t c b h g) (rw q refl))))
