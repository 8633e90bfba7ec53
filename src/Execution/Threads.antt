-- ===== src/Execution/Threads.antt =====
-- Any number of threads on one lifecycle cell, in any interleaving of their atomic accesses.
use gigaam_v3_runtime.Base.{
  All-get, ℕ, zero, suc, ◌+◌, ◌-◌, ◌≤◌, ◌≡◌, refl, ◌⊎◌, inl, inr, Option, none, some, List, [], ◌∷◌,
  arith, ◌==◌, ==_iff, if◌then◌else◌, get_elem?, set, All, Option-cases, map,
}
use gigaam_v3_runtime.Execution.{
  ExecutionState, ready, Op, Reply, Position, loading, exchanging, returned, advance,
}
use gigaam_v3_runtime.Execution.Order.{
  rank, Edge, Chosen, Behind, advance_moves, rank-advance, advance-Chosen, advance-Behind,
  Behind-mono, budget, budget_mono, budget-advance,
}

pub record System : Type 0 where
  pub cell : ExecutionState
  pub threads : List Position

after : System → ℕ → Position × ExecutionState → System
after sys i (p, s) = record { cell = s; threads = set sys.threads i p }

-- Thread `i` makes its next access; a number that names no thread changes nothing.
unfoldable pub step : System → ℕ → System
unfolding after
step sys i = elim (get_elem? sys.threads i) [
  | none ↦ sys
  | some p ↦ after sys i (advance p sys.cell)
]

unfoldable pub run : System → List ℕ → System
run sys [] = sys
run sys (i ∷ schedule) = run (step sys i) schedule

-- A fresh control, and a thread for each call.
unfoldable pub begin : List Op → System
begin ops = record { cell = ready; threads = map loading ops }

abbrev pub Inv : System → Type 0
Inv sys = All (λ p. Chosen p × Behind p sys.cell) sys.threads

pub begin-Inv : (ops : List Op) → Inv (begin ops)
unfolding begin
begin-Inv [] = tt
begin-Inv (op ∷ ops) = ((tt, tt), begin-Inv ops)

moved-All :
    (ps : List Position) (i : ℕ) (p : Position) (s t : ExecutionState)
    → rank s ≤ rank t
    → Chosen p × Behind p t
    → All (λ q. Chosen q × Behind q s) ps
    → All (λ q. Chosen q × Behind q t) (set ps i p)
moved-All [] i p s t h k a = tt
moved-All (q ∷ ps) zero p s t h k a = (k, kept ps a.1)
  where
    kept :
        (qs : List Position)
        → All (λ q. Chosen q × Behind q s) qs
        → All (λ q. Chosen q × Behind q t) qs
    kept [] b = tt
    kept (q ∷ qs) b = ((b.0.0, Behind-mono q s t h b.0.1), kept qs b.1)
moved-All (q ∷ ps) (suc i) p s t h k a =
    ((a.0.0, Behind-mono q s t h a.0.1), moved-All ps i p s t h k a.1)

-- A rule for one step: it is idle, or an access of some thread.
pub step_cases {ℓ} :
    (P : System → Type ℓ) (sys : System) (i : ℕ)
    → P sys
    → ((p : Position)
        → get_elem? sys.threads i ≡ some p
        → P (record {
          cell = (advance p sys.cell).1;
          threads = set sys.threads i (advance p sys.cell).0;
        }))
    → P (step sys i)
unfolding step
step_cases P sys i idle access = elim (Option-cases (get_elem? sys.threads i)) [
  | inl e ↦ rw (e, step) idle
  | inr (p, e) ↦ rw (e, step) (access p e)
]

pub step-Inv : (sys : System) (i : ℕ) → Inv sys → Inv (step sys i)
step-Inv sys i v = step_cases Inv sys i v λ p e.
    let (chosen, behind) = All-get (λ q. Chosen q × Behind q sys.cell) sys.threads i v e in
    moved-All sys.threads i (advance p sys.cell).0 sys.cell (advance p sys.cell).1
      (rank-advance p sys.cell chosen)
      (advance-Chosen p sys.cell chosen, advance-Behind p sys.cell behind) v

pub step_moves :
    (sys : System) (i : ℕ)
    → Inv sys
    → ((step sys i).cell ≡ sys.cell) ⊎ Edge sys.cell (step sys i).cell
step_moves sys i v =
    step_cases (λ s. (s.cell ≡ sys.cell) ⊎ Edge sys.cell s.cell) sys i (inl refl)
      λ p e.
        advance_moves p sys.cell (All-get (λ q. Chosen q × Behind q sys.cell) sys.threads i v e).0

pub run-Inv : (sys : System) (schedule : List ℕ) → Inv sys → Inv (run sys schedule)
unfolding run
run-Inv sys [] v = v
run-Inv sys (i ∷ schedule) v = run-Inv (step sys i) schedule (step-Inv sys i v)

-- The accesses that thread `i` may still need.
budget_at : Option Position → ExecutionState → ℕ
budget_at none s = 0
budget_at (some p) s = budget p s

budget_of : System → ℕ → ℕ
unfolding budget_at
budget_of sys i = budget_at (get_elem? sys.threads i) sys.cell

abbrev pub count : ℕ → List ℕ → ℕ
count i [] = 0
count i (j ∷ js) = (if i == j then 1 else 0) + count i js

budget_at_mono :
    (o : Option Position) (s t : ExecutionState) → rank s ≤ rank t → budget_at o t ≤ budget_at o s
unfolding budget_at
budget_at_mono none s t h = omega arith
budget_at_mono (some p) s t h = budget_mono p s t h

budget-set :
    (ps : List Position) (i j : ℕ) (p q : Position) (s t : ExecutionState)
    → rank s ≤ rank t
    → budget_at (some q) t ≤ budget_at (some p) s - 1
    → get_elem? ps j ≡ some p
    → budget_at (get_elem? (set ps j q) i) t
      ≤ budget_at (get_elem? ps i) s - (if i == j then 1 else 0)
budget-set [] i j p q s t h b e = cc
budget-set (x ∷ ps) zero zero p q s t h b e = ground arith
budget-set (x ∷ ps) zero (suc j) p q s t h b e = ground (arith, budget_at_mono (some x) s t h)
budget-set (x ∷ ps) (suc i) zero p q s t h b e =
    ground (arith, budget_at_mono (get_elem? ps i) s t h)
budget-set (x ∷ ps) (suc i) (suc j) p q s t h b e = ground (arith, budget-set ps i j p q s t h b e)

budget_of-step :
    (sys : System) (i j : ℕ)
    → Inv sys
    → budget_of (step sys j) i ≤ budget_of sys i - (if i == j then 1 else 0)
unfolding step budget_of
budget_of-step sys i j v = elim (Option-cases (get_elem? sys.threads j)) [
  | inl e ↦ rw (e, step) (ground (arith, ==_iff i j))
  | inr (p, e) ↦
      let (chosen, behind) = All-get (λ q. Chosen q × Behind q sys.cell) sys.threads j v e in
      rw (e, step)
        (budget-set sys.threads i j p (advance p sys.cell).0 sys.cell (advance p sys.cell).1
          (rank-advance p sys.cell chosen) (budget-advance p sys.cell chosen behind) e)
]

budget_of-run :
    (sys : System) (schedule : List ℕ) (i : ℕ)
    → Inv sys
    → budget_of (run sys schedule) i ≤ budget_of sys i - count i schedule
unfolding run
budget_of-run sys [] i v = omega arith
budget_of-run sys (j ∷ schedule) i v =
    omega
      (arith, budget_of-step sys i j v, budget_of-run (step sys j) schedule i (step-Inv sys j v))

budget_begin : (ops : List Op) (i : ℕ) → budget_at (get_elem? (map loading ops) i) ready ≤ 11
unfolding budget_at budget
budget_begin [] i = omega arith
budget_begin (op ∷ ops) zero = ground arith
budget_begin (op ∷ ops) (suc i) = budget_begin ops i

budget_of-begin : (ops : List Op) (i : ℕ) → budget_of (begin ops) i ≤ 11
unfolding budget_of begin
budget_of-begin ops i = budget_begin ops i

budget_at-zero :
    (p : Position) (s : ExecutionState) → budget p s ≤ 0 → (r : Reply) × (p ≡ returned r)
unfolding budget
budget_at-zero (loading op) s h = absurd (ground arith)
budget_at-zero (exchanging op observed new r) s h = absurd (ground arith)
budget_at-zero (returned r) s h = (r, refl)

-- The loops end, whatever the other threads do: a thread that has made eleven accesses has
-- returned.
pub run_returns :
    (ops : List Op) (schedule : List ℕ) (i : ℕ) (p : Position)
    → 11 ≤ count i schedule
    → get_elem? (run (begin ops) schedule).threads i ≡ some p
    → (r : Reply) × (p ≡ returned r)
unfolding budget_of budget_at
run_returns ops schedule i p enough e =
    budget_at-zero p (run (begin ops) schedule).cell
      (ground (arith, budget_of-run (begin ops) schedule i (begin-Inv ops), budget_of-begin ops i))
