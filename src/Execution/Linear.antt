-- ===== src/Execution/Linear.antt =====
-- The calls of the lifecycle cell take effect at one access, as the description of them says.
use gigaam_v3_runtime.Base.{
  ℕ, zero, suc, true, ◌≡◌, refl, sym, subst, ◌⊎◌, inl, inr, some, List, [], ◌∷◌, arith, ◌==◌,
  ==_iff, Bool-cases, get_elem?, set, map, All-get,
}
use gigaam_v3_runtime.Execution.{
  ExecutionState, ready, Op, Position, loading, exchanging, returned, advance, cancellation_won,
  stored, decide, exchange,
}
use gigaam_v3_runtime.Execution.Order.{Chosen, Behind, stored_injective, advance_moves}
use gigaam_v3_runtime.Execution.Threads.{
  System, step, run, begin, Inv, begin-Inv, run-Inv, step-Inv, step_cases,
}
use gigaam_v3_runtime.Execution.Safety.{Edge-cancellation_won}
use gigaam_v3_runtime.Execution.Calls.{
  Pending, TakesEffect, Within, Serves, Within-effect, load_effect, acknowledged_load,
}

Serves-effect :
    (op : Op) (p : Position) (s : ExecutionState)
    → Chosen p
    → Serves op p s
    → Pending p
    → TakesEffect op s (advance p s).1 (advance p s).0
unfolding advance
Serves-effect op (loading now) s c (inl e) w =
    subst (λ o. TakesEffect op s s (advance (loading o) s).0) (sym e) (load_effect op s)
Serves-effect op (loading now) s c (inr (e, same, won)) w =
    subst (λ o. TakesEffect op s s (advance (loading o) s).0) (sym same)
      (acknowledged_load op s e won)
Serves-effect op (exchanging now observed new r) s c v w =
    elim (Bool-cases (stored s == stored observed)) [
      | inl e ↦
          let same = stored_injective s observed ((==_iff _ _).0 e) in
          rw (e, advance)
            (Within-effect op now s new r v
              (subst (λ o. decide now o ≡ exchange new r) (sym same) c))
      | inr e ↦ rw (e, advance) refl
    ]
Serves-effect op (returned r) s c v w = absurd w

Within-won :
    (op now : Op) (s t : ExecutionState)
    → (cancellation_won s ≡ true → cancellation_won t ≡ true)
    → Within op now s
    → Within op now t
Within-won op now s t keeps (inl e) = inl e
Within-won op now s t keeps (inr (e, same, won)) = inr (e, same, keeps won)

Serves-won :
    (op : Op) (p : Position) (s t : ExecutionState)
    → (cancellation_won s ≡ true → cancellation_won t ≡ true)
    → Serves op p s
    → Serves op p t
Serves-won op (loading now) s t keeps v = Within-won op now s t keeps v
Serves-won op (exchanging now observed new r) s t keeps v = Within-won op now s t keeps v
Serves-won op (returned r) s t keeps v = tt

load-Serves :
    (op now : Op) (s : ExecutionState) → Within op now s → Serves op (advance (loading now) s).0 s
unfolding advance decide cancellation_won
load-Serves op now s v = ground (arith, v)

-- An access never loses a cancellation.
advance_won :
    (p : Position) (s : ExecutionState)
    → Chosen p
    → cancellation_won s ≡ true
    → cancellation_won (advance p s).1 ≡ true
advance_won p s c h = elim (advance_moves p s c) [
  | inl e ↦ rw e h
  | inr e ↦ Edge-cancellation_won e h
]

advance-Serves :
    (op : Op) (p : Position) (s : ExecutionState) → Serves op p s → Serves op (advance p s).0 s
unfolding advance
advance-Serves op (loading now) s v = load-Serves op now s v
advance-Serves op (exchanging now observed new r) s v =
    elim (Bool-cases (stored s == stored observed)) [
      | inl e ↦ rw (e, advance) tt
      | inr e ↦ rw (e, advance) v
    ]
advance-Serves op (returned r) s v = tt

-- The call that thread `i` is in was begun as `op`.
abbrev Served : ℕ → Op → System → Type 0
Served i op sys = (p : Position) → get_elem? sys.threads i ≡ some p → Serves op p sys.cell

get_elem?-set :
    (ps : List Position) (i j : ℕ) (p q : Position)
    → get_elem? (set ps j q) i ≡ some p
    → ((i ≡ j) × (p ≡ q)) ⊎ (get_elem? ps i ≡ some p)
get_elem?-set [] i j p q h = inr h
get_elem?-set (x ∷ ps) zero zero p q h = inl (refl, cc)
get_elem?-set (x ∷ ps) zero (suc j) p q h = inr h
get_elem?-set (x ∷ ps) (suc i) zero p q h = inr h
get_elem?-set (x ∷ ps) (suc i) (suc j) p q h = elim (get_elem?-set ps i j p q h) [
  | inl (e, k) ↦ inl (omega arith, k)
  | inr e ↦ inr e
]

step-Served :
    (i j : ℕ) (op : Op) (sys : System) → Inv sys → Served i op sys → Served i op (step sys j)
step-Served i j op sys v served = step_cases (Served i op) sys j served λ q e p h.
    let chosen = (All-get (λ x. Chosen x × Behind x sys.cell) sys.threads j v e).0 in
    let keeps = advance_won q sys.cell chosen in
    elim (get_elem?-set sys.threads i j p (advance q sys.cell).0 h) [
      | inl (same, moved) ↦
          let mine = served q (subst (λ k. get_elem? sys.threads k ≡ some q) (sym same) e) in
          subst (λ x. Serves op x (advance q sys.cell).1) (sym moved)
            (Serves-won op (advance q sys.cell).0 sys.cell (advance q sys.cell).1 keeps
              (advance-Serves op q sys.cell mine))
      | inr other ↦ Serves-won op p sys.cell (advance q sys.cell).1 keeps (served p other)
    ]

run-Served :
    (sys : System) (schedule : List ℕ) (i : ℕ) (op : Op)
    → Inv sys
    → Served i op sys
    → Served i op (run sys schedule)
unfolding run
run-Served sys [] i op v h = h
run-Served sys (j ∷ schedule) i op v h =
    run-Served (step sys j) schedule i op (step-Inv sys j v) (step-Served i j op sys v h)

begun :
    (ops : List Op) (i : ℕ) (op : Op) (p : Position)
    → get_elem? ops i ≡ some op
    → get_elem? (map loading ops) i ≡ some p
    → p ≡ loading op
begun [] i op p h k = cc
begun (o ∷ ops) zero op p h k = cc
begun (o ∷ ops) (suc i) op p h k = begun ops i op p h k

begin-Served :
    (ops : List Op) (i : ℕ) (op : Op) → get_elem? ops i ≡ some op → Served i op (begin ops)
unfolding begin
begin-Served ops i op h p k = subst (λ x. Serves op x ready) (sym (begun ops i op p h k)) (inl refl)

set-get_elem? :
    (ps : List Position) (i : ℕ) (p q : Position)
    → get_elem? ps i ≡ some p
    → get_elem? (set ps i q) i ≡ some q
set-get_elem? [] i p q h = cc
set-get_elem? (x ∷ ps) zero p q h = refl
set-get_elem? (x ∷ ps) (suc i) p q h = set-get_elem? ps i p q h

step_access :
    (sys : System) (i : ℕ) (p : Position)
    → get_elem? sys.threads i ≡ some p
    → (get_elem? (step sys i).threads i ≡ some (advance p sys.cell).0)
      × ((step sys i).cell ≡ (advance p sys.cell).1)
unfolding step
step_access sys i p e = rw (e, step) (set-get_elem? sys.threads i p (advance p sys.cell).0 e, refl)

-- The calls are linearizable. In any interleaving of any calls, take a thread that has not
-- returned from the call that it was begun with, and let it make its next access: if it returns by
-- that access, then the access leaves the cell and replies as the description of the whole call
-- says for the state of the cell just before; if it does not, the access leaves the cell as it is.
pub run_linearizes :
    (ops : List Op) (schedule : List ℕ) (i : ℕ) (op : Op) (p q : Position)
    → get_elem? ops i ≡ some op
    → get_elem? (run (begin ops) schedule).threads i ≡ some p
    → Pending p
    → get_elem? (step (run (begin ops) schedule) i).threads i ≡ some q
    → TakesEffect op (run (begin ops) schedule).cell (step (run (begin ops) schedule) i).cell q
run_linearizes ops schedule i op p q begun_as before pending now =
    let sys = run (begin ops) schedule in
    let invariant = run-Inv (begin ops) schedule (begin-Inv ops) in
    let chosen = (All-get (λ x. Chosen x × Behind x sys.cell) sys.threads i invariant before).0 in
    let served =
      run-Served (begin ops) schedule i op (begin-Inv ops) (begin-Served ops i op begun_as) in
    let (moved, cell) = step_access sys i p before in
    let same : q ≡ (advance p sys.cell).0 = cc in
    subst (λ t. TakesEffect op sys.cell t q) (sym cell)
      (subst (λ x. TakesEffect op sys.cell (advance p sys.cell).1 x) (sym same)
        (Serves-effect op p sys.cell chosen (served p before) pending))
