-- ===== src/Task/Once.antt =====
-- task.go: what becomes of a claimed row while others claim and flip rows.
use lalia.Prelude.{
  ℕ, ◌≡◌, refl, sym, ◌∙◌, ap, String, Bool, true, false, ◌&&◌, ◌||◌, some, List, [], ◌∷◌, ◌==◌,
  Bool-cases, inl, inr, arith, eq_iff, eq_refl, ◌⊎◌,
}
use lalia.Types.{Task, TaskList, State}
use lalia.Response.{ok, Payload}
use lalia.Task.{
  status_open, Row, row, no_list, no_task, find_row, missing_row, claimed_task, claim_joined,
  claim_row, op_task_claim, flip_row, op_task_status,
}
use lalia.Task.Rows.{find_row-inv}
use lalia.Task.Claims.{
  task_of, task_at, IsError, claim_takes, claim_not_open, row_of_task_at, op_task_status-row,
  status_rule,
}

-- opTaskClaim and opTaskStatus, by whoever, of any row
pub data Step : Type 0 where
  claim : ℕ → String → String → String → Step
  flip : ℕ → String → String → String → String → Step

unfoldable pub run : List Step → State → State
run [] s = s
run (claim now from slug pid ∷ steps) s = run steps (op_task_claim now from slug pid s).0
run (flip now from slug st pid ∷ steps) s = run steps (op_task_status now from slug st pid s).0

-- Some step asks to set the row open.
abbrev pub reopens : String → String → List Step → Bool
reopens pid slug [] = false
reopens pid slug (claim now from j q ∷ steps) = reopens pid slug steps
reopens pid slug (flip now from j st q ∷ steps) =
    ((q == pid) && ((j == slug) && (st == "open"))) || reopens pid slug steps

-- The row is there, it has this owner, and it is not open.
abbrev pub Held : String → String → String → State → Type 0
Held pid slug owner s =
    (t : Task) × (task_at pid slug s ≡ some t)
    × (t.owner ≡ owner)
    × ((t.status == status_open) ≡ false)

claim_row-cases :
    (now : ℕ) (pid slug from : String) (r : Row) (s : State)
    → ((claim_row now pid slug from r s).0 ≡ s)
      ⊎ ((p : Payload) × ((claim_row now pid slug from r s).1 ≡ ok p))
unfolding claim_row claim_joined missing_row
claim_row-cases now pid slug from no_list s = inl refl
claim_row-cases now pid slug from no_task s = inl refl
claim_row-cases now pid slug from (row tl t) s = elim (Bool-cases (t.status == status_open)) [
  | inl free ↦ rw free (inr (_, refl))
  | inr held ↦ rw held (inl refl)
]

claim-cases :
    (now : ℕ) (from slug pid : String) (s : State)
    → ((op_task_claim now from slug pid s).0 ≡ s)
      ⊎ ((p : Payload) × ((op_task_claim now from slug pid s).1 ≡ ok p))
unfolding op_task_claim
claim-cases now from slug pid s =
    ground (arith, claim_row-cases now pid slug from (find_row pid slug s) s)

-- A claim of any row leaves a row that is held as it is.
claim-Held :
    (now : ℕ) (from j q pid slug owner : String) (s : State)
    → Held pid slug owner s
    → Held pid slug owner (op_task_claim now from j q s).0
claim-Held now from j q pid slug owner s (t, at, own, shut) = elim (claim-cases now from j q s) [
  | inl same ↦ (t, rw same at, own, shut)
  | inr (p, done) ↦
      let (u, at_u, free, _, rows) = claim_takes now from j q s p done in
      (t, rows pid slug ∙ rw (apart u at_u free) at, own, shut)
]
  where
    apart :
        (u : Task)
        → task_at q j s ≡ some u
        → (u.status == status_open) ≡ true
        → ((q == pid) && (j == slug)) ≡ false
    apart u at_u free = elim (Bool-cases ((q == pid) && (j == slug))) [
      | inr other ↦ other
      | inl both ↦
          let qe : q ≡ pid = (eq_iff q pid).0 (ground (arith, both)) in
          let je : j ≡ slug = (eq_iff j slug).0 (ground (arith, both)) in
          let one : some u ≡ some t =
            sym at_u ∙ ap (λ x. task_at x j s) qe ∙ ap (λ x. task_at pid x s) je ∙ at in
          let same : u ≡ t = cc in
          let clash : true ≡ false =
            sym free ∙ ap (λ (x : Task). x.status == status_open) same ∙ shut in
          cc
    ]

-- A flip finds its row and its arguments, or changes nothing.
missing-args :
    (now : ℕ) (from j st q : String) (s : State)
    → ((from == "") || (j == "") || (st == "") || (q == "")) ≡ true
    → (op_task_status now from j st q s).0 ≡ s
unfolding op_task_status
missing-args now from j st q s h = ground arith

flip-cases :
    (now : ℕ) (from j st q : String) (s : State)
    → ((op_task_status now from j st q s).0 ≡ s)
      ⊎ ((tl : TaskList) × (t : Task) × (((from == "") || (j == "") || (st == "") || (q == ""))
            ≡ false)
          × (find_row q j s ≡ row tl t))
unfolding flip_row missing_row
flip-cases now from j st q s =
    elim (Bool-cases ((from == "") || (j == "") || (st == "") || (q == ""))) [
      | inl lacks ↦ inl (missing-args now from j st q s lacks)
      | inr given ↦ go given (find_row q j s) refl
    ]
  where
    go :
        ((from == "") || (j == "") || (st == "") || (q == "")) ≡ false
        → (r : Row) → find_row q j s ≡ r
        → ((op_task_status now from j st q s).0 ≡ s)
          ⊎ ((tl : TaskList) × (t : Task) × (((from == "") || (j == "") || (st == "") || (q == ""))
                ≡ false)
              × (find_row q j s ≡ row tl t))
    go given no_list e = inl (rw (op_task_status-row now from j st q s given, e) refl)
    go given no_task e = inl (rw (op_task_status-row now from j st q s given, e) refl)
    go given (row tl t) e = inr (tl, t, given, e)

-- A flip of any row, but not of this one to open, leaves the row held.
flip-Held :
    (now : ℕ) (from j st q pid slug owner : String) (s : State)
    → ((q == pid) && ((j == slug) && (st == "open"))) ≡ false
    → Held pid slug owner s
    → Held pid slug owner (op_task_status now from j st q s).0
flip-Held now from j st q pid slug owner s other (t, at, own, shut) =
    elim (flip-cases now from j st q s) [
      | inl same ↦ (t, rw same at, own, shut)
      | inr (tl, u, given, found) ↦ elim (status_rule now from j st q s tl u given found) [
        | inr (_, same, _) ↦ (t, rw same at, own, shut)
        | inl (_, rows) ↦ elim (Bool-cases ((q == pid) && (j == slug))) [
          | inr away ↦ (t, rows pid slug ∙ rw away at, own, shut)
          | inl here ↦
              let (list, task) = find_row-inv q j s tl u found in
              let qe : q ≡ pid = (eq_iff q pid).0 (ground (arith, here)) in
              let je : j ≡ slug = (eq_iff j slug).0 (ground (arith, here)) in
              let at_u : task_at q j s ≡ some u = ap (task_of j) list ∙ task in
              let one : some u ≡ some t =
                sym at_u ∙ ap (λ x. task_at x j s) qe ∙ ap (λ x. task_at pid x s) je ∙ at in
              let same : u ≡ t = cc in
              (
                record u { status = st; updated_at = now },
                rows pid slug ∙ rw here refl,
                ap (λ (x : Task). x.owner) same ∙ own,
                ground (arith, other, here),
              )
        ]
      ]
    ]

run-Held :
    (pid slug owner : String) (steps : List Step) (s : State)
    → reopens pid slug steps ≡ false
    → Held pid slug owner s
    → Held pid slug owner (run steps s)
unfolding run
run-Held pid slug owner [] s h held = held
run-Held pid slug owner (claim now from j q ∷ steps) s h held =
    run-Held pid slug owner steps _ h (claim-Held now from j q pid slug owner s held)
run-Held pid slug owner (flip now from j st q ∷ steps) s h held =
    run-Held pid slug owner steps _ (ground (arith, h))
      (flip-Held now from j st q pid slug owner s (ground (arith, h)) held)

-- After a claim that is answered with success, over any sequence of claims and of changes of status,
-- of any rows, by whoever and whenever, in which nobody asks to set this row to open: the row still
-- has its owner and a status other than open, and the next claim of it, by whoever, is an error and
-- changes nothing.
pub claim_once :
    (now later : ℕ) (from other slug pid : String) (s : State) (p : Payload) (steps : List Step)
    → (op_task_claim now from slug pid s).1 ≡ ok p
    → reopens pid slug steps ≡ false
    → let s' = run steps (op_task_claim now from slug pid s).0 in
      ((t : Task) × (task_at pid slug s' ≡ some t)
        × (t.owner ≡ from)
        × ((t.status == status_open) ≡ false))
      × ((op_task_claim later other slug pid s').0 ≡ s')
      × IsError (op_task_claim later other slug pid s').1
claim_once now later from other slug pid s p steps h quiet =
    let (t, _, _, _, rows) = claim_takes now from slug pid s p h in
    let s' = run steps (op_task_claim now from slug pid s).0 in
    let first : task_at pid slug (op_task_claim now from slug pid s).0
        ≡ some (claimed_task now from t) =
      rows pid slug ∙ rw (eq_refl pid, eq_refl slug) refl in
    let (u, at, own, shut) =
      run-Held pid slug from steps (op_task_claim now from slug pid s).0 quiet (
        claimed_task now from t,
        first,
        unfold claimed_task in refl,
        unfold claimed_task in refl,
      ) in
    let (tl, found) = row_of_task_at pid slug s' u at in
    let refused = claim_not_open later other slug pid s' tl u found shut in
    ((u, at, own, shut), refused.0, refused.1)
