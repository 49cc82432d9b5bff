-- ===== src/Leases/Ledger.antt =====
-- The executions of a task: one for each attempt, and none open but the last.
use mathlib.Core.Path.{subst}
use night_voyager.Base.{
  All, ℕ, ◌-◌, ◌<◌, ◌≡◌, refl, sym, ◌⊎◌, true, false, some, List, [], ◌∷◌, arith,
}
use night_voyager.Leases.Rows.{ExecutionRow, TaskRow, Task, is_leased, is_closed}
use night_voyager.Leases.Calls.{update_generation, is_open, update_open}

-- The latest first, the executions are numbered `n`, ..., 2, 1, in attempts and in generations.
abbrev pub IsNumbered : ℕ → List ExecutionRow → Type 0
IsNumbered n [] = n ≡ 0
IsNumbered n (e ∷ es) =
    (e.attempt_no ≡ n) × (e.lease_generation ≡ n) × (0 < n) × IsNumbered (n - 1) es

abbrev pub IsEnded : ExecutionRow → Type 0
IsEnded e = is_open e.status ≡ false

-- The last execution is open while the task is held, and ended while it is not; but a task whose
-- pin is found invalid at a claim is ended without its execution.
abbrev pub IsLast : TaskRow → ExecutionRow → Type 0
IsLast row e =
    ((is_leased row.state ≡ true) × (is_open e.status ≡ true))
    ⊎ ((is_leased row.state ≡ false)
        × (IsEnded e
            ⊎ ((is_closed row.state ≡ true) × (row.terminal_code ≡ some "skill_pin_invalid"))))

abbrev pub IsCurrent : TaskRow → List ExecutionRow → Type 0
IsCurrent row [] = is_leased row.state ≡ false
IsCurrent row (e ∷ es) = IsLast row e × All IsEnded es

pub record IsLedger (t : Task) : Type 0 where
  pub numbered : IsNumbered t.row.attempt_count t.executions
  pub current : IsCurrent t.row t.executions

-- The executions with the last one apart.
pub record Split (t : Task) : Type 0 where
  pub last : ExecutionRow
  pub before : List ExecutionRow
  pub split : t.executions ≡ last ∷ before
  pub attempt : last.attempt_no ≡ t.row.attempt_count
  pub generation : last.lease_generation ≡ t.row.attempt_count
  pub positive : 0 < t.row.attempt_count
  pub numbered : IsNumbered (t.row.attempt_count - 1) before
  pub is_last : IsLast t.row last
  pub ended_before : All IsEnded before

Split-executions :
    (t : Task) (es : List ExecutionRow)
    → t.executions ≡ es
    → IsNumbered t.row.attempt_count es
    → IsCurrent t.row es
    → 0 < t.row.attempt_count
    → Split t
Split-executions t [] same numbered current positive = absurd (omega (arith, numbered))
Split-executions t (e ∷ es) same (attempt, generation, _, rest) (is_last, over) positive = record {
  last = e;
  before = es;
  split = same;
  attempt = attempt;
  generation = generation;
  positive = positive;
  numbered = rest;
  is_last = is_last;
  ended_before = over;
}

pub Split-IsLedger : (t : Task) → IsLedger t → 0 < t.row.attempt_count → Split t
Split-IsLedger t v positive = Split-executions t t.executions refl v.numbered v.current positive

pub join-IsLedger :
    (t : Task) (e : ExecutionRow) (es : List ExecutionRow)
    → t.executions ≡ e ∷ es
    → e.attempt_no ≡ t.row.attempt_count
    → e.lease_generation ≡ t.row.attempt_count
    → 0 < t.row.attempt_count
    → IsNumbered (t.row.attempt_count - 1) es
    → IsLast t.row e
    → All IsEnded es
    → IsLedger t
join-IsLedger t e es same attempt generation positive numbered is_last over = record {
  numbered =
      subst (IsNumbered t.row.attempt_count) (sym same) (attempt, generation, positive, numbered);
  current = subst (IsCurrent t.row) (sym same) (is_last, over);
}

-- No execution but the last has the generation of the lease.
pub update_generation-old :
    (n generation : ℕ) (change : ExecutionRow → ExecutionRow) (es : List ExecutionRow)
    → IsNumbered n es
    → n < generation
    → update_generation generation change es ≡ es
unfolding update_generation
update_generation-old n generation change [] numbered less = refl
update_generation-old n generation change (e ∷ es) (_, at, positive, rest) less =
    let tail = update_generation-old (n - 1) generation change es rest (omega arith) in
    ground (arith, tail)

pub update_open-ended :
    (generation : ℕ) (change : ExecutionRow → ExecutionRow) (es : List ExecutionRow)
    → All IsEnded es
    → update_open generation change es ≡ es
unfolding update_open
update_open-ended generation change [] over = refl
update_open-ended generation change (e ∷ es) (closed, over) =
    let tail = update_open-ended generation change es over in ground (arith, tail, closed)
