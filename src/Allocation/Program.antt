-- ===== src/Allocation/Program.antt =====
-- The linear programs that rest_client/path_hopping/flow_allocation.py hands to gurobi: variables,
-- linear expressions, and a model as the list of the calls that built it.
use cpsc_of_testbed.Base.{ℕ, List, Option, none, some, ◌≡◌, ◌⊎◌, All}
use cpsc_of_testbed.Base.Numbers.{Number, zero_num, one_num, Le}

-- A variable by its name: X{i,j}, Y{i,l}, T{i, l}, U{l}, K{l}, F{i,u,v} and alpha.
pub data Variable : Type 0 where
  split portion total : ℕ → ℕ → Variable
  used capped : ℕ → Variable
  carried : ℕ → ℕ → ℕ → Variable
  alpha : Variable

module _ (N : Number) where
  open N use {Num, plus, minus, times}

  -- `LinExpr`: a number, to which multiples of variables are added or taken away.
  pub data LinExpr : Type 0 where
    constant : Num → LinExpr
    add : LinExpr → Num → Variable → LinExpr
    join take_away : LinExpr → LinExpr → LinExpr

  pub data Call : Type 0 where
    -- `addVar(lb, ub)`; without `ub` the variable has no upper bound. A semi-continuous variable
    -- may also be 0.
    add_var add_semicont : Variable → Num → Option Num → Call
    -- `addConstr`, of an equation or an inequality.
    must_equal must_be_at_most must_be_at_least : LinExpr → LinExpr → Call
    -- `setObjective(e, MINIMIZE)`
    minimize : LinExpr → Call

  -- A variable as an expression, a multiple of one, and `e += v`.
  abbrev pub var : Variable → LinExpr
  var v = add (constant (zero_num N)) (one_num N) v

  abbrev pub multiple : Num → Variable → LinExpr
  multiple c v = add (constant (zero_num N)) c v

  abbrev pub plus_var : LinExpr → Variable → LinExpr
  plus_var e v = add e (one_num N) v

  module _ (assignment : Variable → Num) where
    -- `e.getValue()`
    unfoldable pub value : LinExpr → Num
    value (constant c) = c
    value (add e c v) = plus (value e) (times (assignment v) c)
    value (join d e) = plus (value d) (value e)
    value (take_away d e) = minus (value d) (value e)

    abbrev pub IsBelow : Num → Option Num → Type 0
    IsBelow x none = Unit
    IsBelow x (some upper) = Le N x upper

    -- What a solution must satisfy.
    abbrev pub Holds : Call → Type 0
    Holds (add_var v lower upper) = Le N lower (assignment v) × IsBelow (assignment v) upper
    Holds (add_semicont v lower upper) =
        (assignment v ≡ zero_num N) ⊎ (Le N lower (assignment v) × IsBelow (assignment v) upper)
    Holds (must_equal d e) = value d ≡ value e
    Holds (must_be_at_most d e) = Le N (value d) (value e)
    Holds (must_be_at_least d e) = Le N (value e) (value d)
    Holds (minimize e) = Unit

    abbrev pub IsFeasible : List Call → Type 0
    IsFeasible calls = All Holds calls
