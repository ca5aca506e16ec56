-- ===== src/Service/Conditions.antt =====
-- examples/zts/ordering/conditionchecker.go: the evaluation of `when` guards from recorded statuses,
-- overrides and an optional evaluator. `trim`, `lower` and `equal_fold` are `TrimSpace`, `ToLower` and
-- `EqualFold` of package strings.
use zero_trust_service.Common.{
  String, Bool, true, false, not, Option, none, some, List, [], ◌∷◌, ◌||◌, ◌&&◌, ◌==◌,
  if◌then◌else◌, lookup, insert,
}
use zero_trust_service.Fault.{Error, message, Result, ok, err}
use zero_trust_service.Pipeline.Model.{When}

abbrev pub ConditionEvaluator : Type 0
ConditionEvaluator = String → String → List (String × String) → Bool × Bool

-- A checker that `NewConditionChecker` made, whose map of statuses is not nil. The nil map of the
-- overrides is the empty one.
pub record ConditionChecker : Type 0 where
  pub overrides : List (String × Bool)
  pub evaluator : Option ConditionEvaluator
  pub vars : List (String × String)
  pub statuses : List (String × List (String × String))

-- `NewConditionChecker`.
abbrev pub new_condition_checker :
    Option ConditionEvaluator → List (String × String) → ConditionChecker
new_condition_checker eval vars = record {
  overrides = [];
  evaluator = eval;
  vars = vars;
  statuses = [];
}

-- `maps.Copy`.
copy_into : List (String × Bool) → List (String × Bool) → List (String × Bool)
copy_into table [] = table
copy_into table ((k, v) ∷ rest) = copy_into (insert k v table) rest

-- `MergeOverrides`.
unfoldable pub merge_overrides : ConditionChecker → List (String × Bool) → ConditionChecker
unfolding copy_into
merge_overrides c o = record c { overrides = copy_into c.overrides o }

abbrev pub map_or_new : Option (List (String × String)) → List (String × String)
map_or_new none = []
map_or_new (some m) = m

-- `MarkStatus`.
unfoldable pub mark_status : ConditionChecker → String → String → String → ConditionChecker
mark_status c plan owner status = record c {
  statuses = insert plan (insert owner status (map_or_new (lookup plan c.statuses))) c.statuses;
}

unfoldable pub or_success : Option String → String
or_success none = "Success"
or_success (some s) = s

-- The status of the owner, or the assumption that it succeeded.
unfoldable pub observed_status : ConditionChecker → String → String → String
unfolding or_success
observed_status c plan owner = or_success (lookup owner (map_or_new (lookup plan c.statuses)))

-- `ErrUnresolvedCondition`.
abbrev pub unresolved_condition : Error
unresolved_condition = message "ordering: when-guard could not be evaluated"

unfoldable pub by_evaluator :
    ConditionChecker → String → String → Option ConditionEvaluator → Bool × Bool
by_evaluator c plan expr none = (false, false)
by_evaluator c plan expr (some f) = f plan expr c.vars

unfoldable pub by_override : ConditionChecker → String → String → Option Bool → Bool × Bool
unfolding by_evaluator
by_override c plan expr (some res) = (res, true)
by_override c plan expr none = by_evaluator c plan expr c.evaluator

-- The end of `Eval`, from the two gates.
unfoldable pub both_gates : Bool × Bool → Bool × Bool → Result Bool
both_gates (status_ok, status_known) (expr_ok, expr_known) =
    if (status_known && not status_ok) || (expr_known && not expr_ok)
    then ok false
    else if status_known && expr_known
    then ok (status_ok && expr_ok)
    else err unresolved_condition

module _ (trim lower : String → String) (equal_fold : String → String → Bool) where
  -- `statusGate`.
  unfoldable pub status_gate : ConditionChecker → String → When → Bool × Bool
  status_gate c plan w =
      let text = lower (trim w.status) in
      if text == "" || text == "all"
      then (true, true)
      else (equal_fold (observed_status c plan w.owner_fqn) w.status, true)

  -- `exprGate`.
  unfoldable pub expr_gate : ConditionChecker → String → When → Bool × Bool
  unfolding by_override
  expr_gate c plan w =
      let expr = trim w.expression in
      if expr == "" then (true, true) else by_override c plan expr (lookup expr c.overrides)

  -- `Eval`.
  unfoldable pub eval : ConditionChecker → String → When → Result Bool
  unfolding both_gates
  eval c plan w =
      if w.runtime_input
      then err unresolved_condition
      else both_gates (status_gate c plan w) (expr_gate c plan w)
