-- ===== src/Profile/Events.antt =====
-- plugins/core/trace_profiling_event_manager.go and profile_event_manager.go: complex events as
-- expressions over base events. Each method holds the lock of the manager, so it is one step.
pub mod Laws
use skywalking_go.Base.{
  ℕ, Bool, true, false, not, ◌&&◌, ◌||◌, [], ◌∷◌, List, Option, none, some, ℤ, Bytes, codes,
  if◌then◌else◌,
}
use skywalking_go.Base.Map.{Map, lookup, insert}

-- An operator that is none of the constants is an invalid one, as `op_nothing` is.
pub data LogicOp : Type 0 where
  op_and op_or op_nothing : LogicOp
  op_invalid : ℤ → LogicOp

pub record Rule : Type 0 where
  pub event : Bytes
  pub op : LogicOp
  pub is_not : Bool

pub record EventManager : Type 0 where
  pub base_event_status : Map Bool
  pub complex_events : Map (List Rule)

pub data EventError : Type 0 where
  event_not_registered no_rules invalid_op : EventError
  base_event_not_registered : Bytes → EventError

pub data Evaluated : Type 0 where
  value : Bool → Evaluated
  failed : EventError → Evaluated

unfoldable pub new_event_manager : EventManager
new_event_manager = record { base_event_status = []; complex_events = [] }

unfoldable pub register_base_event : Bytes → Bool → EventManager → EventManager
register_base_event event initial m = record m {
  base_event_status = insert event initial m.base_event_status;
}

pub register_complex_event : Bytes → List Rule → EventManager → EventManager
register_complex_event event rules m = record m {
  complex_events = insert event rules m.complex_events;
}

unfoldable pub update_base_event_status :
    Bytes → Bool → EventManager → EventManager × Option EventError
update_base_event_status event status m = elim (lookup event m.base_event_status) [
  | none ↦ (m, some event_not_registered)
  | some old ↦ (record m { base_event_status = insert event status m.base_event_status }, none)
]

pub get_base_event_status : Bytes → EventManager → Evaluated
get_base_event_status event m = elim (lookup event m.base_event_status) [
  | none ↦ failed event_not_registered
  | some status ↦ value status
]

unfoldable pub get_rule_value : Rule → EventManager → Evaluated
get_rule_value rule m = elim (lookup rule.event m.base_event_status) [
  | none ↦ failed (base_event_not_registered rule.event)
  | some status ↦ value (if rule.is_not then not status else status)
]

unfoldable pub combine : LogicOp → Bool → Bool → Evaluated
combine op_and current rule = value (current && rule)
combine op_or current rule = value (current || rule)
combine op_nothing current rule = failed invalid_op
combine (op_invalid n) current rule = failed invalid_op

-- The loop from the second rule on.
unfoldable pub eval_rules : List Rule → EventManager → Bool → Evaluated
unfolding get_rule_value combine
eval_rules [] m current = value current
eval_rules (rule ∷ rules) m current = elim (get_rule_value rule m) [
  | failed e ↦ failed e
  | value v ↦ elim (combine rule.op current v) [
    | failed e ↦ failed e
    | value next ↦ eval_rules rules m next
  ]
]

unfoldable pub eval_expr : List Rule → EventManager → Evaluated
unfolding eval_rules get_rule_value
eval_expr [] m = failed no_rules
eval_expr (rule ∷ rules) m = elim (get_rule_value rule m) [
  | failed e ↦ failed e
  | value v ↦ eval_rules rules m v
]

unfoldable pub execute_complex_event : Bytes → EventManager → Evaluated
unfolding eval_expr
execute_complex_event event m = elim (lookup event m.complex_events) [
  | none ↦ failed event_not_registered
  | some rules ↦ eval_expr rules m
]

abbrev pub if_profiling : Bytes
if_profiling = codes "IfProfiling"

abbrev pub cur_task_exist : Bytes
cur_task_exist = codes "CurTaskExist"

abbrev pub could_profile : Bytes
could_profile = codes "CouldProfile"

abbrev pub could_set_cur_task : Bytes
could_set_cur_task = codes "CouldSetCurTask"

unfoldable pub register_profile_events : EventManager → EventManager
unfolding register_base_event register_complex_event
register_profile_events m =
    let r1 : Rule = record { event = if_profiling; op = op_nothing; is_not = true } in
    let r2 : Rule = record { event = cur_task_exist; op = op_and; is_not = false } in
    let r3 : Rule = record { event = cur_task_exist; op = op_and; is_not = true } in
    register_complex_event could_set_cur_task (r1 ∷ r3 ∷ []) (
      register_complex_event could_profile (r1 ∷ r2 ∷ [])
        (register_base_event cur_task_exist false (register_base_event if_profiling false m)))
