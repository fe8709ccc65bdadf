-- ===== src/Profile/Events/Laws.antt =====
-- What complex events mean.
use skywalking_go.Base.{
  ◌≡◌, ◌↔◌, ◌⊎◌, inl, inr, refl, Bool, true, false, not, ◌&&◌, ◌||◌, [], ◌∷◌, List, none, some,
  arith, All, if◌then◌else◌,
}
use skywalking_go.Base.Map.{lookup, insert}
use skywalking_go.Profile.Events.{
  op_and, op_or, Rule, EventManager, value, eval_expr, eval_rules, get_rule_value, combine,
  execute_complex_event, register_profile_events, new_event_manager, update_base_event_status,
  if_profiling, cur_task_exist, could_profile, could_set_cur_task, register_base_event,
  register_complex_event,
}

-- The base event of the rule has the status that the rule asks for.
pub record IsMet (m : EventManager) (rule : Rule) : Type 0 where
  pub status : lookup rule.event m.base_event_status ≡ some (not rule.is_not)

-- All rules that are joined by `and` are met.
abbrev pub EachAnd : EventManager → List Rule → Type 0
EachAnd m [] = Unit
EachAnd m (rule ∷ rules) = ((rule.op ≡ op_or) ⊎ IsMet m rule) × EachAnd m rules

-- Some rule that is joined by `or` is met, and so are the later ones that are joined by `and`.
abbrev pub SomeOr : EventManager → List Rule → Type 0
SomeOr m [] = ⊥
SomeOr m (rule ∷ rules) = ((rule.op ≡ op_or) × IsMet m rule × EachAnd m rules) ⊎ SomeOr m rules

-- A rule that can be evaluated behind another one.
pub record IsEvaluable (m : EventManager) (rule : Rule) : Type 0 where
  pub registered : (b : Bool) × (lookup rule.event m.base_event_status ≡ some b)
  pub joined : (rule.op ≡ op_and) ⊎ (rule.op ≡ op_or)

IsMet-iff :
    (m : EventManager) (rule : Rule) (v : Bool)
    → get_rule_value rule m ≡ value v
    → (v ≡ true) ↔ IsMet m rule
unfolding get_rule_value
IsMet-iff m rule v e =
    (λ t. record { status = ground (arith, e, t) }, λ h. let s = h.status in ground (arith, e, s))

evaluable_value :
    (m : EventManager) (rule : Rule)
    → IsEvaluable m rule
    → (v : Bool) × (get_rule_value rule m ≡ value v)
unfolding get_rule_value
evaluable_value m rule h =
    let (b, e) = h.registered in ((if rule.is_not then not b else b), ground (arith, e))

eval_rules_iff :
    (m : EventManager) (rules : List Rule) (current : Bool)
    → All (IsEvaluable m) rules
    → (eval_rules rules m current ≡ value true)
      ↔ (((current ≡ true) × EachAnd m rules) ⊎ SomeOr m rules)
unfolding eval_rules combine
eval_rules_iff m [] current h = ground arith
eval_rules_iff m (rule ∷ rules) current (h, hs) =
    let (v, e) = evaluable_value m rule h in
    let met = IsMet-iff m rule v e in
    elim h.joined [
      | inl and ↦
          let rest = eval_rules_iff m rules (current && v) hs in ground (arith, e, met, and, rest)
      | inr or ↦
          let rest = eval_rules_iff m rules (current || v) hs in ground (arith, e, met, or, rest)
    ]

-- For rules that can be evaluated, from left to right without precedence: a complex event is on
-- exactly when some rule that begins a conjunction, the first one or one behind an `or`, is met with
-- all the later rules that are joined by `and`.
pub eval_expr_iff :
    (m : EventManager) (rule : Rule) (rules : List Rule) (b : Bool)
    → lookup rule.event m.base_event_status ≡ some b
    → All (IsEvaluable m) rules
    → (eval_expr (rule ∷ rules) m ≡ value true)
      ↔ ((IsMet m rule × EachAnd m rules) ⊎ SomeOr m rules)
unfolding eval_expr
eval_expr_iff m rule rules b e h =
    let v : Bool = if rule.is_not then not b else b in
    let got : get_rule_value rule m ≡ value v = unfold get_rule_value in ground (arith, e) in
    let met = IsMet-iff m rule v got in
    let rest = eval_rules_iff m rules v h in ground (arith, got, met, rest)

-- The manager after the registration, with these statuses of its two base events.
pub events_of : Bool → Bool → EventManager
unfolding register_profile_events new_event_manager
events_of profiling exists = record (register_profile_events new_event_manager) {
  base_event_status = (if_profiling, profiling) ∷ (cur_task_exist, exists) ∷ [];
}

pub registered_events : register_profile_events new_event_manager ≡ events_of false false
unfolding events_of register_profile_events register_base_event register_complex_event
    new_event_manager insert
registered_events = refl

pub update_if_profiling :
    (p c b : Bool) → update_base_event_status if_profiling b (events_of p c) ≡ (events_of b c, none)
unfolding update_base_event_status events_of lookup insert
update_if_profiling p c b = refl

pub update_cur_task_exist :
    (p c b : Bool)
    → update_base_event_status cur_task_exist b (events_of p c) ≡ (events_of p b, none)
unfolding update_base_event_status events_of lookup insert
update_cur_task_exist p c b = refl

pub could_profile_lem :
    (p c : Bool) → execute_complex_event could_profile (events_of p c) ≡ value (not p && c)
unfolding execute_complex_event events_of register_profile_events register_base_event
    register_complex_event new_event_manager lookup insert
could_profile_lem true c = refl
could_profile_lem false c = refl

pub could_set_cur_task_lem :
    (p c : Bool) → execute_complex_event could_set_cur_task (events_of p c) ≡ value (not p && not c)
unfolding execute_complex_event events_of register_profile_events register_base_event
    register_complex_event new_event_manager lookup insert
could_set_cur_task_lem true c = refl
could_set_cur_task_lem false c = refl

pub register_cur_task_exist :
    (p c b : Bool) → register_base_event cur_task_exist b (events_of p c) ≡ events_of p b
unfolding register_base_event events_of insert
register_cur_task_exist p c b = refl
