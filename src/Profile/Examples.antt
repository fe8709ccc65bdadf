-- ===== src/Profile/Examples.antt =====
-- A profiled task, a refused one, a profile in chunks and the labels of a goroutine.
use skywalking_go.Base.{
  ◌≡◌, ◌↔◌, ◌⊎◌, inr, refl, true, false, [], ◌∷◌, ◌++◌, List, some, pos, Bytes, codes, arith,
}
use skywalking_go.Base.Map.{lookup, insert}
use skywalking_go.Text.Number.{parse_int}
use skywalking_go.Profile.Events.{
  EventManager, Rule, op_or, op_nothing, value, eval_expr, register_base_event, new_event_manager,
  if_profiling, cur_task_exist, register_profile_events, update_base_event_status,
  execute_complex_event,
}
use skywalking_go.Profile.Events.Laws.{eval_expr_iff, IsMet, EachAnd, SomeOr}
use skywalking_go.Profile.Tasks.{
  Event, adds, is_due, writes, stops, updates, flushes, reports, finishes, removes, run, Manager,
  new_profile_manager, due, with_end,
}
use skywalking_go.Profile.Tasks.Invariant.{IsSound, manager-IsSound}
use skywalking_go.Profile.Tasks.Overlap.{NoOverlap, run-NoOverlap}
use skywalking_go.Profile.Tasks.Blocked.{refused_start_blocks}
use skywalking_go.Profile.Writer.{Writer, new_profiling_writer, write_all, flush}
use skywalking_go.Profile.Writer.Chunks.{Carries, written-Carries}
use skywalking_go.Profile.Labels.{Label, labels_of, update_trace_labels}
use skywalking_go.Profile.Labels.Updated.{update_trace_labels_lem}
use skywalking_go.Profile.Labels.Order.{AreIncreasing, last_value}

abbrev args : List (Bytes × Bytes)
args =
    (codes "TaskId", codes "t1")
    ∷ (codes "EndpointName", codes "/a")
    ∷ (codes "Duration", codes "5")
    ∷ (codes "StartTime", codes "1000")
    ∷ (codes "CreateTime", codes "900")
    ∷ []

abbrev events : List Event
events =
    adds args (pos 0)
    ∷ is_due 0 (pos 1000000000) true
    ∷ writes
    ∷ stops
    ∷ reports
    ∷ updates
    ∷ reports
    ∷ flushes
    ∷ reports
    ∷ reports
    ∷ reports
    ∷ finishes
    ∷ removes (pos 2000000000)
    ∷ adds args (pos 900)
    ∷ []

test : (run events new_profile_manager).results ≡ (codes "t1", false) ∷ (codes "t1", true) ∷ []
unfolding run new_profile_manager with_end register_profile_events update_base_event_status
    execute_complex_event lookup insert new_event_manager parse_int
test = refl

manager-IsSound_example : IsSound (run events new_profile_manager)
manager-IsSound_example = manager-IsSound events

run-NoOverlap_example : NoOverlap (run events new_profile_manager).queue
run-NoOverlap_example = run-NoOverlap events

abbrev queued : Manager
queued = run (adds args (pos 0) ∷ []) new_profile_manager

refused_start_blocks_example : (run events (due 0 (pos 1000000000) false queued)).cpu ≡ false
unfolding run new_profile_manager
refused_start_blocks_example =
    refused_start_blocks 0 (pos 1000000000) queued events (manager-IsSound (adds args (pos 0) ∷ []))
      refl refl

written-Carries_example :
    (w : Writer) × (write_all ((1 ∷ 2 ∷ 3 ∷ []) ∷ (4 ∷ 5 ∷ []) ∷ []) (new_profiling_writer 2)
      ≡ some w)
    × Carries 2 (1 ∷ 2 ∷ 3 ∷ 4 ∷ 5 ∷ []) (flush w).report_ch
written-Carries_example = written-Carries 2 ((1 ∷ 2 ∷ 3 ∷ []) ∷ (4 ∷ 5 ∷ []) ∷ []) (omega arith)

abbrev old : List Label
old = record { key = codes "b"; text = codes "1" } ∷ []

abbrev new : List Label
new =
    record { key = codes "b"; text = codes "2" } ∷ record { key = codes "a"; text = codes "3" } ∷ []

update_trace_labels_lem_example :
    (out : List Label) × (update_trace_labels old
        (codes "b" ∷ codes "2" ∷ codes "a" ∷ codes "3" ∷ [])
      ≡ some out)
    × AreIncreasing out
    × ((k : Bytes) → last_value k out ≡ last_value k (old ++ new))
unfolding labels_of
update_trace_labels_lem_example =
    update_trace_labels_lem old (codes "b" ∷ codes "2" ∷ codes "a" ∷ codes "3" ∷ []) new refl

abbrev manager : EventManager
manager =
    register_base_event cur_task_exist true
      (register_base_event if_profiling false new_event_manager)

abbrev first : Rule
first = record { event = if_profiling; op = op_nothing; is_not = false }

abbrev second : Rule
second = record { event = cur_task_exist; op = op_or; is_not = false }

eval_expr_iff_example :
    (eval_expr (first ∷ second ∷ []) manager ≡ value true)
    ↔ ((IsMet manager first × EachAnd manager (second ∷ [])) ⊎ SomeOr manager (second ∷ []))
unfolding lookup insert register_base_event new_event_manager
eval_expr_iff_example =
    eval_expr_iff manager first (second ∷ []) false refl
      (record { registered = (true, refl); joined = inr refl }, tt)
