-- ===== src/Reporter/Examples.antt =====
-- Reporters with a backend that fails now and then.
use skywalking_go.Base.{
  ℕ, ◌≡◌, refl, Bool, true, false, [], ◌∷◌, List, some, Any, Bytes, codes, Sublist,
}
use skywalking_go.Connection.{ConnectionStatus, connected, disconnect}
use skywalking_go.Reporter.Pipeline.{
  Pipeline, Event, sends, rounds, object, delivered, failed, exited, opening, run, close,
  new_pipeline,
}
use skywalking_go.Reporter.Pipeline.Refinement.{Reaches, actions, abstracts, run-Reaches}
use skywalking_go.Reporter.Pipeline.Drain.{
  taken, offered, run_in_order, good_rounds, all_delivered, close_drains,
}
use skywalking_go.Reporter.Heartbeat.{Reports, check_rounds, new_check, window-Reports}
use skywalking_go.Reporter.Commands.{Command, new_fetch, handle_commands}
use skywalking_go.Reporter.Commands.Latest.{IsLatest, create_times, handle_commands-IsLatest}
use skywalking_go.Reporter.Kafka
use skywalking_go.Reporter.Pprof
use skywalking_go.Reporter.Kafka.{SendLoop, fails, succeeds}
use skywalking_go.Reporter.Kafka.Laws.{all_fail, failures_logged, IsOrdered, check_rounds-IsOrdered}
use skywalking_go.Base.{arith}
use skywalking_go.Reporter.Pprof.{new_pprof_task_manager}
use skywalking_go.Reporter.Pprof.Tasks.{tasks-IsSound}
use skywalking_go.Reporter.Pprof.Upload.{upload_pprof_data_once, ready, sent, eof}
use skywalking_go.Reporter.Pprof.Upload.Content.{IsFront, upload-IsFront}

abbrev events : List (Event ℕ)
events =
    sends (object 1)
    ∷ rounds connected true delivered
    ∷ sends (object 2)
    ∷ rounds connected true failed
    ∷ sends (object 3)
    ∷ rounds disconnect true delivered
    ∷ rounds connected true delivered
    ∷ rounds connected true delivered
    ∷ []

test : (run true events new_pipeline).tried ≡ (1, failed) ∷ (2, delivered) ∷ []
unfolding run new_pipeline
test = refl

run-Reaches_example :
    Reaches
      (actions events)
      (record { waiting = []; arrived = []; is_shut = false })
      (abstracts (run true events new_pipeline))
run-Reaches_example = run-Reaches true events

run_in_order_example : Sublist (taken (run true events new_pipeline)) (offered events)
run_in_order_example = run_in_order true events

abbrev waiting : Pipeline ℕ
waiting = record {
  send_ch = 5 ∷ 6 ∷ [];
  is_closed = false;
  loop = opening;
  tried = [];
  released = 0;
}

close_drains_example : run true (good_rounds 4) (close waiting) ≡ record {
  send_ch = [];
  is_closed = true;
  loop = exited;
  tried = all_delivered (5 ∷ 6 ∷ []);
  released = 1;
}
unfolding run close
close_drains_example = close_drains waiting refl

abbrev rounds_of : List (ConnectionStatus × Bool)
rounds_of =
    (connected, true)
    ∷ (connected, true)
    ∷ (connected, false)
    ∷ (connected, true)
    ∷ (connected, true)
    ∷ (connected, true)
    ∷ (connected, true)
    ∷ (connected, true)
    ∷ (connected, true)
    ∷ (connected, true)
    ∷ (connected, true)
    ∷ []

window-Reports_example : Any Reports (check_rounds rounds_of new_check).1
unfolding new_check
window-Reports_example =
    window-Reports rounds_of new_check refl refl
      (refl, (refl, (refl, (refl, (refl, (refl, (refl, (refl, (refl, (refl, (refl, tt)))))))))))

abbrev commands : List Command
commands =
    record { command = codes "ProfileTaskQuery"; args = (codes "CreateTime", codes "900") ∷ [] }
    ∷ record { command = codes "ProfileTaskQuery"; args = (codes "CreateTime", codes "300") ∷ [] }
    ∷ []

handle_commands-IsLatest_example :
    IsLatest new_fetch.last_profile_command_time
      (create_times commands)
      (handle_commands commands new_fetch).last_profile_command_time
handle_commands-IsLatest_example = handle_commands-IsLatest commands new_fetch

abbrev kafka : SendLoop ℕ
kafka = record {
  send_ch = 1 ∷ 2 ∷ [];
  is_closed = true;
  writer_closed = false;
  consecutive_errors = 0;
  messages = [];
  logged = 0;
}

failures_logged_example : (Kafka.rounds (all_fail 2) kafka).logged ≡ 1
failures_logged_example = failures_logged 2 kafka (omega arith) (omega arith) refl

check_rounds-IsOrdered_example :
    IsOrdered (Kafka.check_rounds ((fails, succeeds) ∷ (succeeds, succeeds) ∷ []) Kafka.new_check)
check_rounds-IsOrdered_example =
    check_rounds-IsOrdered ((fails, succeeds) ∷ (succeeds, succeeds) ∷ [])

abbrev pprof_args : List (Bytes × Bytes)
pprof_args =
    (codes "TaskId", codes "p1")
    ∷ (codes "Events", codes "cpu")
    ∷ (codes "Duration", codes "5")
    ∷ (codes "CreateTime", codes "900")
    ∷ []

abbrev pprof_events : List Pprof.Event
pprof_events = Pprof.handles true true [] pprof_args ∷ Pprof.handles true true [] pprof_args ∷ []

tasks-IsSound_example : Pprof.Started.IsSound (Pprof.run pprof_events new_pprof_task_manager)
tasks-IsSound_example = tasks-IsSound pprof_events

upload-IsFront_example :
    IsFront
      (1 ∷ 2 ∷ 3 ∷ [])
      (upload_pprof_data_once 1 true (some ready) (λ n. sent) true (λ n. eof) (1 ∷ 2 ∷ 3 ∷ []))
upload-IsFront_example =
    upload-IsFront 1 0 true (some ready) (λ n. sent) true (λ n. eof) (1 ∷ 2 ∷ 3 ∷ []) tt
      (omega arith)
