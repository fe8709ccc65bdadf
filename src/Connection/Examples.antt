-- ===== src/Connection/Examples.antt =====
-- Two goroutines that make a connection for one address at a time, and release it.
use skywalking_go.Base.{
  ◌≡◌, ◌↔◌, refl, true, false, [], ◌∷◌, List, Any, Bytes, codes, arith, if◌then◌else◌, concat_map,
}
use skywalking_go.Base.Map.{lookup, insert}
use skywalking_go.Connection.{
  Event, gets, releases, asks, gets_created, reads, observes, writes, idle, run, new_world,
  contains, get_connection_status, shutdown, held,
}
use skywalking_go.Connection.Shutdown.{open_iff_held, shutdown_iff_unheld}
use skywalking_go.Connection.Deadline.{read_all, new_clear_deadline_conn}
use skywalking_go.Connection.Deadline.Cleared.{read_all_lem, has_frame}

abbrev address : Bytes
address = codes "oap:11800"

abbrev events : List Event
events =
    gets address
    ∷ gets address
    ∷ gets_created true address
    ∷ gets_created true address
    ∷ reads address
    ∷ observes idle 0
    ∷ releases address
    ∷ asks address
    ∷ writes 0
    ∷ []

test : (run events new_world).manager.closed ≡ 1 ∷ []
unfolding run new_world lookup insert
test = refl

open_iff_held_example :
    (contains 0 (run events new_world).manager.closed ≡ false)
    ↔ Any (λ h. h.1 ≡ 0) (run events new_world).holders
unfolding run new_world lookup insert
open_iff_held_example = open_iff_held events 0 (omega arith)

shutdown_iff_unheld_example :
    ((get_connection_status address (run events new_world).manager).0 ≡ shutdown)
    ↔ (held address (run events new_world).holders ≡ 0)
shutdown_iff_unheld_example = shutdown_iff_unheld events address

abbrev reads_of : List Bytes
reads_of = (0 ∷ 0 ∷ []) ∷ (1 ∷ 4 ∷ 0 ∷ 0 ∷ 0 ∷ 0 ∷ 0 ∷ []) ∷ (7 ∷ []) ∷ []

read_all_lem_example :
    ((read_all reads_of new_clear_deadline_conn).cleared ≡ has_frame (concat_map (λ b. b) reads_of))
    × ((read_all reads_of new_clear_deadline_conn).calls
        ≡ (if has_frame (concat_map (λ b. b) reads_of) then 1 else 0))
read_all_lem_example = read_all_lem reads_of
