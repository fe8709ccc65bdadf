-- ===== src/Connection.antt =====
-- plugins/core/reporter/conn_manager.go: the connections that the reporters share, by address, with
-- their reference counts. A function that takes the lock twice is two steps, and other goroutines may
-- come between them.
pub mod Invariant
pub mod Holders
pub mod Fair
pub mod Shutdown
pub mod Deadline
pub mod Examples
use skywalking_go.Base.{
  ℕ, zero, suc, ◌+◌, ◌-◌, Bool, true, false, [], ◌∷◌, ◌++◌, List, Option, none, some, Bytes,
  if◌then◌else◌, ◌==◌, leb, str_eq,
}
use skywalking_go.Base.Map.{Map, lookup, insert, delete}

pub data ConnectionStatus : Type 0 where
  connected disconnect shutdown : ConnectionStatus

-- The state of a connection that gRPC reports while it is not closed; a closed one is in `Shutdown`.
pub data OpenState : Type 0 where
  idle connecting ready transient_failure : OpenState

-- A connection is a number, which counts the calls of `createConnection` that succeeded.
pub record ManagedConnection : Type 0 where
  pub connection : ℕ
  pub status : ConnectionStatus
  pub ref_count : ℕ

-- `created` connections were made, and those of `closed` were closed.
pub record ConnectionManager : Type 0 where
  pub conn_manager : Map ManagedConnection
  pub created : ℕ
  pub closed : List ℕ

pub new_connection_manager : ConnectionManager
new_connection_manager = record { conn_manager = []; created = 0; closed = [] }

abbrev pub contains : ℕ → List ℕ → Bool
contains c [] = false
contains c (d ∷ ds) = if c == d then true else contains c ds

-- The entry of the address gets one more holder.
pub share : Bytes → ManagedConnection → ConnectionManager → ConnectionManager
share a x m = record m {
  conn_manager = insert a (record x { ref_count = x.ref_count + 1 }) m.conn_manager;
}

-- `GetConnection` up to the first `Unlock`: the connection, or none when one has to be made.
pub get_connection : Bytes → ConnectionManager → Option ℕ × ConnectionManager
unfolding share
get_connection a m = elim (lookup a m.conn_manager) [
  | none ↦ (none, m)
  | some x ↦ (some x.connection, share a x m)
]

pub close_conn : ℕ → ConnectionManager → ConnectionManager
close_conn c m = record m { closed = c ∷ m.closed }

-- `GetConnection` from `createConnection` on, `dialed` when that succeeds. A connection counts as made
-- when it meets the lock; one that comes late is closed in the same step, since nobody else has it.
pub get_created : Bool → Bytes → ConnectionManager → Option ℕ × ConnectionManager
unfolding share close_conn
get_created dialed a m =
    if dialed
    then (let made : ConnectionManager = record m { created = m.created + 1 } in
        elim (lookup a m.conn_manager) [
          | some x ↦ (some x.connection, close_conn m.created (share a x made))
          | none ↦ (
            some m.created,
            record made {
              conn_manager =
                  insert a (record { connection = m.created; status = connected; ref_count = 1 })
                    m.conn_manager;
            },
          )
        ])
    else (none, m)

-- No entry has a count below 1, so the subtraction of the naturals is the one of the code.
pub release_connection : Bytes → ConnectionManager → ConnectionManager
unfolding close_conn
release_connection a m = elim (lookup a m.conn_manager) [
  | none ↦ m
  | some x ↦
      if leb (x.ref_count - 1) 0
      then record (close_conn x.connection m) { conn_manager = delete a m.conn_manager }
      else record m {
        conn_manager = insert a (record x { ref_count = x.ref_count - 1 }) m.conn_manager;
      }
]

-- The connections of the entries.
abbrev connections : Map ManagedConnection → List ℕ
connections [] = []
connections ((a, x) ∷ m) = x.connection ∷ connections m

pub close_all : ConnectionManager → ConnectionManager
close_all m = record m { conn_manager = []; closed = connections m.conn_manager ++ m.closed }

-- What one round of `checkConnectionStatus` has read; `is_seen` says that it has called `GetState`.
pub record Reading : Type 0 where
  pub address : Bytes
  pub managed : ℕ
  pub new_status : ConnectionStatus
  pub is_seen : Bool

abbrev of_state : OpenState → ConnectionStatus
of_state transient_failure = disconnect
of_state other = connected

-- A round up to the first `Unlock`; none ends the goroutine.
pub read_entry : Bytes → ConnectionManager → Option Reading
read_entry a m = elim (lookup a m.conn_manager) [
  | none ↦ none
  | some x ↦
      some (record { address = a; managed = x.connection; new_status = connected; is_seen = false })
]

-- `GetState`, without the lock, and the `switch`. `st` is the state if the connection is not closed.
pub read_status : OpenState → Reading → ConnectionManager → Reading
read_status st r m = record r {
  new_status = if contains r.managed m.closed then shutdown else of_state st;
  is_seen = true;
}

-- The rest of the round, under the lock: an entry is the one that was read when it has the same connection.
pub write_status : Reading → ConnectionManager → ConnectionManager
write_status r m = elim (lookup r.address m.conn_manager) [
  | none ↦ m
  | some x ↦
      if x.connection == r.managed
      then record m {
        conn_manager = insert r.address (record x { status = r.new_status }) m.conn_manager;
      }
      else m
]

pub get_connection_status : Bytes → ConnectionManager → ConnectionStatus × ConnectionManager
get_connection_status a m = elim (lookup a m.conn_manager) [
  | none ↦ (shutdown, m)
  | some x ↦
      if contains x.connection m.closed
      then (
        shutdown,
        record m { conn_manager = insert a (record x { status = shutdown }) m.conn_manager },
      )
      else (x.status, m)
]

-- `holders` are the connections that `GetConnection` returned and that were not released yet, with their
-- address; `readings` are the rounds of `checkConnectionStatus` that hold no lock.
pub record World : Type 0 where
  pub manager : ConnectionManager
  pub holders : List (Bytes × ℕ)
  pub readings : List Reading

pub new_world : World
unfolding new_connection_manager
new_world = record { manager = new_connection_manager; holders = []; readings = [] }

abbrev pub held : Bytes → List (Bytes × ℕ) → ℕ
held a [] = 0
held a ((b, c) ∷ hs) = (if str_eq b a then 1 else 0) + held a hs

abbrev pub drop_holder : Bytes → List (Bytes × ℕ) → List (Bytes × ℕ)
drop_holder a [] = []
drop_holder a ((b, c) ∷ hs) = if str_eq b a then hs else (b, c) ∷ drop_holder a hs

abbrev pub take_reading : ℕ → List Reading → Option (Reading × List Reading)
take_reading i [] = none
take_reading zero (r ∷ rs) = some (r, rs)
take_reading (suc i) (r ∷ rs) = elim (take_reading i rs) [
  | none ↦ none
  | some (q, qs) ↦ some (q, r ∷ qs)
]

-- What the goroutines do, in any order. Only who holds a connection releases one.
pub data Event : Type 0 where
  gets releases asks : Bytes → Event
  gets_created : Bool → Bytes → Event
  reads : Bytes → Event
  observes : OpenState → ℕ → Event
  writes : ℕ → Event

hand_out : Bytes → Option ℕ × ConnectionManager → World → World
hand_out a (c, m) w = record w {
  manager = m;
  holders = elim c [ none ↦ w.holders | some c ↦ (a, c) ∷ w.holders ];
}

pub step : Event → World → World
unfolding hand_out get_connection get_created release_connection get_connection_status read_entry
    read_status write_status
step (gets a) w = hand_out a (get_connection a w.manager) w
step (gets_created dialed a) w = hand_out a (get_created dialed a w.manager) w
step (releases a) w =
    if held a w.holders == 0
    then w
    else record w { manager = release_connection a w.manager; holders = drop_holder a w.holders }
step (asks a) w = record w { manager = (get_connection_status a w.manager).1 }
step (reads a) w = elim (read_entry a w.manager) [
  | none ↦ w
  | some r ↦ record w { readings = r ∷ w.readings }
]
step (observes st i) w = elim (take_reading i w.readings) [
  | none ↦ w
  | some (r, rs) ↦ record w { readings = read_status st r w.manager ∷ rs }
]
step (writes i) w = elim (take_reading i w.readings) [
  | none ↦ w
  | some (r, rs) ↦
      if r.is_seen then record w { manager = write_status r w.manager; readings = rs } else w
]

pub run : List Event → World → World
unfolding step
run [] w = w
run (e ∷ es) w = run es (step e w)
