-- ===== src/Connection/Fair.antt =====
-- What each step of the connection manager keeps.
use skywalking_go.Base.{
  ◌+◌, ◌-◌, ◌≡◌, refl, true, false, [], ◌∷◌, List, some, Bytes, ◌==◌, leb, str_eq_iff, str_eq_refl,
  arith, Bool-cases, Option-cases, inl, inr, All, All-imp,
}
use skywalking_go.Base.Map.{lookup}
use skywalking_go.Connection.{
  connected, OpenState, ManagedConnection, ConnectionManager, new_connection_manager, contains,
  share, get_connection, close_conn, get_created, release_connection, read_entry, read_status,
  write_status, observes, get_connection_status, Reading, World, new_world, held, drop_holder,
  take_reading, Event, gets, releases, asks, gets_created, reads, writes, hand_out, step, run,
}
use skywalking_go.Connection.Invariant.{
  update-IsSound, waste-IsSound, install-IsSound, remove-IsSound,
}
use skywalking_go.Connection.Holders.{
  IsHanded, IsRead, IsFair, refs-insert, refs-delete, insert-IsHanded, new-IsHanded, self-IsHanded,
  delete-IsHanded, held-drop_holder, All-drop_holder, All-take_reading, closes-IsRead,
}

share-IsFair :
    (a : Bytes) (x : ManagedConnection) (w : World)
    → lookup a w.manager.conn_manager ≡ some x
    → IsFair w
    → IsFair (record w { manager = share a x w.manager; holders = (a, x.connection) ∷ w.holders })
unfolding share
share-IsFair a x w e h =
    let x' : ManagedConnection = record x { ref_count = x.ref_count + 1 } in
    let o = h.sound.entries a x e in
    record {
      sound =
          update-IsSound a x x' w.manager e refl
            (record {
              is_held = omega arith;
              made = o.made;
              not_closed = o.not_closed;
              not_shutdown = o.not_shutdown;
            })
            h.sound;
      counted = λ b.
          let n = h.counted b in
          let i = str_eq_iff a b in
          let l = refs-insert a b x' w.manager.conn_manager in ground (arith, n, l, i, e);
      handed = (
        self-IsHanded a x' w.manager.conn_manager,
        All-imp (insert-IsHanded a x x' w.manager.conn_manager e refl) w.holders h.handed,
      );
      read = h.read;
    }

get-IsFair : (a : Bytes) (w : World) → IsFair w → IsFair (hand_out a (get_connection a w.manager) w)
unfolding hand_out get_connection
get-IsFair a w h = elim (Option-cases (lookup a w.manager.conn_manager)) [
  | inl e ↦
      rw (get_connection, e)
        (record { sound = h.sound; counted = h.counted; handed = h.handed; read = h.read })
  | inr (x, e) ↦ rw (get_connection, e) (share-IsFair a x w e h)
]

-- The connection that was made is new: it is the entry of the address, or is closed.
install-IsFair :
    (a : Bytes) (w : World) → IsFair w → IsFair (hand_out a (get_created true a w.manager) w)
unfolding hand_out get_created close_conn share
install-IsFair a w h = elim (Option-cases (lookup a w.manager.conn_manager)) [
  | inl e ↦
      let x : ManagedConnection = record {
        connection = w.manager.created;
        status = connected;
        ref_count = 1;
      } in
      rw e (record {
        sound = install-IsSound a x w.manager e refl (omega arith) (λ q. ground (arith, q)) h.sound;
        counted = λ b.
            let n = h.counted b in
            let i = str_eq_iff a b in
            let l = refs-insert a b x w.manager.conn_manager in ground (arith, n, l, i, e);
        handed = (
          self-IsHanded a x w.manager.conn_manager,
          All-imp (new-IsHanded a x w.manager.conn_manager e) w.holders h.handed,
        );
        read = h.read;
      })
  | inr (x, e) ↦
      let s = share-IsFair a x w e h in
      rw e (record {
        sound = waste-IsSound (share a x w.manager) s.sound;
        counted = s.counted;
        handed = s.handed;
        read = All-imp (closes-IsRead w.manager.created w.manager.closed) w.readings h.read;
      })
]

release-IsFair :
    (a : Bytes) (w : World)
    → (held a w.holders == 0) ≡ false
    → IsFair w
    → IsFair
        (record w { manager = release_connection a w.manager; holders = drop_holder a w.holders })
unfolding release_connection close_conn
release-IsFair a w q h = elim (Option-cases (lookup a w.manager.conn_manager)) [
  | inl e ↦ let n = h.counted a in ground (arith, n, q, e)
  | inr (x, e) ↦
      let o = h.sound.entries a x e in
      let m = w.manager.conn_manager in
      let drops = All-drop_holder (IsHanded m) a w.holders h.handed in
      elim (Bool-cases (leb (x.ref_count - 1) 0)) [
        | inl z ↦
            rw (release_connection, e, z)
              (record {
                sound = remove-IsSound a x w.manager e h.sound;
                counted = λ b.
                    let n = h.counted b in
                    let i = str_eq_iff a b in
                    let l = refs-delete a b m in
                    let d = held-drop_holder a b w.holders in ground (arith, n, l, i, e, d, z);
                handed =
                    delete-IsHanded a m (drop_holder a w.holders)
                      (let n = h.counted a in
                        let i = str_eq_refl a in
                        let d = held-drop_holder a a w.holders in ground (arith, n, i, d, z, e))
                      drops;
                read = All-imp (closes-IsRead x.connection w.manager.closed) w.readings h.read;
              })
        | inr z ↦
            let x' : ManagedConnection = record x { ref_count = x.ref_count - 1 } in
            rw (release_connection, e, z)
              (record {
                sound =
                    update-IsSound a x x' w.manager e refl
                      (record {
                        is_held = ground (arith, z);
                        made = o.made;
                        not_closed = o.not_closed;
                        not_shutdown = o.not_shutdown;
                      })
                      h.sound;
                counted = λ b.
                    let n = h.counted b in
                    let i = str_eq_iff a b in
                    let l = refs-insert a b x' m in
                    let d = held-drop_holder a b w.holders in ground (arith, n, l, i, e, d);
                handed = All-imp (insert-IsHanded a x x' m e refl) (drop_holder a w.holders) drops;
                read = h.read;
              })
      ]
]

ask-IsFair :
    (a : Bytes) (w : World)
    → IsFair w
    → IsFair (record w { manager = (get_connection_status a w.manager).1 })
unfolding get_connection_status
ask-IsFair a w h = elim (Option-cases (lookup a w.manager.conn_manager)) [
  | inl e ↦
      rw (get_connection_status, e)
        (record { sound = h.sound; counted = h.counted; handed = h.handed; read = h.read })
  | inr (x, e) ↦
      let o = (h.sound.entries a x e).not_closed in
      rw (get_connection_status, e, o)
        (record { sound = h.sound; counted = h.counted; handed = h.handed; read = h.read })
]

write-IsFair :
    (r : Reading) (rs : List Reading) (w : World)
    → IsRead w.manager.closed r
    → All (IsRead w.manager.closed) rs
    → IsFair w
    → IsFair (record w { manager = write_status r w.manager; readings = rs })
unfolding write_status
write-IsFair r rs w ok oks h = elim (Option-cases (lookup r.address w.manager.conn_manager)) [
  | inl e ↦
      rw (write_status, e)
        (record { sound = h.sound; counted = h.counted; handed = h.handed; read = oks })
  | inr (x, e) ↦
      let o = h.sound.entries r.address x e in
      let m = w.manager.conn_manager in
      elim (Bool-cases (x.connection == r.managed)) [
        | inr z ↦
            rw (write_status, e, z)
              (record { sound = h.sound; counted = h.counted; handed = h.handed; read = oks })
        | inl z ↦
            let x' : ManagedConnection = record x { status = r.new_status } in
            rw (write_status, e, z)
              (record {
                sound =
                    update-IsSound r.address x x' w.manager e refl
                      (record {
                        is_held = o.is_held;
                        made = o.made;
                        not_closed = o.not_closed;
                        not_shutdown =
                            λ s. let k = ok s in let n = o.not_closed in ground (arith, z, k, n);
                      })
                      h.sound;
                counted = λ b.
                    let n = h.counted b in
                    let i = str_eq_iff r.address b in
                    let l = refs-insert r.address b x' m in ground (arith, n, l, i, e);
                handed = All-imp (insert-IsHanded r.address x x' m e refl) w.holders h.handed;
                read = oks;
              })
      ]
]

new-IsRead :
    (a : Bytes) (m : ConnectionManager) (r : Reading) → read_entry a m ≡ some r → IsRead m.closed r
unfolding read_entry
new-IsRead a m r e = elim (Option-cases (lookup a m.conn_manager)) [
  | inl n ↦ ground (arith, e, n)
  | inr (x, n) ↦ λ q. ground (arith, e, n, q)
]

-- What is seen is true.
seen-IsRead :
    (st : OpenState) (r : Reading) (m : ConnectionManager) → IsRead m.closed (read_status st r m)
unfolding read_status
seen-IsRead st r m = elim (Bool-cases (contains r.managed m.closed)) [
  | inl z ↦ λ q. z
  | inr z ↦ λ q. ground (arith, z, q)
]

step-IsFair : (e : Event) (w : World) → IsFair w → IsFair (step e w)
unfolding step hand_out get_created
step-IsFair (gets a) w h = get-IsFair a w h
step-IsFair (gets_created true a) w h = install-IsFair a w h
step-IsFair (gets_created false a) w h = record {
  sound = h.sound;
  counted = h.counted;
  handed = h.handed;
  read = h.read;
}
step-IsFair (releases a) w h = elim (Bool-cases (held a w.holders == 0)) [
  | inl q ↦ rw (step, q) h
  | inr q ↦ rw (step, q) (release-IsFair a w q h)
]
step-IsFair (asks a) w h = ask-IsFair a w h
step-IsFair (reads a) w h = elim (Option-cases (read_entry a w.manager)) [
  | inl e ↦ rw (step, e) h
  | inr (r, e) ↦
      rw (step, e)
        (record {
          sound = h.sound;
          counted = h.counted;
          handed = h.handed;
          read = (new-IsRead a w.manager r e, h.read);
        })
]
step-IsFair (observes st i) w h = elim (Option-cases (take_reading i w.readings)) [
  | inl e ↦ rw (step, e) h
  | inr ((r, rs), e) ↦
      let (_, oks) = All-take_reading (IsRead w.manager.closed) i w.readings r rs e h.read in
      rw (step, e)
        (record {
          sound = h.sound;
          counted = h.counted;
          handed = h.handed;
          read = (seen-IsRead st r w.manager, oks);
        })
]
step-IsFair (writes i) w h = elim (Option-cases (take_reading i w.readings)) [
  | inl e ↦ rw (step, e) h
  | inr ((r, rs), e) ↦
      let (ok, oks) = All-take_reading (IsRead w.manager.closed) i w.readings r rs e h.read in
      elim (Bool-cases r.is_seen) [
        | inl z ↦ rw (step, e, z) (write-IsFair r rs w ok oks h)
        | inr z ↦ rw (step, e, z) h
      ]
]

run_from-IsFair : (es : List Event) (w : World) → IsFair w → IsFair (run es w)
unfolding run
run_from-IsFair [] w h = h
run_from-IsFair (e ∷ es) w h = run_from-IsFair es (step e w) (step-IsFair e w h)

pub run-IsFair : (es : List Event) → IsFair (run es new_world)
unfolding new_world new_connection_manager lookup
run-IsFair es = run_from-IsFair es new_world (record {
  sound = record {
    entries = λ a x e. ground (arith, e);
    apart = λ a b x y e. ground (arith, e);
    managed = λ c l. ground (arith, l);
    bounded = λ c e. ground (arith, e);
  };
  counted = λ a. refl;
  handed = tt;
  read = tt;
})
