-- ===== src/Connection/Shutdown.antt =====
-- The connections that are held are the ones that are open.
use skywalking_go.Base.{
  ℕ, ◌≤◌, ◌<◌, ◌≡◌, ◌↔◌, false, [], ◌∷◌, List, some, Bytes, str_eq, str_eq_iff, arith, Bool-cases,
  Option-cases, inl, inr, All, All-imp, Any,
}
use skywalking_go.Base.Map.{Map, lookup}
use skywalking_go.Connection.{
  shutdown, ManagedConnection, ConnectionManager, contains, get_connection_status, new_world, held,
  Event, run,
}
use skywalking_go.Connection.Invariant.{IsSound}
use skywalking_go.Connection.Holders.{IsHanded}
use skywalking_go.Connection.Fair.{run-IsFair}

held-Any :
    (a : Bytes) (c : ℕ) (m : Map ManagedConnection) (hs : List (Bytes × ℕ)) (x : ManagedConnection)
    → lookup a m ≡ some x
    → x.connection ≡ c
    → 1 ≤ held a hs
    → All (IsHanded m) hs
    → Any (λ h. h.1 ≡ c) hs
held-Any a c m [] x e k l h = ground (arith, l)
held-Any a c m ((b, d) ∷ hs) x e k l ((y, f, g), h) = elim (Bool-cases (str_eq b a)) [
  | inl q ↦ let i = str_eq_iff b a in inl (ground (arith, i, q, e, f, g, k))
  | inr q ↦ inr (held-Any a c m hs x e k (ground (arith, q, l)) h)
]

Any-open :
    (c : ℕ) (m : ConnectionManager) (hs : List (Bytes × ℕ))
    → IsSound m
    → All (IsHanded m.conn_manager) hs
    → Any (λ h. h.1 ≡ c) hs
    → contains c m.closed ≡ false
Any-open c m [] s h n = ground (arith, n)
Any-open c m ((b, d) ∷ hs) s ((y, f, g), h) (inl k) =
    let o = (s.entries b y f).not_closed in ground (arith, o, g, k)
Any-open c m ((b, d) ∷ hs) s (i, h) (inr n) = Any-open c m hs s h n

-- However the goroutines interleave when they get and release connections, look at their status and
-- poll it, and also when two of them make a connection for one address: a connection that was made is
-- open exactly as long as somebody holds it. None is closed under a holder, and none is left open.
pub open_iff_held :
    (es : List Event) (c : ℕ)
    → c < (run es new_world).manager.created
    → (contains c (run es new_world).manager.closed ≡ false)
      ↔ Any (λ h. h.1 ≡ c) (run es new_world).holders
open_iff_held es c l =
    let w = run es new_world in
    let h = run-IsFair es in
    (
      λ o.
          let k = h.sound.managed c l o in
          let e = k.found in
          let n = h.counted k.address in
          let r = (h.sound.entries k.address k.entry k.found).is_held in
          held-Any k.address c w.manager.conn_manager w.holders k.entry k.found k.same
            (ground (arith, e, n, r)) h.handed,
      λ n. Any-open c w.manager w.holders h.sound h.handed n,
    )

-- In the same interleavings, `GetConnectionStatus` says `Shutdown` of an address exactly when nobody
-- holds a connection for it: a late write of the goroutine that polls never says it of a live one.
pub shutdown_iff_unheld :
    (es : List Event) (a : Bytes)
    → ((get_connection_status a (run es new_world).manager).0 ≡ shutdown)
      ↔ (held a (run es new_world).holders ≡ 0)
unfolding get_connection_status
shutdown_iff_unheld es a =
    let w = run es new_world in
    let h = run-IsFair es in
    let n = h.counted a in
    elim (Option-cases (lookup a w.manager.conn_manager)) [
      | inl e ↦ (λ s. ground (arith, n, e), λ u. ground (arith, e))
      | inr (x, e) ↦
          let o = h.sound.entries a x e in
          let r = o.is_held in
          let z = o.not_closed in
          let t = o.not_shutdown in
          (λ s. ground (arith, e, z, t, s), λ u. ground (arith, n, u, e, r))
    ]

-- Holders get what they share: all connections held for one address are the same one.
pub held_same :
    (es : List Event) (a : Bytes)
    → (c : ℕ) × All (λ h. h.0 ≡ a → h.1 ≡ c) (run es new_world).holders
held_same es a =
    let w = run es new_world in
    let h = run-IsFair es in
    elim (Option-cases (lookup a w.manager.conn_manager)) [
      | inl e ↦ (0, All-imp (λ (b, d) (y, f, g) k. ground (arith, e, f, k)) w.holders h.handed)
      | inr (x, e) ↦ (
        x.connection,
        All-imp (λ (b, d) (y, f, g) k. ground (arith, e, f, g, k)) w.holders h.handed,
      )
    ]
