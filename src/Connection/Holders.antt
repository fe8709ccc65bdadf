-- ===== src/Connection/Holders.antt =====
-- Who holds a connection, and what was read of it, after the entries change.
use skywalking_go.Base.{
  if◌then◌else◌, ℕ, zero, suc, ◌-◌, ◌≡◌, refl, sym, subst, true, [], ◌∷◌, List, none, some, Bytes,
  str_eq, str_eq_iff, str_eq_refl, arith, Bool-cases, Option-cases, inl, inr, All,
}
use skywalking_go.Base.Map.{Map, lookup, insert, delete, lookup-insert, lookup-delete}
use skywalking_go.Connection.{
  shutdown, ManagedConnection, contains, Reading, World, held, drop_holder, take_reading,
}
use skywalking_go.Connection.Invariant.{IsSound}

abbrev pub refs : Bytes → Map ManagedConnection → ℕ
refs a m = elim (lookup a m) [ none ↦ 0 | some x ↦ x.ref_count ]

-- The holder of a connection has the one of the entry.
abbrev pub IsHanded : Map ManagedConnection → Bytes × ℕ → Type 0
IsHanded m (a, c) = (x : ManagedConnection) × (lookup a m ≡ some x) × (x.connection ≡ c)

-- A reading says `Shutdown` only of a connection that is closed.
abbrev pub IsRead : List ℕ → Reading → Type 0
IsRead closed r = r.new_status ≡ shutdown → contains r.managed closed ≡ true

pub record IsFair (w : World) : Type 0 where
  pub sound : IsSound w.manager
  pub counted : (a : Bytes) → held a w.holders ≡ refs a w.manager.conn_manager
  pub handed : All (IsHanded w.manager.conn_manager) w.holders
  pub read : All (IsRead w.manager.closed) w.readings

pub refs-insert :
    (a b : Bytes) (x : ManagedConnection) (m : Map ManagedConnection)
    → refs b (insert a x m) ≡ (if str_eq a b then x.ref_count else refs b m)
refs-insert a b x m = let l = lookup-insert a b x m in ground (arith, l)

pub refs-delete :
    (a b : Bytes) (m : Map ManagedConnection)
    → refs b (delete a m) ≡ (if str_eq a b then 0 else refs b m)
refs-delete a b m = let l = lookup-delete a b m in ground (arith, l)

pub insert-IsHanded :
    (a : Bytes) (x x' : ManagedConnection) (m : Map ManagedConnection)
    → lookup a m ≡ some x
    → x'.connection ≡ x.connection
    → (h : Bytes × ℕ) → IsHanded m h
    → IsHanded (insert a x' m) h
insert-IsHanded a x x' m e c (b, d) (y, f, g) =
    let l = lookup-insert a b x' m in
    let i = str_eq_iff a b in
    elim (Bool-cases (str_eq a b)) [
      | inl q ↦ (x', ground (arith, l, q), ground (arith, c, e, f, g, i, q))
      | inr q ↦ (y, ground (arith, l, q, f), g)
    ]

pub new-IsHanded :
    (a : Bytes) (x : ManagedConnection) (m : Map ManagedConnection)
    → lookup a m ≡ none
    → (h : Bytes × ℕ) → IsHanded m h
    → IsHanded (insert a x m) h
new-IsHanded a x m e (b, d) (y, f, g) =
    let l = lookup-insert a b x m in let i = str_eq_iff a b in (y, ground (arith, l, e, f, i), g)

pub self-IsHanded :
    (a : Bytes) (x : ManagedConnection) (m : Map ManagedConnection)
    → IsHanded (insert a x m) (a, x.connection)
self-IsHanded a x m =
    let l = lookup-insert a a x m in let s = str_eq_refl a in (x, ground (arith, l, s), refl)

-- Without a holder of `a`, its entry can go.
pub delete-IsHanded :
    (a : Bytes) (m : Map ManagedConnection) (hs : List (Bytes × ℕ))
    → held a hs ≡ 0
    → All (IsHanded m) hs
    → All (IsHanded (delete a m)) hs
delete-IsHanded a m [] n h = tt
delete-IsHanded a m ((b, c) ∷ hs) n ((x, f, g), h) =
    let l = lookup-delete a b m in
    let i = str_eq_iff a b in
    let j = str_eq_iff b a in
    ((x, ground (arith, l, n, f, i, j), g), delete-IsHanded a m hs (ground (arith, n)) h)

pub held-drop_holder :
    (a b : Bytes) (hs : List (Bytes × ℕ))
    → held b (drop_holder a hs) ≡ (if str_eq a b then held b hs - 1 else held b hs)
held-drop_holder a b [] = ground arith
held-drop_holder a b ((d, c) ∷ hs) =
    let h = held-drop_holder a b hs in
    let i = str_eq_iff a b in
    let j = str_eq_iff d a in let k = str_eq_iff d b in ground (arith, h, i, j, k)

pub All-drop_holder :
    (P : Bytes × ℕ → Type 0) (a : Bytes) (hs : List (Bytes × ℕ))
    → All P hs
    → All P (drop_holder a hs)
All-drop_holder P a [] h = tt
All-drop_holder P a ((b, c) ∷ hs) (h, more) = elim (Bool-cases (str_eq b a)) [
  | inl q ↦ rw q more
  | inr q ↦ rw q (h, All-drop_holder P a hs more)
]

pub All-take_reading :
    (P : Reading → Type 0) (i : ℕ) (rs : List Reading) (r : Reading) (qs : List Reading)
    → take_reading i rs ≡ some (r, qs)
    → All P rs
    → P r × All P qs
All-take_reading P i [] r qs e h = ground (arith, e)
All-take_reading P zero (q ∷ rs) r qs e (h, more) =
    let a : r ≡ q = ground (arith, e) in
    let b : qs ≡ rs = ground (arith, e) in (subst P (sym a) h, subst (All P) (sym b) more)
All-take_reading P (suc i) (q ∷ rs) r qs e (h, more) = elim (Option-cases (take_reading i rs)) [
  | inl n ↦ ground (arith, e, n)
  | inr ((t, ts), n) ↦
      let (u, v) = All-take_reading P i rs t ts n more in
      let a : t ≡ r = ground (arith, e, n) in
      let b : q ∷ ts ≡ qs = ground (arith, e, n) in (subst P a u, subst (All P) b (h, v))
]

pub closes-IsRead :
    (c : ℕ) (closed : List ℕ) (r : Reading) → IsRead closed r → IsRead (c ∷ closed) r
closes-IsRead c closed r h e = let i = h e in ground (arith, i)
