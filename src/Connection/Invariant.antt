-- ===== src/Connection/Invariant.antt =====
-- What holds of the entries of the connection manager after each operation.
use skywalking_go.Base.{
  ℕ, ◌+◌, ◌≤◌, ◌<◌, ◌≡◌, ◌≢◌, ◌⊎◌, refl, sym, subst, ◌∙◌, true, false, ◌∷◌, none, some, Bytes, ◌==◌,
  str_eq, str_eq_iff, str_eq_refl, arith, Bool-cases, inl, inr,
}
use skywalking_go.Base.Map.{Map, lookup, insert, delete, lookup-insert, lookup-delete}
use skywalking_go.Connection.{shutdown, ManagedConnection, ConnectionManager, contains}

-- An entry is held, its connection was made and is open, and its status does not say otherwise.
pub record IsOpen (m : ConnectionManager) (x : ManagedConnection) : Type 0 where
  pub is_held : 1 ≤ x.ref_count
  pub made : x.connection < m.created
  pub not_closed : contains x.connection m.closed ≡ false
  pub not_shutdown : x.status ≢ shutdown

pub record Manages (m : ConnectionManager) (c : ℕ) : Type 0 where
  pub address : Bytes
  pub entry : ManagedConnection
  pub found : lookup address m.conn_manager ≡ some entry
  pub same : entry.connection ≡ c

pub record IsSound (m : ConnectionManager) : Type 0 where
  pub entries : (a : Bytes) (x : ManagedConnection) → lookup a m.conn_manager ≡ some x → IsOpen m x
  pub apart :
      (a b : Bytes) (x y : ManagedConnection)
      → lookup a m.conn_manager ≡ some x
      → lookup b m.conn_manager ≡ some y
      → x.connection ≡ y.connection
      → a ≡ b
  pub managed : (c : ℕ) → c < m.created → contains c m.closed ≡ false → Manages m c
  pub bounded : (c : ℕ) → contains c m.closed ≡ true → c < m.created

-- An entry found after an insertion is the new one or was there.
insert-cases :
    (a b : Bytes) (x y : ManagedConnection) (m : Map ManagedConnection)
    → lookup b (insert a x m) ≡ some y
    → ((a ≡ b) × (x ≡ y)) ⊎ (lookup b m ≡ some y)
insert-cases a b x y m e =
    let l = lookup-insert a b x m in
    elim (Bool-cases (str_eq a b)) [
      | inl q ↦ inl ((str_eq_iff a b).0 q, ground (arith, l, e, q))
      | inr q ↦ inr (ground (arith, l, e, q))
    ]

-- What an operation leaves open stays so.
keeps-IsOpen :
    (m m' : ConnectionManager) (x : ManagedConnection)
    → m.created ≤ m'.created
    → contains x.connection m'.closed ≡ contains x.connection m.closed
    → IsOpen m x
    → IsOpen m' x
keeps-IsOpen m m' x l c o = record {
  is_held = o.is_held;
  made = let k = o.made in omega (arith, k, l);
  not_closed = c ∙ o.not_closed;
  not_shutdown = o.not_shutdown;
}

-- Only the entry `x'` of `a` is new, and none has its connection.
module _ (a : Bytes) (x' : ManagedConnection) (m : Map ManagedConnection) where
  insert-apart :
      ((b d : Bytes) (y z : ManagedConnection)
        → lookup b m ≡ some y
        → lookup d m ≡ some z
        → y.connection ≡ z.connection
        → b ≡ d)
      → ((b : Bytes) (y : ManagedConnection)
          → lookup b m ≡ some y
          → y.connection ≡ x'.connection
          → b ≡ a)
      → (b d : Bytes) (y z : ManagedConnection) → lookup b (insert a x' m) ≡ some y
      → lookup d (insert a x' m) ≡ some z
      → y.connection ≡ z.connection
      → b ≡ d
  insert-apart old new b d y z f g k = elim (insert-cases a b x' y m f) [
    | inl (p, q) ↦ elim (insert-cases a d x' z m g) [
      | inl (r, s) ↦ sym p ∙ r
      | inr s ↦ sym p ∙ sym (new d z s (ground (arith, k, q)))
    ]
    | inr q ↦ elim (insert-cases a d x' z m g) [
      | inl (r, s) ↦ new b y q (ground (arith, k, s)) ∙ r
      | inr s ↦ old b d y z q s k
    ]
  ]

-- An entry is replaced by one with the same connection.
pub update-IsSound :
    (a : Bytes) (x x' : ManagedConnection) (m : ConnectionManager)
    → lookup a m.conn_manager ≡ some x
    → x'.connection ≡ x.connection
    → IsOpen m x'
    → IsSound m
    → IsSound (record m { conn_manager = insert a x' m.conn_manager })
update-IsSound a x x' m e c o h =
    let m' : ConnectionManager = record m { conn_manager = insert a x' m.conn_manager } in
    record {
      entries = λ b y f. elim (insert-cases a b x' y m.conn_manager f) [
        | inl (p, q) ↦ subst (IsOpen m') q (keeps-IsOpen m m' x' (omega arith) refl o)
        | inr q ↦ keeps-IsOpen m m' y (omega arith) refl (h.entries b y q)
      ];
      apart = insert-apart a x' m.conn_manager h.apart (λ b y f k. h.apart b a y x f e (k ∙ c));
      managed = λ d made unclosed.
          let w = h.managed d made unclosed in
          let l = lookup-insert a w.address x' m.conn_manager in
          let f = w.found in
          elim (Bool-cases (str_eq a w.address)) [
            | inl q ↦
                let i = (str_eq_iff a w.address).0 q in
                let s = w.same in
                record {
                  address = w.address;
                  entry = x';
                  found = ground (arith, l, q);
                  same = ground (arith, c, e, f, i, s);
                }
            | inr q ↦ record {
              address = w.address;
              entry = w.entry;
              found = ground (arith, l, f, q);
              same = w.same;
            }
          ];
      bounded = h.bounded;
    }

-- A new connection is made, and closed at once.
pub waste-IsSound :
    (m : ConnectionManager)
    → IsSound m
    → IsSound (record m { created = m.created + 1; closed = m.created ∷ m.closed })
waste-IsSound m h =
    let m' : ConnectionManager = record m {
      created = m.created + 1;
      closed = m.created ∷ m.closed;
    } in
    record {
      entries = λ b y f.
          let o = h.entries b y f in
          let k = o.made in keeps-IsOpen m m' y (omega arith) (ground (arith, k)) o;
      apart = h.apart;
      managed = λ d made unclosed.
          let w = h.managed d (ground (arith, made, unclosed)) (ground (arith, unclosed)) in
          record { address = w.address; entry = w.entry; found = w.found; same = w.same };
      bounded = λ d q. let b = h.bounded d in ground (arith, b, q);
    }

-- A new connection is made for an address without an entry.
pub install-IsSound :
    (a : Bytes) (x : ManagedConnection) (m : ConnectionManager)
    → lookup a m.conn_manager ≡ none
    → x.connection ≡ m.created
    → 1 ≤ x.ref_count
    → x.status ≢ shutdown
    → IsSound m
    → IsSound (record m { created = m.created + 1; conn_manager = insert a x m.conn_manager })
install-IsSound a x m e c r n h =
    let m' : ConnectionManager = record m {
      created = m.created + 1;
      conn_manager = insert a x m.conn_manager;
    } in
    let b = h.bounded x.connection in
    record {
      entries = λ d y f. elim (insert-cases a d x y m.conn_manager f) [
        | inl (p, q) ↦ subst (IsOpen m') q (record {
          is_held = r;
          made = omega (arith, c);
          not_closed = ground (arith, b, c);
          not_shutdown = n;
        })
        | inr q ↦ keeps-IsOpen m m' y (omega arith) refl (h.entries d y q)
      ];
      apart =
          insert-apart a x m.conn_manager h.apart
            (λ d y f k. let l = (h.entries d y f).made in ground (arith, k, c, l));
      managed = λ d made unclosed. elim (Bool-cases (d == m.created)) [
        | inl q ↦ record {
          address = a;
          entry = x;
          found =
              let l = lookup-insert a a x m.conn_manager in
              let s = str_eq_refl a in ground (arith, l, s);
          same = ground (arith, c, q);
        }
        | inr q ↦
            let w = h.managed d (ground (arith, made, q)) unclosed in
            let f = w.found in
            let l = lookup-insert a w.address x m.conn_manager in
            let i = str_eq_iff a w.address in
            record {
              address = w.address;
              entry = w.entry;
              found = ground (arith, l, f, i, e);
              same = w.same;
            }
      ];
      bounded = λ d q. let k = h.bounded d q in omega (arith, k);
    }

-- The connection of an entry is closed, and the entry removed.
pub remove-IsSound :
    (a : Bytes) (x : ManagedConnection) (m : ConnectionManager)
    → lookup a m.conn_manager ≡ some x
    → IsSound m
    → IsSound
        (record m { conn_manager = delete a m.conn_manager; closed = x.connection ∷ m.closed })
remove-IsSound a x m e h =
    let m' : ConnectionManager = record m {
      conn_manager = delete a m.conn_manager;
      closed = x.connection ∷ m.closed;
    } in
    record {
      entries = λ d y f.
          let l = lookup-delete a d m.conn_manager in
          let old : lookup d m.conn_manager ≡ some y = ground (arith, l, f) in
          let i = str_eq_refl a in
          let p = h.apart d a y x old e in
          keeps-IsOpen m m' y (omega arith) (ground (arith, l, f, p, i)) (h.entries d y old);
      apart = λ d b y z f g.
          let l = lookup-delete a d m.conn_manager in
          let n = lookup-delete a b m.conn_manager in
          h.apart d b y z (ground (arith, l, f)) (ground (arith, n, g));
      managed = λ d made unclosed.
          let w = h.managed d made (ground (arith, unclosed)) in
          let f = w.found in
          let s = w.same in
          let l = lookup-delete a w.address m.conn_manager in
          let i = str_eq_iff a w.address in
          record {
            address = w.address;
            entry = w.entry;
            found = ground (arith, l, f, i, e, s, unclosed);
            same = w.same;
          };
      bounded =
          λ d q. let b = h.bounded d in let k = (h.entries a x e).made in ground (arith, b, q, k);
    }
