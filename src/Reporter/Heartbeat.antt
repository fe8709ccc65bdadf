-- ===== src/Reporter/Heartbeat.antt =====
-- plugins/core/reporter/grpc/grpc.go: the goroutine of `check`, which reports the properties of the
-- instance and keeps it alive. The status of the connection and the answers of the backend are inputs.
use skywalking_go.Base.{
  ℕ, ◌+◌, ◌<◌, ◌≡◌, Bool, true, false, not, ◌||◌, [], ◌∷◌, List, if◌then◌else◌, length, leb, arith,
  All, Any, inl, inr, Bool-cases,
}
use skywalking_go.Connection.{ConnectionStatus, connected, disconnect, shutdown}

-- The variables of the goroutine; `ended` says that it returned.
pub record Check : Type 0 where
  pub instance_properties_submitted : Bool
  pub property_refresh_heartbeats : ℕ
  pub ended : Bool

unfoldable pub new_check : Check
new_check = record {
  instance_properties_submitted = false;
  property_refresh_heartbeats = 0;
  ended = false;
}

-- The calls of one round: whether the properties were reported, and whether the ping was sent.
pub record Calls : Type 0 where
  pub reports_properties : Bool
  pub keeps_alive : Bool

abbrev no_calls : Calls
no_calls = record { reports_properties = false; keeps_alive = false }

-- `reportInstanceProperties`, which succeeds when `accepted` holds.
pub report_properties : Bool → Check → Check
report_properties accepted c =
    if accepted
    then record c { instance_properties_submitted = true; property_refresh_heartbeats = 0 }
    else c

abbrev pub is_stale : Check → Bool
is_stale c = not c.instance_properties_submitted || leb 10 c.property_refresh_heartbeats

pub check_round : ConnectionStatus → Bool → Check → Check × Calls
unfolding report_properties
check_round status accepted c = if c.ended then (c, no_calls) else elim status [
  | shutdown ↦ (record c { ended = true }, no_calls)
  | disconnect ↦ (record c { instance_properties_submitted = false }, no_calls)
  | connected ↦
      let c' = if is_stale c then report_properties accepted c else c in
      (
        record c' { property_refresh_heartbeats = c'.property_refresh_heartbeats + 1 },
        record { reports_properties = is_stale c; keeps_alive = true },
      )
]

-- Rounds, with their calls.
pub check_rounds : List (ConnectionStatus × Bool) → Check → Check × List Calls
unfolding check_round
check_rounds [] c = (c, [])
check_rounds ((status, accepted) ∷ rs) c =
    let (c', call) = check_round status accepted c in
    let (c'', calls) = check_rounds rs c' in (c'', call ∷ calls)

abbrev pub IsConnected : ConnectionStatus × Bool → Type 0
IsConnected (status, accepted) = status ≡ connected

abbrev pub Reports : Calls → Type 0
Reports k = k.reports_properties ≡ true

stale_soon :
    (rs : List (ConnectionStatus × Bool)) (c : Check)
    → 10 < length rs + c.property_refresh_heartbeats
    → 0 < length rs
    → c.ended ≡ false
    → All IsConnected rs
    → Any Reports (check_rounds rs c).1
unfolding check_rounds check_round report_properties
stale_soon [] c l p e h = ground (arith, p)
stale_soon ((status, accepted) ∷ rs) c l p e (s, h) = elim (Bool-cases (is_stale c)) [
  | inl q ↦ inl (ground (arith, e, s, q))
  | inr q ↦
      let c' : Check = record c {
        property_refresh_heartbeats = c.property_refresh_heartbeats + 1;
      } in
      let i = stale_soon rs c' (omega (arith, l)) (ground (arith, q, l)) e h in
      inr (ground (arith, e, s, q, i))
]

-- As long as the connection is up, of any 11 rounds after each other one reports the properties of the
-- instance, so that a standby that does not know the instance learns it.
pub window-Reports :
    (rs : List (ConnectionStatus × Bool)) (c : Check)
    → length rs ≡ 11
    → c.ended ≡ false
    → All IsConnected rs
    → Any Reports (check_rounds rs c).1
window-Reports rs c l e h = stale_soon rs c (omega (arith, l)) (omega (arith, l)) e h
