-- ===== src/Discovery.antt =====
-- plugins/core/reporter/config_discovery.go: the configuration that the backend changes while the agent
-- runs, and its watchers. A watcher is an interface of the code: its state `W`, its value and what it
-- does when it is notified are parameters.
pub mod Handled
pub mod Examples
use skywalking_go.Base.{
  Bool, true, false, [], ◌∷◌, List, Option, none, some, Bytes, codes, str_eq, if◌then◌else◌,
}
use skywalking_go.Base.Map.{Map, lookup, insert}

pub data AgentConfigEventType : Type 0 where
  modify deleted : AgentConfigEventType

-- `AgentConfigChangeWatcher`.
pub record Watcher (W : Type 0) : Type 0 where
  pub key : W → Bytes
  pub notify : AgentConfigEventType → Bytes → W → W
  pub value : W → Bytes

pub record Service (W : Type 0) : Type 0 where
  pub uuid : Bytes
  pub watchers : Map W

-- The loop over the arguments: the UUID, and the new configuration.
pub read_config : List (Bytes × Bytes) → Bytes × Map Bytes → Bytes × Map Bytes
read_config [] s = s
read_config ((key, text) ∷ args) (uuid, configs) =
    if str_eq key (codes "SerialNumber")
    then read_config args (uuid, configs)
    else if str_eq key (codes "UUID")
    then read_config args (text, configs)
    else read_config args (uuid, insert key text configs)

module _ {W : Type 0} (watcher : Watcher W) where
  -- `BindWatchers`.
  pub bind : List W → Map W → Map W
  bind [] m = m
  bind (w ∷ ws) m = bind ws (insert (watcher.key w) w m)

  pub bind_watchers : List W → Service W → Service W
  unfolding bind
  bind_watchers ws s = record s { watchers = bind ws [] }

  -- What a watcher gets of the new configuration at its key.
  pub notify_one : Option Bytes → W → W
  notify_one none w = watcher.notify deleted [] w
  notify_one (some text) w =
      if str_eq text []
      then watcher.notify deleted [] w
      else if str_eq text (watcher.value w)
      then w
      else watcher.notify modify text w

  pub notify_all : Map Bytes → Map W → Map W
  unfolding notify_one lookup
  notify_all configs [] = []
  notify_all configs ((key, w) ∷ m) =
      (key, notify_one (lookup key configs) w) ∷ notify_all configs m

  pub handle_command : List (Bytes × Bytes) → Service W → Service W
  unfolding read_config notify_all
  handle_command args s =
      let (uuid, configs) = read_config args ([], []) in
      if str_eq s.uuid uuid
      then s
      else record { uuid = uuid; watchers = notify_all configs s.watchers }
