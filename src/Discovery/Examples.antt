-- ===== src/Discovery/Examples.antt =====
-- A watcher that keeps the text that it is notified of.
use skywalking_go.Base.{◌≡◌, refl, [], ◌∷◌, List, none, some, Bytes, codes}
use skywalking_go.Base.Map.{lookup}
use skywalking_go.Discovery.{Watcher, Service, handle_command, read_config}
use skywalking_go.Discovery.Handled.{IsNotified, config_at, lookup-handle_command}

abbrev watcher : Watcher Bytes
watcher = record { key = λ w. codes "agent.sample_rate"; notify = λ e text w. text; value = λ w. w }

abbrev service : Service Bytes
service = record { uuid = codes "1"; watchers = (codes "agent.sample_rate", codes "1.0") ∷ [] }

abbrev args : List (Bytes × Bytes)
args = (codes "UUID", codes "2") ∷ (codes "agent.sample_rate", codes "0.5") ∷ []

lookup-handle_command_example :
    (lookup (codes "agent.sample_rate") service.watchers ≡ none
      → lookup (codes "agent.sample_rate") (handle_command watcher args service).watchers ≡ none)
    × ((w : Bytes)
        → lookup (codes "agent.sample_rate") service.watchers ≡ some w
        → (w' : Bytes) × (lookup
              (codes "agent.sample_rate")
              (handle_command watcher args service).watchers
            ≡ some w')
          × IsNotified watcher (config_at (codes "agent.sample_rate") args) w w')
unfolding read_config
lookup-handle_command_example =
    lookup-handle_command watcher args service (codes "agent.sample_rate") refl
