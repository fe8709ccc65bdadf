-- ===== src/Discovery/Handled.antt =====
-- What the watchers see of a command.
use skywalking_go.Base.{
  ◌≡◌, ◌≢◌, refl, ap, ◌∙◌, false, [], ◌∷◌, List, Option, none, some, Bytes, codes, str_eq,
  str_eq_iff, str_eq_refl, if◌then◌else◌, arith, Bool-cases, inl, inr,
}
use skywalking_go.Base.Map.{Map, lookup, insert, lookup-insert}
use skywalking_go.Discovery.{
  modify, deleted, Watcher, Service, read_config, notify_one, notify_all, handle_command,
}

-- The last text for a key among the arguments; the keys of the command itself have none.
abbrev pub config_at : Bytes → List (Bytes × Bytes) → Option Bytes
config_at k [] = none
config_at k ((key, text) ∷ args) = elim (config_at k args) [
  | some t ↦ some t
  | none ↦
      if str_eq key (codes "SerialNumber")
      then none
      else if str_eq key (codes "UUID")
      then none
      else if str_eq key k
      then some text
      else none
]

lookup-read_config :
    (args : List (Bytes × Bytes)) (uuid k : Bytes) (configs : Map Bytes)
    → lookup k (read_config args (uuid, configs)).1
      ≡ elim (config_at k args) [ some t ↦ some t | none ↦ lookup k configs ]
unfolding read_config
lookup-read_config [] uuid k configs = refl
lookup-read_config ((key, text) ∷ args) uuid k configs =
    let a = lookup-read_config args uuid k configs in
    let b = lookup-read_config args text k configs in
    let c = lookup-read_config args uuid k (insert key text configs) in
    let l = lookup-insert key k text configs in ground (arith, a, b, c, l)

str_eq_distinct : (s t : Bytes) → s ≢ t → str_eq s t ≡ false
str_eq_distinct s t n = elim (Bool-cases (str_eq s t)) [
  | inl e ↦ absurd (n ((str_eq_iff s t).0 e))
  | inr e ↦ e
]

option_eta :
    (o : Option Bytes) → elim o as (λ _. Option Bytes) [ some t ↦ some t | none ↦ none ] ≡ o
option_eta none = refl
option_eta (some t) = refl

module _ {W : Type 0} (watcher : Watcher W) where
  -- What the watcher of a key becomes.
  abbrev notified : Option Bytes → Option W → Option W
  notified text none = none
  notified text (some w) = some (notify_one watcher text w)

  lookup-notify_all :
      (k : Bytes) (configs : Map Bytes) (m : Map W)
      → lookup k (notify_all watcher configs m) ≡ notified (lookup k configs) (lookup k m)
  unfolding notify_all lookup
  lookup-notify_all k configs [] = refl
  lookup-notify_all k configs ((key, w) ∷ m) = elim (Bool-cases (str_eq key k)) [
    | inl e ↦
        let q = (str_eq_iff key k).0 e in
        let same : notify_one watcher (lookup key configs) w
            ≡ notify_one watcher (lookup k configs) w =
          ap (λ k. notify_one watcher (lookup k configs) w) q in
        rw e (ap some same)
    | inr e ↦ let h = lookup-notify_all k configs m in rw e h
  ]

  handled_lem :
      (args : List (Bytes × Bytes)) (s : Service W) (k : Bytes)
      → str_eq s.uuid (read_config args ([], [])).0 ≡ false
      → lookup k (handle_command watcher args s).watchers
        ≡ notified (config_at k args) (lookup k s.watchers)
  unfolding handle_command lookup
  handled_lem args s k e =
      let l = lookup-notify_all k (read_config args ([], [])).1 s.watchers in
      let r = lookup-read_config args [] k [] in
      let c : elim (config_at k args) [ some t ↦ some t | none ↦ none ] ≡ config_at k args =
        option_eta (config_at k args) in
      rw (handle_command, e) (l ∙ ap (λ o. notified o (lookup k s.watchers)) (r ∙ c))

  -- What becomes of the watcher of a key, `w`, with the text for the key: with none, or an empty one, it
  -- gets `deleted`; with the text that it has, nothing; and with another text, `modify` with that text.
  pub record IsNotified (text : Option Bytes) (w w' : W) : Type 0 where
    pub deletes : text ≡ none → w' ≡ watcher.notify deleted [] w
    pub deletes_empty : text ≡ some [] → w' ≡ watcher.notify deleted [] w
    pub keeps : watcher.value w ≢ [] → text ≡ some (watcher.value w) → w' ≡ w
    pub modifies :
        (t : Bytes) → t ≢ [] → t ≢ watcher.value w → text ≡ some t → w' ≡ watcher.notify modify t w

  notify_one-IsNotified :
      (text : Option Bytes) (w : W) → IsNotified text w (notify_one watcher text w)
  unfolding notify_one
  notify_one-IsNotified text w = record {
    deletes = λ e. rw e refl;
    deletes_empty = λ e. let r = str_eq_refl [] in ground (arith, e, r);
    keeps = λ n e.
        let a = str_eq_distinct (watcher.value w) [] n in
        let r = str_eq_refl (watcher.value w) in ground (arith, e, a, r);
    modifies = λ t n k e.
        let a = str_eq_distinct t [] n in
        let b = str_eq_distinct t (watcher.value w) k in ground (arith, e, a, b);
  }

  -- A command with a new UUID reaches the watcher of each key once, with the last text that the command
  -- gives for the key: with none or an empty one, it gets `deleted`; with the text that it has, nothing;
  -- with another text, `modify` with that text. No watcher comes or goes.
  pub lookup-handle_command :
      (args : List (Bytes × Bytes)) (s : Service W) (k : Bytes)
      → str_eq s.uuid (read_config args ([], [])).0 ≡ false
      → (lookup k s.watchers ≡ none → lookup k (handle_command watcher args s).watchers ≡ none)
        × ((w : W)
            → lookup k s.watchers ≡ some w
            → (w' : W) × (lookup k (handle_command watcher args s).watchers ≡ some w')
              × IsNotified (config_at k args) w w')
  lookup-handle_command args s k e =
      let l = handled_lem args s k e in
      (
        λ z. l ∙ ap (notified (config_at k args)) z,
        λ w z. (
          notify_one watcher (config_at k args) w,
          l ∙ ap (notified (config_at k args)) z,
          notify_one-IsNotified (config_at k args) w,
        ),
      )

  -- A command that is fetched again does nothing.
  pub handle_command_twice :
      (args : List (Bytes × Bytes)) (s : Service W)
      → handle_command watcher args (handle_command watcher args s) ≡ handle_command watcher args s
  unfolding handle_command
  handle_command_twice args s =
      let i = str_eq_refl (read_config args ([], [])).0 in
      elim (Bool-cases (str_eq s.uuid (read_config args ([], [])).0)) [
        | inl e ↦ rw (handle_command, e, e) refl
        | inr e ↦ rw (handle_command, e, i) refl
      ]
