-- ===== src/Backend.antt =====
-- plugins/core/reporter/backend_addresses.go: the list of backend addresses in the configuration. The
-- text is ASCII, so `strings.TrimSpace` removes six characters.
pub mod Distinct
pub mod Examples
use skywalking_go.Base.{
  ℕ, Bool, true, false, not, ◌&&◌, ◌||◌, [], ◌∷◌, ◌++◌, List, Option, none, some, pos, lt_int,
  Bytes, str_eq, if◌then◌else◌, leb, ◌==◌,
}
use skywalking_go.Text.Parts.{split}
use skywalking_go.Text.Number.{parsed, failed, parse_int, itoa}

abbrev is_space : ℕ → Bool
is_space c = (leb 9 c && leb c 13) || (c == 32)

abbrev pub is_empty : Bytes → Bool
is_empty [] = true
is_empty (c ∷ s) = false

abbrev trim_left : Bytes → Bytes
trim_left [] = []
trim_left (c ∷ s) = if is_space c then trim_left s else c ∷ s

abbrev trim_right : Bytes → Bytes
trim_right [] = []
trim_right (c ∷ s) = if is_space c && is_empty (trim_right s) then [] else c ∷ trim_right s

-- `strings.TrimSpace`.
abbrev pub trim_space : Bytes → Bytes
trim_space s = trim_right (trim_left s)

abbrev pub has_byte : ℕ → Bytes → Bool
has_byte b [] = false
has_byte b (c ∷ s) = if c == b then true else has_byte b s

-- The text before and behind the first, or the last, byte of this value.
abbrev split_first : ℕ → Bytes → Option (Bytes × Bytes)
split_first b [] = none
split_first b (c ∷ s) =
    if c == b
    then some ([], s)
    else elim (split_first b s) [ none ↦ none | some (before, behind) ↦ some (c ∷ before, behind) ]

abbrev split_last : ℕ → Bytes → Option (Bytes × Bytes)
split_last b [] = none
split_last b (c ∷ s) = elim (split_last b s) [
  | some (before, behind) ↦ some (c ∷ before, behind)
  | none ↦ if c == b then some ([], s) else none
]

-- What follows the `]` of a host in brackets: one colon and the port.
abbrev bracket_port : Bytes → Option Bytes
bracket_port [] = none
bracket_port (c ∷ port) = if (c == 58) && not (has_byte 58 port) then some port else none

-- `net.SplitHostPort` of a text that starts with `[`, which is left out here.
abbrev split_bracket : Bytes → Option (Bytes × Bytes)
split_bracket rest = elim (split_first 93 rest) [
  | none ↦ none
  | some (host, after) ↦ elim (bracket_port after) [
    | none ↦ none
    | some port ↦ if has_byte 91 rest || has_byte 93 after then none else some (host, port)
  ]
]

abbrev split_plain : Bytes → Option (Bytes × Bytes)
split_plain s = elim (split_last 58 s) [
  | none ↦ none
  | some (host, port) ↦
      if has_byte 58 host || has_byte 91 s || has_byte 93 s then none else some (host, port)
]

-- `net.SplitHostPort`.
abbrev pub split_host_port : Bytes → Option (Bytes × Bytes)
split_host_port [] = none
split_host_port (c ∷ s) = if c == 91 then split_bracket s else split_plain (c ∷ s)

-- `net.JoinHostPort`.
abbrev pub join_host_port : Bytes → Bytes → Bytes
join_host_port host port =
    if has_byte 58 host then 91 ∷ host ++ (93 ∷ 58 ∷ port) else host ++ (58 ∷ port)

abbrev all_digits : Bytes → Bool
all_digits [] = true
all_digits (c ∷ s) = leb 48 c && leb c 57 && all_digits s

-- The port as `strconv.Itoa` writes its number, which is from 1 to 65535.
abbrev port_of : Bytes → Option Bytes
port_of port =
    if all_digits port
    then elim (parse_int false 64 port) [
      | failed n ↦ none
      | parsed n ↦ if lt_int n (pos 1) || lt_int (pos 65535) n then none else some (itoa n)
    ]
    else none

-- `splitBackendServiceAddress`.
pub split_backend_service_address : Bytes → Option (Bytes × Bytes)
split_backend_service_address addr =
    if is_empty (trim_space addr) then none else elim (split_host_port (trim_space addr)) [
      | none ↦ none
      | some (host, port) ↦
          if is_empty host || is_empty port
          then none
          else elim (port_of port) [ none ↦ none | some number ↦ some (host, number) ]
    ]

-- A part of the list, when it is a valid address; an empty one is skipped like an invalid one.
pub normalize : Bytes → Option Bytes
unfolding split_backend_service_address
normalize part =
    if is_empty (trim_space part)
    then none
    else elim (split_backend_service_address (trim_space part)) [
      | none ↦ none
      | some (host, port) ↦ some (join_host_port host port)
    ]

abbrev pub contains_text : Bytes → List Bytes → Bool
contains_text a [] = false
contains_text a (b ∷ bs) = if str_eq b a then true else contains_text a bs

-- The loop over the parts; `seen` has what `out` has.
pub collect : List Bytes → List Bytes → List Bytes
unfolding normalize
collect out [] = out
collect out (part ∷ parts) = elim (normalize part) [
  | none ↦ collect out parts
  | some a ↦ if contains_text a out then collect out parts else collect (out ++ (a ∷ [])) parts
]

abbrev pub some_parts : List Bytes → Option (List Bytes)
some_parts [] = none
some_parts (a ∷ out) = some (a ∷ out)

-- A text without a comma.
pub parse_single : Bytes → List Bytes
unfolding split_backend_service_address
parse_single raw = elim (split_backend_service_address raw) [
  | none ↦ raw ∷ []
  | some (host, port) ↦ join_host_port host port ∷ []
]

-- `parseBackendServiceList`; none is an error.
pub parse_backend_service_list : Bytes → Option (List Bytes)
unfolding parse_single collect split
parse_backend_service_list raw =
    let text = trim_space raw in
    if is_empty text
    then none
    else if not (has_byte 44 text)
    then some (parse_single text)
    else some_parts (collect [] (split 44 text))
