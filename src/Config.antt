-- ===== src/Config.antt =====
-- tools/go-agent/config/loader.go: a value of the configuration of the build tool, which may name a
-- variable of the environment. The environment is a parameter.
pub mod Value
use skywalking_go.Base.{
  ℕ, Bool, true, false, ◌&&◌, ◌||◌, [], ◌∷◌, List, Option, none, some, Bytes, str_eq, if◌then◌else◌,
  leb, ◌==◌,
}

pub record StringValue : Type 0 where
  pub env_key : Bytes
  pub default_value : Bytes

-- `[_A-Z0-9]`.
abbrev pub is_key_char : ℕ → Bool
is_key_char c = (c == 95) || (leb 65 c && leb c 90) || (leb 48 c && leb c 57)

-- `.*}` takes as much as it can: up to the last `}` of the line.
abbrev pub match_default : Bytes → Option Bytes
match_default [] = none
match_default (c ∷ s) = if c == 10 then none else elim (match_default s) [
  | some d ↦ some (c ∷ d)
  | none ↦ if c == 125 then some [] else none
]

-- The rest of `[_A-Z0-9]+:(.*)}`, after one letter of the name at least.
abbrev pub match_key : Bytes → Option (Bytes × Bytes)
match_key [] = none
match_key (c ∷ s) =
    if is_key_char c
    then elim (match_key s) [ some (k, d) ↦ some (c ∷ k, d) | none ↦ none ]
    else if c == 58
    then elim (match_default s) [ some d ↦ some ([], d) | none ↦ none ]
    else none

-- A match at the front of the text.
abbrev pub match_here : Bytes → Option (Bytes × Bytes)
match_here (a ∷ b ∷ c ∷ s) =
    if (a == 36) && (b == 123) && is_key_char c then match_key (c ∷ s) else none
match_here other = none

-- `EnvRegularRegex.FindStringSubmatch`: the groups of the first match.
abbrev pub find_match : Bytes → Option (Bytes × Bytes)
find_match [] = none
find_match (c ∷ s) = elim (match_here (c ∷ s)) [ some m ↦ some m | none ↦ find_match s ]

pub unmarshal_string : Bytes → StringValue → StringValue
unmarshal_string text v = elim (find_match text) [
  | none ↦ record v { default_value = text }
  | some (k, d) ↦ record { env_key = k; default_value = d }
]

-- `GetStringResult`; a variable that is not set is empty.
pub get_string_result : (Bytes → Bytes) → StringValue → Bytes
get_string_result getenv v =
    if str_eq v.env_key []
    then v.default_value
    else if str_eq (getenv v.env_key) []
    then v.default_value
    else getenv v.env_key

pub overwrite_from : StringValue → StringValue → StringValue
overwrite_from other v = record {
  env_key = if str_eq other.env_key [] then v.env_key else other.env_key;
  default_value = if str_eq other.default_value [] then v.default_value else other.default_value;
}
