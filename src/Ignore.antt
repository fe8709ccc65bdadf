-- ===== src/Ignore.antt =====
-- plugins/core/tracer_ignore.go: the operations that are not traced, by suffix and by path pattern.
pub mod Pattern
mod Loops
mod Wildcards
mod Rounds
pub mod Matching
pub mod Suffix
pub mod Examples
use skywalking_go.Base.{
  ℕ, zero, suc, ◌+◌, ◌-◌, Bool, true, false, not, ◌&&◌, ◌||◌, List, [], ◌∷◌, Option, none, some,
  Bytes, str_eq, length, get_or, drop, ◌==◌, if◌then◌else◌, leb,
}

-- A byte of the text, and 0 behind its end.
unfoldable pub safe_char_at : Bytes → ℕ → ℕ
safe_char_at value index = get_or value index 0

-- `wildcardMatch` behind the last byte of the pattern. The first argument is the number of bytes
-- from `s` to the end of the name; at zero the byte read is 0.
pub rest_of_segment : ℕ → Bytes → ℕ → Bool
rest_of_segment zero name s = true
rest_of_segment (suc k) name s =
    let sc = safe_char_at name s in
    let rest = rest_of_segment k name (suc s) in
    if sc == 0 then true else if sc == b'/' then s + 1 == length name else rest

-- The second loop of `wildcardMatch`; `normal` is `normalMatch` at two indices.
pub find_in_segment : (ℕ → ℕ → Bool) → ℕ → ℕ → Bytes → ℕ → ℕ → Bool
find_in_segment normal pc p name zero s = normal p s
find_in_segment normal pc p name (suc k) s =
    let sc = safe_char_at name s in
    let next = normal (suc p) (suc s) in
    let rest = find_in_segment normal pc p name k (suc s) in
    if sc == b'/' then if pc == sc then next else false else if normal p s then true else rest

pub wildcard_match : (ℕ → ℕ → Bool) → Bytes → ℕ → Bytes → ℕ → Bool
unfolding rest_of_segment find_in_segment safe_char_at
wildcard_match normal pattern p name s =
    let pc = safe_char_at pattern p in
    if pc == 0
    then rest_of_segment (length name - s) name s
    else find_in_segment normal pc p name (length name - s) s

-- The loop of `multiWildcardMatch`.
pub find_anywhere : (ℕ → ℕ → Bool) → ℕ → ℕ → ℕ → Bool
find_anywhere normal p zero s = normal p s
find_anywhere normal p (suc k) s =
    let rest = find_anywhere normal p k (suc s) in if normal p s then true else rest

pub multi_wildcard_match : (ℕ → ℕ → Bool) → Bytes → ℕ → Bytes → ℕ → Bool
unfolding find_anywhere safe_char_at
multi_wildcard_match normal pattern p name s =
    let pc = safe_char_at pattern p in
    let from = (if pc == b'/' then suc p else p) in
    if pc == 0 then true else find_anywhere normal from (length name - s) s

-- A round of the loop and a call from a wildcard both move `p` forward, so the fuel bounds the rest
-- of the pattern.
pub normal_match : ℕ → Bytes → ℕ → Bytes → ℕ → Bool
unfolding wildcard_match multi_wildcard_match safe_char_at
normal_match zero pattern p name s = false
normal_match (suc fuel) pattern p name s =
    let pc = safe_char_at pattern p in
    let sc = safe_char_at name s in
    let normal = λ (p' s' : ℕ). normal_match fuel pattern p' name s' in
    let next = normal (suc p) (suc s) in
    if leb (length pattern) p
    then s == length name
    else if pc == b'*'
    then (if safe_char_at pattern (suc p) == b'*'
        then multi_wildcard_match normal pattern (suc (suc p)) name s
        else wildcard_match normal pattern (suc p) name s)
    else if (pc == b'?' && (not (sc == 0) && not (sc == b'/'))) || (pc == sc)
    then next
    else false

-- One call of `normalMatch(pattern, 0, operationName, 0)`, with fuel for the whole pattern.
pub path_match : Bytes → Bytes → Bool
unfolding normal_match
path_match pattern name = normal_match (suc (length pattern)) pattern 0 name 0

unfoldable pub trace_ignore_path : Bytes → List Bytes → Bool
unfolding path_match
trace_ignore_path name [] = false
trace_ignore_path name (pattern ∷ patterns) =
    if path_match pattern name then true else trace_ignore_path name patterns

-- `strings.LastIndex` of one byte: the index of its last occurrence.
last_index : ℕ → Bytes → Option ℕ
last_index c [] = none
last_index c (d ∷ s) = elim (last_index c s) [
  | none ↦ if d == c then some 0 else none
  | some i ↦ some (suc i)
]

some_equals : Bytes → List Bytes → Bool
some_equals text [] = false
some_equals text (suffix ∷ suffixes) =
    if str_eq suffix text then true else some_equals text suffixes

unfoldable pub ignore_suffix : Bytes → List Bytes → Bool
unfolding last_index some_equals
ignore_suffix name [] = false
ignore_suffix name (suffix ∷ suffixes) = elim (last_index b'.' name) [
  | none ↦ false
  | some i ↦ some_equals (drop i name) (suffix ∷ suffixes)
]

unfoldable pub tracer_ignore : Bytes → List Bytes → List Bytes → Bool
unfolding ignore_suffix trace_ignore_path
tracer_ignore name suffixes patterns =
    ignore_suffix name suffixes || trace_ignore_path name patterns
