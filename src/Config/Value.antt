-- ===== src/Config/Value.antt =====
-- What a value of the configuration means.
use skywalking_go.Base.{
  ℕ, ◌≡◌, ◌≢◌, ◌<◌, refl, true, [], ◌∷◌, ◌++◌, none, some, Bytes, str_eq, if◌then◌else◌, arith, All,
  length,
}
use skywalking_go.Config.{
  StringValue, is_key_char, match_default, match_key, match_here, find_match, unmarshal_string,
  get_string_result,
}

abbrev pub IsKeyChar : ℕ → Type 0
IsKeyChar c = is_key_char c ≡ true

-- A line of text.
abbrev pub IsLine : Bytes → Type 0
IsLine = All (λ c. c ≢ 10)

-- `${key:text}`.
abbrev pub placeholder : Bytes → Bytes → Bytes
placeholder key text = 36 ∷ 123 ∷ key ++ (58 ∷ text ++ (125 ∷ []))

match_default_lem : (d : Bytes) → IsLine d → match_default (d ++ (125 ∷ [])) ≡ some d
match_default_lem [] h = refl
match_default_lem (c ∷ d) (n, h) = let i = match_default_lem d h in ground (arith, n, i)

match_key_lem :
    (k d : Bytes)
    → All IsKeyChar k
    → IsLine d
    → match_key (k ++ (58 ∷ d ++ (125 ∷ []))) ≡ some (k, d)
match_key_lem [] d a h = let i = match_default_lem d h in ground (arith, i)
match_key_lem (c ∷ k) d (b, a) h = let i = match_key_lem k d a h in ground (arith, b, i)

-- A placeholder with a name of capital letters, digits and `_`, and a default of one line, which may
-- itself have braces and colons, is read as the variable or, when that is not set or empty, the default.
pub placeholder_result :
    (getenv : Bytes → Bytes) (key text : Bytes) (v : StringValue)
    → 0 < length key
    → All IsKeyChar key
    → IsLine text
    → get_string_result getenv (unmarshal_string (placeholder key text) v)
      ≡ (if str_eq (getenv key) [] then text else getenv key)
unfolding unmarshal_string get_string_result
placeholder_result getenv [] text v l a h = ground (arith, l)
placeholder_result getenv (c ∷ k) text v l (b, a) h =
    let m = match_key_lem (c ∷ k) text (b, a) h in ground (arith, m, b)

no_match_here : (c : ℕ) (s : Bytes) → c ≢ 36 → match_here (c ∷ s) ≡ none
no_match_here c [] n = refl
no_match_here c (b ∷ []) n = refl
no_match_here c (b ∷ d ∷ s) n = ground (arith, n)

no_match : (s : Bytes) → All (λ c. c ≢ 36) s → find_match s ≡ none
no_match [] h = refl
no_match (c ∷ s) (n, h) =
    let i = no_match s h in let m = no_match_here c s n in ground (arith, i, m)

-- A text without `$` is its own result, whatever the environment.
pub plain_result :
    (getenv : Bytes → Bytes) (text : Bytes)
    → All (λ c. c ≢ 36) text
    → get_string_result getenv (unmarshal_string text (record { env_key = []; default_value = [] }))
      ≡ text
unfolding unmarshal_string get_string_result
plain_result getenv text h = let n = no_match text h in rw (unmarshal_string, n) refl
