-- ===== src/Ignore/Suffix.antt =====
-- The operations that are ignored: by the text from their last dot on, or by a path pattern.
use skywalking_go.Base.{
  ℕ, zero, suc, ◌≡◌, ◌≢◌, ◌↔◌, ◌⊎◌, inl, inr, refl, sym, ◌∙◌, ap, subst, true, List, [], ◌∷◌, ◌++◌,
  none, some, Bytes, All, Any, drop, str_eq, str_eq_iff, Bool-cases, Option-cases, arith,
}
use skywalking_go.Ignore.{
  path_match, trace_ignore_path, last_index, some_equals, ignore_suffix, tracer_ignore,
}
use skywalking_go.Ignore.Pattern.{Matches}
use skywalking_go.Ignore.Loops.{HasNoZero}
use skywalking_go.Ignore.Matching.{path_match_iff}

abbrev pub HasNoDot : Bytes → Type 0
HasNoDot = All (λ c. c ≢ b'.')

-- The name ends in a listed suffix, which begins at the last dot of the name.
pub record HasSuffix (name : Bytes) (suffixes : List Bytes) : Type 0 where
  pub stem : Bytes
  pub extension : Bytes
  pub split : name ≡ stem ++ b'.' ∷ extension
  pub last : HasNoDot extension
  pub listed : Any (λ suffix. suffix ≡ b'.' ∷ extension) suffixes

some_equals→Any :
    (text : Bytes) (suffixes : List Bytes)
    → some_equals text suffixes ≡ true
    → Any (λ suffix. suffix ≡ text) suffixes
unfolding some_equals
some_equals→Any text [] h = cc
some_equals→Any text (x ∷ xs) h = elim (Bool-cases (str_eq x text)) [
  | inl same ↦ inl ((str_eq_iff x text).0 same)
  | inr other ↦ inr (some_equals→Any text xs (ground arith))
]

Any→some_equals :
    (text : Bytes) (suffixes : List Bytes)
    → Any (λ suffix. suffix ≡ text) suffixes
    → some_equals text suffixes ≡ true
unfolding some_equals
Any→some_equals text [] h = absurd h
Any→some_equals text (x ∷ xs) (inl e) = rw ((str_eq_iff x text).1 e)
Any→some_equals text (x ∷ xs) (inr h) = ground (arith, Any→some_equals text xs h)

last_index-none : (s : Bytes) → last_index b'.' s ≡ none → HasNoDot s
unfolding last_index
last_index-none [] h = tt
last_index-none (c ∷ s) h = ground (arith, last_index-none s)

-- The text from its last dot on.
abbrev Tail : Bytes → ℕ → Type 0
Tail s i =
    (stem : Bytes) × (ext : Bytes) × (drop i s ≡ b'.' ∷ ext)
    × (s ≡ stem ++ b'.' ∷ ext)
    × HasNoDot ext

last_index-some : (s : Bytes) (i : ℕ) → last_index b'.' s ≡ some i → Tail s i
unfolding last_index
last_index-some [] i h = cc
last_index-some (c ∷ s) zero h =
    ([], s, ground arith, ground arith, last_index-none s (ground arith))
last_index-some (c ∷ s) (suc i) h =
    let (stem, ext, at, e, z) = last_index-some s i (ground arith) in
    (c ∷ stem, ext, at, ap (λ x. c ∷ x) e, z)

last_index-HasNoDot : (s : Bytes) → HasNoDot s → last_index b'.' s ≡ none
unfolding last_index
last_index-HasNoDot [] z = refl
last_index-HasNoDot (c ∷ s) z = ground (arith, last_index-HasNoDot s z.1)

last_index-append :
    (stem ext : Bytes)
    → HasNoDot ext
    → (i : ℕ) × (last_index b'.' (stem ++ b'.' ∷ ext) ≡ some i)
      × (drop i (stem ++ b'.' ∷ ext) ≡ b'.' ∷ ext)
unfolding last_index
last_index-append [] ext z = (0, ground (arith, last_index-HasNoDot ext z), refl)
last_index-append (c ∷ stem) ext z =
    let (i, e, at) = last_index-append stem ext z in (suc i, rw e, at)

ignore_suffix→HasSuffix :
    (name : Bytes) (suffixes : List Bytes)
    → ignore_suffix name suffixes ≡ true
    → HasSuffix name suffixes
unfolding ignore_suffix
ignore_suffix→HasSuffix name [] h = cc
ignore_suffix→HasSuffix name (x ∷ xs) h = elim (Option-cases (last_index b'.' name)) [
  | inl e ↦ absurd (ground arith)
  | inr (i, e) ↦
      let (stem, ext, at, e', z) = last_index-some name i e in
      record {
        stem = stem;
        extension = ext;
        split = e';
        last = z;
        listed =
            subst (λ t. Any (λ suffix. suffix ≡ t) (x ∷ xs)) at
              (some_equals→Any (drop i name) (x ∷ xs) (ground arith));
      }
]

HasSuffix→ignore_suffix :
    (name : Bytes) (suffixes : List Bytes)
    → HasSuffix name suffixes
    → ignore_suffix name suffixes ≡ true
unfolding ignore_suffix
HasSuffix→ignore_suffix name [] h = absurd h.listed
HasSuffix→ignore_suffix name (x ∷ xs) h =
    let text = h.stem ++ b'.' ∷ h.extension in
    let (i, e, tail) = last_index-append h.stem h.extension h.last in
    let listed = Any→some_equals (b'.' ∷ h.extension) (x ∷ xs) h.listed in
    let here : ignore_suffix text (x ∷ xs) ≡ some_equals (drop i text) (x ∷ xs) =
      rw (e, ignore_suffix) refl in
    subst (λ n. ignore_suffix n (x ∷ xs) ≡ true) (sym h.split)
      (here ∙ ap (λ t. some_equals t (x ∷ xs)) tail ∙ listed)

trace_ignore_path→Any :
    (name : Bytes) (patterns : List Bytes)
    → HasNoZero name
    → All HasNoZero patterns
    → trace_ignore_path name patterns ≡ true
    → Any (λ pattern. Matches pattern name) patterns
unfolding trace_ignore_path
trace_ignore_path→Any name [] zn zp h = cc
trace_ignore_path→Any name (x ∷ xs) zn zp h = elim (Bool-cases (path_match x name)) [
  | inl hit ↦ inl ((path_match_iff x name zp.0 zn).0 hit)
  | inr miss ↦ inr (trace_ignore_path→Any name xs zn zp.1 (ground arith))
]

Any→trace_ignore_path :
    (name : Bytes) (patterns : List Bytes)
    → HasNoZero name
    → All HasNoZero patterns
    → Any (λ pattern. Matches pattern name) patterns
    → trace_ignore_path name patterns ≡ true
unfolding trace_ignore_path
Any→trace_ignore_path name [] zn zp h = absurd h
Any→trace_ignore_path name (x ∷ xs) zn zp (inl m) = rw ((path_match_iff x name zp.0 zn).1 m)
Any→trace_ignore_path name (x ∷ xs) zn zp (inr h) =
    ground (arith, Any→trace_ignore_path name xs zn zp.1 h)

-- Where no text holds a zero byte, an operation is ignored exactly when the text from its last dot
-- on is a listed suffix, or its whole name is in the language of a listed path pattern.
pub tracer_ignore_iff :
    (name : Bytes) (suffixes patterns : List Bytes)
    → HasNoZero name
    → All HasNoZero patterns
    → (tracer_ignore name suffixes patterns ≡ true)
      ↔ (HasSuffix name suffixes ⊎ Any (λ pattern. Matches pattern name) patterns)
unfolding tracer_ignore
tracer_ignore_iff name suffixes patterns zn zp = (
  λ h. elim (Bool-cases (ignore_suffix name suffixes)) [
    | inl hit ↦ inl (ignore_suffix→HasSuffix name suffixes hit)
    | inr miss ↦ inr (trace_ignore_path→Any name patterns zn zp (ground arith))
  ],
  elim [
    | inl s ↦ rw (HasSuffix→ignore_suffix name suffixes s)
    | inr m ↦ ground (arith, Any→trace_ignore_path name patterns zn zp m)
  ],
)
