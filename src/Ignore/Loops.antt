-- ===== src/Ignore/Loops.antt =====
-- The loops of `wildcardMatch` and `multiWildcardMatch` against the language of the patterns: what
-- each of them finds, given what `normalMatch` finds from the indices that the loop hands it.
use skywalking_go.Base.{
  ℕ, zero, suc, ◌-◌, ◌≤◌, ◌<◌, ◌≡◌, ◌≢◌, ◌⊎◌, inl, inr, refl, ap, subst, Bool, true, [], ◌∷◌, Bytes,
  All, length, drop, ◌==◌, Bool-cases, arith,
}
use skywalking_go.Ignore.{safe_char_at, rest_of_segment, find_in_segment, find_anywhere}
use skywalking_go.Ignore.Pattern.{
  Matches, literal, one, star_end, star_slash, star_more, stop, skip, all, deep, deep_slash,
  deep_skip,
}

-- A text with no zero byte: `safeCharAt` tells each of its bytes from its end.
abbrev pub HasNoZero : Bytes → Type 0
HasNoZero = All (λ c. c ≢ 0)

-- Reading at an index, by the text from that index on.
pub safe_char_at-drop_cons :
    (text : Bytes) (i : ℕ) {c : ℕ} {rest : Bytes}
    → drop i text ≡ c ∷ rest
    → (safe_char_at text i ≡ c) × (drop (suc i) text ≡ rest) × (i < length text)
unfolding safe_char_at
safe_char_at-drop_cons [] zero e = cc
safe_char_at-drop_cons [] (suc i) e = cc
safe_char_at-drop_cons (x ∷ text) zero e = (cc, cc, omega arith)
safe_char_at-drop_cons (x ∷ text) (suc i) e =
    let (a, b, h) = safe_char_at-drop_cons text i e in (a, b, omega arith)

pub safe_char_at-drop_nil :
    (text : Bytes) (i : ℕ) → drop i text ≡ [] → (safe_char_at text i ≡ 0) × (length text ≤ i)
unfolding safe_char_at
safe_char_at-drop_nil [] zero e = (refl, omega arith)
safe_char_at-drop_nil [] (suc i) e = (refl, omega arith)
safe_char_at-drop_nil (x ∷ text) zero e = cc
safe_char_at-drop_nil (x ∷ text) (suc i) e =
    let (a, h) = safe_char_at-drop_nil text i e in (a, omega arith)

pub length-drop : (text : Bytes) (i : ℕ) → length (drop i text) ≡ length text - i
length-drop text zero = omega arith
length-drop [] (suc i) = omega arith
length-drop (x ∷ text) (suc i) = omega (arith, length-drop text i)

-- The loop behind the last `*`, on the rest of the name.
pub rest_of_segment-Matches :
    (name : Bytes) {w : ℕ} (t : Bytes) (s : ℕ)
    → w ≡ b'*'
    → HasNoZero t
    → drop s name ≡ t
    → rest_of_segment (length t) name s ≡ true
    → Matches (w ∷ []) t
unfolding rest_of_segment
rest_of_segment-Matches name [] s w z e h = star_end w
rest_of_segment-Matches name {w = w'} (c ∷ t) s w z e h =
    let (at, e', lt) = safe_char_at-drop_cons name s e in
    let size = ap length e in
    elim (Bool-cases (c == b'/')) [
      | inl slash ↦ subst-nil t (ground (arith, length-drop name s)) (star_slash w (ground arith))
      | inr other ↦
          star_more w (ground arith)
            (rest_of_segment-Matches name t (suc s) w z.1 e' (ground arith))
    ]
  where
    subst-nil : (t : Bytes) → length t ≡ 0 → Matches (w' ∷ []) (c ∷ []) → Matches (w' ∷ []) (c ∷ t)
    subst-nil [] n m = m
    subst-nil (d ∷ t) n m = absurd (omega arith)

pub Matches-rest_of_segment :
    (name : Bytes) {w : ℕ} {t : Bytes} (s : ℕ)
    → w ≡ b'*'
    → Matches (w ∷ []) t
    → drop s name ≡ t
    → rest_of_segment (length t) name s ≡ true
unfolding rest_of_segment
Matches-rest_of_segment name s w (star_end _) e = refl
Matches-rest_of_segment name s w (star_slash {c = c} _ slash) e =
    let (at, e', lt) = safe_char_at-drop_cons name s e in
    ground (arith, length-drop name s, ap length e)
Matches-rest_of_segment name s w (star_more {c = c} _ other m) e =
    let (at, e', lt) = safe_char_at-drop_cons name s e in
    ground (arith, Matches-rest_of_segment name (suc s) w m e')
Matches-rest_of_segment name s w (literal n _) e = absurd (n w)
Matches-rest_of_segment name s w (one q _ _) e = absurd (omega arith)

pub literal_eq :
    {p c : ℕ} {ps t : Bytes} → p ≡ c → p ≢ b'*' → Matches ps t → Matches (p ∷ ps) (c ∷ t)
literal_eq {p} {c} {ps} {t} e n m = subst (λ x. Matches (p ∷ ps) (x ∷ t)) e (literal n m)

-- Only a `/` stands for a `/`, unless the pattern goes on with a `*`.
Matches-slash :
    {p c : ℕ} {ps t : Bytes}
    → p ≢ b'*'
    → c ≡ b'/'
    → Matches (p ∷ ps) (c ∷ t)
    → (p ≡ c) × Matches ps t
Matches-slash n slash (literal _ m) = (refl, m)
Matches-slash n slash (one _ other m) = absurd (other slash)
Matches-slash n slash (star_slash w _) = absurd (n w)
Matches-slash n slash (star_more w _ _) = absurd (n w)
Matches-slash n slash (stop w _ _) = absurd (n w)
Matches-slash n slash (skip w _ _ _) = absurd (n w)
Matches-slash n slash (all _ w _) = absurd (n w)
Matches-slash n slash (deep w _ _ _) = absurd (n w)
Matches-slash n slash (deep_slash w _ _ _) = absurd (n w)
Matches-slash n slash (deep_skip w _ _) = absurd (n w)

-- What a run of `normalMatch` from one index of the pattern has to mean.
abbrev pub Sound : (ℕ → ℕ → Bool) → Bytes → ℕ → Bytes → Type 0
Sound normal name p ps =
    (s : ℕ) (t : Bytes) → drop s name ≡ t → HasNoZero t → normal p s ≡ true → Matches ps t

-- `t` is the name from index `s` on.
abbrev pub At : Bytes → ℕ → Bytes → Type 0
At name s t = (drop s name ≡ t) × (s ≤ length name)

abbrev pub Complete : (ℕ → ℕ → Bool) → Bytes → ℕ → Bytes → Type 0
Complete normal name p ps =
    (s : ℕ) (t : Bytes) → At name s t → HasNoZero t → Matches ps t → normal p s ≡ true

module _ (normal : ℕ → ℕ → Bool) (name : Bytes) (p : ℕ) where
  pub find_in_segment-Matches :
      {w : ℕ} (pc : ℕ) (ps t : Bytes) (s : ℕ)
      → w ≡ b'*'
      → pc ≢ b'*'
      → Sound normal name p (pc ∷ ps)
      → Sound normal name (suc p) ps
      → drop s name ≡ t
      → HasNoZero t
      → find_in_segment normal pc p name (length t) s ≡ true
      → Matches (w ∷ pc ∷ ps) t
  unfolding find_in_segment
  find_in_segment-Matches pc ps [] s w n here next e z h = stop w n (here s [] e z h)
  find_in_segment-Matches pc ps (c ∷ t) s w n here next e z h =
      let (at, e', lt) = safe_char_at-drop_cons name s e in
      elim (Bool-cases (c == b'/')) [
        | inl slash ↦ stop w n (literal_eq (ground arith) n (next (suc s) t e' z.1 (ground arith)))
        | inr other ↦ elim (Bool-cases (normal p s)) [
          | inl hit ↦ stop w n (here s (c ∷ t) e z hit)
          | inr miss ↦
              skip w n (ground arith)
                (find_in_segment-Matches pc ps t (suc s) w n here next e' z.1 (ground arith))
        ]
      ]

  pub Matches-find_in_segment :
      {w pc : ℕ} {ps t : Bytes} (s : ℕ)
      → w ≡ b'*'
      → pc ≢ b'*'
      → Complete normal name p (pc ∷ ps)
      → Complete normal name (suc p) ps
      → At name s t
      → HasNoZero t
      → Matches (w ∷ pc ∷ ps) t
      → find_in_segment normal pc p name (length t) s ≡ true
  unfolding find_in_segment
  Matches-find_in_segment {t = []} s w n here next e z (stop _ _ m) = here s [] e z m
  Matches-find_in_segment {t = c ∷ t} s w n here next e z (stop _ _ m) =
      let (at, e', lt) = safe_char_at-drop_cons name s e.0 in
      elim (Bool-cases (c == b'/')) [
        | inl slash ↦
            let (same, rest) = Matches-slash n (ground arith) m in
            ground (arith, next (suc s) t (e', lt) z.1 rest)
        | inr other ↦ ground (arith, here s (c ∷ t) e z m)
      ]
  Matches-find_in_segment s w n here next e z (skip {t = t} _ _ other m) =
      let (at, e', lt) = safe_char_at-drop_cons name s e.0 in
      ground (arith, Matches-find_in_segment (suc s) w n here next (e', lt) z.1 m)
  Matches-find_in_segment s w n here next e z (literal x _) = absurd (x w)
  Matches-find_in_segment s w n here next e z (one q _ _) = absurd (omega arith)
  Matches-find_in_segment s w n here next e z (all _ _ w') = absurd (n w')
  Matches-find_in_segment s w n here next e z (deep _ w' _ _) = absurd (n w')
  Matches-find_in_segment s w n here next e z (deep_slash _ w' _ _) = absurd (n w')
  Matches-find_in_segment s w n here next e z (deep_skip _ w' _) = absurd (n w')

  -- The loop of `multiWildcardMatch`, for any language that is closed under longer names.
  pub find_anywhere-sound :
      (P : Bytes → Type 0) (t : Bytes) (s : ℕ)
      → ((c : ℕ) (t : Bytes) → P t → P (c ∷ t))
      → ((s : ℕ) (t : Bytes) → drop s name ≡ t → HasNoZero t → normal p s ≡ true → P t)
      → drop s name ≡ t
      → HasNoZero t
      → find_anywhere normal p (length t) s ≡ true
      → P t
  unfolding find_anywhere
  find_anywhere-sound P [] s more here e z h = here s [] e z h
  find_anywhere-sound P (c ∷ t) s more here e z h =
      let (at, e', lt) = safe_char_at-drop_cons name s e in
      elim (Bool-cases (normal p s)) [
        | inl hit ↦ here s (c ∷ t) e z hit
        | inr miss ↦ more c t (find_anywhere-sound P t (suc s) more here e' z.1 (ground arith))
      ]

  find_anywhere-hit : (k s : ℕ) → normal p s ≡ true → find_anywhere normal p k s ≡ true
  unfolding find_anywhere
  find_anywhere-hit zero s h = h
  find_anywhere-hit (suc k) s h = rw h

  find_anywhere-more :
      (k s : ℕ) → find_anywhere normal p k (suc s) ≡ true → find_anywhere normal p (suc k) s ≡ true
  unfolding find_anywhere
  find_anywhere-more k s h = ground arith

  pub Matches-find_anywhere :
      {w w' q : ℕ} {ps t : Bytes} (s : ℕ)
      → w ≡ b'*'
      → w' ≡ b'*'
      → ((s : ℕ) (t : Bytes)
          → At name s t
          → HasNoZero t
          → (q ≢ b'/') × Matches (q ∷ ps) t ⊎ (q ≡ b'/') × Matches ps t
          → normal p s ≡ true)
      → At name s t
      → HasNoZero t
      → Matches (w ∷ w' ∷ q ∷ ps) t
      → find_anywhere normal p (length t) s ≡ true
  Matches-find_anywhere s w w' here e z (deep {t = t} _ _ n m) =
      find_anywhere-hit (length t) s (here s t e z (inl (n, m)))
  Matches-find_anywhere s w w' here e z (deep_slash {t = t} _ _ n m) =
      find_anywhere-hit (length t) s (here s t e z (inr (n, m)))
  Matches-find_anywhere s w w' here e z (deep_skip {c = c} {t = t} _ _ m) =
      let (at, e', lt) = safe_char_at-drop_cons name s e.0 in
      find_anywhere-more (length t) s (Matches-find_anywhere (suc s) w w' here (e', lt) z.1 m)
  Matches-find_anywhere s w w' here e z (literal x _) = absurd (x w)
  Matches-find_anywhere s w w' here e z (one q _ _) = absurd (omega arith)
  Matches-find_anywhere s w w' here e z (stop _ n _) = absurd (n w')
  Matches-find_anywhere s w w' here e z (skip _ n _ _) = absurd (n w')
