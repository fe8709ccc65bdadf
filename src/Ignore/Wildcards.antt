-- ===== src/Ignore/Wildcards.antt =====
-- `wildcardMatch` and `multiWildcardMatch` against the language of the patterns, for any `normal`
-- that does its part.
use skywalking_go.Base.{
  ℕ, suc, ◌-◌, ◌≤◌, ◌≡◌, ◌≢◌, inl, inr, ap, subst, Bool, true, [], ◌∷◌, Bytes, length, drop, ◌==◌,
  Bool-cases, arith,
}
use skywalking_go.Ignore.{safe_char_at, wildcard_match, multi_wildcard_match}
use skywalking_go.Ignore.Pattern.{Matches, all, deep, deep_slash, deep_skip}
use skywalking_go.Ignore.Loops.{
  HasNoZero, safe_char_at-drop_cons, safe_char_at-drop_nil, length-drop, rest_of_segment-Matches,
  Matches-rest_of_segment, Sound, At, Complete, find_in_segment-Matches, Matches-find_in_segment,
  find_anywhere-sound, Matches-find_anywhere,
}

module _ (normal : ℕ → ℕ → Bool) (pattern name : Bytes) where
  size : {t : Bytes} (s : ℕ) → drop s name ≡ t → length name - s ≡ length t
  size s e = omega (arith, length-drop name s, ap length e)

  pub wildcard_match-Matches :
      {w : ℕ} (p s : ℕ) (ps t : Bytes)
      → w ≡ b'*'
      → drop p pattern ≡ ps
      → HasNoZero ps
      → safe_char_at pattern p ≢ b'*'
      → Sound normal name p ps
      → Sound normal name (suc p) (drop (suc p) pattern)
      → drop s name ≡ t
      → HasNoZero t
      → wildcard_match normal pattern p name s ≡ true
      → Matches (w ∷ ps) t
  unfolding wildcard_match
  wildcard_match-Matches p s [] t w ep zp n here next e z h =
      rest_of_segment-Matches name t s w z e
        (ground (arith, safe_char_at-drop_nil pattern p ep, size s e))
  wildcard_match-Matches p s (pc ∷ ps) t w ep zp n here next e z h =
      let (at, ep', lt) = safe_char_at-drop_cons pattern p ep in
      find_in_segment-Matches normal name p pc ps t s w (ground arith) here
        (subst (Sound normal name (suc p)) ep' next) e z (ground (arith, zp.0, size s e))

  pub Matches-wildcard_match :
      {w : ℕ} (p s : ℕ) (ps t : Bytes)
      → w ≡ b'*'
      → drop p pattern ≡ ps
      → HasNoZero ps
      → safe_char_at pattern p ≢ b'*'
      → Complete normal name p ps
      → (suc p ≤ length pattern → Complete normal name (suc p) (drop (suc p) pattern))
      → At name s t
      → HasNoZero t
      → Matches (w ∷ ps) t
      → wildcard_match normal pattern p name s ≡ true
  unfolding wildcard_match
  Matches-wildcard_match p s [] t w ep zp n here next e z m = ground (
    arith,
    safe_char_at-drop_nil pattern p ep,
    size s e.0,
    Matches-rest_of_segment name s w m e.0,
  )
  Matches-wildcard_match p s (pc ∷ ps) t w ep zp n here next e z m =
      let (at, ep', lt) = safe_char_at-drop_cons pattern p ep in
      let found =
        Matches-find_in_segment normal name p s w (ground arith) here
          (subst (Complete normal name (suc p)) ep' (next lt)) e z m in
      ground (arith, zp.0, size s e.0, found)

  -- `**` at the end, before a `/` and before any other byte.
  pub multi_wildcard_match-Matches :
      {w w' : ℕ} (p s : ℕ) (ps t : Bytes)
      → w ≡ b'*'
      → w' ≡ b'*'
      → drop p pattern ≡ ps
      → HasNoZero ps
      → Sound normal name p ps
      → Sound normal name (suc p) (drop (suc p) pattern)
      → drop s name ≡ t
      → HasNoZero t
      → multi_wildcard_match normal pattern p name s ≡ true
      → Matches (w ∷ w' ∷ ps) t
  unfolding multi_wildcard_match
  multi_wildcard_match-Matches p s [] t w w' ep zp here next e z h = all t w w'
  multi_wildcard_match-Matches {w = v} {w' = v'} p s (pc ∷ ps) t w w' ep zp here next e z h =
      let (at, ep', lt) = safe_char_at-drop_cons pattern p ep in
      let next' = subst (Sound normal name (suc p)) ep' next in
      elim (Bool-cases (pc == b'/')) [
        | inl slash ↦
            find_anywhere-sound normal name (suc p) (Matches (v ∷ v' ∷ pc ∷ ps)) t s
              (λ c t m. deep_skip w w' m)
              (λ s t e z h. deep_slash w w' (ground arith) (next' s t e z h)) e z
              (ground (arith, zp.0, size s e))
        | inr other ↦
            find_anywhere-sound normal name p (Matches (v ∷ v' ∷ pc ∷ ps)) t s
              (λ c t m. deep_skip w w' m) (λ s t e z h. deep w w' (ground arith) (here s t e z h)) e
              z (ground (arith, zp.0, size s e))
      ]

  pub Matches-multi_wildcard_match :
      {w w' : ℕ} (p s : ℕ) (ps t : Bytes)
      → w ≡ b'*'
      → w' ≡ b'*'
      → drop p pattern ≡ ps
      → HasNoZero ps
      → Complete normal name p ps
      → (suc p ≤ length pattern → Complete normal name (suc p) (drop (suc p) pattern))
      → At name s t
      → HasNoZero t
      → Matches (w ∷ w' ∷ ps) t
      → multi_wildcard_match normal pattern p name s ≡ true
  unfolding multi_wildcard_match
  Matches-multi_wildcard_match p s [] t w w' ep zp here next e z m =
      ground (arith, safe_char_at-drop_nil pattern p ep)
  Matches-multi_wildcard_match p s (pc ∷ ps) t w w' ep zp here next e z m =
      let (at, ep', lt) = safe_char_at-drop_cons pattern p ep in
      let next' = subst (Complete normal name (suc p)) ep' (next lt) in
      elim (Bool-cases (pc == b'/')) [
        | inl slash ↦
            let found =
              Matches-find_anywhere normal name (suc p) s w w'
                (λ s t e z. elim [
                  | inl (n, m) ↦ absurd (n (ground arith))
                  | inr (_, m) ↦ next' s t e z m
                ])
                e z m in
            ground (arith, zp.0, size s e.0, found)
        | inr other ↦
            let found =
              Matches-find_anywhere normal name p s w w'
                (λ s t e z. elim [
                  | inl (_, m) ↦ here s t e z m
                  | inr (q, m) ↦ absurd (ground arith)
                ])
                e z m in
            ground (arith, zp.0, size s e.0, found)
      ]
