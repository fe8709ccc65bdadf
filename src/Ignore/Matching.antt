-- ===== src/Ignore/Matching.antt =====
-- `normalMatch` decides the language of the path patterns.
use skywalking_go.Base.{
  ℕ, zero, suc, ◌+◌, ◌≤◌, ◌<◌, ◌≡◌, ◌↔◌, inl, inr, refl, sym, ◌∙◌, subst, true, [], ◌∷◌, Bytes,
  length, drop, ◌==◌, ==_iff, Bool-cases, arith,
}
use skywalking_go.Ignore.{normal_match, path_match}
use skywalking_go.Ignore.Pattern.{Matches, end}
use skywalking_go.Ignore.Loops.{
  HasNoZero, safe_char_at-drop_cons, safe_char_at-drop_nil, Sound, At, Complete,
}
use skywalking_go.Ignore.Rounds.{
  below, drop-HasNoZero, match_end, match_star-sound, Matches-match_star, match_plain-sound,
  Matches-match_plain,
}

not-Matches-nil : {c : ℕ} {t : Bytes} → ¬ Matches [] (c ∷ t)
not-Matches-nil m = elim m [ ]

module _ (pattern name : Bytes) (z : HasNoZero pattern) where
  round-sound :
      (fuel p s : ℕ) (ps t : Bytes)
      → ((q : ℕ) → Sound (below pattern name z fuel) name q (drop q pattern))
      → drop p pattern ≡ ps
      → drop s name ≡ t
      → HasNoZero t
      → normal_match (suc fuel) pattern p name s ≡ true
      → Matches ps t
  round-sound f p s [] [] ih ep e zt h = end
  round-sound f p s [] (c ∷ t) ih ep e zt h =
      let (at, e', lt) = safe_char_at-drop_cons name s e in
      let (last, over) = safe_char_at-drop_nil pattern p ep in
      let h' = sym (match_end pattern name z f p s over) ∙ h in absurd (ground arith)
  round-sound f p s (x ∷ ps) t ih ep e zt h =
      let (at, ep', lt) = safe_char_at-drop_cons pattern p ep in
      let zp = subst HasNoZero ep (drop-HasNoZero p pattern z) in
      elim (Bool-cases (x == b'*')) [
        | inl star ↦ match_star-sound pattern name z f p s ps t ih ep (ground arith) e zt h
        | inr plain ↦
            match_plain-sound pattern name z f p s t
              (subst (Sound (below pattern name z f) name (suc p)) ep' (ih (suc p))) ep zp.0
              (ground arith) e zt h
      ]

  normal_match-Sound : (fuel p : ℕ) → Sound (below pattern name z fuel) name p (drop p pattern)
  normal_match-Sound zero p s t e zt h = unfold normal_match in cc
  normal_match-Sound (suc f) p s t e zt h =
      round-sound f p s (drop p pattern) t (normal_match-Sound f) refl e zt h

  round-Complete :
      (fuel p s : ℕ) (ps t : Bytes)
      → ((q : ℕ)
          → p < q
          → q ≤ length pattern
          → Complete (below pattern name z fuel) name q (drop q pattern))
      → drop p pattern ≡ ps
      → At name s t
      → HasNoZero t
      → Matches ps t
      → normal_match (suc fuel) pattern p name s ≡ true
  round-Complete f p s [] [] ih ep e zt m =
      let (last, over) = safe_char_at-drop_nil pattern p ep in
      let (last', over') = safe_char_at-drop_nil name s e.0 in
      match_end pattern name z f p s over ∙ (==_iff s (length name)).1 (omega arith)
  round-Complete f p s [] (c ∷ t) ih ep e zt m = elim (not-Matches-nil m) [ ]
  round-Complete f p s (x ∷ ps) t ih ep e zt m =
      let (at, ep', lt) = safe_char_at-drop_cons pattern p ep in
      elim (Bool-cases (x == b'*')) [
        | inl star ↦ Matches-match_star pattern name z f p s ps t ih ep (ground arith) e zt m
        | inr plain ↦
            Matches-match_plain pattern name z f p s
              (subst (Complete (below pattern name z f) name (suc p)) ep'
                (ih (suc p) (omega arith) (omega arith)))
              ep (ground arith) e zt m
      ]

  normal_match-Complete :
      (fuel p : ℕ)
      → p ≤ length pattern
      → length pattern < fuel + p
      → Complete (below pattern name z fuel) name p (drop p pattern)
  normal_match-Complete zero p bound h s t e zt m = absurd (omega arith)
  normal_match-Complete (suc f) p bound h s t e zt m =
      round-Complete f p s (drop p pattern) t
        (λ q lt le. normal_match-Complete f q le (omega arith)) refl e zt m

-- For a pattern and a name without zero bytes, `normalMatch` from the start of both finds a match
-- exactly when the name is in the language of the pattern.
pub path_match_iff :
    (pattern name : Bytes)
    → HasNoZero pattern
    → HasNoZero name
    → (path_match pattern name ≡ true) ↔ Matches pattern name
unfolding path_match
path_match_iff pattern name z zn = (
  normal_match-Sound pattern name z (suc (length pattern)) 0 0 name refl zn,
  normal_match-Complete pattern name z (suc (length pattern)) 0 (omega arith) (omega arith) 0 name
      (refl, omega arith) zn,
)
