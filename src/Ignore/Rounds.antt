-- ===== src/Ignore/Rounds.antt =====
-- One round of `normalMatch`, given what the calls one unit of fuel below it find.
use skywalking_go.Base.{
  ◌≢◌, ℕ, zero, suc, ◌≤◌, ◌<◌, ◌≡◌, inl, inr, sym, ◌∙◌, subst, Bool, true, [], ◌∷◌, Bytes, length,
  drop, ◌==◌, Bool-cases, arith,
}
use skywalking_go.Ignore.{safe_char_at, wildcard_match, multi_wildcard_match, normal_match}
use skywalking_go.Ignore.Pattern.{
  Matches, literal, one, star_end, star_slash, star_more, stop, skip, all, deep, deep_slash,
  deep_skip,
}
use skywalking_go.Ignore.Loops.{
  HasNoZero, safe_char_at-drop_cons, safe_char_at-drop_nil, literal_eq, Sound, At, Complete,
}
use skywalking_go.Ignore.Wildcards.{
  wildcard_match-Matches, Matches-wildcard_match, multi_wildcard_match-Matches,
  Matches-multi_wildcard_match,
}

pub drop-HasNoZero : (i : ℕ) (text : Bytes) → HasNoZero text → HasNoZero (drop i text)
drop-HasNoZero zero text z = z
drop-HasNoZero (suc i) [] z = tt
drop-HasNoZero (suc i) (c ∷ text) z = drop-HasNoZero i text z.1

module _ (pattern name : Bytes) (z : HasNoZero pattern) (fuel : ℕ) where
  -- `normalMatch` one unit of fuel below.
  abbrev pub below : ℕ → ℕ → Bool
  below p s = normal_match fuel pattern p name s

  pub match_end :
      (p s : ℕ) → length pattern ≤ p → normal_match (suc fuel) pattern p name s ≡ (s == length name)
  unfolding normal_match
  match_end p s h = ground arith

  match_deep :
      (p s : ℕ)
      → p < length pattern
      → safe_char_at pattern p ≡ b'*'
      → safe_char_at pattern (suc p) ≡ b'*'
      → normal_match (suc fuel) pattern p name s
        ≡ multi_wildcard_match below pattern (suc (suc p)) name s
  unfolding normal_match
  match_deep p s h a b = ground arith

  match_star :
      (p s : ℕ)
      → p < length pattern
      → safe_char_at pattern p ≡ b'*'
      → safe_char_at pattern (suc p) ≢ b'*'
      → normal_match (suc fuel) pattern p name s ≡ wildcard_match below pattern (suc p) name s
  unfolding normal_match
  match_star p s h a b = ground arith

  pub match_star-sound :
      {w : ℕ} (p s : ℕ) (ps t : Bytes)
      → ((q : ℕ) → Sound below name q (drop q pattern))
      → drop p pattern ≡ w ∷ ps
      → w ≡ b'*'
      → drop s name ≡ t
      → HasNoZero t
      → normal_match (suc fuel) pattern p name s ≡ true
      → Matches (w ∷ ps) t
  match_star-sound p s [] t ih ep w e zt h =
      let (at, ep', lt) = safe_char_at-drop_cons pattern p ep in
      let last = safe_char_at-drop_nil pattern (suc p) ep' in
      wildcard_match-Matches below pattern name (suc p) s [] t w ep' tt (ground arith)
        (subst (Sound below name (suc p)) ep' (ih (suc p))) (ih (suc (suc p))) e zt
        (sym (match_star p s lt (at ∙ w) (ground arith)) ∙ h)
  match_star-sound p s (y ∷ ps) t ih ep w e zt h =
      let (at, ep', lt) = safe_char_at-drop_cons pattern p ep in
      let (at', ep'', lt') = safe_char_at-drop_cons pattern (suc p) ep' in
      let zp = subst HasNoZero ep' (drop-HasNoZero (suc p) pattern z) in
      elim (Bool-cases (y == b'*')) [
        | inl double ↦
            multi_wildcard_match-Matches below pattern name (suc (suc p)) s ps t w (ground arith)
              ep'' zp.1 (subst (Sound below name (suc (suc p))) ep'' (ih (suc (suc p))))
              (ih (suc (suc (suc p)))) e zt (sym (match_deep p s lt (at ∙ w) (ground arith)) ∙ h)
        | inr plain ↦
            wildcard_match-Matches below pattern name (suc p) s (y ∷ ps) t w ep' zp (ground arith)
              (subst (Sound below name (suc p)) ep' (ih (suc p))) (ih (suc (suc p))) e zt
              (sym (match_star p s lt (at ∙ w) (ground arith)) ∙ h)
      ]

  pub Matches-match_star :
      {w : ℕ} (p s : ℕ) (ps t : Bytes)
      → ((q : ℕ) → p < q → q ≤ length pattern → Complete below name q (drop q pattern))
      → drop p pattern ≡ w ∷ ps
      → w ≡ b'*'
      → At name s t
      → HasNoZero t
      → Matches (w ∷ ps) t
      → normal_match (suc fuel) pattern p name s ≡ true
  Matches-match_star p s [] t ih ep w e zt m =
      let (at, ep', lt) = safe_char_at-drop_cons pattern p ep in
      let last = safe_char_at-drop_nil pattern (suc p) ep' in
      match_star p s lt (at ∙ w) (ground arith)
      ∙ Matches-wildcard_match below pattern name (suc p) s [] t w ep' tt (ground arith)
          (subst (Complete below name (suc p)) ep' (ih (suc p) (omega arith) (omega arith)))
          (ih (suc (suc p)) (omega arith)) e zt m
  Matches-match_star p s (y ∷ ps) t ih ep w e zt m =
      let (at, ep', lt) = safe_char_at-drop_cons pattern p ep in
      let (at', ep'', lt') = safe_char_at-drop_cons pattern (suc p) ep' in
      let zp = subst HasNoZero ep' (drop-HasNoZero (suc p) pattern z) in
      elim (Bool-cases (y == b'*')) [
        | inl double ↦
            match_deep p s lt (at ∙ w) (ground arith)
            ∙ Matches-multi_wildcard_match below pattern name (suc (suc p)) s ps t w (ground arith)
                ep'' zp.1
                (subst (Complete below name (suc (suc p))) ep''
                  (ih (suc (suc p)) (omega arith) (omega arith)))
                (ih (suc (suc (suc p))) (omega arith)) e zt m
        | inr plain ↦
            match_star p s lt (at ∙ w) (ground arith)
            ∙ Matches-wildcard_match below pattern name (suc p) s (y ∷ ps) t w ep' zp (ground arith)
                (subst (Complete below name (suc p)) ep' (ih (suc p) (omega arith) (omega arith)))
                (ih (suc (suc p)) (omega arith)) e zt m
      ]

  -- Any byte but `*`.
  pub match_plain-sound :
      {x : ℕ} {ps : Bytes} (p s : ℕ) (t : Bytes)
      → Sound below name (suc p) ps
      → drop p pattern ≡ x ∷ ps
      → x ≢ 0
      → x ≢ b'*'
      → drop s name ≡ t
      → HasNoZero t
      → normal_match (suc fuel) pattern p name s ≡ true
      → Matches (x ∷ ps) t
  unfolding normal_match
  match_plain-sound p s [] ih ep x n e zt h =
      let (at, ep', lt) = safe_char_at-drop_cons pattern p ep in
      absurd (ground (arith, safe_char_at-drop_nil name s e))
  match_plain-sound {x = y} p s (c ∷ t) ih ep x n e zt h =
      let (at, ep', lt) = safe_char_at-drop_cons pattern p ep in
      let (at', e', lt') = safe_char_at-drop_cons name s e in
      let go = ih (suc s) t e' zt.1 in
      elim (Bool-cases (y == c)) [
        | inl same ↦ literal_eq (ground arith) n (go (ground arith))
        | inr other ↦ one (ground arith) (ground arith) (go (ground arith))
      ]

  pub Matches-match_plain :
      {x : ℕ} {ps t : Bytes} (p s : ℕ)
      → Complete below name (suc p) ps
      → drop p pattern ≡ x ∷ ps
      → x ≢ b'*'
      → At name s t
      → HasNoZero t
      → Matches (x ∷ ps) t
      → normal_match (suc fuel) pattern p name s ≡ true
  unfolding normal_match
  Matches-match_plain p s ih ep n e zt (literal {t = t} _ m) =
      let (at, ep', lt) = safe_char_at-drop_cons pattern p ep in
      let (at', e', lt') = safe_char_at-drop_cons name s e.0 in
      ground (arith, ih (suc s) t (e', lt') zt.1 m)
  Matches-match_plain p s ih ep n e zt (one {t = t} q slash m) =
      let (at, ep', lt) = safe_char_at-drop_cons pattern p ep in
      let (at', e', lt') = safe_char_at-drop_cons name s e.0 in
      ground (arith, zt.0, ih (suc s) t (e', lt') zt.1 m)
  Matches-match_plain p s ih ep n e zt (star_end w) = absurd (n w)
  Matches-match_plain p s ih ep n e zt (star_slash w _) = absurd (n w)
  Matches-match_plain p s ih ep n e zt (star_more w _ _) = absurd (n w)
  Matches-match_plain p s ih ep n e zt (stop w _ _) = absurd (n w)
  Matches-match_plain p s ih ep n e zt (skip w _ _ _) = absurd (n w)
  Matches-match_plain p s ih ep n e zt (all _ w _) = absurd (n w)
  Matches-match_plain p s ih ep n e zt (deep w _ _ _) = absurd (n w)
  Matches-match_plain p s ih ep n e zt (deep_slash w _ _ _) = absurd (n w)
  Matches-match_plain p s ih ep n e zt (deep_skip w _ _) = absurd (n w)
