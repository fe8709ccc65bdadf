-- ===== src/Ignore/Pattern.antt =====
-- What a path pattern means: the language that `normalMatch` is to decide.
use skywalking_go.Base.{ℕ, ◌≡◌, ◌≢◌, [], ◌∷◌, Bytes}

-- A byte stands for itself and `?` for one byte but `/`. A `*` stands for bytes but `/`, at the end
-- of a pattern also for these with one `/` behind. `**` stands for any bytes, and so does `**/`.
pub data Matches : Bytes → Bytes → Type 0 where
  end : Matches [] []
  literal : {c : ℕ} {ps t : Bytes} → c ≢ b'*' → Matches ps t → Matches (c ∷ ps) (c ∷ t)
  one : {q c : ℕ} {ps t : Bytes} → q ≡ b'?' → c ≢ b'/' → Matches ps t → Matches (q ∷ ps) (c ∷ t)
  star_end : {w : ℕ} → w ≡ b'*' → Matches (w ∷ []) []
  star_slash : {w c : ℕ} → w ≡ b'*' → c ≡ b'/' → Matches (w ∷ []) (c ∷ [])
  star_more :
      {w c : ℕ} {t : Bytes} → w ≡ b'*' → c ≢ b'/' → Matches (w ∷ []) t → Matches (w ∷ []) (c ∷ t)
  stop :
      {w p : ℕ} {ps t : Bytes} → w ≡ b'*' → p ≢ b'*' → Matches (p ∷ ps) t → Matches (w ∷ p ∷ ps) t
  skip :
      {w p c : ℕ} {ps t : Bytes}
      → w ≡ b'*'
      → p ≢ b'*'
      → c ≢ b'/'
      → Matches (w ∷ p ∷ ps) t
      → Matches (w ∷ p ∷ ps) (c ∷ t)
  all : {w w' : ℕ} (t : Bytes) → w ≡ b'*' → w' ≡ b'*' → Matches (w ∷ w' ∷ []) t
  deep :
      {w w' p : ℕ} {ps t : Bytes}
      → w ≡ b'*'
      → w' ≡ b'*'
      → p ≢ b'/'
      → Matches (p ∷ ps) t
      → Matches (w ∷ w' ∷ p ∷ ps) t
  deep_slash :
      {w w' p : ℕ} {ps t : Bytes}
      → w ≡ b'*'
      → w' ≡ b'*'
      → p ≡ b'/'
      → Matches ps t
      → Matches (w ∷ w' ∷ p ∷ ps) t
  deep_skip :
      {w w' p c : ℕ} {ps t : Bytes}
      → w ≡ b'*'
      → w' ≡ b'*'
      → Matches (w ∷ w' ∷ p ∷ ps) t
      → Matches (w ∷ w' ∷ p ∷ ps) (c ∷ t)
