-- ===== src/Backend/Distinct.antt =====
-- Which addresses the list gives.
use skywalking_go.Base.{
  ◌≡◌, ◌≢◌, ◌⊎◌, ◌↔◌, refl, ap, subst, true, false, [], ◌∷◌, ◌++◌, List, some, Bytes, str_eq,
  str_eq_iff, arith, All, Any, AllDistinct, Bool-cases, Option-cases, inl, inr,
}
use skywalking_go.Text.Parts.{split}
use skywalking_go.Backend.{
  trim_space, has_byte, normalize, contains_text, collect, parse_backend_service_list, is_empty,
  some_parts,
}

abbrev pub IsIn : Bytes → List Bytes → Type 0
IsIn a = Any (λ b. b ≡ a)

-- Some part is this address, normalized.
abbrev pub IsGiven : Bytes → List Bytes → Type 0
IsGiven a = Any (λ part. normalize part ≡ some a)

contains_text-IsIn : (a : Bytes) (bs : List Bytes) → contains_text a bs ≡ true → IsIn a bs
contains_text-IsIn a [] h = ground (arith, h)
contains_text-IsIn a (b ∷ bs) h = elim (Bool-cases (str_eq b a)) [
  | inl e ↦ inl ((str_eq_iff b a).0 e)
  | inr e ↦ inr (contains_text-IsIn a bs (ground (arith, e, h)))
]

lacks-All : (a : Bytes) (bs : List Bytes) → contains_text a bs ≡ false → All (λ b. b ≢ a) bs
lacks-All a [] h = tt
lacks-All a (b ∷ bs) h =
    let i = str_eq_iff b a in ((λ e. ground (arith, i, e, h)), lacks-All a bs (ground (arith, h)))

All-last :
    (x a : Bytes) (bs : List Bytes)
    → All (λ b. x ≢ b) bs
    → x ≢ a
    → All (λ b. x ≢ b) (bs ++ (a ∷ []))
All-last x a [] h n = (n, tt)
All-last x a (b ∷ bs) (m, h) n = (m, All-last x a bs h n)

AllDistinct-last :
    (a : Bytes) (bs : List Bytes)
    → All (λ b. b ≢ a) bs
    → AllDistinct bs
    → AllDistinct (bs ++ (a ∷ []))
AllDistinct-last a [] h d = (tt, tt)
AllDistinct-last a (b ∷ bs) (n, h) (m, d) = (All-last b a bs m n, AllDistinct-last a bs h d)

Any-last : (x a : Bytes) (bs : List Bytes) → IsIn x (bs ++ (a ∷ [])) ↔ (IsIn x bs ⊎ (a ≡ x))
Any-last x a [] = ((λ h. ground (arith, h)), (λ h. ground (arith, h)))
Any-last x a (b ∷ bs) =
    let (i, j) = Any-last x a bs in
    (
      (λ h. elim h [
        | inl e ↦ inl (inl e)
        | inr m ↦ elim (i m) [ inl k ↦ inl (inr k) | inr e ↦ inr e ]
      ]),
      (λ h. elim h [
        | inl m ↦ elim m [ inl e ↦ inl e | inr k ↦ inr (j (inl k)) ]
        | inr e ↦ inr (j (inr e))
      ]),
    )

collect-AllDistinct : (out parts : List Bytes) → AllDistinct out → AllDistinct (collect out parts)
unfolding collect
collect-AllDistinct out [] d = d
collect-AllDistinct out (part ∷ parts) d = elim (Option-cases (normalize part)) [
  | inl e ↦ rw (collect, e) (collect-AllDistinct out parts d)
  | inr (a, e) ↦ elim (Bool-cases (contains_text a out)) [
    | inl c ↦ rw (collect, e, c) (collect-AllDistinct out parts d)
    | inr c ↦
        rw (collect, e, c)
          (collect-AllDistinct (out ++ (a ∷ [])) parts
            (AllDistinct-last a out (lacks-All a out c) d))
  ]
]

IsIn-collect :
    (x : Bytes) (out parts : List Bytes)
    → IsIn x (collect out parts) ↔ (IsIn x out ⊎ IsGiven x parts)
unfolding collect
IsIn-collect x out [] = ((λ h. inl h), (λ h. elim h [ inl i ↦ i | inr n ↦ elim n [ ] ]))
IsIn-collect x out (part ∷ parts) = elim (Option-cases (normalize part)) [
  | inl e ↦
      let (i, j) = IsIn-collect x out parts in
      rw (collect, e)
        (
          (λ h. elim (i h) [ inl k ↦ inl k | inr k ↦ inr (inr k) ]),
          (λ h. elim h [
            | inl k ↦ j (inl k)
            | inr k ↦ elim k [ inl n ↦ ground (arith, n, e) | inr m ↦ j (inr m) ]
          ]),
        )
  | inr (a, e) ↦ elim (Bool-cases (contains_text a out)) [
    | inl c ↦
        let (i, j) = IsIn-collect x out parts in
        let old = contains_text-IsIn a out c in
        rw (collect, e, c)
          (
            (λ h. elim (i h) [ inl k ↦ inl k | inr k ↦ inr (inr k) ]),
            (λ h. elim h [
              | inl k ↦ j (inl k)
              | inr k ↦ elim k [
                | inl n ↦
                    let same : a ≡ x = ground (arith, n, e) in
                    j (inl (subst (λ z. IsIn z out) same old))
                | inr m ↦ j (inr m)
              ]
            ]),
          )
    | inr c ↦
        let (i, j) = IsIn-collect x (out ++ (a ∷ [])) parts in
        let (p, q) = Any-last x a out in
        rw (collect, e, c)
          (
            (λ h. elim (i h) [
              | inl k ↦ elim (p k) [ inl m ↦ inl m | inr s ↦ inr (inl (ap some s)) ]
              | inr k ↦ inr (inr k)
            ]),
            (λ h. elim h [
              | inl k ↦ j (inl (q (inl k)))
              | inr k ↦ elim k [
                | inl n ↦ let same : a ≡ x = ground (arith, n, e) in j (inl (q (inr same)))
                | inr m ↦ j (inr m)
              ]
            ]),
          )
  ]
]

non_empty : (s : Bytes) → has_byte 44 s ≡ true → is_empty s ≡ false
non_empty [] h = ground (arith, h)
non_empty (c ∷ s) h = refl

-- A list with a comma gives the addresses of its valid parts, normalized, each once, and nothing else;
-- it is an error exactly when there are none.
pub parse_list_distinct :
    (raw : Bytes)
    → has_byte 44 (trim_space raw) ≡ true
    → (out : List Bytes) × (parse_backend_service_list raw ≡ some_parts out)
      × AllDistinct out
      × ((x : Bytes) → IsIn x out ↔ IsGiven x (split 44 (trim_space raw)))
unfolding parse_backend_service_list
parse_list_distinct raw c =
    let parts = split 44 (trim_space raw) in
    let n = non_empty (trim_space raw) c in
    (
      collect [] parts,
      rw (parse_backend_service_list, n, c) refl,
      collect-AllDistinct [] parts tt,
      λ x.
          let (i, j) = IsIn-collect x [] parts in
          ((λ h. elim (i h) [ inl n ↦ elim n [ ] | inr k ↦ k ]), (λ k. j (inr k))),
    )
