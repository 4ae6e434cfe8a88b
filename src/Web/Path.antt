-- ===== src/Web/Path.antt =====
-- The path that get_path_from_uri gives.
use rtkbase.Prelude.{
  ℕ, ◌+◌, ◌<◌, ◌≡◌, refl, ap, subst, sym, ◌∙◌, ◌⊎◌, inl, inr, false, List, [], ◌∷◌, ◌++◌, Option,
  none, some, arith, All, length, length-append, length-take, ltb, Bool-cases, ◌==◌, ◌≢◌, suc, take,
  ◌≤◌, Option-cases,
}
use rtkbase.Web.{strchr, shorten, path_length, get_path_from_uri}

-- What stands before the first '?' or '#' of the URI.
abbrev pub IsPathOf : List ℕ → List ℕ → Type 0
IsPathOf uri path =
    All (λ c. (c ≢ b'?') × (c ≢ b'#')) path
    × ((uri ≡ path)
        ⊎ ((c : ℕ) × (rest : List ℕ) × (uri ≡ path ++ c ∷ rest) × ((c ≡ b'?') ⊎ (c ≡ b'#'))))

path_length_here : (c : ℕ) (uri : List ℕ) → (c ≡ b'?') ⊎ (c ≡ b'#') → path_length (c ∷ uri) ≡ 0
unfolding path_length strchr shorten
path_length_here c uri ends = elim (Option-cases (strchr uri b'?')) [
  | inl e ↦ elim (Option-cases (strchr uri b'#')) [
    | inl f ↦ rw (e, f) ground arith
    | inr (j, f) ↦ rw (e, f) ground arith
  ]
  | inr (i, e) ↦ elim (Option-cases (strchr uri b'#')) [
    | inl f ↦ rw (e, f) ground arith
    | inr (j, f) ↦ rw (e, f) ground arith
  ]
]

path_length_later :
    (c : ℕ) (uri : List ℕ)
    → (c == b'?') ≡ false
    → (c == b'#') ≡ false
    → path_length (c ∷ uri) ≡ suc (path_length uri)
unfolding path_length strchr shorten
path_length_later c uri q h = elim (Option-cases (strchr uri b'?')) [
  | inl e ↦ elim (Option-cases (strchr uri b'#')) [
    | inl f ↦ rw (q, h, e, f) ground arith
    | inr (j, f) ↦ rw (q, h, e, f) ground arith
  ]
  | inr (i, e) ↦ elim (Option-cases (strchr uri b'#')) [
    | inl f ↦ rw (q, h, e, f) ground arith
    | inr (j, f) ↦ rw (q, h, e, f) ground arith
  ]
]

path_length_empty : path_length [] ≡ 0
unfolding path_length strchr shorten
path_length_empty = refl

path_length-IsPathOf : (uri : List ℕ) → IsPathOf uri (take (path_length uri) uri)
path_length-IsPathOf [] = rw path_length_empty (tt, inl refl)
path_length-IsPathOf (c ∷ uri) =
    let (plain, cut) = path_length-IsPathOf uri in
    let here : (c ≡ b'?') ⊎ (c ≡ b'#')
        → IsPathOf (c ∷ uri) (take (path_length (c ∷ uri)) (c ∷ uri)) =
      λ ends. rw (path_length_here c uri ends) (tt, inr (c, uri, refl, ends)) in
    elim (Bool-cases (c == b'?')) [
      | inl e ↦ here (inl (ground arith))
      | inr e ↦ elim (Bool-cases (c == b'#')) [
        | inl f ↦ here (inr (ground arith))
        | inr f ↦ rw (path_length_later c uri e f) (
          (((λ h. ground (arith, h)), (λ h. ground (arith, h))), plain),
          (elim cut [
            | inl whole ↦ inl (ap (λ (xs : List ℕ). c ∷ xs) whole)
            | inr (d, rest, split, end) ↦ inr (d, rest, ap (λ (xs : List ℕ). c ∷ xs) split, end)
          ]),
        )
      ]
    ]

path_length_le : (uri : List ℕ) → path_length uri ≤ length uri
unfolding path_length shorten
path_length_le uri = elim (Option-cases (strchr uri b'?')) [
  | inl e ↦ elim (Option-cases (strchr uri b'#')) [
    | inl f ↦ rw (e, f) ground arith
    | inr (j, f) ↦ rw (e, f) ground arith
  ]
  | inr (i, e) ↦ elim (Option-cases (strchr uri b'#')) [
    | inl f ↦ rw (e, f) ground arith
    | inr (j, f) ↦ rw (e, f) ground arith
  ]
]

-- Where get_path_from_uri gives a path, the destination holds the base path and then the path, together with
-- the final NUL inside its size, and the path is the URI up to its first '?' or '#'.
pub get_path_from_uri-IsPathOf :
    (base_path uri : List ℕ) (destsize : ℕ) (dest path : List ℕ)
    → get_path_from_uri base_path uri destsize ≡ some (dest, path)
    → (dest ≡ base_path ++ path) × (length dest < destsize) × IsPathOf uri path
unfolding get_path_from_uri
get_path_from_uri-IsPathOf base_path uri destsize dest path e =
    elim (Bool-cases (ltb destsize (length base_path + path_length uri + 1))) [
      | inl f ↦ absurd (no_path (rw f at e))
      | inr f ↦
          let part = take (path_length uri) uri in
          let part_length : length part ≡ path_length uri =
            ground (arith, length-take (path_length uri) uri, path_length_le uri) in
          let same : (base_path ++ part, part) ≡ (dest, path) = ap found (rw f at e) in
          let dest_is : base_path ++ part ≡ dest = ap (λ (p : List ℕ × List ℕ). p.0) same in
          let path_is : part ≡ path = ap (λ (p : List ℕ × List ℕ). p.1) same in
          (
            sym dest_is ∙ ap (λ (x : List ℕ). base_path ++ x) path_is,
            ground (arith, length-append base_path part, ap length dest_is, part_length),
            subst (IsPathOf uri) path_is (path_length-IsPathOf uri),
          )
    ]
  where
    no_path : {A : Type 0} → {a : A} → none ≡ some a → ⊥
    no_path h = ground (arith, h)

    found : Option (List ℕ × List ℕ) → List ℕ × List ℕ
    found none = ([], [])
    found (some p) = p
