-- ===== src/ByteRing/Window.antt =====
-- The bytes of a ring, read backwards from its head.
use native.Mathlib.Nat.{mod-eq_of_lt, mod-eq-sub-mod}
use rtkbase.Prelude.{
  ℕ, zero, suc, ◌+◌, ◌-◌, ◌%◌, ◌<◌, ◌≤◌, ◌≡◌, ◌≢◌, refl, ap, ap₂, sym, ◌∙◌, ◌⊎◌, inl, inr, List, [],
  ◌∷◌, ◌++◌, arith, get_or, get_or-set_ne, get_or-set_self, set, drop, drop-append, length,
  length-append, dec_lt,
}
use rtkbase.ByteRing.{copy_out}

-- A remainder of what is less than twice the divisor.
pub mod_cases :
    (a n : ℕ) → 0 < n → a < n + n → ((a < n) × (a % n ≡ a)) ⊎ ((n ≤ a) × (a % n ≡ a - n))
mod_cases a n pos h = elim (dec_lt a n) [
  | yes below ↦ inl (below, mod-eq_of_lt below)
  | no above ↦ inr (
    omega arith,
    mod-eq-sub-mod {n = a} {m = n} (omega arith) ∙ mod-eq_of_lt {n = a - n} {m = n} (omega arith),
  )
]

module _ (size : ℕ) where
  -- The index before `h`.
  pub before : ℕ → ℕ
  before h = (h + size - 1) % size

  before_cases :
      (h : ℕ) → h < size → ((0 < h) × (before h ≡ h - 1)) ⊎ ((h ≡ 0) × (before h ≡ size - 1))
  unfolding before
  before_cases zero h =
      inr (refl, omega (arith, mod_cases (0 + size - 1) size (omega arith) (omega arith)))
  before_cases (suc k) h =
      inl
        (omega arith, omega (arith, mod_cases (suc k + size - 1) size (omega arith) (omega arith)))

  -- The `n` bytes before index `h`, oldest first.
  unfoldable pub window : List ℕ → ℕ → ℕ → List ℕ
  window buf zero h = []
  window buf (suc n) h = window buf n (before h) ++ get_or buf (before h) 0 ∷ []

  pub length-window : (buf : List ℕ) (n h : ℕ) → length (window buf n h) ≡ n
  unfolding window
  length-window buf zero h = refl
  length-window buf (suc n) h = omega (
    arith,
    length-append (window buf n (before h)) (get_or buf (before h) 0 ∷ []),
    length-window buf n (before h),
  )

  -- A shorter window is the end of a longer one.
  pub window_shorter :
      (buf : List ℕ) (m n h : ℕ) → m ≤ n → window buf m h ≡ drop (n - m) (window buf n h)
  unfolding window
  window_shorter buf zero n h le =
      sym (drop_all (window buf n h) (n - 0) (omega (arith, length-window buf n h)))
    where
      drop_all : (xs : List ℕ) (k : ℕ) → length xs ≤ k → drop k xs ≡ []
      drop_all [] zero h = refl
      drop_all [] (suc k) h = refl
      drop_all (x ∷ xs) zero h = absurd (omega arith)
      drop_all (x ∷ xs) (suc k) h = drop_all xs k (omega arith)
  window_shorter buf (suc m) zero h le = absurd (omega arith)
  window_shorter buf (suc m) (suc n) h le =
      let e : suc n - suc m ≡ n - m = omega arith in
      rw
        (
          e,
          drop-append (window buf n (before h)) (get_or buf (before h) 0 ∷ []) (n - m)
              (omega (arith, length-window buf n (before h))),
        )
        (ap (λ (w : List ℕ). w ++ get_or buf (before h) 0 ∷ [])
          (window_shorter buf m n (before h) (omega arith)))

  -- A write at `j` is not seen in a window that ends `d` before it and does not reach round to it.
  window-set_far :
      (buf : List ℕ) (n h j d v : ℕ)
      → h < size
      → j < size
      → d + n < size
      → (h + d ≡ j) ⊎ (h + d ≡ j + size)
      → window (set buf j v) n h ≡ window buf n h
  unfolding window
  window-set_far buf zero h j d v hh hj far dist = refl
  window-set_far buf (suc n) h j d v hh hj far dist =
      let less : before h < size = omega (arith, before_cases h hh) in
      let apart : j ≢ before h = omega (arith, before_cases h hh) in
      ap₂ (λ (w : List ℕ) (b : ℕ). w ++ b ∷ [])
        (window-set_far buf n (before h) j (d + 1) v less hj (omega arith)
          (omega (arith, before_cases h hh)))
        (get_or-set_ne buf j (before h) v 0 apart)

  -- Copying out forwards reads the window.
  pub copy_out-window :
      (buf : List ℕ) (n h : ℕ)
      → n ≤ size
      → h < size
      → copy_out size buf ((h + size - n) % size) n ≡ window buf n h
  unfolding window copy_out
  copy_out-window buf zero h le hh = refl
  copy_out-window buf (suc n) h le hh =
      let b = before h in
      let less : b < size = omega (arith, before_cases h hh) in
      let start : ℕ = (h + size - suc n) % size in
      let same : start ≡ (b + size - n) % size = omega (
        arith,
        before_cases h hh,
        mod_cases (h + size - suc n) size (omega arith) (omega arith),
        mod_cases (b + size - n) size (omega arith) (omega arith),
      ) in
      let last : (start + n) % size ≡ b = omega (
        arith,
        before_cases h hh,
        mod_cases (h + size - suc n) size (omega arith) (omega arith),
        mod_cases (start + n) size (omega arith)
            (omega (arith, mod_cases (h + size - suc n) size (omega arith) (omega arith))),
      ) in
      ap₂ (λ (w : List ℕ) (k : ℕ). w ++ get_or buf k 0 ∷ [])
        (ap (λ s. copy_out size buf s n) same ∙ copy_out-window buf n b (omega arith) less) last

  -- A byte written at the head extends the window of at most `size - 1` bytes before it.
  pub window-set_head :
      (buf : List ℕ) (n h v : ℕ)
      → n < size
      → h < size
      → length buf ≡ size
      → window (set buf h v) (suc n) ((h + 1) % size) ≡ window buf n h ++ v ∷ []
  unfolding window before
  window-set_head buf n h v lt hh size_eq =
      let back : before ((h + 1) % size) ≡ h = omega (
        arith,
        mod_cases (h + 1) size (omega arith) (omega arith),
        before_cases ((h + 1) % size)
            (omega (arith, mod_cases (h + 1) size (omega arith) (omega arith))),
      ) in
      rw back (
        ap₂ (λ (w : List ℕ) (b : ℕ). w ++ b ∷ [])
          (window-set_far buf n h h 0 v hh hh (omega arith) (inl (omega arith)))
          (get_or-set_self buf h v 0 (omega arith)))
