-- ===== src/Retry/Schedule.antt =====
-- The schedule of waiting times.
use native.Mathlib.Nat.{mod-eq_of_lt}
use rtkbase.Prelude.{
  ℕ, zero, suc, ◌+◌, ◌-◌, ◌%◌, ◌^◌, ◌<◌, ◌≤◌, ◌≡◌, refl, ap, ◌∙◌, ◌⊎◌, inl, inr, Bool, false, ◌&&◌,
  List, [], ◌∷◌, arith, length, get_or, ltb, ◌==◌, Bool-cases, if◌then◌else◌,
}
use rtkbase.Retry.{
  RetryDelay, delays, delays_count, offset_from, retry_init, chosen_delay, retry_delay, retry_reset,
  after_attempts,
}

-- Any list whose members do not fall.
Ascending : List ℕ → Type 0
Ascending [] = Unit {0}
Ascending (d ∷ []) = Unit {0}
Ascending (d ∷ e ∷ rest) = (d ≤ e) × Ascending (e ∷ rest)

head_least :
    (d : ℕ) (rest : List ℕ) (i : ℕ)
    → Ascending (d ∷ rest)
    → i < length (d ∷ rest)
    → d ≤ get_or (d ∷ rest) i 0
unfolding Ascending
head_least d rest zero a h = omega arith
head_least d [] (suc i) a h = absurd (omega arith)
head_least d (e ∷ rest) (suc i) a h = omega (arith, a.0, head_least e rest i a.1 (omega arith))

Ascending-get :
    (ds : List ℕ) (i j : ℕ) → Ascending ds → i ≤ j → j < length ds → get_or ds i 0 ≤ get_or ds j 0
unfolding Ascending
Ascending-get [] i j a le h = absurd (omega arith)
Ascending-get (d ∷ rest) zero j a le h = head_least d rest j a h
Ascending-get (d ∷ rest) (suc i) zero a le h = absurd (omega arith)
Ascending-get (d ∷ []) (suc i) (suc j) a le h = absurd (omega arith)
Ascending-get (d ∷ e ∷ rest) (suc i) (suc j) a le h =
    Ascending-get (e ∷ rest) i j a.1 (omega arith) (omega arith)

delays_ascend : Ascending delays
unfolding Ascending
delays_ascend = (
  omega arith,
  (
    omega arith,
    (
      omega arith,
      (
        omega arith,
        (
          omega arith,
          (
            omega arith,
            (
              omega arith,
              (
                omega arith,
                (
                  omega arith,
                  (
                    omega arith,
                    (omega arith, (omega arith, (omega arith, (omega arith, (omega arith, tt))))),
                  ),
                ),
              ),
            ),
          ),
        ),
      ),
    ),
  ),
)

-- What the loop over the delays finds: the first that is not below `short_delay`, or the end.
offset_from-first :
    (ds : List ℕ) (offset short_delay : ℕ)
    → (k : ℕ) × (offset_from ds offset short_delay ≡ offset + k)
      × (k ≤ length ds)
      × (k < length ds → short_delay ≤ get_or ds k 0)
unfolding offset_from
offset_from-first [] offset s = (0, omega arith, omega arith, λ h. absurd (omega arith))
offset_from-first (d ∷ rest) offset s = elim (Bool-cases (ltb d s)) [
  | inl e ↦
      let (k, same, le, found) = offset_from-first rest (offset + 1) s in
      (suc k, rw e (same ∙ omega arith), omega arith, λ h. found (omega arith))
  | inr e ↦ (0, rw e (omega arith), omega arith, λ h. ground arith)
]

-- The entry for an index, the last one from the end on.
table : ℕ → ℕ
table i = if ltb i delays_count then get_or delays i 0 else get_or delays (delays_count - 1) 0

table_mono : (i j : ℕ) → i ≤ j → table i ≤ table j
unfolding table
table_mono i j le = elim (Bool-cases (ltb i 16)) [
  | inl e ↦ elim (Bool-cases (ltb j 16)) [
    | inl f ↦ rw (e, f) (Ascending-get delays i j delays_ascend le (ground arith))
    | inr f ↦ rw (e, f) (Ascending-get delays i 15 delays_ascend (ground arith) (omega arith))
  ]
  | inr e ↦ let f : ltb j 16 ≡ false = ground arith in rw (e, f) (omega arith)
]

-- From the offset on, no entry is below a short delay of at most an hour.
table-offset : (s i : ℕ) → s ≤ 3600000 → offset_from delays 0 s ≤ i → s ≤ table i
unfolding table
table-offset s i h le =
    let (k, same, most, found) = offset_from-first delays 0 s in
    elim (Bool-cases (ltb k 16)) [
      | inl e ↦
          let at_k : table k ≡ get_or delays k 0 = rw e in
          omega (arith, table_mono k i (omega arith), at_k, found (ground arith))
      | inr e ↦ let f : ltb i 16 ≡ false = ground arith in rw f h
    ]

attempts_lem :
    (h : RetryDelay) (n : ℕ)
    → h.attempts ≡ 0
    → n < 2 ^ 16
    → after_attempts h n ≡ record h { attempts = n }
unfolding after_attempts retry_delay
attempts_lem h zero fresh lt = ap (λ n. record h { attempts = n }) fresh
attempts_lem h (suc n) fresh lt =
    let before = attempts_lem h n fresh (omega arith) in
    ap (λ (g : RetryDelay). record g { attempts = (g.attempts + 1) % 65536 }) before
    ∙ ap (λ k. record h { attempts = k })
        (mod-eq_of_lt {n = n + 1} {m = 65536} (omega arith) ∙ omega arith)

capped : ℕ → ℕ → ℕ
capped most delay = if ltb 0 most && ltb most delay then most else delay

capped_mono : (m d e : ℕ) → d ≤ e → capped m d ≤ capped m e
unfolding capped
capped_mono m d e le = ground arith

capped_least : (m s d : ℕ) → (m ≡ 0) ⊎ (s ≤ m) → s ≤ d → s ≤ capped m d
unfolding capped
capped_least m s d h le = ground (arith, h)

chosen_delay-table :
    (h : RetryDelay)
    → chosen_delay h ≡ (
        if h.attempts == 0 && h.first_instant
        then 0
        else if ltb h.attempts h.short_count
        then h.short_delay
        else capped h.max_delay (table (h.attempts - h.short_count + h.delays_offset)))
unfolding chosen_delay capped table
chosen_delay-table h = refl

chosen_delay_mono :
    (h : RetryDelay) (i j : ℕ)
    → h.short_delay ≤ 3600000
    → (h.max_delay ≡ 0) ⊎ (h.short_delay ≤ h.max_delay)
    → h.delays_offset ≡ offset_from delays 0 h.short_delay
    → i ≤ j
    → chosen_delay (record h { attempts = i }) ≤ chosen_delay (record h { attempts = j })
chosen_delay_mono h i j short cap off le =
    let least =
      capped_least h.max_delay h.short_delay (table (j - h.short_count + h.delays_offset)) cap
        (table-offset h.short_delay (j - h.short_count + h.delays_offset) short (omega arith)) in
    let mono =
      capped_mono h.max_delay (table (i - h.short_count + h.delays_offset))
        (table (j - h.short_count + h.delays_offset))
        (table_mono (i - h.short_count + h.delays_offset) (j - h.short_count + h.delays_offset)
          (omega arith)) in
    ground (
      arith,
      chosen_delay-table (record h { attempts = i }),
      chosen_delay-table (record h { attempts = j }),
    )

-- As long as the 16-bit counter of attempts does not wrap, the waiting times of a handle that
-- `retry_init` made never get shorter from one attempt to a later one, for a short delay of at most an hour
-- and not above the longest delay (0 stands for none).
pub chosen_delay-after_attempts_mono :
    (first_instant : Bool) (short_count short_delay max_delay i j : ℕ)
    → short_delay ≤ 3600000
    → (max_delay ≡ 0) ⊎ (short_delay ≤ max_delay)
    → i ≤ j
    → j < 2 ^ 16
    → chosen_delay (after_attempts (retry_init first_instant short_count short_delay max_delay) i)
      ≤ chosen_delay (after_attempts (retry_init first_instant short_count short_delay max_delay) j)
unfolding retry_init
chosen_delay-after_attempts_mono first_instant short_count short_delay max_delay i j short cap le
      lt =
    let h = retry_init first_instant short_count short_delay max_delay in
    rw (attempts_lem h i refl (omega arith), attempts_lem h j refl lt)
      (chosen_delay_mono h i j short cap refl le)

-- After a reset, the waiting times are those of a fresh handle, whatever number of attempts below 2^16
-- came before it.
pub retry_reset-restarts :
    (first_instant : Bool) (short_count short_delay max_delay i n : ℕ)
    → i < 2 ^ 16
    → n < 2 ^ 16
    → chosen_delay (
        after_attempts
          (retry_reset
            (after_attempts (retry_init first_instant short_count short_delay max_delay) n))
          i)
      ≡ chosen_delay (after_attempts (retry_init first_instant short_count short_delay max_delay) i)
unfolding retry_init retry_reset
retry_reset-restarts first_instant short_count short_delay max_delay i n hi hn =
    let h = retry_init first_instant short_count short_delay max_delay in
    rw (attempts_lem h n refl hn)
