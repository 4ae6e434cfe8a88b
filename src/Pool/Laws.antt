-- ===== src/Pool/Laws.antt =====
-- Laws of the frame pool's slots, of its scan and of its reference counts.
use rtkbase.Prelude.{
  ℕ, zero, suc, ◌+◌, ◌≤◌, ◌<◌, ◌≡◌, refl, ap, [], ◌∷◌, none, some, arith, ◌==◌, length,
  if◌then◌else◌, Option-cases, inl, inr,
}
use rtkbase.Pool.{Pool, slot, store_refs, first_free, pool_alloc, pool_init}

-- The number of references to slot `i`.
abbrev pub refs : Pool → ℕ → ℕ
refs p i = (slot p i).ref_count

unfoldable pub total_refs : Pool → ℕ
total_refs [] = 0
total_refs (f ∷ fs) = f.ref_count + total_refs fs

pub length-store_refs : (p : Pool) (i n : ℕ) → length (store_refs p i n) ≡ length p
length-store_refs [] i n = refl
length-store_refs (f ∷ fs) zero n = refl
length-store_refs (f ∷ fs) (suc i) n = ap suc (length-store_refs fs i n)

pub refs-store_refs :
    (p : Pool) (i j n : ℕ)
    → i < length p
    → refs (store_refs p i n) j ≡ (if i == j then n else refs p j)
refs-store_refs [] i j n h = absurd (omega arith)
refs-store_refs (f ∷ fs) zero zero n h = refl
refs-store_refs (f ∷ fs) zero (suc j) n h = ground arith
refs-store_refs (f ∷ fs) (suc i) zero n h = ground arith
refs-store_refs (f ∷ fs) (suc i) (suc j) n h = ground (arith, refs-store_refs fs i j n)

pub bytes-store_refs : (p : Pool) (i j n : ℕ) → (slot (store_refs p i n) j).bytes ≡ (slot p j).bytes
bytes-store_refs [] i j n = refl
bytes-store_refs (f ∷ fs) zero zero n = refl
bytes-store_refs (f ∷ fs) zero (suc j) n = refl
bytes-store_refs (f ∷ fs) (suc i) zero n = refl
bytes-store_refs (f ∷ fs) (suc i) (suc j) n = bytes-store_refs fs i j n

pub total_refs-store_refs :
    (p : Pool) (i n : ℕ)
    → i < length p
    → total_refs (store_refs p i n) + refs p i ≡ total_refs p + n
unfolding total_refs
total_refs-store_refs [] i n h = absurd (omega arith)
total_refs-store_refs (f ∷ fs) zero n h = omega arith
total_refs-store_refs (f ∷ fs) (suc i) n h =
    omega (arith, total_refs-store_refs fs i n (omega arith))

-- A scan that finds nothing has seen a reference in every slot.
pub first_free-none : (p : Pool) → first_free p ≡ none → length p ≤ total_refs p
unfolding first_free total_refs
first_free-none [] e = omega arith
first_free-none (f ∷ fs) e = ground (arith, first_free-none fs)

-- A scan that finds a slot finds one inside the pool, with no reference.
pub first_free-some : (p : Pool) (i : ℕ) → first_free p ≡ some i → (i < length p) × (refs p i ≡ 0)
unfolding first_free
first_free-some [] i e = absurd (cc)
first_free-some (f ∷ fs) zero e = ground arith
first_free-some (f ∷ fs) (suc i) e = ground (arith, first_free-some fs i)

-- `pool_alloc` takes a slot that nobody refers to, and gives it one reference.
pub pool_alloc-some :
    (p q : Pool) (i : ℕ)
    → pool_alloc p ≡ some (i, q)
    → (i < length p) × (refs p i ≡ 0) × (q ≡ store_refs p i 1)
unfolding pool_alloc
pool_alloc-some p q i e = elim (Option-cases (first_free p)) [
  | inl miss ↦ absurd (ground arith)
  | inr (j, hit) ↦ ground (arith, first_free-some p j hit)
]

-- `pool_alloc` fails only where every slot has a reference.
pub pool_alloc-none : (p : Pool) → pool_alloc p ≡ none → length p ≤ total_refs p
unfolding pool_alloc
pool_alloc-none p e = elim (Option-cases (first_free p)) [
  | inl miss ↦ first_free-none p miss
  | inr (j, hit) ↦ absurd (ground arith)
]

pub refs-pool_init : (p : Pool) (i : ℕ) → refs (pool_init p) i ≡ 0
unfolding pool_init
refs-pool_init [] i = refl
refs-pool_init (f ∷ fs) zero = refl
refs-pool_init (f ∷ fs) (suc i) = refs-pool_init fs i

pub total_refs-pool_init : (p : Pool) → total_refs (pool_init p) ≡ 0
unfolding pool_init total_refs
total_refs-pool_init [] = refl
total_refs-pool_init (f ∷ fs) = omega (arith, total_refs-pool_init fs)

pub length-pool_init : (p : Pool) → length (pool_init p) ≡ length p
unfolding pool_init
length-pool_init [] = refl
length-pool_init (f ∷ fs) = ap suc (length-pool_init fs)
