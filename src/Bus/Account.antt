-- ===== src/Bus/Account.antt =====
-- The reference counts of the pool follow the references that are held, under every weight.
use rtkbase.Prelude.{
  ℕ, zero, suc, ◌+◌, ◌-◌, ◌*◌, ◌%◌, ◌^◌, ◌<◌, ◌≤◌, ◌≡◌, refl, ap, ◌∙◌, List, [], ◌∷◌, some, arith,
  length, ==_refl,
}
use rtkbase.Pool.{Pool, store_refs, pool_release, pool_alloc, pool_set_refs}
use rtkbase.Pool.Laws.{
  refs, total_refs, length-store_refs, refs-store_refs, total_refs-store_refs, pool_alloc-some,
}
use rtkbase.Bus.{store_bytes}
use rtkbase.Bus.Held.{only, every}

pub length-store_bytes : (p : Pool) (i : ℕ) (bs : List ℕ) → length (store_bytes p i bs) ≡ length p
length-store_bytes [] i bs = refl
length-store_bytes (f ∷ fs) zero bs = refl
length-store_bytes (f ∷ fs) (suc i) bs = ap suc (length-store_bytes fs i bs)

pub refs-store_bytes : (p : Pool) (i j : ℕ) (bs : List ℕ) → refs (store_bytes p i bs) j ≡ refs p j
refs-store_bytes [] i j bs = refl
refs-store_bytes (f ∷ fs) zero zero bs = refl
refs-store_bytes (f ∷ fs) zero (suc j) bs = refl
refs-store_bytes (f ∷ fs) (suc i) zero bs = refl
refs-store_bytes (f ∷ fs) (suc i) (suc j) bs = refs-store_bytes fs i j bs

pub total_refs-store_bytes :
    (p : Pool) (i : ℕ) (bs : List ℕ) → total_refs (store_bytes p i bs) ≡ total_refs p
unfolding total_refs
total_refs-store_bytes [] i bs = refl
total_refs-store_bytes (f ∷ fs) zero bs = refl
total_refs-store_bytes (f ∷ fs) (suc i) bs = omega (arith, total_refs-store_bytes fs i bs)

-- Past the end of the pool there are no references.
pub refs-outside : (p : Pool) (i : ℕ) → length p ≤ i → refs p i ≡ 0
refs-outside [] i h = refl
refs-outside (f ∷ fs) zero h = absurd (omega arith)
refs-outside (f ∷ fs) (suc i) h = refs-outside fs i (omega arith)

-- A sum over the pool's counts, in which a reference to slot `i` weighs `w i`.
pub record Account (m : Pool → ℕ) (w : ℕ → ℕ) : Type 0 where
  pub store :
      (p : Pool) (i n : ℕ) → i < length p → m (store_refs p i n) + refs p i * w i ≡ m p + n * w i
  pub bytes : (p : Pool) (i : ℕ) (bs : List ℕ) → m (store_bytes p i bs) ≡ m p

only_store :
    (j : ℕ) (p : Pool) (i n : ℕ)
    → i < length p
    → refs (store_refs p i n) j + refs p i * only j i ≡ refs p j + n * only j i
only_store j p i n h = ground (arith, refs-store_refs p i j n, ==_refl i)

pub Account-only : (j : ℕ) → Account (λ p. refs p j) (only j)
Account-only j = record { store = only_store j; bytes = λ p i bs. refs-store_bytes p i j bs }

pub Account-every : Account total_refs every
Account-every = record {
  store = λ p i n h. omega (arith, total_refs-store_refs p i n h);
  bytes = total_refs-store_bytes;
}

module _ {m : Pool → ℕ} {w : ℕ → ℕ} (acc : Account m w) where
  -- Releasing a slot that has references takes one away.
  pub release-Account :
      (p : Pool) (i : ℕ)
      → i < length p
      → 0 < refs p i
      → refs p i < 2 ^ 31
      → m (pool_release p i).0 + w i ≡ m p
  unfolding pool_release
  release-Account p i h pos small =
      let n : ℕ = refs p i - 1 in
      let e : (refs p i + 2 ^ 32 - 1) % 2 ^ 32 ≡ n = omega arith in
      let f : refs p i ≡ n + 1 = omega arith in
      rw e (omega (arith, acc.store p i n h, ap (λ (t : ℕ). t * w i) f))

  -- Taking a slot and setting its count adds that many.
  pub alloc-Account :
      (p q : Pool) (i n : ℕ) (bs : List ℕ)
      → pool_alloc p ≡ some (i, q)
      → m (pool_set_refs (store_bytes q i bs) i n) ≡ m p + n * w i
  unfolding pool_set_refs
  alloc-Account p q i n bs e =
      let (h, free, eq) = pool_alloc-some p q i e in
      let r = store_bytes q i bs in
      let len : length r ≡ length p =
        length-store_bytes q i bs ∙ (ap length eq ∙ length-store_refs p i 1) in
      let one : refs r i ≡ 1 =
        refs-store_bytes q i i bs
        ∙ (ap (λ s. refs s i) eq ∙ ground (arith, refs-store_refs p i i 1 h, ==_refl i)) in
      let taken : m (store_refs p i 1) ≡ m p + w i =
        omega (arith, acc.store p i 1 h, ap (λ (t : ℕ). t * w i) free) in
      omega (
        arith,
        acc.store r i n (omega arith),
        ap (λ (t : ℕ). t * w i) one,
        acc.bytes q i bs,
        ap m eq,
      )
