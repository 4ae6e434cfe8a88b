-- ===== src/Pool.antt =====
-- main/frame_pool.c: the static pool of reference-counted frames.
pub mod Laws
use rtkbase.Prelude.{
  ℕ, zero, suc, ◌+◌, ◌-◌, ◌%◌, ◌^◌, Bool, true, false, ◌||◌, List, [], ◌∷◌, Option, none, some,
  ◌==◌, leb, get_or,
}

abbrev pub max_rtcm_frame : ℕ
max_rtcm_frame = 1029

abbrev pub frame_queue_depth : ℕ
frame_queue_depth = 16

abbrev pub frame_pool_size : ℕ
frame_pool_size = 56

-- `pool_frame_t`. `bytes` is `data[0..len)`; `ref_count` is the bit pattern of the `atomic_int`.
pub record PoolFrame : Type 0 where
  pub bytes : List ℕ
  pub ref_count : ℕ

abbrev pub Pool : Type 0
Pool = List PoolFrame

abbrev pub empty_frame : PoolFrame
empty_frame = record { bytes = []; ref_count = 0 }

-- The slot a `pool_frame_t *` points to.
abbrev pub slot : Pool → ℕ → PoolFrame
slot p i = get_or p i empty_frame

abbrev pub store_refs : Pool → ℕ → ℕ → Pool
store_refs [] i n = []
store_refs (f ∷ fs) zero n = record f { ref_count = n } ∷ fs
store_refs (f ∷ fs) (suc i) n = f ∷ store_refs fs i n

unfoldable pub pool_init : Pool → Pool
pool_init [] = []
pool_init (f ∷ fs) = record f { ref_count = 0 } ∷ pool_init fs

-- The scan of `pool_alloc` for the first slot with no reference.
pub first_free : Pool → Option ℕ
first_free [] = none
first_free (f ∷ fs) = elim (f.ref_count == 0) [
  | true ↦ some 0
  | false ↦ elim (first_free fs) [ none ↦ none | some i ↦ some (suc i) ]
]

unfoldable pub pool_alloc : Pool → Option (ℕ × Pool)
unfolding first_free
pool_alloc p = elim (first_free p) [ none ↦ none | some i ↦ some (i, store_refs p i 1) ]

unfoldable pub pool_set_refs : Pool → ℕ → ℕ → Pool
pool_set_refs p i n = store_refs p i n

-- `prev <= 0` for an `int` bit pattern.
abbrev pub not_positive : ℕ → Bool
not_positive w = w == 0 || leb (2 ^ 31) w

-- The Boolean says that the double-release error was logged.
unfoldable pub pool_release : Pool → ℕ → Pool × Bool
pool_release p i =
    let prev = (slot p i).ref_count in
    (store_refs p i ((prev + 2 ^ 32 - 1) % 2 ^ 32), not_positive prev)
