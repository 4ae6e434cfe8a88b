-- ===== src/CoreDump/Tests.antt =====
-- A small dump in a flash that gives its bytes.
use rtkbase.Prelude.{
  ℕ, ◌≡◌, refl, true, List, [], ◌∷◌, Option, some, take, drop, length, ltb, if◌then◌else◌,
}
use rtkbase.CoreDump.{core_dump_check, complete, core_dump_download}
use rtkbase.CoreDump.Served.{core_dump_download-whole}

abbrev image : List ℕ
image = 7 ∷ 8 ∷ 9 ∷ []

abbrev flash : ℕ → ℕ → Option (List ℕ)
flash offset len = some (take len (drop offset image))

core_dump_download-whole_example :
    core_dump_download flash (λ n. true) (core_dump_check (some 2) (some (length image)))
    ≡ some (complete (if ltb (length image) 2 then [] else take 2 image))
core_dump_download-whole_example =
    core_dump_download-whole flash (λ n. true) image 2 (λ offset len inside. refl) (λ n. refl)
