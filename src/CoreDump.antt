-- ===== src/CoreDump.antt =====
-- main/core_dump.c, and the loop of core_dump_get_handler in main/web_server.c that sends the dump. The flash
-- driver is the parameter `read` (esp_partition_read), the sending of a chunk `send_ok`.
pub mod Served
mod Tests
use rtkbase.Prelude.{
  ℕ, zero, suc, ◌+◌, ◌-◌, Bool, true, false, ◌||◌, List, [], ◌∷◌, ◌++◌, Option, none, some, min,
  ltb, ◌==◌, if◌then◌else◌,
}

abbrev pub buffer_size : ℕ
buffer_size = 2048

-- `core_dump_partition` by its size, and `core_dump_size`.
pub record CoreDump : Type 0 where
  pub partition : Option ℕ
  pub size : ℕ

-- From what esp_core_dump_image_get and esp_partition_find_first give.
unfoldable pub core_dump_check : Option ℕ → Option ℕ → CoreDump
core_dump_check none found = record { partition = none; size = 0 }
core_dump_check (some image) none = record { partition = none; size = 0 }
core_dump_check (some image) (some size) =
    if image == 0
    then record { partition = none; size = 0 }
    else record { partition = some size; size = if ltb size image then 0 else image }

unfoldable pub core_dump_available : CoreDump → ℕ
core_dump_available d = elim d.partition [ none ↦ 0 | some size ↦ d.size ]

pub data DumpRead : Type 0 where
  dump_bytes : List ℕ → DumpRead
  invalid_dump : DumpRead
  invalid_size : DumpRead
  flash_error : DumpRead

-- How the handler ends, with the bytes it has sent.
pub data Download : Type 0 where
  complete : List ℕ → Download
  failed : List ℕ → Download

module _ (read : ℕ → ℕ → Option (List ℕ)) (send_ok : ℕ → Bool) where
  unfoldable pub core_dump_read : CoreDump → ℕ → ℕ → DumpRead
  core_dump_read d offset len = elim d.partition [
    | none ↦ invalid_dump
    | some size ↦
        if ltb d.size offset || ltb (d.size - offset) len
        then invalid_size
        else (elim (read offset len) [ none ↦ flash_error | some got ↦ dump_bytes got ])
  ]

  -- The loop over the chunks; `sent` has gone out before.
  unfoldable pub download_loop : ℕ → CoreDump → ℕ → ℕ → List ℕ → Option Download
  unfolding core_dump_read
  download_loop zero d total offset sent = none
  download_loop (suc fuel) d total offset sent =
      if ltb offset total
      then (elim (core_dump_read d offset (min (total - offset) buffer_size)) [
        | dump_bytes got ↦
            let more = download_loop fuel d total (offset + buffer_size) (sent ++ got) in
            if send_ok offset then more else some (failed sent)
        | invalid_dump ↦ some (failed sent)
        | invalid_size ↦ some (failed sent)
        | flash_error ↦ some (failed sent)
      ])
      else some (complete sent)

  unfoldable pub core_dump_download : CoreDump → Option Download
  unfolding download_loop core_dump_available
  core_dump_download d = download_loop (core_dump_available d + 1) d (core_dump_available d) 0 []
