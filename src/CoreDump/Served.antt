-- ===== src/CoreDump/Served.antt =====
-- A download gives the core dump, whole.
use rtkbase.Prelude.{
  ℕ, zero, suc, ◌+◌, ◌-◌, ◌<◌, ◌≤◌, ◌≡◌, refl, ap, ap₂, sym, ◌∙◌, inl, inr, Bool, true, false, ◌||◌,
  List, [], ◌∷◌, ◌++◌, Option, none, some, arith, length, take, drop, drop-drop, min, ltb, ◌==◌,
  Bool-cases, append-nil, append_assoc, if◌then◌else◌,
}
use rtkbase.CoreDump.{
  CoreDump, core_dump_check, core_dump_available, core_dump_read, DumpRead, dump_bytes,
  invalid_dump, invalid_size, flash_error, complete, download_loop, core_dump_download,
}

take-append-take :
    (a b c : ℕ) (xs : List ℕ) → c ≡ a + b → take a xs ++ take b (drop a xs) ≡ take c xs
take-append-take zero b c xs e = ap (λ n. take n xs) (omega arith)
take-append-take (suc a) b zero xs e = absurd (omega arith)
take-append-take (suc a) zero (suc c) [] e = refl
take-append-take (suc a) (suc b) (suc c) [] e = refl
take-append-take (suc a) b (suc c) (x ∷ xs) e =
    ap (λ (ys : List ℕ). x ∷ ys) (take-append-take a b c xs (omega arith))

module _ (read : ℕ → ℕ → Option (List ℕ)) (send_ok : ℕ → Bool) (image : List ℕ) where
  -- esp_partition_read gives the bytes of the partition, where it has them.
  abbrev pub Reads : Type 0
  Reads =
      (offset len : ℕ)
      → offset + len ≤ length image
      → read offset len ≡ some (take len (drop offset image))

  core_dump_read_lem :
      (d : CoreDump) (offset len : ℕ)
      → Reads
      → d.partition ≡ some (length image)
      → d.size ≤ length image
      → offset + len ≤ d.size
      → core_dump_read read send_ok d offset len ≡ dump_bytes (take len (drop offset image))
  unfolding core_dump_read
  core_dump_read_lem d offset len reads found fits inside =
      let start_in : ltb d.size offset ≡ false = ground arith in
      let end_in : ltb (d.size - offset) len ≡ false = ground arith in
      let got = reads offset len (omega arith) in
      ap
        (λ (p : Option ℕ). elim p as (λ x. DumpRead) [
          | none ↦ invalid_dump
          | some size ↦
              if ltb d.size offset || ltb (d.size - offset) len
              then invalid_size
              else (elim (read offset len) [ none ↦ flash_error | some got ↦ dump_bytes got ])
        ])
        found
      ∙ rw (start_in, end_in, got) refl

  download_loop-complete :
      (fuel : ℕ) (d : CoreDump) (offset : ℕ) (sent : List ℕ)
      → Reads
      → ((n : ℕ) → send_ok n ≡ true)
      → d.partition ≡ some (length image)
      → d.size ≤ length image
      → d.size - offset < fuel
      → download_loop read send_ok fuel d d.size offset sent
        ≡ some (complete (sent ++ take (d.size - offset) (drop offset image)))
  unfolding download_loop
  download_loop-complete zero d offset sent reads sends found fits enough = absurd (omega arith)
  download_loop-complete (suc fuel) d offset sent reads sends found fits enough =
      let n = min (d.size - offset) 2048 in
      let chunk = take n (drop offset image) in
      elim (Bool-cases (ltb offset d.size)) [
        | inr e ↦
            let none_left : d.size - offset ≡ 0 = ground arith in
            rw (e, none_left) (ap (λ (x : List ℕ). some (complete x)) (sym (append-nil sent)))
        | inl e ↦
            let inside : offset < d.size = ground arith in
            let got = core_dump_read_lem d offset n reads found fits (omega arith) in
            let more =
              download_loop-complete fuel d (offset + 2048) (sent ++ chunk) reads sends found fits
                (omega arith) in
            rw (e, got, sends offset)
              (more
                ∙ ap (λ (x : List ℕ). some (complete x))
                    (append_assoc sent chunk
                        (take (d.size - (offset + 2048)) (drop (offset + 2048) image))
                      ∙ ap (λ (x : List ℕ). sent ++ x) (joined offset inside)))
      ]
    where
      joined :
          (offset : ℕ)
          → offset < d.size
          → take (min (d.size - offset) 2048) (drop offset image)
              ++ take (d.size - (offset + 2048)) (drop (offset + 2048) image)
            ≡ take (d.size - offset) (drop offset image)
      joined offset h = elim (Bool-cases (ltb 2048 (d.size - offset))) [
        | inl e ↦
            let all_chunk : min (d.size - offset) 2048 ≡ 2048 = ground arith in
            ap₂
              (λ (n : ℕ) (xs : List ℕ).
                take n (drop offset image) ++ take (d.size - (offset + 2048)) xs)
              all_chunk (sym (drop-drop image offset 2048 (offset + 2048) refl))
            ∙ take-append-take 2048 (d.size - (offset + 2048)) (d.size - offset) (drop offset image)
                (ground arith)
        | inr e ↦
            let last_chunk : min (d.size - offset) 2048 ≡ d.size - offset = ground arith in
            let none_after : d.size - (offset + 2048) ≡ 0 = ground arith in
            ap₂ (λ (n k : ℕ). take n (drop offset image) ++ take k (drop (offset + 2048) image))
              last_chunk none_after
            ∙ append-nil (take (d.size - offset) (drop offset image))
      ]

  -- Where the flash gives the partition's bytes and the chunks are sent, the download ends and has sent exactly
  -- the first bytes of the partition, as many as the image was reported to have; nothing is sent of an
  -- image that is reported larger than the partition.
  pub core_dump_download-whole :
      (reported : ℕ)
      → Reads
      → ((n : ℕ) → send_ok n ≡ true)
      → core_dump_download read send_ok (core_dump_check (some reported) (some (length image)))
        ≡ some (complete (if ltb (length image) reported then [] else take reported image))
  unfolding core_dump_download core_dump_check core_dump_available download_loop
  core_dump_download-whole reported reads sends = elim (Bool-cases (reported == 0)) [
    | inl z ↦
        let fits : ltb (length image) reported ≡ false = ground arith in
        let zero_len : reported ≡ 0 = ground arith in
        rw (z, fits) (ap (λ n. some (complete (take n image))) (sym zero_len))
    | inr z ↦ elim (Bool-cases (ltb (length image) reported)) [
      | inl f ↦ rw (z, f) refl
      | inr f ↦
          let d : CoreDump = record { partition = some (length image); size = reported } in
          let whole : reported - 0 ≡ reported = omega arith in
          rw (z, f)
            (download_loop-complete (reported + 1) d 0 [] reads sends refl (ground arith)
                (omega arith)
              ∙ ap (λ n. some (complete (take n image))) whole)
    ]
  ]
