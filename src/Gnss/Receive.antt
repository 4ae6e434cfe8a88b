-- ===== src/Gnss/Receive.antt =====
-- What task_gnss_reader keeps, and that its reads can cut the stream anywhere.
use rtkbase.Prelude.{
  ℕ, ◌-◌, ◌≤◌, ◌≡◌, refl, ap, ap₂, subst, zero, suc, sym, ◌∙◌, inl, inr, Bool, List, [], ◌∷◌, ◌++◌,
  Option, none, some, arith, All, All-append, length, take, min, ◌==◌, Option-cases, Bool-cases,
  ◌>>=◌, if◌then◌else◌, keep_last, length-drop,
}
use rtkbase.Rtos.{Fifo}
use rtkbase.TcpServer.{Server, post_loop, post_raw_gnss_data_tcp}
use rtkbase.TcpServer.Newest.{post_raw_gnss_data_tcp-newest}
use rtkbase.Gnss.Splitter.{
  Reader, splitter_init, process_loop, process_step, splitter_process_bytes,
}
use rtkbase.Gnss.Splitter.Inv.{IsByte, IsValid}
use rtkbase.Gnss.Splitter.Loop.{splitter_process_bytes-total}
use rtkbase.Gnss.Splitter.Chunks.{then_process, splitter_process_bytes-append}
use rtkbase.Gnss.Console.Lines.{IsConsole, console_push_bytes-safe}
use rtkbase.Gnss.Task.{
  Read, UartEvent, uart_data, uart_fifo_ovf, uart_buffer_full, other, Receiver, take_chunk,
  read_loop, receive_event,
}

abbrev pub BytesOnly : Read → Type 0
BytesOnly r = All IsByte r.found

-- The bytes that the loop of UART_DATA reads.
unfoldable pub bytes_read : ℕ → List Read → List ℕ
bytes_read remaining [] = []
bytes_read remaining (read ∷ reads) =
    let chunk = take (min remaining 128) read.found in
    let more = bytes_read (remaining - length chunk) reads in
    if length chunk == 0 then [] else chunk ++ more

take-IsByte : (n : ℕ) (xs : List ℕ) → All IsByte xs → All IsByte (take n xs)
take-IsByte zero xs h = tt
take-IsByte (suc n) [] h = tt
take-IsByte (suc n) (x ∷ xs) h = (h.0, take-IsByte n xs h.1)

bytes_read-IsByte :
    (reads : List Read) (remaining : ℕ)
    → All BytesOnly reads
    → All IsByte (bytes_read remaining reads)
unfolding bytes_read
bytes_read-IsByte [] remaining h = tt
bytes_read-IsByte (read ∷ reads) remaining h =
    let chunk = take (min remaining 128) read.found in
    let later = bytes_read-IsByte reads (remaining - length chunk) h.1 in
    elim (Bool-cases (length chunk == 0)) [
      | inl e ↦ rw e tt
      | inr e ↦ rw e (
          All-append IsByte chunk (bytes_read (remaining - length chunk) reads)
            (take-IsByte (min remaining 128) read.found h.0) later)
    ]

process_none : (r : Reader) → splitter_process_bytes r [] ≡ some r
unfolding splitter_process_bytes process_loop process_step
process_none r = refl

module _ (fifo : Fifo (List ℕ) 64) where
  open fifo use {Queue, contents}

  -- The queue, where there is one, has at most 64 entries.
  abbrev pub Fits : Option Queue → Type 0
  Fits none = Unit
  Fits (some q) = length (contents q) ≤ 64

  pub record Sound (r : Receiver fifo) : Type 0 where
    pub valid : IsValid r.reader.splitter
    pub console_ok : IsConsole r.console
    pub fits : Fits r.server.q_tcp_server

  post-Fits :
      (s : Server fifo) (frame : List ℕ)
      → Fits s.q_tcp_server
      → (s' : Server fifo) × (post_raw_gnss_data_tcp fifo s frame ≡ some s') × Fits s'.q_tcp_server
  unfolding post_raw_gnss_data_tcp
  post-Fits s frame fits = elim (Option-cases s.q_tcp_server) [
    | inl e ↦ (s, ap (λ o. posted o s.client_connected) e, fits)
    | inr (q, e) ↦ elim (Bool-cases s.client_connected) [
      | inr off ↦ (s, ap₂ posted e off, fits)
      | inl on ↦
          let (s', q', run, made, newest, still) =
            post_raw_gnss_data_tcp-newest fifo s q frame e on (subst Fits e fits) in
          (
            s',
            run,
            subst Fits (sym made) (
                subst (λ (x : List (List ℕ)). length x ≤ 64) (sym newest)
                  (keep_last_le (contents q ++ frame ∷ []))),
          )
    ]
  ]
    where
      posted : Option Queue → Bool → Option (Server fifo)
      posted o connected = elim o [
        | none ↦ some s
        | some q ↦
            if connected
            then (elim (post_loop fifo 2 q s.drops frame) [
              | none ↦ none
              | some done ↦ some (record s { q_tcp_server = some done.0; drops = done.1 })
            ])
            else some s
      ]

      keep_last_le : (xs : List (List ℕ)) → length (keep_last 64 xs) ≤ 64
      keep_last_le xs = omega (arith, length-drop (length xs - 64) xs)

  take_chunk-Sound :
      (r : Receiver fifo) (now : ℕ) (chunk : List ℕ)
      → Sound r
      → All IsByte chunk
      → (r' : Receiver fifo) × (take_chunk fifo r now chunk ≡ some r')
        × Sound r'
        × (splitter_process_bytes r.reader chunk ≡ some r'.reader)
  unfolding take_chunk
  take_chunk-Sound r now chunk v h =
      let (s, posted, fits) = post-Fits r.server chunk v.fits in
      let (c, pushed, sound) = console_push_bytes-safe r.console now chunk v.console_ok in
      let (p, split, valid) = splitter_process_bytes-total r.reader chunk v.valid h in
      (
        record { reader = p; console = c; server = s },
        rw (posted, ◌>>=◌, pushed, split) refl,
        record { valid = valid; console_ok = sound; fits = fits },
        split,
      )

  -- One event after another.
  unfoldable pub receive_events : Receiver fifo → List UartEvent → Option (Receiver fifo)
  receive_events r [] = some r
  receive_events r (event ∷ events) =
      receive_event fifo r event >>= (λ r'. receive_events r' events)

  read_loop-Sound :
      (reads : List Read) (remaining : ℕ) (r : Receiver fifo)
      → Sound r
      → All BytesOnly reads
      → (r' : Receiver fifo) × (read_loop fifo remaining reads r ≡ some r')
        × Sound r'
        × (splitter_process_bytes r.reader (bytes_read remaining reads) ≡ some r'.reader)
  unfolding read_loop bytes_read
  read_loop-Sound [] remaining r v h = (r, refl, v, process_none r.reader)
  read_loop-Sound (read ∷ reads) remaining r v h =
      let chunk = take (min remaining 128) read.found in
      let later = bytes_read (remaining - length chunk) reads in
      let good = take-IsByte (min remaining 128) read.found h.0 in
      let (r1, run, v1, split) = take_chunk-Sound r read.now chunk v good in
      let (r2, more, v2, rest) = read_loop-Sound reads (remaining - length chunk) r1 v1 h.1 in
      elim (Bool-cases (length chunk == 0)) [
        | inl e ↦ (r, rw e refl, v, rw e (process_none r.reader))
        | inr e ↦ (
          r2,
          rw (e, run) more,
          v2,
          rw e (
              splitter_process_bytes-append r.reader chunk later v.valid good
                (bytes_read-IsByte reads (remaining - length chunk) h.1)
              ∙ (ap (λ x. then_process x later) split ∙ rest)),
        )
      ]

  abbrev pub EventBytes : UartEvent → Type 0
  EventBytes (uart_data size reads) = All BytesOnly reads
  EventBytes uart_fifo_ovf = Unit
  EventBytes uart_buffer_full = Unit
  EventBytes other = Unit

  restarted :
      (r : Receiver fifo)
      → Sound r
      → Sound (record r { reader = record r.reader { splitter = splitter_init r.reader.splitter } })
  unfolding splitter_init
  restarted r v = record {
    valid = record { size = v.valid.size; bytes = v.valid.bytes; collected = refl };
    console_ok = v.console_ok;
    fits = v.fits;
  }

  receive_event-Sound :
      (r : Receiver fifo) (event : UartEvent)
      → Sound r
      → EventBytes event
      → (r' : Receiver fifo) × (receive_event fifo r event ≡ some r') × Sound r'
  unfolding receive_event splitter_init
  receive_event-Sound r (uart_data size reads) v h =
      let (r', run, ok, split) = read_loop-Sound reads size r v h in (r', run, ok)
  receive_event-Sound r uart_fifo_ovf v h = (_, refl, restarted r v)
  receive_event-Sound r uart_buffer_full v h = (_, refl, restarted r v)
  receive_event-Sound r other v h = (r, refl, v)

  -- Whatever events the UART driver reports and whatever bytes it gives, the reader task handles each of
  -- them to its end, inside its buffers: the splitter and the console stay valid, and the TCP queue has at
  -- most 64 entries.
  pub receive_events-Sound :
      (events : List UartEvent) (r : Receiver fifo)
      → Sound r
      → All EventBytes events
      → (r' : Receiver fifo) × (receive_events r events ≡ some r') × Sound r'
  unfolding receive_events
  receive_events-Sound [] r v h = (r, refl, v)
  receive_events-Sound (event ∷ events) r v h =
      let (r1, run, v1) = receive_event-Sound r event v h.0 in
      let (r2, more, v2) = receive_events-Sound events r1 v1 h.1 in (r2, rw run more, v2)

  -- An event with data publishes what the splitter makes of all its bytes at once: it does not matter how
  -- the bytes come in reads of at most 128.
  pub receive_event-stream :
      (r : Receiver fifo) (size : ℕ) (reads : List Read)
      → Sound r
      → All BytesOnly reads
      → (r' : Receiver fifo) × (receive_event fifo r (uart_data size reads) ≡ some r')
        × (splitter_process_bytes r.reader (bytes_read size reads) ≡ some r'.reader)
  unfolding receive_event
  receive_event-stream r size reads v h =
      let (r', run, ok, split) = read_loop-Sound reads size r v h in (r', run, split)
