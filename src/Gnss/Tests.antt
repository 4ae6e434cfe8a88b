-- ===== src/Gnss/Tests.antt =====
-- The reader task with an empty queue, and commands to the receiver.
use rtkbase.Prelude.{ℕ, ◌≤◌, ◌≡◌, refl, ap, true, List, [], ◌∷◌, ◌++◌, some, arith, All, length}
use rtkbase.CText.{codes}
use rtkbase.Rtos.{Fifo}
use rtkbase.Rtos.ListQueue.{list_fifo}
use rtkbase.Gnss.Splitter.{splitter_process_bytes}
use rtkbase.Gnss.Splitter.Tests.{start, fresh-IsValid}
use rtkbase.Gnss.Console.Tests.{fresh, fresh-IsConsole}
use rtkbase.Gnss.Task.{
  Read, uart_data, uart_fifo_ovf, Receiver, receive_event, command_ok, invalid_arg, trim_eol,
  gnss_uart_send_command,
}
use rtkbase.Gnss.Receive.{
  Sound, bytes_read, receive_events, receive_events-Sound, receive_event-stream,
}
use rtkbase.Gnss.Command.{IsLineEnd, EndsInText, gnss_uart_send_command-line}

abbrev fifo : Fifo (List ℕ) 64
fifo = list_fifo (List ℕ) 64

abbrev listening : Receiver fifo
listening = record {
  reader = start;
  console = fresh;
  server = record {
    q_tcp_server = some fifo.create;
    client_connected = true;
    drops = record { dropped_frames = 0; dropped_bytes = 0 };
  };
}

listening-Sound : Sound fifo listening
listening-Sound = record {
  valid = fresh-IsValid;
  console_ok = fresh-IsConsole;
  fits = omega (arith, ap length fifo.contents-create);
}

abbrev reads : List Read
reads =
    record { found = 0xd3 ∷ 0 ∷ []; now = 7 } ∷ record { found = 1 ∷ 65 ∷ 10 ∷ []; now = 9 } ∷ []

receive_events-Sound_example :
    (r' : Receiver fifo) × (receive_events fifo listening
        (uart_data 5 reads ∷ uart_fifo_ovf ∷ uart_data 2 reads ∷ [])
      ≡ some r')
    × Sound fifo r'
receive_events-Sound_example =
    receive_events-Sound fifo (uart_data 5 reads ∷ uart_fifo_ovf ∷ uart_data 2 reads ∷ []) listening
      listening-Sound (omega arith)

receive_event-stream_example :
    (r' : Receiver fifo) × (receive_event fifo listening (uart_data 5 reads) ≡ some r')
    × (splitter_process_bytes start (bytes_read 5 reads) ≡ some r'.reader)
receive_event-stream_example =
    receive_event-stream fifo listening 5 reads listening-Sound (omega arith)

version_sent :
    gnss_uart_send_command true true length (some (codes "VERSION" ++ 13 ∷ 10 ∷ []))
    ≡ (command_ok, codes "VERSION" ++ 13 ∷ 10 ∷ [])
unfolding gnss_uart_send_command trim_eol
version_sent = refl

gnss_uart_send_command-line_example :
    (line : List ℕ) × (eols : List ℕ) × (codes "VERSION" ++ 13 ∷ 10 ∷ [] ≡ line ++ eols)
    × All IsLineEnd eols
    × (codes "VERSION" ++ 13 ∷ 10 ∷ [] ≡ line ++ 13 ∷ 10 ∷ [])
    × (1 ≤ length line)
    × (length line ≤ 256)
    × EndsInText line
gnss_uart_send_command-line_example =
    gnss_uart_send_command-line true true length (codes "VERSION" ++ 13 ∷ 10 ∷ [])
      (codes "VERSION" ++ 13 ∷ 10 ∷ []) version_sent

-- A line end inside the command stays: the receiver is given two lines.
two_lines_sent :
    gnss_uart_send_command true true length (some (65 ∷ 13 ∷ 10 ∷ 66 ∷ []))
    ≡ (command_ok, 65 ∷ 13 ∷ 10 ∷ 66 ∷ 13 ∷ 10 ∷ [])
unfolding gnss_uart_send_command trim_eol
two_lines_sent = refl

only_line_ends : gnss_uart_send_command true true length (some (13 ∷ 10 ∷ [])) ≡ (invalid_arg, [])
unfolding gnss_uart_send_command trim_eol
only_line_ends = refl
