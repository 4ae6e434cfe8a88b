-- ===== src/Gnss/Task.antt =====
-- The reader task of main/gnss_uart.c: task_gnss_reader with its settings, and gnss_uart_send_command. The
-- UART driver is seen by its events, by what uart_read_bytes gives, and by what uart_write_bytes returns.
use Prim.Native.String.{String}
use rtkbase.Prelude.{
  ℕ, ◌-◌, ◌%◌, Bool, not, ◌&&◌, ◌||◌, List, [], ◌∷◌, ◌++◌, Option, none, some, length, take, min,
  ◌==◌, ltb, if◌then◌else◌, ◌>>=◌,
}
use rtkbase.Rtos.{Fifo}
use rtkbase.Nvs.{Nvs, as_u8, as_u32}
use rtkbase.Config.Export.{read_into}
use rtkbase.TcpServer.{Server, post_raw_gnss_data_tcp}
use rtkbase.Gnss.Splitter.{Reader, splitter_init, splitter_process_bytes}
use rtkbase.Gnss.Console.{Console, console_push_bytes}

abbrev pub uart_read_chunk : ℕ
uart_read_chunk = 128

abbrev pub gnss_command_max_len : ℕ
gnss_command_max_len = 256

-- `uart_config_t` and the pins, as they are read from NVS.
pub record UartSettings : Type 0 where
  pub baud_rate : ℕ
  pub data_bits : ℕ
  pub parity : ℕ
  pub stop_bits : ℕ
  pub flow_ctrl_rts : Bool
  pub flow_ctrl_cts : Bool
  pub uart_port : ℕ
  pub pin_tx : ℕ
  pub pin_rx : ℕ
  pub pin_rts : ℕ
  pub pin_cts : ℕ

module _ (nvs : Nvs) where
  open nvs use {Store, opens, get}

  unfoldable pub read_u8 : Store → ℕ → String → ℕ
  read_u8 s old key = read_into 256 old (as_u8 (get s key))

  -- Each read goes into the union `cfg_var`, which keeps its value where the read fails; before the
  -- first read it has none.
  unfoldable pub uart_settings : Store → Option UartSettings
  unfolding read_u8
  uart_settings s =
      if not (opens s)
      then none
      else as_u32 (get s "uart_baud_rate") >>= (λ baud.
        let data_bits = read_u8 s baud "uart_data_bits" in
        let parity = read_u8 s data_bits "uart_parity" in
        let stop_bits = read_u8 s parity "uart_stop_bits" in
        let rts = read_u8 s stop_bits "uart_fc_rts" in
        let cts = read_u8 s rts "uart_fc_cts" in
        let port = read_u8 s cts "uart_num" in
        let tx = read_u8 s port "uart_tx_pin" in
        let rx = read_u8 s tx "uart_rx_pin" in
        let rts_pin = read_u8 s rx "uart_rts_pin" in
        let cts_pin = read_u8 s rts_pin "uart_cts_pin" in
        some (record {
          baud_rate = baud;
          data_bits = data_bits % 256;
          parity = parity % 256;
          stop_bits = stop_bits % 256;
          flow_ctrl_rts = not (rts % 256 == 0);
          flow_ctrl_cts = not (cts % 256 == 0);
          uart_port = port % 256;
          pin_tx = tx % 256;
          pin_rx = rx % 256;
          pin_rts = rts_pin % 256;
          pin_cts = cts_pin % 256;
        }))

-- What one call of uart_read_bytes finds, and the time in microseconds when the console takes it.
pub record Read : Type 0 where
  pub found : List ℕ
  pub now : ℕ

-- `uart_event_t`; `other` stands for the events that are only logged.
pub data UartEvent : Type 0 where
  uart_data : ℕ → List Read → UartEvent
  uart_fifo_ovf : UartEvent
  uart_buffer_full : UartEvent
  other : UartEvent

module _ (fifo : Fifo (List ℕ) 64) where
  -- What the task works on: the splitter with what it has reported, the console, and the TCP server's
  -- queue.
  pub record Receiver : Type 0 where
    pub reader : Reader
    pub console : Console
    pub server : Server fifo

  -- A chunk goes to the TCP server, the console and the splitter.
  unfoldable pub take_chunk : Receiver → ℕ → List ℕ → Option Receiver
  unfolding post_raw_gnss_data_tcp console_push_bytes splitter_process_bytes
  take_chunk r now chunk = post_raw_gnss_data_tcp fifo r.server chunk >>= (λ server.
      console_push_bytes r.console now chunk >>= (λ console.
        splitter_process_bytes r.reader chunk
        >>= (λ reader. some (record { reader = reader; console = console; server = server }))))

  -- The loop of UART_DATA; a read that finds nothing ends it.
  unfoldable pub read_loop : ℕ → List Read → Receiver → Option Receiver
  unfolding take_chunk
  read_loop remaining [] r = some r
  read_loop remaining (read ∷ reads) r =
      let chunk = take (min remaining uart_read_chunk) read.found in
      let next =
        take_chunk r read.now chunk >>= (λ r'. read_loop (remaining - length chunk) reads r') in
      if length chunk == 0 then some r else next

  -- After an overflow the driver's bytes are thrown away, and the splitter begins anew.
  abbrev reset_splitter : Receiver → Receiver
  reset_splitter r = record r {
    reader = record r.reader { splitter = splitter_init r.reader.splitter };
  }

  unfoldable pub receive_event : Receiver → UartEvent → Option Receiver
  unfolding read_loop splitter_init
  receive_event r (uart_data size reads) = read_loop size reads r
  receive_event r uart_fifo_ovf = some (reset_splitter r)
  receive_event r uart_buffer_full = some (reset_splitter r)
  receive_event r other = some r

-- The results of `gnss_uart_send_command`.
pub data CommandResult : Type 0 where
  command_ok : CommandResult
  invalid_arg : CommandResult
  invalid_state : CommandResult
  timeout : CommandResult
  command_failed : CommandResult

abbrev pub is_eol : ℕ → Bool
is_eol c = c == 13 || c == 10

-- The command without the line ends at its end.
unfoldable pub trim_eol : List ℕ → List ℕ
trim_eol [] = []
trim_eol (c ∷ rest) =
    let kept = trim_eol rest in if length kept == 0 && is_eol c then [] else c ∷ kept

-- `write` is uart_write_bytes: how many of the bytes it takes. The bytes written come with the result.
unfoldable pub gnss_uart_send_command :
    Bool → Bool → (List ℕ → ℕ) → Option (List ℕ) → CommandResult × List ℕ
unfolding trim_eol
gnss_uart_send_command ready locked write none = (invalid_arg, [])
gnss_uart_send_command ready locked write (some command) =
    let line = trim_eol command in
    let len = length line in
    let eol = 13 ∷ 10 ∷ [] in
    if length command == 0
    then (invalid_arg, [])
    else if not ready
    then (invalid_state, [])
    else if len == 0 || ltb gnss_command_max_len len
    then (invalid_arg, [])
    else if not locked
    then (timeout, [])
    else if not (write line == len)
    then (command_failed, take (write line) line)
    else if write eol == 2
    then (command_ok, line ++ eol)
    else (command_failed, line ++ take (write eol) eol)
