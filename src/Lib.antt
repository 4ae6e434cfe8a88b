-- ===== src/Lib.antt =====
-- RTKBase: the firmware of a GNSS base station (main/), an ESP32 between an UM980 receiver on a UART
-- and its clients on the network.
--
-- Parts, and how they interact. The reader task of main/gnss_uart.c cuts the receiver's byte stream
-- into RTCM3 frames. A frame goes into a slot of the pool of main/frame_pool.c, and a pointer to the
-- slot into the queue of each service that runs: two uplinks (main/ntrip_client.c) and the local
-- caster (main/ntrip_caster.c). Each service's task takes the pointer, sends the bytes, and releases
-- the slot. The reader task also keeps the receiver's text lines for a console, and hands raw bytes to
-- the TCP server (main/tcp_server.c), which serves one client. The configuration (main/nvs_config.c) is a
-- table of items in flash, which every service reads when it starts, and which the web page gets and posts
-- as JSON. The web log (main/log.c) keeps the firmware's own log lines.
--
-- Files:
--   Prelude: shared names, Boolean tests on numbers, arrays and sequences as lists.
--   Rtos: the FreeRTOS queue as an interface with laws; Rtos.ListQueue is an instance of it.
--   Pool: main/frame_pool.c. A pool is the list of its slots, a pointer is an index. A slot is its
--     bytes and the bit pattern of its reference count; Pool.Laws has the laws.
--   Bus: publish_rtcm_frame of main/gnss_uart.c with ntrip_client_publish and ntrip_caster_publish,
--     and what the consumer tasks do to the pool and to their queues. Action is one visible step of a
--     task, run is a history of any interleaving of such steps. Bus.Held counts who holds a slot,
--     Bus.Account and Bus.Balance keep the counts balanced, Bus.Shape bounds the queues,
--     Bus.Invariant joins them, Bus.Safety and Bus.Bytes draw the conclusions.
--   Gnss.Crc, Gnss.Splitter: crc24q, splitter_push_byte and splitter_process_bytes of
--     main/gnss_uart.c. What the splitter calls is a list of events. Splitter.Inv has the invariant,
--     Loop the end of the loops, Frames what is published, Chunks the cuts between two reads,
--     Roundtrip the way back from encoded frames, Nested a replay inside a replay.
--   Gnss.Console: the receiver console of main/gnss_uart.c (console_push_bytes, the consume in its two
--     parts, clear). Console.Lines is about what is kept, Console.Consume about taking it away.
--   ByteRing: the text ring that main/log.c and main/gnss_uart.c each have, with the size as a
--     parameter; ByteRing.Window reads it backwards from its head, ByteRing.Contents has its refinement.
--   CText: the C string functions in use. Log: main/log.c; Log.Overrun says when its line assembly
--     stays inside s_pending_line.
--   Retry: main/retry.c, with its schedule of waiting times.
--   Gnss.Task: task_gnss_reader of main/gnss_uart.c over the UART driver's events, with its settings, and
--     gnss_uart_send_command; Gnss.Receive is about the events, Gnss.Command about the commands.
--   Lwip: a connected socket as an interface with laws; Lwip.Script is an instance of it. Lwip.SendLoop is
--     the sending loop that three files have, as send_bytes_to_rover of main/ntrip_caster.c writes it.
--   Uplink: an uplink task of main/ntrip_client.c: its waits between attempts (Backoff), its frames
--     (Frames), the requests of ntrip_connect (Connect, Handshake), and ntrip_client_init (Start).
--   Caster: main/ntrip_caster.c; Settings is load_caster_config, Request the answer to a request
--     (handle_request without its sends), Serve the slots and a pass of task_ntrip_server, Stream the
--     sending to rovers. Flush, Flushed, Frame and Whole are about the sending (the tail, a frame after it, one frame, a sequence of
--     frames), Authorized and Passes about the slots, Sourcetable
--     about the buffers of send_sourcetable.
--   TcpServer: main/tcp_server.c: the queue (post_raw_gnss_data_tcp, tcp_server_drain_queue), the sending of
--     task_tcp_server (Client) and its passes (Session), with the closing of a rejected connection. Newest,
--     Progress, Stream, Accept, Passes and OneClient have the theorems.
--   Nvs: the flash store as an interface with laws, Nvs.Table an instance. Json: the values of cJSON.
--   Config: main/nvs_config.c: CONFIG_ITEMS (Items), nvs_cfg_init and the readers (Store), cfg_to_json (Export),
--     cfg_json_to_nvs (Import) with the conversions json_get_* (Read). Sound says when an item is in
--     order; Defaults, Update, Roundtrip and Secrets have the theorems.
--   CoreDump: main/core_dump.c and the download loop of main/web_server.c; Served has its theorem.
--   Web: get_path_from_uri and sanitize_filename_part of main/web_server.c; Web.Path has the theorem.
--   Modules named Tests have concrete runs.
--
-- Fuel: process_loop runs on fuel, since a replay restarts the inner loop; 1029 * 1029 + 1 rounds for
-- each byte of the data are enough, since each replay is shorter than the one before it. The sending
-- loop has a round for each byte left and each retry after it. The loops over the characters of a text have its length, the loop of
-- post_raw_gnss_data_tcp two rounds, since one receive makes room, and that of
-- tcp_server_drain_queue one round more than the queue has entries, as that of the TCP server's sends.
-- The core dump download has a round for each byte. The loop that reads a
-- rejected connection before it is closed has no bound in the code: a pass of the TCP server takes its fuel
-- as an argument, and is none where that loop is still going.
--
-- Arrays: a write outside an array is none, in the line buffers of the log and the console and in
-- tx_pending.
--
-- Integers: an int or a size is a natural number with its wrap-around written out where it can wrap;
-- the atomic reference count is its 32-bit pattern.
--
-- Not modelled: log output, task creation, the ESP-IDF drivers, lwIP, the web server but for the paths, the
-- file names and the core dump's download, main/wifi.c, main/main.c. The queues exist, or not, from
-- before the first frame on: the reader task is started a little before the queues are created, and
-- a frame published while a service starts is outside the model. The part of publish_rtcm_frame
-- before the first xQueueSend is one step, since no other task can see the slot in it.
pub mod Prelude
pub mod Rtos
pub mod Lwip
pub mod ByteRing
pub mod CText
pub mod Log
pub mod Retry
pub mod Caster
pub mod Nvs
pub mod Json
pub mod Config
pub mod CoreDump
pub mod Uplink
pub mod Web
pub mod TcpServer
pub mod Pool
pub mod Bus
pub mod Gnss
