-- ===== src/Gnss.antt =====
-- main/gnss_uart.c: the reader of the GNSS receiver's byte stream, by its parts: the CRC and the
-- RTCM3 frame splitter, the console that keeps the receiver's text lines, and the task that feeds
-- them (Task, with Receive about its events and Command about the commands to the receiver).
pub mod Crc
pub mod Splitter
pub mod Console
pub mod Task
pub mod Command
pub mod Receive
mod Tests
