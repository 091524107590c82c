-- ===== src/Lib.antt =====
-- A model of the OpenPGP card emulator, its firmware and the host's side, and what is proved of it.
--
-- The program. A microcontroller (ArduinoCardEmu/) plays a smart card with its reader behind a
-- serial line. On the host a driver of OpenCT (OpenCTDriver/) talks to it in messages of at most
-- 16 bytes: one header byte with the kind of the message in three bits and the number of the bytes
-- that follow in five, up to 14 bytes of payload, and a CRC-8. OpenCT's own layers use the driver
-- for whole APDUs: the T=1 protocol cuts them into blocks, the ATR code reads the answer to reset
-- and negotiates the protocol, and byte buffers with tag-length-value items carry requests between
-- a client and the daemon.
--
-- The files and the code they model:
--   Crc8         Crc8Table and CRC8 of OpenCTDriver/src/ifd/ifd-cardemu.c
--   Frame        its comm_header_decode, comm_verify and comm_message
--   Device       ifd_device_send and ifd_device_recv of OpenCTDriver/src/ifd/device.c; the functions
--                behind the device are the fields of DeviceOps
--   Line         comm_recv, comm_send and comm_recv_message
--   Cardemu      resync (Resync), the macros RUN_RESYNC_AND_RETRY with the loops around them
--                (Retry), cardemu_card_status and cardemu_deactivate (Status),
--                cardemu_card_reset and cardemu_activate (Reset), cardemu_send and cardemu_recv
--                (Transmit)
--   Buffer       OpenCTDriver/src/ct/buffer.c
--   Tlv          OpenCTDriver/src/ct/tlv.c: the parser and the builder
--   Ctbcs        OpenCTDriver/src/ifd/ctbcs.c
--   Checksum     OpenCTDriver/src/ifd/checksum.c
--   Apdu         OpenCTDriver/src/ifd/apdu.c
--   Atr          OpenCTDriver/src/ifd/atr.c and ifd_count_bits of utils.c
--   T1           OpenCTDriver/src/ifd/proto-t1.c: the state, blocks and parameters (Block), t1_xcv
--                (Channel), t1_transceive (Transceive), t1_resynchronize and t1_negotiate_ifsd
--                (Negotiate). Frames and Talk say what a card sends that keeps to T=1
--   T0           OpenCTDriver/src/ifd/proto-t0.c: the state, the parameters, and the bytes that
--                t0_send and t0_recv move (State), t0_xcv and t0_transceive (Transceive)
--   Protocol     OpenCTDriver/src/ifd/protocol.c: the list of protocols and the one in use
--                (Registry), ifd_protocol_select (Select)
--   Locks        OpenCTDriver/src/ifd/locks.c
--   Firmware     ArduinoCardEmu/: CRC8 of crc8.cpp (Crc8), ReceiveRequest and SendAnswer of
--                comm_helper.cpp (Comm), send_resync, resync, card_reset and loop of main_loop.cpp
--                with the ATR of smart_card.cpp (Loop). Board has what the code uses of Arduino.
--                React is the table of the protocol: which answers a request gets in which state
--   Together     the driver and the firmware on one wire: what the driver relies on (Link), and the
--                wire with the firmware's code behind it (World)
--   Base         what the components share: lists over the native numbers, bytes, slices, writes
--                at an offset, binary digits, and the monad of a try that may fail
--   Examples     the theorems at concrete inputs
--
-- How the code becomes definitions. A byte and an unsigned int are natural numbers, with `%` where
-- the code wraps. A function that writes through a pointer takes the memory as a list and returns
-- it; an index stands for a pointer into it, and the payload of comm_message says whether it lies
-- in the message buffer, starts before it, or lies elsewhere. The state of the world outside, the
-- line with what is behind it, is a type parameter S that the device's functions and rand() take
-- and return. A try of a command is a function from a Session to a Result with the new Session; its
-- error says which of the two resync macros it ran into. What a stack buffer holds before it is
-- written is a field of Host. Debug output is left out.
--
-- Bounds and fuel. comm_recv_message has as many rounds as bytes are missing, cardemu_send as many
-- as the APDU has bytes, which is enough: each round receives or sends at least one. The loop of
-- cardemu_card_reset ends only when the device lets it, so its fuel is an argument and running out
-- of it a result of its own; a write behind the array for the ATR is a result of its own too. The
-- rounds of t1_transceive and t1_negotiate_ifsd are counted by fuel in the same way: nothing in the
-- code bounds them but the card, and with a card that keeps to T=1 one round for each of its blocks
-- is enough. t1_resynchronize has its three. A block that is written behind its buffer is an
-- outcome of its own. The rounds of t0_xcv are counted too, but they are bounded: each moves a byte
-- of the two buffers, or takes one of the null bytes, of which max_nulls are borne. The firmware
-- waits for a byte, and for room to write one, without a bound, so that `patience` counts its polls
-- and `rounds` the calls of readBytes for one body; with no more fuel a run ends in the result
-- no_fuel. On a wire that loses nothing one poll and two calls are enough. `loop` and `resync` have
-- fuel for the requests they take; the driver meets them in turns of one request (React).
-- ct_tlv_parse has as many rounds as bytes are unread, each takes at least three. The loop of
-- ifd_protocol_select has as many as the answer to reset has bytes: each that another follows moves
-- on by at least one.
--
-- The wire. What Arduino's serial port does, and the line to the host, are parameters: Timeouts has
-- what Arduino documents of readBytes and millis, with the timeout of 500 ms that CommHelper::Init
-- sets, Wire and World what a line does that loses nothing. The serial port of StandaloneAppSrc
-- does not wait for a byte, so that what Timeouts shows is not said of it. The firmware takes its
-- turn when a request has come; a request is not cut by another.
--
-- Not modelled: cardemu_open and ifd_cardemu_register (configuration and allocation), setup of
-- main_loop.cpp but for the call of resync, the standalone emulator in StandaloneAppSrc (a serial port
-- of Windows), the other drivers of OpenCT and its daemon, sockets, USB and PC/SC glue. The
-- operations of SmartCard and DataBuffer are empty in the source. t0_release is empty too. The
-- release of a protocol, and the calls for synchronous cards, of protocol.c are left out.
mod Base
pub mod Crc8
pub mod Frame
pub mod Device
pub mod Line
pub mod Cardemu
pub mod Buffer
pub mod Ctbcs
pub mod Checksum
pub mod Apdu
pub mod Atr
pub mod Tlv
pub mod T0
pub mod T1
pub mod Locks
pub mod Protocol
pub mod Firmware
pub mod Together
mod Examples
