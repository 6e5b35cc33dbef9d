-- ===== src/Lib.antt =====
-- The signals of infrared remote controls, as the daemons of LIRC send and receive them.
--
-- A remote (`struct ir_remote`, daemons/ir_remote_types.h) describes how the codes of its buttons
-- become pulses and spaces. To send, daemons/transmit.c puts the signal of a button together in a
-- send buffer, which a driver then plays. To receive, a driver's readings come into the receive
-- buffer of daemons/receive.c, which finds the data of a signal in them; daemons/ir_remote.c finds
-- the button that has these data, counts repeats and makes the message for the clients; and
-- daemons/release.c infers from the messages when a button is let go. daemons/config_file.c reads the
-- remotes from a file.
--
-- Files, and what they model:
--   Prelude     helpers: lists, signed integers, bits and powers of two
--   Word        daemons/ir_remote.h: bits_set, reverse, gen_mask; daemons/transmit.c: set_bit
--   Remote      daemons/ir_remote_types.h, and the inline functions of daemons/ir_remote.h: the
--               predicates in Flags, expect and its kin in Tolerance, time_elapsed and time_left in
--               Time, min_gap and max_gap in Gaps
--   Transmit    daemons/transmit.c: the send buffer in Buffer, send_header up to send_code in
--               Encode, init_send_or_sim in Send
--   Codes       daemons/ir_remote.c: the searches in Lookup, map_code and map_gap in Mapping,
--               get_code in Match, set_code and write_message in Decode, decode_all and
--               send_ir_ncode in Dispatch
--   Receive     daemons/receive.c: the receive buffer in Buffer, expectpulse up to expectzero in
--               Expect, sync_rec_buffer up to get_repeat in Signal, the encodings of get_data in
--               Data and Serial, get_data, get_pre and get_post in Fields, and receive_decode in
--               Raw and Decode
--   Release     daemons/release.c
--   Config      daemons/config_file.c: s_strtocode and its kin in Numbers, parseFlags in FlagNames,
--               defineRemote in Define, sanityChecks in Sanity, calculate_signal_lengths in
--               Lengths, the sections of a file in Sections and its lines in Read, the included
--               files in Include, what read_config_recursive does after the last line in Finish,
--               sort_by_bit_count in Sort
--   RoundTrip   the transmitter and the receiver together
--
-- A function of the model has the name of the function of the code. The global state that it
-- changes is an argument and a result, and a step of a long function that has a name of its own
-- stands before it. The theorems on a part are in the modules below it, and the tests in Tests.
--
-- Numbers: a code is a number below 2 ^ 64, and what a shift loses is written out. Durations and
-- tolerances are natural numbers, for the code has them not negative; sums of durations, the
-- countdown of repeats and the reported count are signed. Overflow of a signed C integer is
-- undefined and not modelled. A remote with a field below 0, which the configuration can set, is
-- outside the model. The two gaps of a remote are taken to fit a signed integer.
--
-- Pointers: a pointer into a chain of codes is the rest of the chain, NULL the empty one; a pointer
-- to a button is its index, and a pointer to a remote its address. `repeat_remote` enters a send as
-- whether it is NULL. A read through a pointer that points nowhere, or past the signals of a raw
-- code, ends a send with no defined result.
--
-- Parameters: hw.resolution, hw.decode_func and hw.send_func of the driver in use, the answers of
-- hw.readdata and gettimeofday, and the lines of the file that a path opens.
--
-- Loops: each is a recursion on a list or on the number of rounds that are left. The loop of
-- init_send, which goes back to a label, is a recursion on fuel: one round for each code of a chain
-- and each repeat that is due. So is the loop that reads serial data, which ends with a byte, a
-- value that does not fit or the end of the readings; out of fuel the data count as not found. So is
-- the reader of included files, where 12 rounds cover the depth that MAX_INCLUDES allows. The two
-- rounds that a pair of Grundig bits takes are one step.
--
-- Not modelled: how a line of the configuration is cut into words, and memory that runs out; the
-- sockets of the daemon, the drivers and the client tools; and logging.
mod Prelude
pub mod Word
pub mod Remote
pub mod Transmit
pub mod Codes
pub mod Receive
pub mod Release
pub mod RoundTrip
pub mod Config
