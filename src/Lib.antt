-- ===== src/Lib.antt =====
-- The RaSTA safety and retransmission layer for one link (safecom/): a library in C that opens
-- connections between a client and a server, numbers and seals every protocol data unit, answers
-- each event by a state machine, and asks for retransmission when a number is missing.
--
-- Parts, and the files that model them:
--   * Platform: what the sources call and do not define. MD4 (safecom/src/md4.c is a copy of
--     another project's implementation), the C library's clock(), and what memory holds that is
--     read before it is written or after its function has returned. `IsSized` is what is assumed.
--   * Pdu/Types, Pdu/Bytes, Pdu/Codec: safecom/include/pdu.h and the serialiser of
--     safecom/src/pdu.c (`serialize_pdu`, `deserialize_pdu`, the readers and writers). Pdu/Build:
--     the payloads, calculate_MD4 (`calculate_md4`) and the builders ConnReq to Data (`conn_req`
--     to `data_pdu`). Pdu/Wire, Pdu/Serialize, Pdu/RoundTrip, Pdu/Seal and Pdu/Overflow prove, and
--     Pdu/Frames and Pdu/Total on every array of bytes. Pdu/DataPayload: DataPayload.
--   * TimeMon: safecom/src/time_mon.c (GetCurrentTimestamp is `get_current_timestamp`).
--   * Sm/Types to Sm/Machine: safecom/src/sm.c, in the order of the source. A handler works on a
--     `Context`: its arguments `self` and `pdu` and the static variables, passed explicitly.
--     Sm_HandleEvent is `sm_handle_event`, Sm_Init is `sm_init`. Sm/Table is the transition table,
--     written apart from the code; Sm/Observe, Sm/Emit, Sm/Runs, Sm/Blocks and Sm/Refine relate
--     the two. Sm/Session: sequences of events; Sm/Accept, Sm/Phases, Sm/Sequences and Sm/InOrder:
--     the order of accepted messages; Sm/Recovery: the end of a retransmission; Sm/Orderly: the
--     numbers in the table; Sm/Handshake, Sm/Arrive and Sm/Link: a client and a server that handle
--     each other's frames, where deserialize_pdu and Sm_HandleEvent are called one after the other
--     as a receiver does; Sm/Malformed: a frame with a length field that is too small. Sm/Bounded
--     and Sm/Ranges: the ranges of the numbers; Sm/Delivery: what a receiver finds in the frames
--     of a machine, and Sm/Reply what it does with them. Sm/Says, Sm/Talk, Sm/Conversation and
--     Sm/Dialogue: two open connections that exchange heartbeats and data, one message at a time;
--     Sm/Connect, Sm/Farewell and Sm/Sessions: connections from their opening to their end;
--     Sm/Loss: messages that do not arrive; Sm/Packets, Sm/Bringing and Sm/Channel: a link that
--     loses, repeats and reorders packets; Sm/Unverified: the safety code of a received message.
--     What is said is built by the calls that the interface makes, and heard by deserialize_pdu
--     and Sm_HandleEvent.
--   * SafeCom/Types, SafeCom/Impl, SafeCom/Entry: safecom/src/safecom_impl.c, and
--     safecom/src/safecom.c, which checks its pointers and calls it. SafeCom_Init is
--     `safe_com_init`, and so on. A `Memory` has the static pointer `sms`, the arrays of machines
--     by address, the static variables of the state machine, and a list of the calls of ReceiveMsg.
--     SafeCom_ReceiveSpdu runs the callback of its instance: `Receivers`, a parameter, has the
--     functions behind the callbacks, and an instance that is still zeroed has a NULL callback.
--     SafeCom/Array, SafeCom/Init,
--     SafeCom/SendData, SafeCom/Interface, SafeCom/Close and SafeCom/Speaks prove.
--     SafeCom/Instances: safecom/src/rass.c and safecom/src/sic.c, two instances over one memory;
--     SafeCom/Once and SafeCom/Shared prove. Sm/Unopened, SafeCom/Waiting, SafeCom/Calls,
--     SafeCom/Proper, SafeCom/Usable and SafeCom/Usage: sequences of calls of the two instances'
--     functions; SafeCom/Ordered and SafeCom/Numbers: the numbers of the frames that a connection
--     sends.
--   * Common/Log: common/include/log.h and common/src/log.c. Common/Assert:
--     common/include/assert.h. Mock: the callbacks of mock/src, and Mock/Receivers: the same as
--     functions for SafeCom_ReceiveSpdu. Program: src/main.c (`main`, with
--     the arguments, the address of its array and the instances); Program/Peers: two machines as
--     it initialises them, on one link. Callbacks: the receive callbacks of
--     test/test_rass_functionality, and a connection that is opened through them.
--   * Tests: concrete inputs.
--
-- How the C is read:
--   * A call is a function into `Result`: `ok` with the new state, or `err` with the fault that
--     ends it, which is a failed assertion, a call or access through NULL, or an access outside an
--     array. There is no fuel: every loop runs over a counter.
--   * uint8_t, uint16_t and uint32_t are natural numbers with the wrap-around written out. The
--     int32_t fields of SmType are kept as 32-bit patterns, which is how the sources use them:
--     they come from and go to uint32_t. `snt++` and the shift of a byte to the sign bit wrap,
--     where C leaves the overflow undefined.
--   * A pointer in a PDU is NULL, `at` the bytes that it gives access to, or `dead` with the bytes
--     that an array had whose function has returned. calculate_MD4 stores such a pointer in every
--     PDU that it seals; what is then read is `stale` of those bytes. C promises less: two such
--     reads may differ, and here they agree. What a frame carries is therefore stated by its own
--     bytes, and not by a later read of the array.
--   * size_t and pointers are natural numbers: they have more than 32 bits, so the sum of an offset
--     and the 32-bit payload_length of deserialize_pdu does not wrap around.
--   * The static payload arrays of the builders and the vtable of an instance are seen by value:
--     neither changes between the time that its address is taken and its use. A callback for
--     received messages may do anything to the memory, but it does not initialise an instance or
--     change its configuration. SendSpdu reads `spdu_len` bytes and does not call back into the
--     machine, and the results of both are ignored.
--   * SafeCom_SendData cuts the length of a message to eight bits, since Data takes a uint8_t.
--
-- Not modelled: safecom/src/md4.c, which is a parameter; the time of day, the file name and the
-- line number in front of a log message; and the test cases of test/, which run the interface at
-- fixed inputs. The calls of LOG and printf in the other parts are left out, since nothing reads
-- what they write. Pointers to instances, configurations, machines and PDUs, and callbacks, that
-- the sources assert to be non-NULL are values here, so those assertions hold by construction;
-- data that a caller hands to the instances may be NULL.
pub mod Prelude
pub mod Platform
pub mod TimeMon
pub mod Pdu
pub mod Sm
pub mod SafeCom
pub mod Common
pub mod Mock
pub mod Callbacks
pub mod Program
mod Tests
