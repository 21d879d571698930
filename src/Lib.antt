-- ===== src/Lib.antt =====
-- A model of ESP-Reverse_Tunneling_Libssh2, a library that keeps SSH reverse tunnels from an ESP32: a
-- session accepts channels on the remote ports, the channel manager connects each one to a local
-- endpoint, and the pump moves the bytes both ways.
--
-- Files, and the code that they are about:
--   Prepend          src/prepend_buffer.h: PrependBuffer, the bytes that a partial send gave back
--   RingApi          the FreeRTOS byte ring, a parameter with its documented laws
--   DataRing         src/ring_buffer.h: DataRingBuffer, that ring with the prepend buffer in front
--   Breaker          src/circuit_breaker.h: CircuitBreaker, the back-off of failing mappings
--   SlotAlloc        src/channel_slot_alloc.h: findFreeSlot
--   ChannelTimeout   src/channel_timeout.h: expired
--   CloseProgress    src/channel_close_progress.h: the two steps of a libssh2 close
--   MemoryGuard      src/channel_memory_guard.h: the memory that a channel needs
--   AcceptError      src/forward_accept_error.h: which accept errors are fatal
--   AcceptDiag       src/forward_accept_diag.h: Tracker, the counters of the accepts
--   Config           src/ssh_config.h, src/ssh_config.cpp, src/ssh_config_validators.h: the records of the
--                    configuration, its setters, mappings and validators
--   Env              the clock, lwIP, libssh2 and the session's mutex, parameters with their laws
--   Ledger           which sockets and channels a run opened, closed and freed, for statements on leaks
--   Channel          src/ssh_channel.h, src/ssh_channel.cpp: ChannelSlot and ChannelManager; Channel.Endpoint
--                    and Channel.Bind are connectToLocalEndpoint and bindChannel
--   Transport        src/ssh_transport.h, src/ssh_transport.cpp: TransportPump; Intake, Deliver,
--                    Upload and Closes are its phases, and Transport.Turn is pumpAll
--   Session          src/ssh_session.h, src/ssh_session.cpp: SSHSession; Session.Accept counts fatal accept
--                    errors, Lifecycle is the clean-up and the keepalive, Connect the connection, Fingerprint
--                    the host key, Listeners and Polling the remote ports
--   TunnelApi        what the tunnel uses of a session and of a pump; Session.Interface and Transport.Turn
--                    give both
--   Tunnel           src/ssh_tunnel.h, src/ssh_tunnel.cpp: SSHTunnel; Queues are its two queues, Accept is
--                    handleNewConnection, Teardown the ends and the reconnection, Loop is loop
--   Prelude          shared names, lists, Boolean tests and 32-bit words
--   Examples         concrete rings, worlds and managers for the tests
--
-- Correspondence. A C++ class is a record with its fields, and a method is a function of the same name,
-- in lower case with underscores, from the old state to its result and the new state. A null pointer, or a
-- socket or index of -1, is `none`. Code outside the repository works on an abstract world that is passed
-- through. `size_t` and `unsigned long` are 32 bits, as on the ESP32: arithmetic on them wraps where it
-- can. The first three phases of the pump are modelled on one slot, which is the body of their loops;
-- Transport.Turn runs these bodies over the table and then checkCloses.
--
-- A channel or a socket is a number. What becomes of it is read from the ledger of the world, which the
-- model only sees through laws on the operations that open, close and free. The bytes that sockets and
-- channels took and gave, and what the polls of the listeners answered, are histories of the world with laws
-- of the same kind. The calls of the user of the
-- library and the turns of `loop` come in any order, one at a time, as on the task that runs the tunnel.
--
-- Fuel. Loops with a bound in the source run on that bound. The write loop of the data ring has one round
-- more than there are bytes, its clearing loop one more than its capacity, and the write loop of the pump
-- one more than its budget of 16384 bytes; a round that goes on uses up a byte, so this is enough. The loop
-- of accepts has one round more than there are slots, since a round that goes on takes an idle slot. The
-- doubling of the delay has one round for each attempt; the tries of a listener and of the free of a
-- session have the limits of the source.
--
-- Not modelled: logging, the diagnostics behind TUNNEL_DIAG_LOG_ONLY and TUNNEL_INSTRUMENT, the thin
-- wrappers of the allocator and of socket options, and the example firmware, which hold no logic of the
-- tunnel; of the configuration the setters of the debug part and of the expected host key
-- alone, printing, and the loading of keys from a file system; of the session what only logs.
pub mod Prelude
pub mod Prepend
pub mod RingApi
pub mod DataRing
pub mod Breaker
pub mod SlotAlloc
pub mod ChannelTimeout
pub mod CloseProgress
pub mod MemoryGuard
pub mod AcceptError
pub mod AcceptDiag
pub mod Session
pub mod Env
pub mod TunnelApi
pub mod Tunnel
pub mod Ledger
pub mod Config
pub mod Examples
pub mod Channel
pub mod Transport
