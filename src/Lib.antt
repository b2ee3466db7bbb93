-- ===== src/Lib.antt =====
-- The local and the cloud connection of the ALORAIR dehumidifier integration
-- (custom_components/alorair_lite).
--
-- A device is reached by a local TCP connection, on which it sends framed status reports and takes
-- framed commands, or through the vendor's cloud, which is polled. A coordinator stands between the
-- entities and the connection: it keeps the last report, protects the compressor from an early
-- restart, and follows each command until a report confirms it.
--
--   Base              shared names, lists, results, dictionaries and values of Python
--   Protocol          local_protocol.py: `Frame` (encode, decode), `FrameStream` in Stream (feed,
--                     finish), the commands in Command, `observed_status` in Status
--   LocalClient       local_client.py: `LocalClient` and its session in State, `_accept` and the
--                     freshness tests in Connection, the callbacks in Queue, `_send` in Send, the
--                     reader in Receive, `_execute_command` in Command, the dispatcher of the callbacks
--                     and `async_close` in Closing
--   LocalCoordinator  local_coordinator.py: the properties in State, `_on_status`,
--                     `_on_disconnect` and `_watchdog` in Events, `async_command` in Command
--   Api               api.py: identifiers in Identity, `_request_data` in Request, the client's
--                     fields and `_request` in Client, `_authenticate` to `_read` in Login, device
--                     lists and `_owned_device` in Devices, `async_devices` and `async_status` in
--                     Status, `_command` and the setters in Control, the parameters, the filters and
--                     the changes of experimental actions in Experimental
--   Cloud             models.py in Readings; coordinator.py: the properties in State,
--                     `_async_update_data` in Update, `_async_command_with_feedback` in Command,
--                     experimental actions and `async_prepare_unload` in Experimental
--
-- The coordinator of a local device calls the client's commands and takes its statuses and
-- disconnections as callbacks; the client reads chunks through the stream parser and writes encoded
-- frames. The cloud coordinator calls the cloud client, whose errors decide what becomes of a
-- pending command.
--
-- Numbers are naturals. Bytes are naturals below 256 and a checksum is a sum modulo 2^16. Times of
-- the monotonic clock are milliseconds; the 1.1 seconds between frames, the 35 seconds of a status,
-- and the 5 minutes of a pending command are those of the code. The 3 minutes of the restart protection
-- are the code's rounding in whole milliseconds; in its floats it lets a start go from just above
-- 179.999 seconds on. Each stretch of code without an await reads a clock once. The loop of `FrameStream.feed` runs on fuel
-- one more than the buffer's length: each round takes at least 29 bytes. What asyncio may interleave
-- are the steps of three relations, one of the client's events and one of each coordinator's, and a
-- lock is the order of such steps: a command begins only when none is pending. The answer to a
-- keepalive is written at once: its drain is not awaited, and one that fails is the session's end as
-- a step of its own. The wait for the writer to close is no step between the end of a session and the
-- queueing of its callback. The client's timeouts are the choice of the step, and the checks of its
-- configuration are left out. In a dictionary's removal all entries of the key go, and the code
-- never makes two.
--
-- The cloud client's calls are actions on its fields, on the exchanges to come and on the requests
-- sent: a call runs to its end before the next, as under its locks. A caller that waited for the
-- login lock is the call that takes the generation it read before. The loop over the pages of
-- devices runs on the 100 rounds that the code allows. Errors keep their class, the vendor's code and
-- whether the outcome is unknown; their messages and stages are left out.
--
-- Parameters: `json.loads`, the HTTP exchange, the RSA key's size, the encoding and the encryption of
-- the password, `datetime.fromisoformat`, `str.casefold` and Python's floats, whose 64 bits the test
-- of a status reads. A vendor's path is the constructor for its text. `\d` of a time's pattern is an
-- ASCII digit, since `fromisoformat` refuses the others.
--
-- Not modelled: sockets, tasks and timers as such, the checks of the cloud client's constructor and
-- the experimental actions that only read, the configuration flow, the entities, services and
-- diagnostics.
pub mod Base
pub mod Protocol
pub mod LocalClient
pub mod LocalCoordinator
pub mod Api
pub mod Cloud
