-- ===== src/LocalClient/Closing.antt =====
-- The dispatcher of the callbacks, `_dispatch_callbacks`, and the end of the client, `async_close`
-- and `_cleanup`, between the waits.
use alorair_home_assistant.Base.{ℕ, List, [], ◌∷◌, true, Option, none, some, ◌==◌, if◌then◌else◌}
use alorair_home_assistant.LocalClient.State.{Callback, Client, DisconnectReason, Session}
use alorair_home_assistant.LocalClient.Queue.{close_session, discard_queued_statuses}

-- `await self._callbacks.get()`, on a queue that is not empty
abbrev pub later_callbacks : List Callback → List Callback
later_callbacks [] = []
later_callbacks (callback ∷ callbacks) = callbacks

unfoldable pub take_callback : Client → Client
take_callback c = record c { callbacks = later_callbacks c.callbacks }

abbrev pub close_if : ℕ → Option Session → Option Session
close_if i none = none
close_if i (some s) =
    if s.session_id == i then some (close_session DisconnectReason.callback_error s) else some s

-- The handler of a callback that raised: a status closes the connection that it came from.
unfoldable pub fail_callback : Callback → Client → Client
fail_callback (Callback.disconnect i r) c = c
fail_callback (Callback.status i s) c = record c { session = close_if i c.session }

-- `async_close`, before its first wait
unfoldable pub begin_close : Client → Client
begin_close c = record c { closing = true }

abbrev pub close_writer : Option Session → Option Session
close_writer none = none
close_writer (some s) = some (record s { writer_closing = true })

-- `_cleanup`: the writers are closed, and once the tasks have ended nothing is left of the session.
unfoldable pub close_writers : Client → Client
close_writers c = record c { session = close_writer c.session }

unfoldable pub clean_up : Client → Client
clean_up c = record c {
  session = none;
  last_status = none;
  callbacks = discard_queued_statuses c.callbacks;
}
