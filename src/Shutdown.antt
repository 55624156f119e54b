-- ===== src/Shutdown.antt =====
-- state.go: requestStop, which opStop and a signal of the operating system start.
pub mod Release
use lalia.Prelude.{Bool, Option, none, some, [], ◌∷◌, if◌then◌else◌}
use lalia.Prelude.Dict.{Dict}
use lalia.Types.{ChanId, Channel, State, wait_error}
use lalia.Response.{Response, ok, no_data, code_peer_closed}
use lalia.Room.{send}

-- opStop, which leaves requestStop to a goroutine
unfoldable pub op_stop : State → Response
op_stop s = ok no_data

-- The loop over `c.waiter`
unfoldable pub close_waiters : Dict ChanId → State → State
close_waiters [] s = s
close_waiters ((name, ch) ∷ rest) s = close_waiters rest (send ch (wait_error code_peer_closed) s)

-- The loop over the channels
unfoldable pub close_channels : Dict Channel → State → Dict Channel × State
close_channels [] s = ([], s)
close_channels ((k, c) ∷ cs) s =
    let (cs', s') = close_channels cs (close_waiters c.waiter s) in
    ((k, record c { waiter = [] }) ∷ cs', s')

-- requestStop. `closed` tells that the Go channel `writes` has been closed before: closing it again
-- panics, which is `none`.
unfoldable pub request_stop : Bool → State → Option State
request_stop closed s =
    let (cs, s') = close_channels s.channels s in
    if closed then none else some (record s' { channels = cs })
