-- ===== src/Network.antt =====
-- A client (src/cncclient.cpp) joined to a server (src/cncserver.cpp) by a network that delivers every
-- message at once: the server answers a request within the first millisecond, and the answer to the
-- status call lies in a mailbox until the client looks.
pub mod Calls
pub mod Polls
pub mod Uploads
pub mod Loads
pub mod States
pub mod Commands
pub mod Reading
pub mod Exceptions
pub mod Drivers
pub mod Openings
use cncremote.Prelude.{
  ℕ, Bool, true, false, Bytes, List, [], ◌∷◌, ◌++◌, Option, none, some, Result, ok, raised,
  undefined,
}
use cncremote.Comms.Arithmetic.{Double}
use cncremote.Comms.Wire.{Wire}
use cncremote.Server.{Server, Driver}
use cncremote.Server.Files.{Host}
use cncremote.Server.Handlers.{Request, Response, Notify, on_request, on_notify}
use cncremote.Server.Bindings.{request_handlers, notify_handlers}
use cncremote.Client.Calls.{Event, responded, Delivery}
use cncremote.Client.Session.{Peer}

pub record Net (W Any M : Type 0) : Type 0 where
  pub server : Server W M
  pub mailbox : List (Event Any)

module _ {Any : Type 0} where
  -- A server that has left defined behaviour answers nothing.
  abbrev pub events : Result (Response Any) → List (Event Any)
  events (ok r) = responded r ∷ []
  events (raised e) = []
  events (undefined f) = []

module _ {W M : Type 0} ⦃d : Double W⦄ (w : Wire W) (host : Host) (drv : Driver W M) where
  abbrev pub serve : Bytes → w.Any → Net W w.Any M → Result (Response w.Any) × Server W M
  serve method params n =
      on_request w (request_handlers w host drv)
        (record { msgid = 0; method = method; params = params }) n.server

  abbrev pub take_notify : Notify w.Any → Net W w.Any M → Server W M
  take_notify message n = (on_notify w (notify_handlers w host drv) message n.server).1

  -- The client is on another machine exactly if `local` is false.
  unfoldable pub direct : Bool → Peer w.Any (Net W w.Any M)
  direct local = record {
    request = λ method params n.
        let (r, server) = serve method params n in
        (record { refused = none; ticks = events r ∷ [] }, record n { server = server });
    request_async = λ method params n.
        let (r, server) = serve method params n in
        (none, record { server = server; mailbox = n.mailbox ++ events r });
    notify = λ message n. (true, record n { server = take_notify message n });
    arrived = λ n. (n.mailbox, record n { mailbox = [] });
    is_connected = λ n. true;
    is_local = λ n. local;
  }
