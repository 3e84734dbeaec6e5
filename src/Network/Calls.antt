-- ===== src/Network/Calls.antt =====
-- A call of the client's is the member of the server that it names.
use cncremote.Prelude.{◌≡◌, refl, ap, Bool, true, false, [], some, ok, arith}
use cncremote.Comms.Arithmetic.{Double}
use cncremote.Comms.Wire.{Wire}
use cncremote.Server.{Server, Driver}
use cncremote.Server.Files.{Host}
use cncremote.Server.Handlers.{Response, success}
use cncremote.Server.Protocol.{Query, query_method}
use cncremote.Server.Dispatch.{query_params, query_meaning, on_request-query}
use cncremote.Client.Calls.{RemoteCall, new_call}
use cncremote.Client.Calls.Laws.{call_responded}
use cncremote.Client.Session.{Session, invoke, remote}
use cncremote.Network.{Net, direct}

module _ {W M : Type 0} ⦃d : Double W⦄ (w : Wire W) (host : Host) (drv : Driver W M)
    (local : Bool) where
  abbrev pub Joined : Type 0
  Joined = Session W w.Any (Net W w.Any M)

  -- The session with another server.
  abbrev pub with_server : Server W M → Joined → Joined
  with_server server s = record s { world = record world { server = server } }
    where
      open s use {world}

  -- The call object after an answer.
  abbrev pub answered_call : Response w.Any → RemoteCall w.Any
  answered_call r = record { response = some r; has_response = true; error = []; busy = false }

  pub invoke-ok :
      (any : w.Any) (q : Query) (v : w.Any) (c : RemoteCall w.Any) (s : Joined)
      (server : Server W M)
      → c.busy ≡ false
      → query_meaning w host drv q s.world.server ≡ (ok v, server)
      → invoke w (direct w host drv local) (query_method q) (query_params w host drv any q) (c, s)
        ≡ (ok (success w 0 v), (answered_call (success w 0 v), with_server server s))
  unfolding invoke direct
  invoke-ok any q v c s server idle means =
      rw (on_request-query w host drv any 0 q s.world.server, means)
        (rw (call_responded w 0 500 (success w 0 v) [] c (omega arith) idle, w.is_nil-nil))

  pub remote-ok :
      (any : w.Any) (q : Query) (v : w.Any) (s : Joined) (server : Server W M)
      → query_meaning w host drv q s.world.server ≡ (ok v, server)
      → remote w (direct w host drv local) (query_method q) (query_params w host drv any q) s
        ≡ (ok (success w 0 v), with_server server s)
  unfolding remote new_call
  remote-ok any q v s server means =
      ap (λ r. (r.0, r.1.1)) (invoke-ok any q v new_call s server refl means)
