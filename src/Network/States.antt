-- ===== src/Network/States.antt =====
-- The version and the states that `Poll` brings to the client (src/cncclient.cpp, src/cncserver.cpp).
use cncremote.Prelude.{
  pos, ◌≡◌, refl, ap, ◌∙◌, Bool, true, false, not, Bytes, codes, [], ◌∷◌, ◌++◌, ok,
}
use cncremote.Comms.{State}
use cncremote.Comms.Arithmetic.{Double}
use cncremote.Comms.Wire.{Wire}
use cncremote.Comms.States.{pack_state}
use cncremote.Comms.States.Laws.{unpack_state-pack_state}
use cncremote.Server.{Server, Driver}
use cncremote.Server.Files.{Host}
use cncremote.Server.Logs.{get_state_}
use cncremote.Server.Handlers.{success}
use cncremote.Server.Protocol.{Query}
use cncremote.Server.Dispatch.{on_request-query}
use cncremote.Server.Bindings.{version, protocol_version}
use cncremote.Client.Calls.{responded, on_event, call_async, begin_call, get_response}
use cncremote.Client.Session.{on_connect, Peer}
use cncremote.Client.Polling.{poll, ask, take_status, take_version, min_version, err_ok}
use cncremote.Network.{Net, direct, serve}
use cncremote.Network.Calls.{Joined}

-- What `double` says of 0 and of the version, which is also the least that a client takes.
pub record ComparesVersions {W : Type 0} (d : Double W) : Type 0 where
  pub not_below : d.lt d.nought d.nought ≡ false
  pub same : d.eq d.nought d.nought ≡ true
  pub fits : d.lt (protocol_version ⦃d = d⦄) (min_version ⦃d = d⦄) ≡ false
  pub positive : d.lt (protocol_version ⦃d = d⦄) d.nought ≡ false
  pub apart : d.eq (protocol_version ⦃d = d⦄) d.nought ≡ false

module _ {W M : Type 0} ⦃d : Double W⦄ (w : Wire W) (host : Host) (drv : Driver W M)
    (local : Bool) where
  -- The session after a status call has been sent.
  abbrev sent_off : w.Any → Server W M → Joined w host drv local → Joined w host drv local
  sent_off v server s = record {
    client = record client { status_call = begin_call client.status_call };
    world = record { server = server; mailbox = responded (success w 0 v) ∷ [] };
  }
    where
      open s use {client}

  ask-ok :
      (method : Bytes) (v : w.Any) (server : Server W M) (s : Joined w host drv local)
      → s.client.status_call.busy ≡ false
      → s.world.mailbox ≡ []
      → serve w host drv method (w.int.pack (pos 0)) s.world ≡ (ok (success w 0 v), server)
      → ask w (direct w host drv local) method s ≡ sent_off v server s
  unfolding ask direct call_async
  ask-ok method v server s idle empty served = rw (idle, served, empty) refl

  -- A client that is connected and waits for nothing.
  pub record IsIdle (s : Joined w host drv local) : Type 0 where
    pub known : d.lt s.client.server_ver d.nought ≡ false
    pub versioned : d.eq s.client.server_ver d.nought ≡ false
    pub idle : s.client.status_call.busy ≡ false
    pub unanswered : s.client.status_call.has_response ≡ false
    pub empty : s.world.mailbox ≡ []

  abbrev joined : Peer w.Any (Net W w.Any M)
  joined = direct w host drv local

  serves_state :
      (server : Server W M) (n : Net W w.Any M)
      → drv.update_state n.server ≡ (ok tt, server)
      → serve w host drv (codes "GetState") (w.int.pack (pos 0)) n
        ≡ (ok (success w 0 (pack_state w server.state)), server)
  unfolding get_state_
  serves_state server n updated =
      on_request-query w host drv (w.int.pack (pos 0)) 0 Query.get_state n.server ∙ rw updated refl

  poll-asks :
      (server : Server W M) (s : Joined w host drv local)
      → IsIdle s
      → drv.update_state s.world.server ≡ (ok tt, server)
      → poll w joined s ≡ (err_ok, sent_off (pack_state w server.state) server s)
  unfolding poll take_status direct
  poll-asks server s v updated =
      let free : not s.client.status_call.busy ≡ true = ap not v.idle in
      rw (v.empty, v.unanswered, v.known, v.versioned, free)
        (ap (λ t. (err_ok, t))
          (ask-ok (codes "GetState") (pack_state w server.state) server _ v.idle refl
            (serves_state server s.world updated)))

  poll-hears :
      (st : State W) (server : Server W M) (s : Joined w host drv local)
      → IsIdle s
      → ((poll w joined (sent_off (pack_state w st) server s)).0 ≡ err_ok)
        × ((poll w joined (sent_off (pack_state w st) server s)).1.client.state ≡ st)
  unfolding poll take_status direct ask on_event get_response
  poll-hears st server s v =
      rw (v.known, v.versioned, w.is_nil-nil, unpack_state-pack_state w st) (refl, refl)

  -- Over a network that delivers, if the client is connected to a server of a fit version and waits
  -- for nothing, and the driver's `UpdateState` returns, then both of two polls succeed, and after
  -- them the client has the server's state, whole, as the driver left it in the first.
  pub poll-state :
      (server : Server W M) (s : Joined w host drv local)
      → IsIdle s
      → drv.update_state s.world.server ≡ (ok tt, server)
      → let (first, s1) = poll w joined s in
        let (second, s2) = poll w joined s1 in
        (first ≡ err_ok) × (second ≡ err_ok) × (s2.client.state ≡ server.state)
  poll-state server s v updated =
      let (second, whole) = poll-hears server.state server s v in
      rw (poll-asks server s v updated) (refl, second, whole)

  -- A client whose connection is new: it knows no version and waits for nothing.
  pub record IsFresh (s : Joined w host drv local) : Type 0 where
    pub unversioned : s.client.server_ver ≡ d.nought
    pub idle : s.client.status_call.busy ≡ false
    pub unanswered : s.client.status_call.has_response ≡ false
    pub empty : s.world.mailbox ≡ []

  abbrev version_sent : Joined w host drv local → Joined w host drv local
  version_sent s = sent_off (w.real.pack protocol_version) s.world.server s

  serves_version :
      (n : Net W w.Any M)
      → serve w host drv (codes "Version") (w.int.pack (pos 0)) n
        ≡ (ok (success w 0 (w.real.pack protocol_version)), n.server)
  unfolding version
  serves_version n = on_request-query w host drv (w.int.pack (pos 0)) 0 Query.get_version n.server

  poll-asks_version :
      (s : Joined w host drv local)
      → ComparesVersions d
      → IsFresh s
      → poll w joined s ≡ (err_ok, version_sent s)
  unfolding poll take_version direct
  poll-asks_version s order v =
      let free : not s.client.status_call.busy ≡ true = ap not v.idle in
      rw (v.empty, v.unanswered, v.unversioned, order.not_below, order.same, free)
        (ap (λ t. (err_ok, t))
          (ask-ok (codes "Version") (w.real.pack protocol_version) s.world.server _ v.idle refl
            (serves_version s.world)))

  poll-hears_version :
      (s : Joined w host drv local)
      → ComparesVersions d
      → IsFresh s
      → ((poll w joined (version_sent s)).1.client.notices ≡ s.client.notices ++ on_connect ∷ [])
        × IsIdle (poll w joined (version_sent s)).1
  unfolding poll take_version direct on_event get_response
  poll-hears_version s order v =
      rw
        (
          v.unversioned,
          order.not_below,
          order.same,
          w.is_nil-nil,
          w.real.unpack-pack protocol_version,
          order.fits,
          order.apart,
        )
        (
          refl,
          record {
            known = order.positive;
            versioned = order.apart;
            idle = refl;
            unanswered = refl;
            empty = refl;
          },
        )

  -- On a new connection, over a network that delivers and with a `double` in which 0 equals 0 and is
  -- not below 0, and the version is not below the least that is accepted, not below 0 and not equal
  -- to 0, two polls settle the version: the application is told once that it is connected, and the
  -- client is ready to ask for states.
  pub poll-connects :
      (s : Joined w host drv local)
      → ComparesVersions d
      → IsFresh s
      → let s2 = (poll w joined (poll w joined s).1).1 in
        (s2.client.notices ≡ s.client.notices ++ on_connect ∷ []) × IsIdle s2
  poll-connects s order v = rw (poll-asks_version s order v) (poll-hears_version s order v)
