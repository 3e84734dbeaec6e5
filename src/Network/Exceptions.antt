-- ===== src/Network/Exceptions.antt =====
-- How an exception of a member on the server reaches the application (`NotifyHandler0` to `NotifyHandler2` of
-- src/cncserver.cpp, `Handler::OnMessage` of src/cncclient.cpp).
use cncremote.Prelude.{
  ◌≡◌, refl, ap, ◌∙◌, Bytes, [], ◌∷◌, ◌++◌, Option, none, some, Result, ok, raised, undefined,
}
use cncremote.Comms.Arithmetic.{Double}
use cncremote.Comms.Wire.{Wire}
use cncremote.Comms.Messages.{exception-pack}
use cncremote.Server.{Server, Driver}
use cncremote.Server.Files.{Host}
use cncremote.Server.Handlers.{Notify, on_notify}
use cncremote.Server.Bindings.{notify_handlers}
use cncremote.Server.Protocol.{Command, command_method}
use cncremote.Server.Dispatch.{reply, command_meaning, command_notify, on_notify-command}
use cncremote.Client.Session.{Client, on_remote_exception, notify, on_message}

module _ {W M : Type 0} ⦃d : Double W⦄ (w : Wire W) (host : Host) (drv : Driver W M) where
  -- The client after what the server sends in answer to a notification, if anything.
  abbrev pub hears : Result (Option (Notify w.Any)) → Client W w.Any → Client W w.Any
  hears (ok (some n)) c = (on_message w (notify n) c).1
  hears (ok none) c = c
  hears (raised what) c = c
  hears (undefined f) c = c

  -- The calls of `OnRemoteException` that a member's result is worth.
  abbrev pub told_of : Bytes → Result (Unit {0}) → Client W w.Any → Client W w.Any
  told_of method (ok u) c = c
  told_of method (raised what) c = record c {
    notices = c.notices ++ on_remote_exception (record { message = what; function = method }) ∷ [];
  }
  told_of method (undefined f) c = c

  replied :
      (method : Bytes) (r : Result (Unit {0}) × Server W M) (c : Client W w.Any)
      → hears (reply w host drv method r).0 c ≡ told_of method r.0 c
  unfolding on_message
  replied method (ok u, s) c = refl
  replied method (raised what, s) c =
      rw (exception-pack w (record { message = what; function = method })) refl
  replied method (undefined f, s) c = refl

  -- When a command is sent to a server and its answer, if there is one, comes back, then the application is told
  -- of an exception exactly if the driver's member threw one: once, with what was thrown and the name of the
  -- call, and nothing else of the client changes.
  pub command-told :
      (any : w.Any) (c : Command W) (s : Server W M) (client : Client W w.Any)
      → hears
          (on_notify w (notify_handlers w host drv) (command_notify w host drv any 0 c) s).0
          client
        ≡ told_of (command_method c) (command_meaning w host drv c s).0 client
  command-told any c s client =
      ap (λ (r : Result (Option (Notify w.Any)) × Server W M). hears r.0 client)
        (on_notify-command w host drv any 0 c s)
      ∙ replied (command_method c) (command_meaning w host drv c s) client
