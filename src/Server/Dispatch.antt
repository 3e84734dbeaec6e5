-- ===== src/Server/Dispatch.antt =====
-- What each call of the protocol means, and that the tables of handlers (src/cncserver.cpp) give it
-- that meaning.
pub mod Requests
pub mod Notifications
use cncremote.Prelude.{
  ℕ, Bytes, codes, Option, none, some, Exec, Result, ok, raised, undefined, pure, continue, ◌≡◌,
  refl,
}
use cncremote.Comms.Arithmetic.{Double}
use cncremote.Comms.Wire.{Wire}
use cncremote.Comms.Messages.{axes, bool_axes, pack_ints, pack_previews}
use cncremote.Comms.States.{pack_state}
use cncremote.Server.{Server, Driver}
use cncremote.Server.Protocol.{Query, Command, query_method, command_method}
use cncremote.Server.Files.{Host, send_init, send_data}
use cncremote.Server.Logs.{get_error, get_message, get_state_}
use cncremote.Server.Handlers.{
  Request, Response, Notify, on_request, on_notify, success, failure, exception_notify, caught,
  answered, quiet,
}
use cncremote.Server.Bindings.{request_handlers, notify_handlers, version}

module _ {W M : Type 0} ⦃d : Double W⦄ (w : Wire W) (host : Host) (drv : Driver W M) where
  -- A function without arguments does not read what is sent.
  abbrev pub query_params : w.Any → Query → w.Any
  query_params any (Query.mdi line) = w.text.pack line
  query_params any (Query.load_file file) = w.text.pack file
  query_params any (Query.send_init hint) = w.text.pack hint
  query_params any (Query.get_offset index) = w.nat.pack index
  query_params any (Query.get_error index) = w.nat.pack index
  query_params any (Query.get_message index) = w.nat.pack index
  query_params any (Query.start_preview size) = w.int.pack size
  query_params any (Query.send_data more block) = (w.pair w.text w.int).pack (more, block)
  query_params any _ = any

  abbrev pub command_params : w.Any → Command W → w.Any
  command_params any (Command.drives_on state) = w.bool.pack state
  command_params any (Command.feed_hold state) = w.bool.pack state
  command_params any (Command.block_delete state) = w.bool.pack state
  command_params any (Command.single_step state) = w.bool.pack state
  command_params any (Command.optional_stop state) = w.bool.pack state
  command_params any (Command.jog_vel velocities) = (axes w).pack velocities
  command_params any (Command.jog_step distance speed) =
      (w.pair (axes w) w.real).pack (distance, speed)
  command_params any (Command.feed_override percent) = w.real.pack percent
  command_params any (Command.spindle_override percent) = w.real.pack percent
  command_params any (Command.rapid_override percent) = w.real.pack percent
  command_params any (Command.home which) = (bool_axes w).pack which
  command_params any Command.cycle_start = any
  command_params any Command.cycle_stop = any
  command_params any Command.end_preview = any

  abbrev pub packed : {A : Type 0} → (A → w.Any) → Result A × Server W M → Result w.Any × Server W M
  packed pack r = continue r λ a. pure (pack a)

  -- What the call means, with its answer packed.
  abbrev pub query_meaning : Query → Exec (Server W M) w.Any
  query_meaning Query.get_state s = packed (pack_state w) (get_state_ drv s)
  query_meaning Query.get_version s = packed w.real.pack (version w host drv s)
  query_meaning Query.close_file s = packed w.bool.pack (drv.close_file s)
  query_meaning Query.get_g_codes s = packed (pack_ints w) (drv.get_g_codes s)
  query_meaning Query.get_m_codes s = packed (pack_ints w) (drv.get_m_codes s)
  query_meaning Query.get_preview s = packed (pack_previews w) (drv.get_preview s)
  query_meaning (Query.mdi line) s = packed w.bool.pack (drv.mdi line s)
  query_meaning (Query.load_file file) s = packed w.bool.pack (drv.load_file file s)
  query_meaning (Query.send_init hint) s = packed w.text.pack (send_init drv host hint s)
  query_meaning (Query.get_offset index) s = packed (axes w).pack (drv.get_offset index s)
  query_meaning (Query.get_error index) s = packed w.text.pack (get_error index s)
  query_meaning (Query.get_message index) s = packed w.text.pack (get_message index s)
  query_meaning (Query.start_preview size) s = packed w.bool.pack (drv.start_preview size s)
  query_meaning (Query.send_data more block) s = packed w.bool.pack (send_data more block s)

  abbrev pub command_meaning : Command W → Exec (Server W M) (Unit {0})
  command_meaning (Command.drives_on state) = drv.drives_on state
  command_meaning (Command.feed_hold state) = drv.feed_hold state
  command_meaning (Command.block_delete state) = drv.block_delete state
  command_meaning (Command.single_step state) = drv.single_step state
  command_meaning (Command.optional_stop state) = drv.optional_stop state
  command_meaning (Command.jog_vel velocities) = drv.jog_vel velocities
  command_meaning (Command.jog_step distance speed) = drv.jog_step distance speed
  command_meaning (Command.feed_override percent) = drv.feed_override percent
  command_meaning (Command.spindle_override percent) = drv.spindle_override percent
  command_meaning (Command.rapid_override percent) = drv.rapid_override percent
  command_meaning (Command.home which) = drv.home which
  command_meaning Command.cycle_start = drv.cycle_start
  command_meaning Command.cycle_stop = drv.cycle_stop
  command_meaning Command.end_preview = drv.end_preview

  -- The two ways of answering an exception: that of `RequestHandler0` and that of the others.
  abbrev pub thrown : ℕ → Query → Bytes → Response w.Any
  thrown id (Query.mdi line) what = failure w id what (codes "Mdi")
  thrown id (Query.load_file file) what = failure w id what (codes "LoadFile")
  thrown id (Query.send_init hint) what = failure w id what (codes "SendInit")
  thrown id (Query.get_offset index) what = failure w id what (codes "GetOffset")
  thrown id (Query.get_error index) what = failure w id what (codes "GetError")
  thrown id (Query.get_message index) what = failure w id what (codes "GetMessage")
  thrown id (Query.start_preview size) what = failure w id what (codes "StartPreview")
  thrown id (Query.send_data more block) what = failure w id what (codes "SendData")
  thrown id q what = record {
    msgid = id;
    result = w.text.pack (query_method q);
    error = w.text.pack what;
  }

  abbrev pub answer : ℕ → Query → Result w.Any × Server W M → Result (Response w.Any) × Server W M
  answer id q (ok v, s) = (ok (success w id v), s)
  answer id q (raised what, s) = (ok (thrown id q what), s)
  answer id q (undefined f, s) = (undefined f, s)

  abbrev pub reply :
      Bytes → Result (Unit {0}) × Server W M → Result (Option (Notify w.Any)) × Server W M
  reply method (ok v, s) = (ok none, s)
  reply method (raised what, s) = (ok (some (exception_notify w what method)), s)
  reply method (undefined f, s) = (undefined f, s)

  -- Whatever a member returns, the two nested `try` blocks answer once.
  pub settles :
      {A : Type 0} (pack : A → w.Any) (id : ℕ) (q : Query) (g : Bytes → Response w.Any)
      (r : Result A × Server W M)
      → caught (caught (answered w pack id r) (thrown id q)) g ≡ answer id q (packed pack r)
  settles pack id q g (ok v, s) = refl
  settles pack id q g (raised e, s) = refl
  settles pack id q g (undefined f, s) = refl

  pub settles_quiet :
      (method : Bytes) (g : Bytes → Option (Notify w.Any)) (r : Result (Unit {0}) × Server W M)
      → caught (caught (quiet w r) (λ what. some (exception_notify w what method))) g
        ≡ reply method r
  settles_quiet method g (ok v, s) = refl
  settles_quiet method g (raised e, s) = refl
  settles_quiet method g (undefined f, s) = refl

  module _ (any : w.Any) (id : ℕ) where
    abbrev pub query_request : Query → Request w.Any
    query_request q = record { msgid = id; method = query_method q; params = query_params any q }

    abbrev pub command_notify : Command W → Notify w.Any
    command_notify c = record { method = command_method c; params = command_params any c }

    -- Every request of the protocol, sent under its name with its arguments, reaches the member it is
    -- bound to and no other: the server's state becomes what that member makes of it, and the response
    -- carries the member's result, or the exception that it threw.
    pub on_request-query :
        (q : Query) (s : Server W M)
        → on_request w (request_handlers w host drv) (query_request q) s
          ≡ answer id q (query_meaning q s)
    unfolding request_handlers on_request
    on_request-query Query.get_state s =
        settles (pack_state w) id Query.get_state _ (get_state_ drv s)
    on_request-query Query.get_version s =
        settles (w.real.pack) id Query.get_version _ (version w host drv s)
    on_request-query Query.close_file s =
        settles (w.bool.pack) id Query.close_file _ (drv.close_file s)
    on_request-query Query.get_g_codes s =
        settles (pack_ints w) id Query.get_g_codes _ (drv.get_g_codes s)
    on_request-query Query.get_m_codes s =
        settles (pack_ints w) id Query.get_m_codes _ (drv.get_m_codes s)
    on_request-query Query.get_preview s =
        settles (pack_previews w) id Query.get_preview _ (drv.get_preview s)
    on_request-query (Query.mdi line) s =
        rw (w.text.unpack-pack line) (settles w.bool.pack id (Query.mdi line) _ (drv.mdi line s))
    on_request-query (Query.load_file file) s =
        rw (w.text.unpack-pack file)
          (settles w.bool.pack id (Query.load_file file) _ (drv.load_file file s))
    on_request-query (Query.send_init hint) s =
        rw (w.text.unpack-pack hint)
          (settles w.text.pack id (Query.send_init hint) _ (send_init drv host hint s))
    on_request-query (Query.get_offset index) s =
        rw (w.nat.unpack-pack index)
          (settles (axes w).pack id (Query.get_offset index) _ (drv.get_offset index s))
    on_request-query (Query.get_error index) s =
        rw (w.nat.unpack-pack index)
          (settles w.text.pack id (Query.get_error index) _ (get_error index s))
    on_request-query (Query.get_message index) s =
        rw (w.nat.unpack-pack index)
          (settles w.text.pack id (Query.get_message index) _ (get_message index s))
    on_request-query (Query.start_preview size) s =
        rw (w.int.unpack-pack size)
          (settles w.bool.pack id (Query.start_preview size) _ (drv.start_preview size s))
    on_request-query (Query.send_data more block) s =
        rw ((w.pair w.text w.int).unpack-pack (more, block))
          (settles w.bool.pack id (Query.send_data more block) _ (send_data more block s))

    -- Every notification of the protocol reaches the member it is bound to and no other, and is answered
    -- only if that member throws, by a notification of the exception.
    pub on_notify-command :
        (c : Command W) (s : Server W M)
        → on_notify w (notify_handlers w host drv) (command_notify c) s
          ≡ reply (command_method c) (command_meaning c s)
    unfolding notify_handlers on_notify
    on_notify-command (Command.drives_on state) s =
        rw (w.bool.unpack-pack state) (settles_quiet (codes "DrivesOn") _ (drv.drives_on state s))
    on_notify-command (Command.feed_hold state) s =
        rw (w.bool.unpack-pack state) (settles_quiet (codes "FeedHold") _ (drv.feed_hold state s))
    on_notify-command (Command.block_delete state) s =
        rw (w.bool.unpack-pack state)
          (settles_quiet (codes "BlockDelete") _ (drv.block_delete state s))
    on_notify-command (Command.single_step state) s =
        rw (w.bool.unpack-pack state)
          (settles_quiet (codes "SingleStep") _ (drv.single_step state s))
    on_notify-command (Command.optional_stop state) s =
        rw (w.bool.unpack-pack state)
          (settles_quiet (codes "OptionalStop") _ (drv.optional_stop state s))
    on_notify-command (Command.jog_vel velocities) s =
        rw ((axes w).unpack-pack velocities)
          (settles_quiet (codes "JogVel") _ (drv.jog_vel velocities s))
    on_notify-command (Command.feed_override percent) s =
        rw (w.real.unpack-pack percent)
          (settles_quiet (codes "FeedOverride") _ (drv.feed_override percent s))
    on_notify-command (Command.spindle_override percent) s =
        rw (w.real.unpack-pack percent)
          (settles_quiet (codes "SpindleOverride") _ (drv.spindle_override percent s))
    on_notify-command (Command.rapid_override percent) s =
        rw (w.real.unpack-pack percent)
          (settles_quiet (codes "RapidOverride") _ (drv.rapid_override percent s))
    on_notify-command (Command.home which) s =
        rw ((bool_axes w).unpack-pack which) (settles_quiet (codes "Home") _ (drv.home which s))
    on_notify-command (Command.jog_step distance speed) s =
        rw ((w.pair (axes w) w.real).unpack-pack (distance, speed))
          (settles_quiet (codes "JogStep") _ (drv.jog_step distance speed s))
    on_notify-command Command.cycle_start s =
        settles_quiet (codes "CycleStart") _ (drv.cycle_start s)
    on_notify-command Command.cycle_stop s = settles_quiet (codes "CycleStop") _ (drv.cycle_stop s)
    on_notify-command Command.end_preview s =
        settles_quiet (codes "EndPreview") _ (drv.end_preview s)
