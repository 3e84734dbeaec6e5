-- ===== src/Server/Bindings.antt =====
-- The handlers that the constructor of `Server` binds (src/cncserver.cpp).
use cncremote.Prelude.{pos, codes, List, [], ◌∷◌, Exec, pure}
use cncremote.Comms.Arithmetic.{Double}
use cncremote.Comms.Wire.{Wire}
use cncremote.Comms.Messages.{axes, bool_axes, pack_ints, pack_previews}
use cncremote.Comms.States.{pack_state}
use cncremote.Server.{Server, Driver}
use cncremote.Server.Files.{Host, send_init, send_data}
use cncremote.Server.Logs.{get_error, get_message, get_state_}
use cncremote.Server.Handlers.{
  RequestHandler, NotifyHandler, request0, request1, request2, notify0, notify1, notify2,
}

-- CNCREMOTE_PROTOCOL_VERSION
abbrev pub protocol_version : {W : Type 0} ⦃d : Double W⦄ → W
protocol_version ⦃d⦄ = d.literal (pos 3) 1

module _ {W M : Type 0} ⦃d : Double W⦄ (w : Wire W) (host : Host) (drv : Driver W M) where
  unfoldable pub version : Exec (Server W M) W
  version = pure protocol_version

  unfoldable pub request_handlers : List (RequestHandler w.Any (Server W M))
  unfolding request0 request1 request2
  request_handlers =
      request0 w (codes "GetState_") (pack_state w) (get_state_ drv)
      ∷ request1 w (codes "Mdi") w.text w.bool.pack drv.mdi
      ∷ request1 w (codes "LoadFile") w.text w.bool.pack drv.load_file
      ∷ request0 w (codes "CloseFile") w.bool.pack drv.close_file
      ∷ request1 w (codes "GetOffset") w.nat (axes w).pack drv.get_offset
      ∷ request0 w (codes "GetGCodes") (pack_ints w) drv.get_g_codes
      ∷ request0 w (codes "GetMCodes") (pack_ints w) drv.get_m_codes
      ∷ request1 w (codes "SendInit") w.text w.text.pack (send_init drv host)
      ∷ request2 w (codes "SendData") w.text w.int w.bool.pack send_data
      ∷ request1 w (codes "GetError") w.nat w.text.pack get_error
      ∷ request1 w (codes "GetMessage") w.nat w.text.pack get_message
      ∷ request0 w (codes "Version") w.real.pack version
      ∷ request1 w (codes "StartPreview") w.int w.bool.pack drv.start_preview
      ∷ request0 w (codes "GetPreview") (pack_previews w) drv.get_preview
      ∷ []

  unfoldable pub notify_handlers : List (NotifyHandler w.Any (Server W M))
  unfolding notify0 notify1 notify2
  notify_handlers =
      notify1 w (codes "DrivesOn") w.bool drv.drives_on
      ∷ notify1 w (codes "JogVel") (axes w) drv.jog_vel
      ∷ notify2 w (codes "JogStep") (axes w) w.real drv.jog_step
      ∷ notify1 w (codes "FeedOverride") w.real drv.feed_override
      ∷ notify1 w (codes "SpindleOverride") w.real drv.spindle_override
      ∷ notify1 w (codes "RapidOverride") w.real drv.rapid_override
      ∷ notify0 w (codes "CycleStart") drv.cycle_start
      ∷ notify0 w (codes "CycleStop") drv.cycle_stop
      ∷ notify1 w (codes "FeedHold") w.bool drv.feed_hold
      ∷ notify1 w (codes "BlockDelete") w.bool drv.block_delete
      ∷ notify1 w (codes "SingleStep") w.bool drv.single_step
      ∷ notify1 w (codes "OptionalStop") w.bool drv.optional_stop
      ∷ notify1 w (codes "Home") (bool_axes w) drv.home
      ∷ notify0 w (codes "EndPreview") drv.end_preview
      ∷ []
