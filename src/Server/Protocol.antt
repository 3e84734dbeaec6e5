-- ===== src/Server/Protocol.antt =====
-- The calls of the protocol as data: the requests and the notifications that the constructor of
-- `Server` binds (src/cncserver.cpp), with their names.
use cncremote.Prelude.{ℕ, ℤ, Bool, Bytes, codes}
use cncremote.Comms.Vectors.{Axes}

pub data Query : Type 0 where
  get_state get_version close_file get_g_codes get_m_codes get_preview : Query
  mdi load_file send_init : Bytes → Query
  get_offset get_error get_message : ℕ → Query
  start_preview : ℤ → Query
  send_data : Bytes → ℤ → Query

pub data Command (W : Type 0) : Type 0 where
  drives_on feed_hold block_delete single_step optional_stop : Bool → Command W
  jog_vel : Axes W → Command W
  jog_step : Axes W → W → Command W
  feed_override spindle_override rapid_override : W → Command W
  home : Axes Bool → Command W
  cycle_start cycle_stop end_preview : Command W

abbrev pub query_method : Query → Bytes
query_method Query.get_state = codes "GetState"
query_method get_version = codes "Version"
query_method Query.close_file = codes "CloseFile"
query_method Query.get_g_codes = codes "GetGCodes"
query_method Query.get_m_codes = codes "GetMCodes"
query_method Query.get_preview = codes "GetPreview"
query_method (Query.mdi line) = codes "Mdi"
query_method (Query.load_file file) = codes "LoadFile"
query_method (Query.send_init hint) = codes "SendInit"
query_method (Query.get_offset index) = codes "GetOffset"
query_method (Query.get_error index) = codes "GetError"
query_method (Query.get_message index) = codes "GetMessage"
query_method (Query.start_preview size) = codes "StartPreview"
query_method (Query.send_data more block) = codes "SendData"

abbrev pub command_method : {W : Type 0} → Command W → Bytes
command_method (Command.drives_on state) = codes "DrivesOn"
command_method (Command.feed_hold state) = codes "FeedHold"
command_method (Command.block_delete state) = codes "BlockDelete"
command_method (Command.single_step state) = codes "SingleStep"
command_method (Command.optional_stop state) = codes "OptionalStop"
command_method (Command.jog_vel velocities) = codes "JogVel"
command_method (Command.jog_step distance speed) = codes "JogStep"
command_method (Command.feed_override percent) = codes "FeedOverride"
command_method (Command.spindle_override percent) = codes "SpindleOverride"
command_method (Command.rapid_override percent) = codes "RapidOverride"
command_method (Command.home which) = codes "Home"
command_method Command.cycle_start = codes "CycleStart"
command_method Command.cycle_stop = codes "CycleStop"
command_method Command.end_preview = codes "EndPreview"
