-- ===== src/EdingCnc/Overrides.antt =====
-- The driver that `EdingCncServer` is (drivers/EdingCNC402/EdingCNC.h): which virtual members of `Server` it
-- overrides. Its `StartPreview(const int)` is none of them, since that of `Server` takes an `unsigned`.
pub mod Laws
use cncremote.Prelude.{ℕ, pure, false}
use cncremote.Comms.Arithmetic.{Double}
use cncremote.Server.{Driver}
use cncremote.EdingCnc.{Library, Eding}
use cncremote.EdingCnc.Reports.{update_state}
use cncremote.EdingCnc.Members
use cncremote.EdingCnc.Pauses.{cycle_start}
use cncremote.EdingCnc.Previews.{get_preview}

module _ {W C : Type 0} ⦃d : Double W⦄ (lib : Library W C) where
  -- Waits are followed for a number of looks at the state.
  unfoldable pub eding : ℕ → Driver W (Eding W C)
  eding looks = record {
    update_state = update_state lib;
    drives_on = Members.drives_on lib;
    jog_vel = Members.jog_vel lib;
    jog_step = Members.jog_step lib;
    mdi = Members.mdi lib;
    spindle_override = Members.spindle_override lib;
    feed_override = Members.feed_override lib;
    rapid_override = Members.rapid_override lib;
    load_file = Members.load_file lib;
    close_file = Members.close_file lib;
    cycle_start = cycle_start lib looks;
    cycle_stop = Members.cycle_stop lib;
    feed_hold = Members.feed_hold lib;
    block_delete = Members.block_delete lib;
    single_step = Members.single_step lib;
    optional_stop = Members.optional_stop lib;
    home = Members.home lib;
    get_offset = Members.get_offset lib;
    get_g_codes = Members.get_g_codes lib;
    get_m_codes = Members.get_m_codes lib;
    start_preview = λ size. pure false;
    get_preview = get_preview lib;
    end_preview = pure tt;
  }
