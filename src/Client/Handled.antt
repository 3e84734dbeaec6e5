-- ===== src/Client/Handled.antt =====
-- The members of `Client` in a build with HANDLE_CNCREMOTE_EXCEPTIONS (src/cncclient.cpp): an exception is
-- handed to the application's `OnException`, and the member returns a value that stands for none.
pub mod Laws
use cncremote.Prelude.{
  ℕ, ℤ, negsuc, Bool, false, Bytes, List, [], ◌∷◌, ◌++◌, Option, some, Exec, Result, ok, raised,
  undefined,
}
use cncremote.Comms.Arithmetic.{Double}
use cncremote.Comms.Wire.{Wire}
use cncremote.Client.Session.{Peer, Session}
use cncremote.Client.Commands
use cncremote.Client.Uploads

-- The client, and what `OnException` was called with, in order.
pub record Handled (W Any S : Type 0) : Type 0 where
  pub session : Session W Any S
  pub handed : List Bytes

module _ {W Any S A : Type 0} where
  abbrev pub settle : A → List Bytes → Result A × Session W Any S → Result A × Handled W Any S
  settle fallback es (ok a, s) = (ok a, record { session = s; handed = es })
  settle fallback es (raised e, s) = (ok fallback, record { session = s; handed = es ++ e ∷ [] })
  settle fallback es (undefined f, s) = (undefined f, record { session = s; handed = es })

  -- TRY_EXCEPTION and CATCH_EXCEPTION around a body, with the value that is returned behind them.
  unfoldable pub tried : A → Exec (Session W Any S) A → Exec (Handled W Any S) A
  tried fallback body h = settle fallback h.handed (body h.session)

module _ {W S : Type 0} ⦃d : Double W⦄ (w : Wire W) (peer : Peer w.Any S) where
  abbrev Safely : Type 0 → Type 0
  Safely A = Exec (Handled W w.Any S) A

  unfoldable pub ping : W → Safely W
  unfolding tried
  ping elapsed = tried (d.literal (negsuc 0) 1) (Commands.ping w peer elapsed)

  unfoldable pub mdi : Bytes → Safely Bool
  unfolding tried
  mdi line = tried false (Commands.mdi w peer line)

  -- None if the fuel runs out.
  unfoldable pub load_file : (Bytes → Option Bytes) → Bytes → Safely (Option Bool)
  unfolding tried
  load_file files file = tried (some false) (Uploads.load_file w peer files file)

  unfoldable pub close_file : Safely Bool
  unfolding tried
  close_file = tried false (Commands.close_file w peer)

  unfoldable pub get_g_codes : Safely (List ℤ)
  unfolding tried
  get_g_codes = tried [] (Commands.get_g_codes w peer)

  unfoldable pub get_m_codes : Safely (List ℤ)
  unfolding tried
  get_m_codes = tried [] (Commands.get_m_codes w peer)

  unfoldable pub get_next_error : Safely Bytes
  unfolding tried
  get_next_error = tried [] (Commands.get_next_error w peer)

  unfoldable pub get_next_message : Safely Bytes
  unfolding tried
  get_next_message = tried [] (Commands.get_next_message w peer)
