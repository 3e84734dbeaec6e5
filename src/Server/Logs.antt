-- ===== src/Server/Logs.antt =====
-- `LogError`, `LogMessage`, `GetError`, `GetMessage` and `GetState_` of src/cncserver.cpp.
pub mod Laws
use cncremote.Prelude.{
  ℕ, ◌%◌, ◌^◌, Bool, Bytes, List, [], ◌∷◌, ◌++◌, length, get_elem?, is_empty, leb, if◌then◌else◌,
  Exec, ok, pure, ◌>>=◌, ◌>>◌, Option, none, some, raised, undefined, continue,
}
use cncremote.Comms.{State}
use cncremote.Server.{Server, Driver}

-- An index out of range gives the empty text.
abbrev pub entry : List Bytes → ℕ → Bytes
entry texts index =
    if leb (length texts) index
    then []
    else (elim (get_elem? texts index) [ none ↦ [] | some t ↦ t ])

module _ {W M : Type 0} where
  -- `errorCount` is an `unsigned int`. Empty texts are discarded.
  unfoldable pub log_error : Bytes → Exec (Server W M) (Unit {0})
  log_error error s = if is_empty error then (ok tt, s) else (
    ok tt,
    record s {
      errors = s.errors ++ error ∷ [];
      state = record state { error_count = length (s.errors ++ error ∷ []) % 2 ^ 32 };
    },
  )
    where
      open s use {state}

  unfoldable pub log_message : Bytes → Exec (Server W M) (Unit {0})
  log_message message s = if is_empty message then (ok tt, s) else (
    ok tt,
    record s {
      messages = s.messages ++ message ∷ [];
      state = record state { message_count = length (s.messages ++ message ∷ []) % 2 ^ 32 };
    },
  )
    where
      open s use {state}

  unfoldable pub get_error : ℕ → Exec (Server W M) Bytes
  get_error index s = (ok (entry s.errors index), s)

  unfoldable pub get_message : ℕ → Exec (Server W M) Bytes
  get_message index s = (ok (entry s.messages index), s)

  abbrev get_state : Exec (Server W M) (State W)
  get_state s = (ok s.state, s)

  unfoldable pub get_state_ : Driver W M → Exec (Server W M) (State W)
  get_state_ d = do d.update_state; get_state
