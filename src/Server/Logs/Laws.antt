-- ===== src/Server/Logs/Laws.antt =====
-- What is logged is what can be read back (src/cncserver.cpp).
use cncremote.Prelude.{
  ℕ, ◌%◌, ◌^◌, ◌≡◌, ◌≢◌, refl, Bytes, [], ◌∷◌, ok, arith, if◌then◌else◌, ◌==◌, length,
  get_elem?-append_last, get_elem?-append_left, length-append,
}
use cncremote.Server.{Server}
use cncremote.Server.Logs.{log_error, log_message, get_error}

-- The counts that clients see are those of the stored texts, as `unsigned int`s.
pub record IsCounted {W M : Type 0} (s : Server W M) : Type 0 where
  pub errors : s.state.error_count ≡ length s.errors % 2 ^ 32
  pub messages : s.state.message_count ≡ length s.messages % 2 ^ 32

module _ {W M : Type 0} (s : Server W M) where
  -- Logging an error or a message, empty or not, keeps the counts right.
  pub log-IsCounted :
      (text : Bytes)
      → IsCounted s
      → IsCounted (log_error text s).1 × IsCounted (log_message text s).1
  unfolding log_error log_message
  log-IsCounted [] v = (v, v)
  log-IsCounted (c ∷ cs) v = (
    record { errors = refl; messages = v.messages },
    record { errors = v.errors; messages = refl },
  )

  -- After an error that is not empty is logged, `GetError` gives it at the index that was the number of
  -- errors before, and what it gave before at every other index.
  get_error-log_error :
      (text : Bytes) (index : ℕ)
      → text ≢ []
      → (get_error index (log_error text s).1).0
        ≡ (if index == length s.errors then ok text else (get_error index s).0)
  unfolding log_error get_error
  get_error-log_error [] index h = absurd (h refl)
  get_error-log_error (c ∷ cs) index h =
      let n = length-append s.errors ((c ∷ cs) ∷ []) in
      let at = get_elem?-append_last s.errors (c ∷ cs) in
      let before = get_elem?-append_left s.errors ((c ∷ cs) ∷ []) index in ground (arith, before)
