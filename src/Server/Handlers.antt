-- ===== src/Server/Handlers.antt =====
-- `Server::Handler` of src/cncserver.cpp: the handlers of requests and of notifications, and the
-- dispatch of a message by its method's name.
use cncremote.Prelude.{
  ℕ, true, false, Bytes, codes, bytes_eq, List, [], ◌∷◌, ◌++◌, Option, none, some, Exec, Result, ok,
  raised, undefined, pure, continue, if◌then◌else◌, ◌==◌,
}
use cncremote.Comms.{ExceptionData}
use cncremote.Comms.Wire.{Codec, Wire}
use cncremote.Comms.Messages.{pack_exception}

pub record Request (Any : Type 0) : Type 0 where
  pub msgid : ℕ
  pub method : Bytes
  pub params : Any

pub record Response (Any : Type 0) : Type 0 where
  pub msgid : ℕ
  pub result : Any
  pub error : Any

pub record Notify (Any : Type 0) : Type 0 where
  pub method : Bytes
  pub params : Any

-- `SetName` removes one trailing underscore.
unfoldable pub set_name : Bytes → Bytes
set_name [] = []
set_name (c ∷ []) = if c == b'_' then [] else c ∷ []
set_name (c ∷ e ∷ rest) = c ∷ set_name (e ∷ rest)

-- A handler sends one response, and a handler of notifications none or an exception's.
pub record RequestHandler (Any S : Type 0) : Type 0 where
  pub name : Bytes
  pub execute : Request Any → Exec S (Response Any)

pub record NotifyHandler (Any S : Type 0) : Type 0 where
  pub name : Bytes
  pub execute : Notify Any → Exec S (Option (Notify Any))

-- `try { ... } catch (const std::exception& exc) { ... }`
abbrev pub caught : {S A : Type 0} → Result A × S → (Bytes → A) → Result A × S
caught (ok a, s) h = (ok a, s)
caught (raised e, s) h = (ok (h e), s)
caught (undefined f, s) h = (undefined f, s)

module _ {W : Type 0} (w : Wire W) where
  abbrev pub exception : Bytes → Bytes → ExceptionData
  exception message function = record { message = message; function = function }

  -- The response of an error: its result is the empty text.
  abbrev pub failure : ℕ → Bytes → Bytes → Response w.Any
  failure msgid message function = record {
    msgid = msgid;
    result = w.text.pack [];
    error = pack_exception w (exception message function);
  }

  abbrev pub exception_notify : Bytes → Bytes → Notify w.Any
  exception_notify message function = record {
    method = codes "_Exception_";
    params = pack_exception w (exception message function);
  }

  abbrev pub success : ℕ → w.Any → Response w.Any
  success msgid result = record { msgid = msgid; result = result; error = w.nil }

  module _ {S : Type 0} where
    abbrev pub answered :
        {R : Type 0} → (R → w.Any) → ℕ → Result R × S → Result (Response w.Any) × S
    answered pack msgid r = continue r λ v. pure (success msgid (pack v))

    -- `RequestHandler0`: on an exception the result is the method, and the error its text.
    unfoldable pub request0 : {R : Type 0} → Bytes → (R → w.Any) → Exec S R → RequestHandler w.Any S
    unfolding set_name
    request0 name pack func = record {
      name = set_name name;
      execute = λ req s. caught (answered pack req.msgid (func s)) λ what. record {
        msgid = req.msgid;
        result = w.text.pack req.method;
        error = w.text.pack what;
      };
    }

    abbrev pub with_args :
        {P R : Type 0}
        → Option P
        → (R → w.Any)
        → (P → Exec S R)
        → Request w.Any
        → Exec S (Response w.Any)
    with_args none pack func req s = (
      ok (failure req.msgid (codes "Invalid arguments:" ++ w.stringify req.params) req.method),
      s,
    )
    with_args (some p) pack func req s =
        caught (answered pack req.msgid (func p s)) λ what. failure req.msgid what req.method

    -- `RequestHandler1`, and `RequestHandler2` with a pair.
    unfoldable pub request1 :
        {P R : Type 0}
        → Bytes
        → Codec w.Any P
        → (R → w.Any)
        → (P → Exec S R)
        → RequestHandler w.Any S
    unfolding set_name
    request1 name args pack func = record {
      name = set_name name;
      execute = λ req s. with_args (args.unpack req.params) pack func req s;
    }

    unfoldable pub request2 :
        {P Q R : Type 0}
        → Bytes
        → Codec w.Any P
        → Codec w.Any Q
        → (R → w.Any)
        → (P → Q → Exec S R)
        → RequestHandler w.Any S
    unfolding set_name
    request2 name first second pack func = record {
      name = set_name name;
      execute = λ req s.
          with_args ((w.pair first second).unpack req.params) pack (λ p. func p.0 p.1) req s;
    }

    abbrev pub quiet : Result (Unit {0}) × S → Result (Option (Notify w.Any)) × S
    quiet r = continue r λ _. pure none

    unfoldable pub notify0 : Bytes → Exec S (Unit {0}) → NotifyHandler w.Any S
    unfolding set_name
    notify0 name func = record {
      name = set_name name;
      execute = λ n s. caught (quiet (func s)) λ what. some (exception_notify what n.method);
    }

    abbrev pub notify_args :
        {P : Type 0}
        → Option P
        → (P → Exec S (Unit {0}))
        → Notify w.Any
        → Exec S (Option (Notify w.Any))
    notify_args none func n s = (
      ok (some (exception_notify (codes "Invalid arguments: " ++ w.stringify n.params) n.method)),
      s,
    )
    notify_args (some p) func n s =
        caught (quiet (func p s)) λ what. some (exception_notify what n.method)

    unfoldable pub notify1 :
        {P : Type 0} → Bytes → Codec w.Any P → (P → Exec S (Unit {0})) → NotifyHandler w.Any S
    unfolding set_name
    notify1 name args func = record {
      name = set_name name;
      execute = λ n s. notify_args (args.unpack n.params) func n s;
    }

    unfoldable pub notify2 :
        {P Q : Type 0}
        → Bytes
        → Codec w.Any P
        → Codec w.Any Q
        → (P → Q → Exec S (Unit {0}))
        → NotifyHandler w.Any S
    unfolding set_name
    notify2 name first second func = record {
      name = set_name name;
      execute = λ n s. notify_args ((w.pair first second).unpack n.params) (λ p. func p.0 p.1) n s;
    }

    -- `OnMessage` of a request: the first handler of that name executes it.
    unfoldable pub on_request :
        List (RequestHandler w.Any S) → Request w.Any → Exec S (Response w.Any)
    unfolding bytes_eq
    on_request [] req s = (ok (failure req.msgid (codes "Function not found") req.method), s)
    on_request (h ∷ hs) req s = elim (bytes_eq h.name req.method) [
      | true ↦ caught (h.execute req s) λ what. failure req.msgid what []
      | false ↦ on_request hs req s
    ]

    -- `OnMessage` of a notification.
    unfoldable pub on_notify :
        List (NotifyHandler w.Any S) → Notify w.Any → Exec S (Option (Notify w.Any))
    unfolding bytes_eq
    on_notify [] n s = (ok (some (exception_notify (codes "Method not found") n.method)), s)
    on_notify (h ∷ hs) n s = elim (bytes_eq h.name n.method) [
      | true ↦ caught (h.execute n s) λ what. some (exception_notify what [])
      | false ↦ on_notify hs n s
    ]
