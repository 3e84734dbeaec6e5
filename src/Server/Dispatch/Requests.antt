-- ===== src/Server/Dispatch/Requests.antt =====
-- Any request at all that comes to a server (`Handler::OnMessage`, src/cncserver.cpp), well typed or not.
use cncremote.Prelude.{
  ℕ, ◌≡◌, refl, sym, ap, ◌∙◌, ◌⊎◌, inl, inr, Bytes, codes, bytes_eq, bytes_eq→eq, List, [], ◌∷◌,
  Option, none, some, Exec, Result, ok, raised, undefined, ◌++◌, Bool-cases,
}
use cncremote.Comms.Arithmetic.{Double}
use cncremote.Comms.Wire.{Codec, Wire}
use cncremote.Comms.Messages.{axes, pack_ints, pack_previews}
use cncremote.Comms.States.{pack_state}
use cncremote.Server.{Server, Driver}
use cncremote.Server.Files.{Host, send_init, send_data}
use cncremote.Server.Logs.{get_error, get_message, get_state_}
use cncremote.Server.Protocol.{Query, query_method}
use cncremote.Server.Handlers.{
  Request, Response, RequestHandler, answered, on_request, failure, caught, with_args, request0,
  request1, request2,
}
use cncremote.Server.Bindings.{request_handlers, version}
use cncremote.Server.Dispatch.{query_meaning, packed, answer, thrown}

module _ {W M : Type 0} ⦃d : Double W⦄ (w : Wire W) (host : Host) (drv : Driver W M) where
  -- The arguments that were sent are those of the call.
  abbrev pub Carries : w.Any → Query → Type 0
  Carries params (Query.mdi line) = w.text.unpack params ≡ some line
  Carries params (Query.load_file file) = w.text.unpack params ≡ some file
  Carries params (Query.send_init hint) = w.text.unpack params ≡ some hint
  Carries params (Query.get_offset index) = w.nat.unpack params ≡ some index
  Carries params (Query.get_error index) = w.nat.unpack params ≡ some index
  Carries params (Query.get_message index) = w.nat.unpack params ≡ some index
  Carries params (Query.start_preview size) = w.int.unpack params ≡ some size
  Carries params (Query.send_data more block) =
      (w.pair w.text w.int).unpack params ≡ some (more, block)
  Carries params _ = Unit {0}

  abbrev pub Served : Request w.Any → Server W M → Result (Response w.Any) × Server W M → Type 0
  Served req s r =
      ((q : Query) × (req.method ≡ query_method q)
        × Carries req.params q
        × (r ≡ answer w host drv req.msgid q (query_meaning w host drv q s)))
      ⊎ ((what : Bytes) × (r ≡ (ok (failure w req.msgid what req.method), s)))

  -- A handler does what the call of its name means.
  abbrev Fits : RequestHandler w.Any (Server W M) → Type 0
  Fits h =
      (req : Request w.Any) (s : Server W M)
      → req.method ≡ h.name
      → Served req s (caught (h.execute req s) λ what. failure w req.msgid what [])

  infixr 5 ◌&◌
  data AllFit : List (RequestHandler w.Any (Server W M)) → Type 0 where
    done : AllFit []
    ◌&◌ :
        {h : RequestHandler w.Any (Server W M)} {hs : List (RequestHandler w.Any (Server W M))}
        → Fits h
        → AllFit hs
        → AllFit (h ∷ hs)

  on_request-Served :
      (hs : List (RequestHandler w.Any (Server W M)))
      → AllFit hs
      → (req : Request w.Any) (s : Server W M) → Served req s (on_request w hs req s)
  unfolding on_request
  on_request-Served [] done req s = inr (codes "Function not found", refl)
  on_request-Served (h ∷ hs) (fit & fits) req s = elim (Bool-cases (bytes_eq h.name req.method)) [
    | inl e ↦ rw (on_request, e) (fit req s (sym (bytes_eq→eq h.name req.method e)))
    | inr e ↦ rw (on_request, e) (on_request-Served hs fits req s)
  ]

  -- Whatever a member returns, it is answered once.
  settles_as :
      {A : Type 0} (pack : A → w.Any) (id : ℕ) (q : Query) (f g : Bytes → Response w.Any)
      (r : Result A × Server W M)
      → ((what : Bytes) → f what ≡ thrown w host drv id q what)
      → caught (caught (answered w pack id r) f) g
        ≡ answer w host drv id q (packed w host drv pack r)
  settles_as pack id q f g (ok v, s) same = refl
  settles_as pack id q f g (raised e, s) same = ap (λ (x : Response w.Any). (ok x, s)) (same e)
  settles_as pack id q f g (undefined x, s) same = refl

  -- `RequestHandler0`, whose arguments are not read.
  request0-Fits :
      {R : Type 0} (name : Bytes) (pack : R → w.Any) (func : Exec (Server W M) R) (q : Query)
      → (request0 w name pack func).name ≡ query_method q
      → ((params : w.Any) → Carries params q)
      → ((id : ℕ) (what : Bytes)
          → thrown w host drv id q what ≡ record {
            msgid = id;
            result = w.text.pack (query_method q);
            error = w.text.pack what;
          })
      → ((s : Server W M) → query_meaning w host drv q s ≡ packed w host drv pack (func s))
      → Fits (request0 w name pack func)
  unfolding request0
  request0-Fits name pack func q named any throws means req s e = inl (
    q,
    e ∙ named,
    any _,
    settles_as pack req.msgid q _ _ (func s) (λ what.
          ap
            (λ (m : Bytes). record {
              msgid = req.msgid;
              result = w.text.pack m;
              error = w.text.pack what;
            })
            (e ∙ named)
          ∙ sym (throws req.msgid what))
        ∙ ap (answer w host drv req.msgid q) (sym (means s)),
  )

  -- `RequestHandler1`, and `RequestHandler2` with a pair: arguments of the wrong types reach no member.
  with_args-Served :
      {P R : Type 0} (args : Option P) (pack : R → w.Any) (func : P → Exec (Server W M) R)
      (q : P → Query) (req : Request w.Any) (s : Server W M)
      → ((p : P) → req.method ≡ query_method (q p))
      → ((p : P) → args ≡ some p → Carries req.params (q p))
      → ((p : P) (id : ℕ) (what : Bytes)
          → thrown w host drv id (q p) what ≡ failure w id what (query_method (q p)))
      → ((p : P) (s : Server W M)
          → query_meaning w host drv (q p) s ≡ packed w host drv pack (func p s))
      → Served req s (caught (with_args w args pack func req s) λ what. failure w req.msgid what [])
  with_args-Served none pack func q req s named carries throws means =
      inr (codes "Invalid arguments:" ++ w.stringify req.params, refl)
  with_args-Served (some p) pack func q req s named carries throws means = inl (
    q p,
    named p,
    carries p refl,
    settles_as pack req.msgid (q p) _ _ (func p s)
          (λ what. ap (failure w req.msgid what) (named p) ∙ sym (throws p req.msgid what))
        ∙ ap (answer w host drv req.msgid (q p)) (sym (means p s)),
  )

  request1-Fits :
      {P R : Type 0} (name : Bytes) (args : Codec w.Any P) (pack : R → w.Any)
      (func : P → Exec (Server W M) R) (q : P → Query)
      → ((p : P) → (request1 w name args pack func).name ≡ query_method (q p))
      → ((params : w.Any) (p : P) → args.unpack params ≡ some p → Carries params (q p))
      → ((p : P) (id : ℕ) (what : Bytes)
          → thrown w host drv id (q p) what ≡ failure w id what (query_method (q p)))
      → ((p : P) (s : Server W M)
          → query_meaning w host drv (q p) s ≡ packed w host drv pack (func p s))
      → Fits (request1 w name args pack func)
  unfolding request1
  request1-Fits name args pack func q named carries throws means req s e =
      with_args-Served (args.unpack req.params) pack func q req s (λ p. e ∙ named p)
        (carries req.params) throws means

  request2-Fits : Fits (request2 w (codes "SendData") w.text w.int w.bool.pack send_data)
  unfolding request2
  request2-Fits req s e =
      with_args-Served ((w.pair w.text w.int).unpack req.params) w.bool.pack
        (λ p. send_data p.0 p.1) (λ p. Query.send_data p.0 p.1) req s (λ p. e) (λ p h. h)
        (λ p id what. refl) (λ p s. refl)

  request_handlers-AllFit : AllFit (request_handlers w host drv)
  unfolding request_handlers
  request_handlers-AllFit =
      request0-Fits (codes "GetState_") (pack_state w) (get_state_ drv) Query.get_state refl
        (λ _. tt) (λ id what. refl) (λ s. refl)
      & request1-Fits (codes "Mdi") w.text w.bool.pack drv.mdi Query.mdi (λ p. refl)
          (λ params p h. h) (λ p id what. refl) (λ p s. refl)
      & request1-Fits (codes "LoadFile") w.text w.bool.pack drv.load_file Query.load_file
          (λ p. refl) (λ params p h. h) (λ p id what. refl) (λ p s. refl)
      & request0-Fits (codes "CloseFile") w.bool.pack drv.close_file Query.close_file refl (λ _. tt)
          (λ id what. refl) (λ s. refl)
      & request1-Fits (codes "GetOffset") w.nat (axes w).pack drv.get_offset Query.get_offset
          (λ p. refl) (λ params p h. h) (λ p id what. refl) (λ p s. refl)
      & request0-Fits (codes "GetGCodes") (pack_ints w) drv.get_g_codes Query.get_g_codes refl
          (λ _. tt) (λ id what. refl) (λ s. refl)
      & request0-Fits (codes "GetMCodes") (pack_ints w) drv.get_m_codes Query.get_m_codes refl
          (λ _. tt) (λ id what. refl) (λ s. refl)
      & request1-Fits (codes "SendInit") w.text w.text.pack (send_init drv host) Query.send_init
          (λ p. refl) (λ params p h. h) (λ p id what. refl) (λ p s. refl)
      & request2-Fits
      & request1-Fits (codes "GetError") w.nat w.text.pack get_error Query.get_error (λ p. refl)
          (λ params p h. h) (λ p id what. refl) (λ p s. refl)
      & request1-Fits (codes "GetMessage") w.nat w.text.pack get_message Query.get_message
          (λ p. refl) (λ params p h. h) (λ p id what. refl) (λ p s. refl)
      & request0-Fits (codes "Version") w.real.pack (version w host drv) Query.get_version refl
          (λ _. tt) (λ id what. refl) (λ s. refl)
      & request1-Fits (codes "StartPreview") w.int w.bool.pack drv.start_preview Query.start_preview
          (λ p. refl) (λ params p h. h) (λ p id what. refl) (λ p s. refl)
      & request0-Fits (codes "GetPreview") (pack_previews w) drv.get_preview Query.get_preview refl
          (λ _. tt) (λ id what. refl) (λ s. refl)
      & done

  -- Any request at all, of whatever method and with whatever arguments: either it is a call of the protocol, whose
  -- arguments have the types of the member that it names, and then it is answered with what that member does; or no
  -- member is called, the server stays as it is, and the response is that of an exception under the method's
  -- name.
  pub on_request_typed :
      (req : Request w.Any) (s : Server W M)
      → ((q : Query) × (req.method ≡ query_method q)
          × Carries req.params q
          × (on_request w (request_handlers w host drv) req s
              ≡ answer w host drv req.msgid q (query_meaning w host drv q s)))
        ⊎ ((what : Bytes) × (on_request w (request_handlers w host drv) req s
              ≡ (ok (failure w req.msgid what req.method), s)))
  on_request_typed req s =
      on_request-Served (request_handlers w host drv) request_handlers-AllFit req s
