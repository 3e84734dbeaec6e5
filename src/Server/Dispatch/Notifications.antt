-- ===== src/Server/Dispatch/Notifications.antt =====
-- Any notification at all that comes to a server (`Handler::OnMessage`, src/cncserver.cpp), well typed or not.
use cncremote.Prelude.{
  ◌≡◌, refl, sym, ap, ◌∙◌, ◌⊎◌, inl, inr, Bytes, codes, bytes_eq, bytes_eq→eq, List, [], ◌∷◌, ◌++◌,
  Option, none, some, Exec, Result, ok, Bool-cases,
}
use cncremote.Comms.Arithmetic.{Double}
use cncremote.Comms.Wire.{Codec, Wire}
use cncremote.Comms.Messages.{axes, bool_axes}
use cncremote.Server.{Server, Driver}
use cncremote.Server.Files.{Host}
use cncremote.Server.Protocol.{Command, command_method}
use cncremote.Server.Handlers.{
  Notify, NotifyHandler, on_notify, exception_notify, caught, notify_args, notify0, notify1,
  notify2,
}
use cncremote.Server.Bindings.{notify_handlers}
use cncremote.Server.Dispatch.{command_meaning, reply, settles_quiet}

module _ {W M : Type 0} ⦃d : Double W⦄ (w : Wire W) (host : Host) (drv : Driver W M) where
  -- The arguments that were sent are those of the command.
  abbrev pub Carries : w.Any → Command W → Type 0
  Carries params (Command.drives_on state) = w.bool.unpack params ≡ some state
  Carries params (Command.feed_hold state) = w.bool.unpack params ≡ some state
  Carries params (Command.block_delete state) = w.bool.unpack params ≡ some state
  Carries params (Command.single_step state) = w.bool.unpack params ≡ some state
  Carries params (Command.optional_stop state) = w.bool.unpack params ≡ some state
  Carries params (Command.jog_vel velocities) = (axes w).unpack params ≡ some velocities
  Carries params (Command.jog_step distance speed) =
      (w.pair (axes w) w.real).unpack params ≡ some (distance, speed)
  Carries params (Command.feed_override percent) = w.real.unpack params ≡ some percent
  Carries params (Command.spindle_override percent) = w.real.unpack params ≡ some percent
  Carries params (Command.rapid_override percent) = w.real.unpack params ≡ some percent
  Carries params (Command.home which) = (bool_axes w).unpack params ≡ some which
  Carries params _ = Unit {0}

  abbrev Obeyed : Notify w.Any → Server W M → Result (Option (Notify w.Any)) × Server W M → Type 0
  Obeyed n s r =
      ((c : Command W) × (n.method ≡ command_method c)
        × Carries n.params c
        × (r ≡ reply w host drv n.method (command_meaning w host drv c s)))
      ⊎ ((what : Bytes) × (r ≡ (ok (some (exception_notify w what n.method)), s)))

  -- A handler does what the command of its name means.
  abbrev Fits : NotifyHandler w.Any (Server W M) → Type 0
  Fits h =
      (n : Notify w.Any) (s : Server W M)
      → n.method ≡ h.name
      → Obeyed n s (caught (h.execute n s) λ what. some (exception_notify w what []))

  infixr 5 ◌&◌
  data AllFit : List (NotifyHandler w.Any (Server W M)) → Type 0 where
    done : AllFit []
    ◌&◌ :
        {h : NotifyHandler w.Any (Server W M)} {hs : List (NotifyHandler w.Any (Server W M))}
        → Fits h
        → AllFit hs
        → AllFit (h ∷ hs)

  on_notify-Obeyed :
      (hs : List (NotifyHandler w.Any (Server W M)))
      → AllFit hs
      → (n : Notify w.Any) (s : Server W M) → Obeyed n s (on_notify w hs n s)
  unfolding on_notify
  on_notify-Obeyed [] done n s = inr (codes "Method not found", refl)
  on_notify-Obeyed (h ∷ hs) (fit & fits) n s = elim (Bool-cases (bytes_eq h.name n.method)) [
    | inl e ↦ rw (on_notify, e) (fit n s (sym (bytes_eq→eq h.name n.method e)))
    | inr e ↦ rw (on_notify, e) (on_notify-Obeyed hs fits n s)
  ]

  -- `NotifyHandler0`, whose arguments are not read.
  notify0-Fits :
      (name : Bytes) (func : Exec (Server W M) (Unit {0})) (c : Command W)
      → (notify0 w name func).name ≡ command_method c
      → ((params : w.Any) → Carries params c)
      → ((s : Server W M) → command_meaning w host drv c s ≡ func s)
      → Fits (notify0 w name func)
  unfolding notify0
  notify0-Fits name func c named any means n s e = inl (
    c,
    e ∙ named,
    any n.params,
    settles_quiet w host drv n.method _ (func s) ∙ ap (reply w host drv n.method) (sym (means s)),
  )

  -- The other handlers: arguments of the wrong types reach no member.
  notify_args-Obeyed :
      {P : Type 0} (args : Option P) (func : P → Exec (Server W M) (Unit {0})) (c : P → Command W)
      (n : Notify w.Any) (s : Server W M)
      → ((p : P) → n.method ≡ command_method (c p))
      → ((p : P) → args ≡ some p → Carries n.params (c p))
      → ((p : P) (s : Server W M) → command_meaning w host drv (c p) s ≡ func p s)
      → Obeyed n s (caught (notify_args w args func n s) λ what. some (exception_notify w what []))
  notify_args-Obeyed none func c n s named carries means =
      inr (codes "Invalid arguments: " ++ w.stringify n.params, refl)
  notify_args-Obeyed (some p) func c n s named carries means = inl (
    c p,
    named p,
    carries p refl,
    settles_quiet w host drv n.method _ (func p s)
        ∙ ap (reply w host drv n.method) (sym (means p s)),
  )

  notify1-Fits :
      {P : Type 0} (name : Bytes) (args : Codec w.Any P) (func : P → Exec (Server W M) (Unit {0}))
      (c : P → Command W)
      → ((p : P) → (notify1 w name args func).name ≡ command_method (c p))
      → ((params : w.Any) (p : P) → args.unpack params ≡ some p → Carries params (c p))
      → ((p : P) (s : Server W M) → command_meaning w host drv (c p) s ≡ func p s)
      → Fits (notify1 w name args func)
  unfolding notify1
  notify1-Fits name args func c named carries means n s e =
      notify_args-Obeyed (args.unpack n.params) func c n s (λ p. e ∙ named p) (carries n.params)
        means

  notify2-Fits : Fits (notify2 w (codes "JogStep") (axes w) w.real drv.jog_step)
  unfolding notify2
  notify2-Fits n s e =
      notify_args-Obeyed ((w.pair (axes w) w.real).unpack n.params) (λ p. drv.jog_step p.0 p.1)
        (λ p. Command.jog_step p.0 p.1) n s (λ p. e) (λ p h. h) (λ p s. refl)

  notify_handlers-AllFit : AllFit (notify_handlers w host drv)
  unfolding notify_handlers
  notify_handlers-AllFit =
      notify1-Fits (codes "DrivesOn") w.bool drv.drives_on Command.drives_on (λ p. refl)
        (λ params p h. h) (λ p s. refl)
      & notify1-Fits (codes "JogVel") (axes w) drv.jog_vel Command.jog_vel (λ p. refl)
          (λ params p h. h) (λ p s. refl)
      & notify2-Fits
      & notify1-Fits (codes "FeedOverride") w.real drv.feed_override Command.feed_override
          (λ p. refl) (λ params p h. h) (λ p s. refl)
      & notify1-Fits (codes "SpindleOverride") w.real drv.spindle_override Command.spindle_override
          (λ p. refl) (λ params p h. h) (λ p s. refl)
      & notify1-Fits (codes "RapidOverride") w.real drv.rapid_override Command.rapid_override
          (λ p. refl) (λ params p h. h) (λ p s. refl)
      & notify0-Fits (codes "CycleStart") drv.cycle_start Command.cycle_start refl (λ _. tt)
          (λ s. refl)
      & notify0-Fits (codes "CycleStop") drv.cycle_stop Command.cycle_stop refl (λ _. tt)
          (λ s. refl)
      & notify1-Fits (codes "FeedHold") w.bool drv.feed_hold Command.feed_hold (λ p. refl)
          (λ params p h. h) (λ p s. refl)
      & notify1-Fits (codes "BlockDelete") w.bool drv.block_delete Command.block_delete (λ p. refl)
          (λ params p h. h) (λ p s. refl)
      & notify1-Fits (codes "SingleStep") w.bool drv.single_step Command.single_step (λ p. refl)
          (λ params p h. h) (λ p s. refl)
      & notify1-Fits (codes "OptionalStop") w.bool drv.optional_stop Command.optional_stop
          (λ p. refl) (λ params p h. h) (λ p s. refl)
      & notify1-Fits (codes "Home") (bool_axes w) drv.home Command.home (λ p. refl)
          (λ params p h. h) (λ p s. refl)
      & notify0-Fits (codes "EndPreview") drv.end_preview Command.end_preview refl (λ _. tt)
          (λ s. refl)
      & done

  -- Any notification at all, of whatever method and with whatever arguments: either it is a command of the
  -- protocol, whose arguments have the types of the member that it names, and then that member is called, and only
  -- an exception of it is sent back; or no member is called, the server stays as it is, and an exception is sent
  -- back under the method's name.
  pub on_notify_typed :
      (n : Notify w.Any) (s : Server W M)
      → ((c : Command W) × (n.method ≡ command_method c)
          × Carries n.params c
          × (on_notify w (notify_handlers w host drv) n s
              ≡ reply w host drv n.method (command_meaning w host drv c s)))
        ⊎ ((what : Bytes) × (on_notify w (notify_handlers w host drv) n s
              ≡ (ok (some (exception_notify w what n.method)), s)))
  on_notify_typed n s = on_notify-Obeyed (notify_handlers w host drv) notify_handlers-AllFit n s
