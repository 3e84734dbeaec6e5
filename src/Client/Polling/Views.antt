-- ===== src/Client/Polling/Views.antt =====
-- What a client's application knows of the server, by the calls of `OnConnect`, `OnIncorrectVersion` and
-- `OnDisconnect` that it has heard (src/cncclient.cpp).
use cncremote.Prelude.{
  negsuc, ◌≡◌, refl, ◌∙◌, ap, Bool, true, false, List, [], ◌∷◌, ◌++◌, Option, none, some, ltb, ◌==◌,
  Bool-cases, inl, inr, if◌then◌else◌,
}
use cncremote.Comms.{ControlState, ExceptionData, mc_no_server}
use cncremote.Comms.Arithmetic.{Double}
use cncremote.Client.Session.{
  Client, Notice, on_connect, on_disconnect, on_incorrect_version, on_remote_exception,
  on_disconnect2, handler_disconnect,
}
use cncremote.Client.Polling.{min_version}

-- What the application knows of the server.
pub data View : Type 0 where
  away connected too_old : View

module _ {W : Type 0} where
  -- What a call tells an application; none where it comes out of turn: the application is told of a
  -- server, of whatever version, only while it knows of none.
  abbrev pub tell_view : View → Notice W → Option View
  tell_view away on_connect = some connected
  tell_view away (on_incorrect_version ver) = some too_old
  tell_view v on_disconnect = some away
  tell_view v (on_remote_exception e) = some v
  tell_view v _ = none

  abbrev pub view_from : Option View → List (Notice W) → Option View
  view_from none ns = none
  view_from (some v) [] = some v
  view_from (some v) (n ∷ ns) = view_from (tell_view v n) ns

  abbrev pub view : List (Notice W) → Option View
  view ns = view_from (some away) ns

  view_append :
      (n : Notice W) (start : Option View) (ns : List (Notice W)) (v : View)
      → view_from start ns ≡ some v
      → view_from start (ns ++ n ∷ []) ≡ view_from (tell_view v n) []
  view_append n none ns v e = cc
  view_append n (some u) [] v e = ap (λ o. view_from o (n ∷ [])) e
  view_append n (some u) (x ∷ ns) v e = view_append n (tell_view u x) ns v e

leaves : (W : Type 0) (v : View) → tell_view {W = W} v on_disconnect ≡ some away
leaves W away = refl
leaves W connected = refl
leaves W too_old = refl

pub same_view :
    (W : Type 0) (v : View) (e : ExceptionData)
    → tell_view {W = W} v (on_remote_exception e) ≡ some v
same_view W away e = refl
same_view W connected e = refl
same_view W too_old e = refl

module _ (W : Type 0) ⦃d : Double W⦄ where
  -- What is relied on of `double`: -1 is negative, 0 is equal to itself, and a version that is not below the oldest that is
  -- accepted is not 0 or negative.
  pub record HasVersions : Type 0 where
    pub minus_one : d.lt (d.literal (negsuc 0) 1) d.nought ≡ true
    pub nought_eq : d.eq d.nought d.nought ≡ true
    pub not_below :
        (ver : W)
        → d.lt ver min_version ≡ false
        → (d.lt ver d.nought ≡ false) × (d.eq ver d.nought ≡ false)

module _ {W : Type 0} ⦃d : Double W⦄ where
  -- How the version that the client holds and the state of the machine say what the application knows.
  abbrev pub Agrees : View → W → ControlState → Type 0
  Agrees away ver mode = (ver ≡ d.nought) × (mode ≡ mc_no_server)
  Agrees connected ver mode = (d.lt ver d.nought ≡ false) × (d.eq ver d.nought ≡ false)
  Agrees too_old ver mode = (d.lt ver d.nought ≡ true) × (mode ≡ mc_no_server)

  pub record IsTold (notices : List (Notice W)) (ver : W) (mode : ControlState) : Type 0 where
    pub knows : View
    pub in_turn : view notices ≡ some knows
    pub agrees : Agrees knows ver mode

  abbrev pub IsInformed : {Any : Type 0} → Client W Any → Type 0
  IsInformed c = IsTold c.notices c.server_ver c.state.machine_state

  pub told_at :
      (n : Notice W) (ns : List (Notice W)) {v u : View}
      → view ns ≡ some v
      → tell_view v n ≡ some u
      → view (ns ++ n ∷ []) ≡ some u
  told_at n ns {v} e f = view_append n (some away) ns v e ∙ rw f refl

  -- A client without a version does not know of a server.
  pub away_if :
      (ns : List (Notice W)) {ver : W} (mode : ControlState) (v : View)
      → view ns ≡ some v
      → Agrees v ver mode
      → d.lt ver d.nought ≡ false
      → d.eq ver d.nought ≡ true
      → (view ns ≡ some away) × (mode ≡ mc_no_server)
  away_if ns mode away turn agrees l e = (turn, agrees.1)
  away_if ns mode connected turn agrees l e = cc
  away_if ns mode too_old turn agrees l e = cc

  pub connected_if :
      (ns : List (Notice W)) {ver : W} (mode : ControlState) (v : View)
      → HasVersions W
      → view ns ≡ some v
      → Agrees v ver mode
      → d.lt ver d.nought ≡ false
      → d.eq ver d.nought ≡ false
      → view ns ≡ some connected
  connected_if ns mode away law turn agrees l e =
      let same = ap (λ a. d.eq a d.nought) agrees.0 in let equal = law.nought_eq in cc
  connected_if ns mode connected law turn agrees l e = turn
  connected_if ns mode too_old law turn agrees l e = cc

  module _ {Any : Type 0} where
    pub either-IsInformed :
        (test : Bool) (c c' : Client W Any)
        → IsInformed c
        → IsInformed c'
        → IsInformed (if test then c else c')
    either-IsInformed true c c' v v' = v
    either-IsInformed false c c' v v' = v'

    on_disconnect2-IsInformed : (c : Client W Any) → IsInformed c → IsInformed (on_disconnect2 c)
    unfolding on_disconnect2
    on_disconnect2-IsInformed c v = record {
      knows = away;
      in_turn = told_at on_disconnect c.notices v.in_turn (leaves W v.knows);
      agrees = (refl, refl);
    }

    pub handler_disconnect-IsInformed :
        (c : Client W Any) → IsInformed c → IsInformed (handler_disconnect c).1
    unfolding handler_disconnect
    handler_disconnect-IsInformed c v =
        let told = on_disconnect2-IsInformed c v in
        elim (Bool-cases (c.retries == 0)) [
          | inl e ↦ elim (Bool-cases (ltb c.retries 10)) [
            | inl l ↦ rw (l, e) told
            | inr l ↦ rw (l, e) told
          ]
          | inr e ↦ elim (Bool-cases (ltb c.retries 10)) [
            | inl l ↦ rw (l, e) v
            | inr l ↦ rw (l, e) v
          ]
        ]
