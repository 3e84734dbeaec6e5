-- ===== src/EdingCnc/Previews.antt =====
-- `StartPreview` and `GetPreview` of drivers/EdingCNC402/EdingCNC.cpp.
pub mod Laws
use cncremote.Prelude.{
  ◌++◌, ℕ, zero as nat_zero, suc, ℤ, pos, pos_part, ◌==◌, if◌then◌else◌, Bool, Bytes, List, [], ◌∷◌,
  Option, none, some, Exec, ok,
}
use cncremote.Comms.{PreviewAxes, PreviewType, prev_start, prev_move, prev_rapid}
use cncremote.Comms.Arithmetic.{Double}
use cncremote.Comms.Vectors.{Axes, fill, zip_axes}
use cncremote.Server.{Server}
use cncremote.EdingCnc.{
  MoveKind, move_g0, move_g1, move_probe, move_start_position, move_origin_offset, move_other,
  GraphPoint, Library, Eding, start_render_graph,
}
use cncremote.EdingCnc.Connection.{linked_only, with_library}

-- The points that are shown.
abbrev shown : MoveKind → Option PreviewType
shown move_g1 = some prev_move
shown move_probe = some prev_move
shown move_g0 = some prev_rapid
shown move_start_position = some prev_start
shown _ = none

module _ {W : Type 0} ⦃d : Double W⦄ where
  -- The offset after a point, and what the point adds to the preview.
  abbrev pub new_offset : GraphPoint W → Axes W → Axes W
  new_offset p offset = elim (p.kind) [ move_origin_offset ↦ p.pos | _ ↦ offset ]

  abbrev pub points_of : GraphPoint W → Axes W → List (PreviewAxes W)
  points_of p offset = elim (shown p.kind) [
    | none ↦ []
    | some kind ↦ record { axes = zip_axes d.add p.pos offset; kind = kind } ∷ []
  ]

  module _ {C : Type 0} (lib : Library W C) where
    -- What the rounds of the loop give: the points, the offset and the library.
    abbrev pub Shown : Type 0
    Shown = List (PreviewAxes W) × Axes W × C

    abbrev pub after_point : GraphPoint W → Axes W → Shown → Shown
    after_point p offset (points, offset', c) = (points_of p offset ++ points, offset', c)

    -- The loop, for a number of rounds.
    unfoldable pub get_points : ℕ → Axes W → C → Shown
    get_points nat_zero offset c = ([], offset, c)
    get_points (suc rounds) offset c = elim (lib.graph_fifo c).0 [
      | none ↦ ([], offset, (lib.graph_fifo c).1)
      | some p ↦ after_point p offset (get_points rounds (new_offset p offset) (lib.graph_fifo c).1)
    ]

    abbrev with_points : Shown → Server W (Eding W C) → Server W (Eding W C)
    with_points (points, offset, c) s = record s {
      machine = record machine { graph_offset = offset; library = c };
    }
      where
        open s use {machine}

    abbrev get_rounds : ℕ → Exec (Server W (Eding W C)) (List (PreviewAxes W))
    get_rounds rounds s =
        let r = get_points rounds s.machine.graph_offset s.machine.library in
        (ok r.0, with_points r s)

    -- `GetPreview`; a size that is not above 0 makes no round.
    unfoldable pub get_preview : Exec (Server W (Eding W C)) (List (PreviewAxes W))
    unfolding get_points
    get_preview s =
        if pos_part s.machine.rec_size == 0
        then (ok [], s)
        else linked_only (get_rounds (pos_part s.machine.rec_size)) s

    -- `StartPreview(const int)`, which does not override `Server::StartPreview(const unsigned)`.
    unfoldable pub start_preview : ℤ → Exec (Server W (Eding W C)) Bool
    start_preview size s =
        started
          (record s { machine = record machine { rec_size = size; graph_offset = fill d.nought } })
      where
        open s use {machine}

        started : Exec (Server W (Eding W C)) Bool
        started = linked_only λ s.
            let (done, c) = lib.call (start_render_graph (pos 0) (pos 1)) s.machine.library in
            (ok done, with_library c s)
