-- ===== src/EdingCnc/Previews/Laws.antt =====
-- What is proved of the preview (drivers/EdingCNC402/EdingCNC.cpp).
use cncremote.Prelude.{
  ℕ, zero as nat_zero, suc, ℤ, ◌+◌, ◌≤◌, ◌≡◌, refl, ap, ◌∙◌, false, [], ◌++◌, length, sym,
  append_assoc, length-append, none, some, ok, arith, Option-cases, inl, inr,
}
use cncremote.Comms.Arithmetic.{Double}
use cncremote.Comms.Vectors.{Axes}
use cncremote.Comms.Wire.{Wire}
use cncremote.Server.{Server}
use cncremote.Server.Files.{Host}
use cncremote.Server.Handlers.{on_request, success}
use cncremote.Server.Bindings.{request_handlers}
use cncremote.Server.Protocol.{Query}
use cncremote.Server.Dispatch.{query_request, on_request-query}
use cncremote.EdingCnc.{
  MoveKind, move_g0, move_g1, move_probe, move_start_position, move_origin_offset, move_other,
  GraphPoint, Library, Eding,
}
use cncremote.EdingCnc.Overrides.{eding}
use cncremote.EdingCnc.Previews.{get_points, new_offset, points_of, after_point, Shown}

module _ {W C : Type 0} ⦃d : Double W⦄ (lib : Library W C) where
  -- A batch after another, with the offset and the library of the other.
  abbrev pub follow : ℕ → Shown lib → Shown lib
  follow n (points, offset, c) =
      let (more, offset', c') = get_points lib n offset c in (points ++ more, offset', c')

  abbrev pub IsDry : Type 0
  IsDry =
      (e : C)
      → (lib.graph_fifo e).0 ≡ none
      → ((lib.graph_fifo (lib.graph_fifo e).1).0 ≡ none)
        × ((lib.graph_fifo (lib.graph_fifo e).1).1 ≡ (lib.graph_fifo e).1)

  get_points-dry :
      (n : ℕ) (offset : Axes W) (c : C)
      → (lib.graph_fifo c).0 ≡ none
      → (lib.graph_fifo c).1 ≡ c
      → get_points lib n offset c ≡ ([], offset, c)
  unfolding get_points
  get_points-dry nat_zero offset c none_left same = refl
  get_points-dry (suc n) offset c none_left same = rw (get_points, none_left, same) refl

  get_points-next :
      (n : ℕ) (offset : Axes W) (c : C) (p : GraphPoint W)
      → (lib.graph_fifo c).0 ≡ some p
      → get_points lib (suc n) offset c
        ≡ after_point lib p offset (get_points lib n (new_offset p offset) (lib.graph_fifo c).1)
  unfolding get_points
  get_points-next n offset c p e = rw (get_points, e) refl

  get_points-none :
      (n : ℕ) (offset : Axes W) (c : C)
      → (lib.graph_fifo c).0 ≡ none
      → get_points lib (suc n) offset c ≡ ([], offset, (lib.graph_fifo c).1)
  unfolding get_points
  get_points-none n offset c e = rw (get_points, e) refl

  after-follow :
      (n : ℕ) (p : GraphPoint W) (offset : Axes W) (r : Shown lib)
      → after_point lib p offset (follow n r) ≡ follow n (after_point lib p offset r)
  after-follow n p offset (points, offset', c) =
      ap (λ l. (l, (get_points lib n offset' c).1, (get_points lib n offset' c).2))
        (sym (append_assoc (points_of p offset) points (get_points lib n offset' c).0))

  -- A loop of `m + n` rounds gives what one of `m` and then one of `n` give, with the offset and the library
  -- handed on, if a library that has no point left has none either when it is asked again at once.
  get_points-add :
      (m n : ℕ) (offset : Axes W) (c : C)
      → IsDry
      → get_points lib (m + n) offset c ≡ follow n (get_points lib m offset c)
  unfolding get_points
  get_points-add nat_zero n offset c dry =
      let e : 0 + n ≡ n = omega arith in ap (λ k. get_points lib k offset c) e
  get_points-add (suc m) n offset c dry =
      let e : suc m + n ≡ suc (m + n) = omega arith in
      ap (λ k. get_points lib k offset c) e ∙ elim (Option-cases (lib.graph_fifo c).0) [
        | inl e ↦
            rw (get_points-none m offset c e, get_points-none (m + n) offset c e)
              (sym (
                ap (λ r. r) (get_points-dry n offset (lib.graph_fifo c).1 (dry c e).0 (dry c e).1)))
        | inr (p, e) ↦
            rw (get_points-next m offset c p e, get_points-next (m + n) offset c p e)
              (ap (after_point lib p offset)
                  (get_points-add m n (new_offset p offset) (lib.graph_fifo c).1 dry)
                ∙ after-follow n p offset
                    (get_points lib m (new_offset p offset) (lib.graph_fifo c).1))
      ]

  points_of-length : (p : GraphPoint W) (offset : Axes W) → length (points_of p offset) ≤ 1
  points_of-length p offset = count (p.kind)
    where
      count : (k : MoveKind) → length (points_of (record p { kind = k }) offset) ≤ 1
      count move_g1 = omega arith
      count move_probe = omega arith
      count move_g0 = omega arith
      count move_start_position = omega arith
      count move_origin_offset = omega arith
      count move_other = omega arith

  -- A batch has no more points than the size that was recommended.
  get_points-length : (n : ℕ) (offset : Axes W) (c : C) → length (get_points lib n offset c).0 ≤ n
  unfolding get_points
  get_points-length nat_zero offset c = omega arith
  get_points-length (suc n) offset c = elim (Option-cases (lib.graph_fifo c).0) [
    | inl e ↦ rw (get_points-none n offset c e) (omega arith)
    | inr (p, e) ↦ rw (get_points-next n offset c p e) (
        omega (
          arith,
          points_of-length p offset,
          length-append {0} (points_of p offset)
              (get_points lib n (new_offset p offset) (lib.graph_fifo c).1).0,
          get_points-length n (new_offset p offset) (lib.graph_fifo c).1,
        ))
  ]

  module _ (w : Wire W) (host : Host) (looks : ℕ) (any : w.Any) (id : ℕ) where
    -- A request to start a preview is answered by false and leaves the server, and Eding CNC, as they are,
    -- whatever the size: the member that would start it is not the one that is called.
    start_preview-request :
        (size : ℤ) (s : Server W (Eding W C))
        → on_request w
            (request_handlers w host (eding lib looks))
            (query_request w host (eding lib looks) any id (Query.start_preview size))
            s
          ≡ (ok (success w id (w.bool.pack false)), s)
    unfolding eding
    start_preview-request size s =
        on_request-query w host (eding lib looks) any id (Query.start_preview size) s
