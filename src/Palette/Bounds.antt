-- ===== src/Palette/Bounds.antt =====
-- The position and the drags of MobileTerminalPalette.tsx over any sequence of events.
use terminal_hub.Common.{
  subst, ℕ, ◌+◌, ◌-◌, ◌≤◌, ◌≡◌, refl, max, true, false, Option, none, some, List, [], ◌∷◌, ◌==◌,
  maybe, arith, Option-cases, Bool-cases, ◌*◌, inl, inr,
}
use terminal_hub.Palette.{
  Position, PaletteSize, ViewportRect, edge_margin, clamp, clamp_position, get_default_position,
  Palette, keep_palette_in_viewport, handle_drag_start, handle_drag_move, handle_drag_end, Event,
  kept, drag_started, drag_moved, drag_ended, handle, run, is_other,
}

-- Along one edge: at the margin or behind it, and its end before the other margin, where the palette
-- and two margins fit in; else the palette starts at the margin.
abbrev pub IsInside : ℕ → ℕ → ℕ → ℕ → Type 0
IsInside edge whole size position =
    (edge + edge_margin ≤ position)
    × (position + size + edge_margin ≤ edge + max whole (size + 2 * edge_margin))

clamp-IsInside :
    (edge whole size position : ℕ) → IsInside edge whole size (clamp edge whole size position)
unfolding clamp
clamp-IsInside edge whole size position = (omega arith, omega arith)

abbrev pub IsShown : ViewportRect → PaletteSize → Option Position → Type 0
IsShown viewport size none = ⊥
IsShown viewport size (some p) =
    IsInside viewport.left viewport.view_width size.width p.x
    × IsInside viewport.top viewport.view_height size.height p.y

-- a drag is on exactly while one pointer has it, and that pointer is captured
abbrev pub IsDragged : Palette → Type 0
IsDragged s = s.is_dragging ≡ maybe s.drag_state false (λ d. true)

clamp_position-IsShown :
    (viewport : ViewportRect) (p : Position) (size : PaletteSize)
    → IsShown viewport size (some (clamp_position viewport p size))
unfolding clamp_position
clamp_position-IsShown viewport p size = (
  clamp-IsInside viewport.left viewport.view_width size.width p.x,
  clamp-IsInside viewport.top viewport.view_height size.height p.y,
)

module _ (viewport : ViewportRect) (size : PaletteSize) where
  abbrev pub IsPlaced : Palette → Type 0
  IsPlaced s = IsShown viewport size s.position × IsDragged s

  keep-IsPlaced : (s : Palette) → IsDragged s → IsPlaced (keep_palette_in_viewport viewport size s)
  unfolding keep_palette_in_viewport get_default_position
  keep-IsPlaced s h = elim (Option-cases s.position) [
    | inl u ↦ rw u (clamp_position-IsShown viewport _ size, h)
    | inr (p, u) ↦ rw u (clamp_position-IsShown viewport p size, h)
  ]

  move-IsPlaced :
      (pointer x y : ℕ) (s : Palette)
      → IsPlaced s
      → IsPlaced (handle_drag_move viewport size pointer x y s)
  unfolding handle_drag_move
  move-IsPlaced pointer x y s h =
      let moved = handle_drag_move viewport size pointer x y s in
      elim (Option-cases s.drag_state) [
        | inl u ↦ let same : s ≡ moved = ground (arith, u) in subst IsPlaced same h
        | inr (d, u) ↦ elim (Bool-cases (d.pointer_id == pointer)) [
          | inl v ↦
              let p : Position = record {
                x = x - d.pointer_offset_x;
                y = y - d.pointer_offset_y;
              } in
              let next : Palette = record s { position = some (clamp_position viewport p size) } in
              let placed : IsPlaced next = (clamp_position-IsShown viewport p size, h.1) in
              let same : next ≡ moved = ground (arith, u, v) in subst IsPlaced same placed
          | inr v ↦ let same : s ≡ moved = ground (arith, u, v) in subst IsPlaced same h
        ]
      ]

  start-IsPlaced :
      (button pointer x y : ℕ) (s : Palette)
      → IsPlaced s
      → IsPlaced (handle_drag_start button pointer x y s)
  unfolding handle_drag_start
  start-IsPlaced button pointer x y s h = elim (Bool-cases (button == 0)) [
    | inl u ↦ rw u (h.0, refl)
    | inr u ↦ rw u h
  ]

  end-IsPlaced : (pointer : ℕ) (s : Palette) → IsPlaced s → IsPlaced (handle_drag_end pointer s)
  unfolding handle_drag_end
  end-IsPlaced pointer s h = elim (Bool-cases (is_other pointer s.drag_state)) [
    | inl u ↦ rw u h
    | inr u ↦ rw u (h.0, refl)
  ]

  handle-IsPlaced : (e : Event) (s : Palette) → IsPlaced s → IsPlaced (handle viewport size e s)
  unfolding handle
  handle-IsPlaced kept s h = keep-IsPlaced s h.1
  handle-IsPlaced (drag_started button pointer x y) s h = start-IsPlaced button pointer x y s h
  handle-IsPlaced (drag_moved pointer x y) s h = move-IsPlaced pointer x y s h
  handle-IsPlaced (drag_ended pointer) s h = end-IsPlaced pointer s h

  run-IsPlaced : (es : List Event) (s : Palette) → IsPlaced s → IsPlaced (run viewport size es s)
  unfolding run
  run-IsPlaced [] s h = h
  run-IsPlaced (e ∷ es) s h = run-IsPlaced es (handle viewport size e s) (handle-IsPlaced e s h)

  -- Behind the event of a viewport that changes, and however the palette is dragged from then on, it
  -- stands in that viewport, a margin away from its edges, where it fits in, and else at the margin
  -- on the left or at the top.
  pub run-IsShown :
      (es : List Event) (s : Palette) → IsDragged s → IsPlaced (run viewport size (kept ∷ es) s)
  unfolding run handle
  run-IsShown es s h =
      run-IsPlaced es (keep_palette_in_viewport viewport size s) (keep-IsPlaced s h)
