-- ===== src/Palette.antt =====
-- frontend/src/components/ui/MobileTerminalPalette.tsx: where the palette of keys stands, and how it
-- is dragged. Lengths are whole pixels: half a pixel of a centred position is dropped. Where the
-- source has a negative length, this one is 0; it is raised to a margin at once, as the source's is.
pub mod Bounds
use terminal_hub.Common.{
  ℕ, ◌+◌, ◌-◌, ◌/◌, min, max, Bool, true, false, not, ◌||◌, Option, none, some, List, [], ◌∷◌, ◌==◌,
  if◌then◌else◌, maybe,
}

pub record Position : Type 0 where
  pub x : ℕ
  pub y : ℕ

pub record PaletteSize : Type 0 where
  pub width : ℕ
  pub height : ℕ

-- the result of `getViewportRect`
pub record ViewportRect : Type 0 where
  pub left : ℕ
  pub top : ℕ
  pub view_width : ℕ
  pub view_height : ℕ

abbrev pub edge_margin : ℕ
edge_margin = 8

-- one coordinate of `clampPosition`: the edge and the length of the viewport, the length of the
-- palette, and where it is to stand
unfoldable pub clamp : ℕ → ℕ → ℕ → ℕ → ℕ
clamp edge whole size position =
    let lowest = edge + edge_margin in
    let highest = max lowest (edge + whole - size - edge_margin) in
    min (max position lowest) highest

unfoldable pub clamp_position : ViewportRect → Position → PaletteSize → Position
unfolding clamp
clamp_position viewport position size = record {
  x = clamp viewport.left viewport.view_width size.width position.x;
  y = clamp viewport.top viewport.view_height size.height position.y;
}

unfoldable pub get_default_position : ViewportRect → PaletteSize → Position
unfolding clamp_position
get_default_position viewport size =
    let centered_x = viewport.left + (viewport.view_width - size.width) / 2 in
    let bottom_y = viewport.top + viewport.view_height - size.height - edge_margin in
    clamp_position viewport (record { x = centered_x; y = bottom_y }) size

pub record DragState : Type 0 where
  pub pointer_id : ℕ
  pub pointer_offset_x : ℕ
  pub pointer_offset_y : ℕ

-- `captured` are the pointers that the palette has captured.
pub record Palette : Type 0 where
  pub position : Option Position
  pub drag_state : Option DragState
  pub is_dragging : Bool
  pub captured : List ℕ

abbrev pub initial : Palette
initial = record { position = none; drag_state = none; is_dragging = false; captured = [] }

unfoldable pub without : ℕ → List ℕ → List ℕ
without id [] = []
without id (x ∷ xs) = let rest = without id xs in if x == id then rest else x ∷ rest

-- whether a drag goes on with another pointer, or none does
abbrev pub is_other : ℕ → Option DragState → Bool
is_other pointer none = true
is_other pointer (some drag) = not (drag.pointer_id == pointer)

module _ (viewport : ViewportRect) (size : PaletteSize) where
  unfoldable pub keep_palette_in_viewport : Palette → Palette
  unfolding get_default_position clamp_position
  keep_palette_in_viewport s = record s {
    position = some (
        maybe s.position (get_default_position viewport size)
          (λ current. clamp_position viewport current size));
  }

  abbrev move_to : ℕ → ℕ → DragState → Palette → Palette
  move_to client_x client_y drag s = record s {
    position = some (
        clamp_position viewport
          (record { x = client_x - drag.pointer_offset_x; y = client_y - drag.pointer_offset_y })
          size);
  }

  unfoldable pub handle_drag_move : ℕ → ℕ → ℕ → Palette → Palette
  unfolding clamp_position
  handle_drag_move pointer client_x client_y s =
      maybe s.drag_state s
        (λ drag. if drag.pointer_id == pointer then move_to client_x client_y drag s else s)

-- `handleDragStart`, given the button, the pointer, and the distance of the pointer from the corner
-- of the palette, which is mounted
unfoldable pub handle_drag_start : ℕ → ℕ → ℕ → ℕ → Palette → Palette
unfolding without
handle_drag_start button pointer offset_x offset_y s =
    if button == 0
    then record s {
      drag_state = some (record {
        pointer_id = pointer;
        pointer_offset_x = offset_x;
        pointer_offset_y = offset_y;
      });
      is_dragging = true;
      captured = pointer ∷ without pointer s.captured;
    }
    else s

unfoldable pub handle_drag_end : ℕ → Palette → Palette
unfolding without
handle_drag_end pointer s =
    if is_other pointer s.drag_state
    then s
    else record s { drag_state = none; is_dragging = false; captured = without pointer s.captured }

-- The viewport or the palette changes or scrolls, or a pointer goes down, moves, or goes up.
pub data Event : Type 0 where
  kept : Event
  drag_started : ℕ → ℕ → ℕ → ℕ → Event
  drag_moved : ℕ → ℕ → ℕ → Event
  drag_ended : ℕ → Event

module _ (viewport : ViewportRect) (size : PaletteSize) where
  unfoldable pub handle : Event → Palette → Palette
  unfolding keep_palette_in_viewport handle_drag_start handle_drag_move handle_drag_end
  handle kept s = keep_palette_in_viewport viewport size s
  handle (drag_started button pointer offset_x offset_y) s =
      handle_drag_start button pointer offset_x offset_y s
  handle (drag_moved pointer client_x client_y) s =
      handle_drag_move viewport size pointer client_x client_y s
  handle (drag_ended pointer) s = handle_drag_end pointer s

  unfoldable pub run : List Event → Palette → Palette
  unfolding handle
  run [] s = s
  run (e ∷ es) s = run es (handle e s)
