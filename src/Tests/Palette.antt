-- ===== src/Tests/Palette.antt =====
-- A palette on a phone that is turned.
use terminal_hub.Common.{refl, List, [], ◌∷◌}
use terminal_hub.Palette.{
  ViewportRect, PaletteSize, Event, kept, drag_started, drag_moved, drag_ended, run, initial,
}
use terminal_hub.Palette.Bounds.{IsPlaced, run-IsShown}

abbrev phone : ViewportRect
phone = record { left = 0; top = 0; view_width = 800; view_height = 360 }

abbrev keys : PaletteSize
keys = record { width = 360; height = 132 }

abbrev drag_away : List Event
drag_away = drag_started 0 1 5 5 ∷ drag_moved 1 9000 2 ∷ drag_ended 1 ∷ []

run-IsShown_example : IsPlaced phone keys (run phone keys (kept ∷ drag_away) initial)
run-IsShown_example = run-IsShown phone keys drag_away initial refl
