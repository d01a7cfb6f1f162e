-- ===== src/Tests/Windows.antt =====
-- The geometry of a window on a small screen left of the main one.
use rcm_windows.Prelude.{ltb, leb, pos, negsuc, ◌-◌, ◌≡◌, refl, Bool, true}
use rcm_windows.Ui.Geometry.{
  minimum, scroll_flags, plus, le_int, content_fit_geometry, WorkArea, Content,
}
use rcm_windows.Ui.Geometry.Fit.{
  IsBelow, IsConsistent, scroll_flags_least, content_fit_geometry_inside,
}

abbrev content : Content
content = record {
  text_width_px = 700;
  char_width_px = 8;
  node_count = 20;
  row_height_px = 22;
  chrome_width_px = 60;
  chrome_height_px = 50;
  min_width = 620;
  min_height = 430;
  right_margin_chars = 2;
  spare_rows = 1;
  vertical_bar = 17;
  horizontal_bar = 17;
}

abbrev area : WorkArea
area = record { x = negsuc 799; y = pos 0; width = 780; height = 500 }

-- The vertical scrollbar is what makes the window too wide.
both_scroll : content_fit_geometry content area (pos 5, pos 5) ≡ record {
  x = negsuc 799;
  y = pos 0;
  width = 780;
  height = 500;
  desired_width = 793;
  desired_height = 529;
  horizontal_scroll = true;
  vertical_scroll = true;
  visible_rows = 21;
}
unfolding content_fit_geometry
both_scroll = refl

content_fit_geometry_inside_example :
    let g = content_fit_geometry content area (pos 5, pos 5) in
    (g.horizontal_scroll ≡ ltb 780 g.desired_width)
    × (g.vertical_scroll ≡ ltb 500 g.desired_height)
    × (g.width ≡ minimum g.desired_width 780)
    × (g.height ≡ minimum g.desired_height 500)
    × (leb g.width 780 ≡ true)
    × (leb g.height 500 ≡ true)
    × (le_int (negsuc 799) g.x ≡ true)
    × (le_int g.x (plus (negsuc 799) (780 - g.width)) ≡ true)
    × (le_int (pos 0) g.y ≡ true)
    × (le_int g.y (plus (pos 0) (500 - g.height)) ≡ true)
content_fit_geometry_inside_example = content_fit_geometry_inside content area (pos 5, pos 5)

scroll_flags_least_example :
    IsConsistent (776, 512) (17, 17) (780, 520) (scroll_flags (776, 512) (17, 17) (780, 520))
    × ((flags : Bool × Bool)
        → IsConsistent (776, 512) (17, 17) (780, 520) flags
        → IsBelow (scroll_flags (776, 512) (17, 17) (780, 520)) flags)
scroll_flags_least_example = scroll_flags_least (776, 512) (17, 17) (780, 520)
