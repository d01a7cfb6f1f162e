-- ===== src/Ui/Geometry.antt =====
-- src/rcm/ui/geometry.py: `content_fit_geometry`, the size and the place of the window.
--
-- Lengths and counts are natural numbers, places are integers; `max(0, …)` of a length has nothing
-- to do then.
pub mod Fit
use rcm_windows.Prelude.{
  ltb, leb, if◌then◌else◌, guard, Result, value_error, ℤ, pos, negsuc, ℕ, ◌+◌, ◌-◌, ◌*◌, Bool, true,
  false, ◌&&◌, ◌||◌,
}

pub record WorkArea : Type 0 where
  pub x : ℤ
  pub y : ℤ
  pub width : ℕ
  pub height : ℕ

-- WorkArea.__post_init__
unfoldable pub check_area : WorkArea → Result (Unit {0})
check_area a = guard (leb 1 a.width && leb 1 a.height) value_error

pub record WindowGeometry : Type 0 where
  pub x : ℤ
  pub y : ℤ
  pub width : ℕ
  pub height : ℕ
  pub desired_width : ℕ
  pub desired_height : ℕ
  pub horizontal_scroll : Bool
  pub vertical_scroll : Bool
  pub visible_rows : ℕ

-- The arguments about the content.
pub record Content : Type 0 where
  pub text_width_px : ℕ
  pub char_width_px : ℕ
  pub node_count : ℕ
  pub row_height_px : ℕ
  pub chrome_width_px : ℕ
  pub chrome_height_px : ℕ
  pub min_width : ℕ
  pub min_height : ℕ
  pub right_margin_chars : ℕ
  pub spare_rows : ℕ
  pub vertical_bar : ℕ
  pub horizontal_bar : ℕ

-- bar if flag else 0
abbrev pub bar_if : Bool → ℕ → ℕ
bar_if flag bar = if flag then bar else 0

-- max and min of lengths
abbrev pub maximum : ℕ → ℕ → ℕ
maximum a b = if ltb a b then b else a

abbrev pub minimum : ℕ → ℕ → ℕ
minimum a b = if ltb b a then b else a

-- A round of the loop over the two flags, for base sizes, bars and an area.
unfoldable pub round_flags : ℕ × ℕ → ℕ × ℕ → ℕ × ℕ → Bool × Bool → Bool × Bool
round_flags base bar area (horizontal, vertical) =
    let h = horizontal || ltb area.0 (base.0 + bar_if vertical bar.0) in
    (h, vertical || ltb area.1 (base.1 + bar_if h bar.1))

unfoldable pub scroll_flags : ℕ × ℕ → ℕ × ℕ → ℕ × ℕ → Bool × Bool
unfolding round_flags
scroll_flags base bar area =
    round_flags base bar area (round_flags base bar area (ltb area.0 base.0, ltb area.1 base.1))

abbrev pub plus : ℤ → ℕ → ℤ
plus (pos m) n = pos (m + n)
plus (negsuc m) n = if ltb m n then pos (n - (m + 1)) else negsuc (m - n)

abbrev pub le_int : ℤ → ℤ → Bool
le_int (pos m) (pos n) = leb m n
le_int (pos m) (negsuc n) = false
le_int (negsuc m) (pos n) = true
le_int (negsuc m) (negsuc n) = leb n m

abbrev pub max_int : ℤ → ℤ → ℤ
max_int a b = if le_int a b then b else a

abbrev pub min_int : ℤ → ℤ → ℤ
min_int a b = if le_int a b then a else b

-- max(start, min(current, start + length - size))
abbrev pub placed : ℤ → ℤ → ℕ → ℤ
placed start current slack = max_int start (min_int current (plus start slack))

abbrev pub rows_of : Content → ℕ
rows_of c = c.node_count + c.spare_rows

abbrev pub base_size : Content → ℕ × ℕ
base_size c = (
  maximum (maximum 1 c.min_width)
      (c.chrome_width_px + c.text_width_px + c.right_margin_chars * maximum 1 c.char_width_px),
  maximum (maximum 1 c.min_height) (c.chrome_height_px + rows_of c * maximum 1 c.row_height_px),
)

abbrev pub window : Content → WorkArea → ℤ × ℤ → Bool × Bool → WindowGeometry
window c area current (horizontal, vertical) =
    let desired_width = (base_size c).0 + bar_if vertical c.vertical_bar in
    let desired_height = (base_size c).1 + bar_if horizontal c.horizontal_bar in
    let width = minimum desired_width area.width in
    let height = minimum desired_height area.height in
    record {
      x = placed area.x current.0 (area.width - width);
      y = placed area.y current.1 (area.height - height);
      width = width;
      height = height;
      desired_width = desired_width;
      desired_height = desired_height;
      horizontal_scroll = horizontal;
      vertical_scroll = vertical;
      visible_rows = rows_of c;
    }

unfoldable pub content_fit_geometry : Content → WorkArea → ℤ × ℤ → WindowGeometry
unfolding scroll_flags
content_fit_geometry c area current =
    window c area current
      (scroll_flags (base_size c) (c.vertical_bar, c.horizontal_bar) (area.width, area.height))
