-- ===== src/Ui/Geometry/Fit.antt =====
-- src/rcm/ui/geometry.py: the scrollbars and the place that `content_fit_geometry` settles on.
use rcm_windows.Prelude.{
  ltb, leb, if◌then◌else◌, ℤ, pos, negsuc, ℕ, ◌+◌, ◌-◌, ◌≡◌, refl, sym, ap, ◌∙◌, subst, Bool, true,
  false, ◌||◌, arith,
}
use rcm_windows.Ui.Geometry.{
  bar_if, minimum, round_flags, scroll_flags, plus, le_int, min_int, placed, base_size,
  content_fit_geometry, WorkArea, Content,
}

-- A horizontal scrollbar exactly where the width with the vertical one is too large, and the other
-- way round.
abbrev pub IsConsistent : ℕ × ℕ → ℕ × ℕ → ℕ × ℕ → Bool × Bool → Type 0
IsConsistent base bar area (h, v) =
    (h ≡ ltb area.0 (base.0 + bar_if v bar.0)) × (v ≡ ltb area.1 (base.1 + bar_if h bar.1))

-- A round in terms of the four comparisons.
bool_round : Bool → Bool → Bool → Bool → Bool × Bool → Bool × Bool
bool_round a av b bv (h, v) =
    (h || (if v then av else a), v || (if h || (if v then av else a) then bv else b))

settled_flags :
    (a av b bv : Bool)
    → (a ≡ true → av ≡ true)
    → (b ≡ true → bv ≡ true)
    → let (h, v) = bool_round a av b bv (bool_round a av b bv (a, b)) in
      (h ≡ (if v then av else a)) × (v ≡ (if h then bv else b))
unfolding bool_round
settled_flags false av false bv f g = (refl, refl)
settled_flags false false true true f g = (refl, refl)
settled_flags false true true true f g = (refl, refl)
settled_flags true true false false f g = (refl, refl)
settled_flags true true false true f g = (refl, refl)
settled_flags true true true true f g = (refl, refl)
settled_flags true false b bv f g = absurd (cc (f refl))
settled_flags a av true false f g = absurd (cc (g refl))

compare_bar :
    (area base bar : ℕ) (flag : Bool)
    → ltb area (base + bar_if flag bar) ≡ (if flag then ltb area (base + bar) else ltb area base)
compare_bar area base bar true = refl
compare_bar area base bar false = ap (ltb area) (omega arith)

larger : (area base bar : ℕ) → ltb area base ≡ true → ltb area (base + bar) ≡ true
larger area base bar h = ground arith

round_flags-bool_round :
    (base bar area : ℕ × ℕ) (f : Bool × Bool)
    → round_flags base bar area f
      ≡ bool_round
          (ltb area.0 base.0)
          (ltb area.0 (base.0 + bar.0))
          (ltb area.1 base.1)
          (ltb area.1 (base.1 + bar.1))
          f
unfolding round_flags bool_round
round_flags-bool_round base bar area (h, v) = rw (
  compare_bar area.0 base.0 bar.0 v,
  compare_bar area.1 base.1 bar.1
      (h || (if v then ltb area.0 (base.0 + bar.0) else ltb area.0 base.0)),
)

flags_are :
    (base bar area : ℕ × ℕ)
    → scroll_flags base bar area ≡ (
        let a = ltb area.0 base.0 in
        let av = ltb area.0 (base.0 + bar.0) in
        let b = ltb area.1 base.1 in
        let bv = ltb area.1 (base.1 + bar.1) in bool_round a av b bv (bool_round a av b bv (a, b)))
unfolding scroll_flags
flags_are base bar area =
    let one = round_flags-bool_round base bar area (ltb area.0 base.0, ltb area.1 base.1) in
    ap (round_flags base bar area) one ∙ round_flags-bool_round base bar area _

module _ (base bar area : ℕ × ℕ) where
  abbrev settled : Bool × Bool
  settled =
      bool_round (ltb area.0 base.0) (ltb area.0 (base.0 + bar.0)) (ltb area.1 base.1)
        (ltb area.1 (base.1 + bar.1))
        (bool_round (ltb area.0 base.0) (ltb area.0 (base.0 + bar.0)) (ltb area.1 base.1)
          (ltb area.1 (base.1 + bar.1)) (ltb area.0 base.0, ltb area.1 base.1))

  settled-IsConsistent : IsConsistent base bar area settled
  settled-IsConsistent =
      let (p, q) =
        settled_flags (ltb area.0 base.0) (ltb area.0 (base.0 + bar.0)) (ltb area.1 base.1)
          (ltb area.1 (base.1 + bar.1)) (larger area.0 base.0 bar.0) (larger area.1 base.1 bar.1) in
      (
        p ∙ sym (compare_bar area.0 base.0 bar.0 settled.1),
        q ∙ sym (compare_bar area.1 base.1 bar.1 settled.0),
      )

  -- The two rounds settle the flags: each scrollbar is there exactly where it is needed beside the
  -- other one.
  pub scroll_flags-IsConsistent : IsConsistent base bar area (scroll_flags base bar area)
  scroll_flags-IsConsistent =
      subst (IsConsistent base bar area) (sym (flags_are base bar area)) settled-IsConsistent

-- A flag of a round stays below a consistent one.
side :
    (a more v w h k : Bool)
    → k ≡ (if w then more else a)
    → (a ≡ true → more ≡ true)
    → (v ≡ true → w ≡ true)
    → (h ≡ true → k ≡ true)
    → (h || (if v then more else a)) ≡ true
    → k ≡ true
side a more v w true k e f g hk x = hk refl
side a more true true false k e f g hk x = e ∙ x
side a more true false false k e f g hk x = absurd (cc (g refl))
side a more false true false k e f g hk x = e ∙ f x
side a more false false false k e f g hk x = e ∙ x

-- Implication of both flags.
abbrev pub IsBelow : Bool × Bool → Bool × Bool → Type 0
IsBelow f g = (f.0 ≡ true → g.0 ≡ true) × (f.1 ≡ true → g.1 ≡ true)

module _ (a av b bv : Bool) (f : a ≡ true → av ≡ true) (g : b ≡ true → bv ≡ true) (k w : Bool)
    (p : k ≡ (if w then av else a)) (q : w ≡ (if k then bv else b)) where
  round-IsBelow :
      (h v : Bool) → IsBelow (h, v) (k, w) → IsBelow (bool_round a av b bv (h, v)) (k, w)
  unfolding bool_round
  round-IsBelow h v (x, y) =
      let first = side a av v w h k p f y x in
      (first, side b bv (h || (if v then av else a)) k v w q g first y)

  start-IsBelow : IsBelow (a, b) (k, w)
  start-IsBelow = (
    side a av false w false k p f (λ x. absurd (cc x)) (λ x. absurd (cc x)),
    side b bv false k false w q g (λ x. absurd (cc x)) (λ x. absurd (cc x)),
  )

  rounds-IsBelow : IsBelow (bool_round a av b bv (bool_round a av b bv (a, b))) (k, w)
  rounds-IsBelow =
      round-IsBelow (bool_round a av b bv (a, b)).0 (bool_round a av b bv (a, b)).1
        (round-IsBelow a b start-IsBelow)

IsBelow-consistent :
    (base bar area : ℕ × ℕ) (flags : Bool × Bool)
    → IsConsistent base bar area flags
    → IsBelow (scroll_flags base bar area) flags
IsBelow-consistent base bar area (k, w) (p, q) =
    subst (λ f. IsBelow f (k, w)) (sym (flags_are base bar area))
      (rounds-IsBelow (ltb area.0 base.0) (ltb area.0 (base.0 + bar.0)) (ltb area.1 base.1)
        (ltb area.1 (base.1 + bar.1)) (larger area.0 base.0 bar.0) (larger area.1 base.1 bar.1) k w
        (p ∙ compare_bar area.0 base.0 bar.0 w) (q ∙ compare_bar area.1 base.1 bar.1 k))

-- The flags after the two rounds are consistent, each scrollbar there exactly where the area is too
-- small beside the other one, and they are the least of the consistent pairs of flags.
pub scroll_flags_least :
    (base bar area : ℕ × ℕ)
    → IsConsistent base bar area (scroll_flags base bar area)
      × ((flags : Bool × Bool)
          → IsConsistent base bar area flags
          → IsBelow (scroll_flags base bar area) flags)
scroll_flags_least base bar area =
    (scroll_flags-IsConsistent base bar area, IsBelow-consistent base bar area)

least_le : (a b : ℕ) → leb (minimum a b) b ≡ true
least_le a b = ground arith

le_plus : (x : ℤ) (n : ℕ) → le_int x (plus x n) ≡ true
le_plus (pos m) n = ground arith
le_plus (negsuc m) n = crossing (ltb m n)
  where
    crossing :
        (b : Bool) → le_int (negsuc m) (if b then pos (n - (m + 1)) else negsuc (m - n)) ≡ true
    crossing true = refl
    crossing false = ground arith

le_self : (x : ℤ) → le_int x x ≡ true
le_self (pos m) = ground arith
le_self (negsuc m) = ground arith

le_total : (x y : ℤ) → le_int x y ≡ false → le_int y x ≡ true
le_total (pos m) (pos n) e = ground arith
le_total (pos m) (negsuc n) e = refl
le_total (negsuc m) (pos n) e = absurd (cc e)
le_total (negsuc m) (negsuc n) e = ground arith

max_from : (x y : ℤ) (b : Bool) → le_int x y ≡ b → le_int x (if b then y else x) ≡ true
max_from x y true e = e
max_from x y false e = le_self x

max_to :
    (x y z : ℤ) (b : Bool)
    → le_int x z ≡ true
    → le_int y z ≡ true
    → le_int (if b then y else x) z ≡ true
max_to x y z true h k = k
max_to x y z false h k = h

min_to : (x z : ℤ) (b : Bool) → le_int x z ≡ b → le_int (if b then x else z) z ≡ true
min_to x z true e = e
min_to x z false e = le_self z

-- The place is not before the start, and not behind the start with the slack.
placed_from : (start current : ℤ) (slack : ℕ) → le_int start (placed start current slack) ≡ true
placed_from start current slack =
    max_from start (min_int current (plus start slack))
      (le_int start (min_int current (plus start slack))) refl

placed_to :
    (start current : ℤ) (slack : ℕ) → le_int (placed start current slack) (plus start slack) ≡ true
placed_to start current slack =
    max_to start (min_int current (plus start slack)) (plus start slack)
      (le_int start (min_int current (plus start slack))) (le_plus start slack)
      (min_to current (plus start slack) (le_int current (plus start slack)) refl)

-- The window lies inside of the work area, as large as it would be or as the area is, and there is a
-- scrollbar in a direction exactly where it would be larger than the area, with the other scrollbar.
pub content_fit_geometry_inside :
    (c : Content) (area : WorkArea) (current : ℤ × ℤ)
    → let g = content_fit_geometry c area current in
      (g.horizontal_scroll ≡ ltb area.width g.desired_width)
      × (g.vertical_scroll ≡ ltb area.height g.desired_height)
      × (g.width ≡ minimum g.desired_width area.width)
      × (g.height ≡ minimum g.desired_height area.height)
      × (leb g.width area.width ≡ true)
      × (leb g.height area.height ≡ true)
      × (le_int area.x g.x ≡ true)
      × (le_int g.x (plus area.x (area.width - g.width)) ≡ true)
      × (le_int area.y g.y ≡ true)
      × (le_int g.y (plus area.y (area.height - g.height)) ≡ true)
unfolding content_fit_geometry
content_fit_geometry_inside c area current =
    let g = content_fit_geometry c area current in
    let (p, q) =
      scroll_flags-IsConsistent (base_size c) (c.vertical_bar, c.horizontal_bar)
        (area.width, area.height) in
    (
      p,
      q,
      refl,
      refl,
      least_le g.desired_width area.width,
      least_le g.desired_height area.height,
      placed_from area.x current.0 (area.width - g.width),
      placed_to area.x current.0 (area.width - g.width),
      placed_from area.y current.1 (area.height - g.height),
      placed_to area.y current.1 (area.height - g.height),
    )
