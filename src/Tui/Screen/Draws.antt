-- ===== src/Tui/Screen/Draws.antt =====
-- The goroutine of pkg/tui/tui.go that draws: what an update of the queue does to the screen.
use bumblebee.Common.{◌≡◌, refl, sym, ap, ◌∙◌, String, Option, none, some, List, [], ◌∷◌, arith}
use bumblebee.Tui.Table.{Tui}
use bumblebee.Tui.Screen.{draw}
use bumblebee.Tui.Screen.Places.{
  name_at, IsScreen, pending, Focus, settled, undrawn, ahead, overtaken,
}

-- What a draw leaves as it was.
pub draw-map_of_maps : (s : Tui) → (draw s).map_of_maps ≡ s.map_of_maps
unfolding draw
draw-map_of_maps s = ground arith

pub draw-current_index : (s : Tui) → (draw s).current_index ≡ s.current_index
unfolding draw
draw-current_index s = ground arith

pub draw-readers : (s : Tui) → (draw s).readers ≡ s.readers
unfolding draw
draw-readers s = ground arith

module _ (s : Tui) (h : IsScreen s) where
  draw-Focus : (queue : List (Option String)) → s.queue ≡ queue → Focus s → Focus (draw s)
  unfolding draw pending
  draw-Focus [] e f = rw same f
    where
      same : draw s ≡ s
      same = ground (arith, e)
  draw-Focus (none ∷ queue) e f = rw same (kept f)
    where
      same : draw s ≡ record s { queue = queue }
      same = ground (arith, e)

      kept : Focus s → Focus (record s { queue = queue })
      kept (settled none_left on) = settled (ap pending (sym e) ∙ none_left) on
      kept (undrawn first queued is zeroth) = undrawn first (ap pending (sym e) ∙ queued) is zeroth
      kept (ahead first queued is on locked) =
          ahead first (ap pending (sym e) ∙ queued) is on locked
      kept (overtaken none_left on locked) = overtaken (ap pending (sym e) ∙ none_left) on locked
  draw-Focus (some name ∷ queue) e f = rw same (given f)
    where
      same : draw s ≡ record s { queue = queue; focus = some name }
      same = ground (arith, e)

      given : Focus s → Focus (record s { queue = queue; focus = some name })
      given (settled none_left on) = absurd (cc (sym none_left ∙ ap pending e))
      given (undrawn first queued is zeroth) =
          let both : name ∷ pending queue ≡ first ∷ [] = ap pending (sym e) ∙ queued in
          settled (cc both) (cc (both, is, ap (name_at s.map_of_maps) zeroth))
      given (ahead first queued is on locked) =
          let both : name ∷ pending queue ≡ first ∷ [] = ap pending (sym e) ∙ queued in
          overtaken (cc both) (cc (both, is)) locked
      given (overtaken none_left on locked) = absurd (cc (sym none_left ∙ ap pending e))

  pub draw-IsScreen : IsScreen (draw s)
  draw-IsScreen = record {
    places = rw (draw-map_of_maps s) h.places;
    focused = draw-Focus s.queue refl h.focused;
    in_range = rw (draw-map_of_maps s, draw-current_index s) h.in_range;
  }
