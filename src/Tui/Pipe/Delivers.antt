-- ===== src/Tui/Pipe/Delivers.antt =====
-- What the channel `Entries` of pkg/tui/tui.go delivers, and what the screen shows when `watch` has
-- returned.
use mathlib.Core.List.{append-nil}
use bumblebee.Common.{
  ℕ, ◌≡◌, ◌≢◌, refl, sym, ap, ◌∙◌, inl, inr, String, true, none, some, List, [], ◌∷◌, ◌++◌, arith,
  length, ◌==◌, Bool-cases,
}
use bumblebee.Loader.Types.{MapType, Labels, MapEntry}
use bumblebee.Common.Dict.{lookup, insert, lookup-insert_ne}
use bumblebee.Tui.Table.{MapValue, Tui, watch_entry, watch}
use bumblebee.Tui.Table.Rings.{of_map}
use bumblebee.Tui.Table.Depends.{watch_entry-lookup}
use bumblebee.Tui.Screen.{sort_strings, make_map_value, draw, next_table, prev_table, select_table}
use bumblebee.Tui.Screen.Draws.{draw-map_of_maps}
use bumblebee.Tui.Display.{Interleaved}
use bumblebee.Tui.Pipe.{
  Announcement, Key, ctrl_n, ctrl_p, press, NotAmong, open_pipe, Pipe, AllSent, Step, announce,
  drawn, key, send_entry, close_entries, receive, finish, Run, here, then_step,
}
use bumblebee.Tui.Pipe.Orders.{
  SendOwn, left, ahead, SendOwn-insert, sent-kept, taken-kept, AllSent-left, in_order,
}

-- What is left and what is taken of the map of a name, at any time after an open channel with senders and
-- a screen.
pub record IsDelivery (hash_of : Labels → ℕ) (name : String)
    (senders : List (String × List MapEntry)) (screen : Tui) (taken : List MapEntry) (q : Pipe)
    : Type 0 where
  pub own_names : SendOwn q.senders
  pub kept : of_map name taken ++ ahead name q ≡ of_map name (left name senders)
  pub all_sent : q.is_closed ≡ true → AllSent q.senders
  pub drained : q.ended ≡ true → (q.is_closed ≡ true) × (q.buffer ≡ [])
  pub announced : NotAmong name q.to_announce
  pub rendered :
      lookup name q.screen.map_of_maps ≡ lookup name (watch hash_of taken screen).map_of_maps

press-map_of_maps : (k : Key) (s : Tui) → (press k s).map_of_maps ≡ s.map_of_maps
unfolding press next_table prev_table select_table
press-map_of_maps ctrl_n s = ground arith
press-map_of_maps ctrl_p s = ground arith

make_map_value-others :
    (name k : String) (keys : List String) (typ : MapType) (s t : Tui)
    → make_map_value name keys typ s ≡ some t
    → name ≢ k
    → lookup k t.map_of_maps ≡ lookup k s.map_of_maps
unfolding make_map_value
make_map_value-others name k keys typ s t made ne = elim (Bool-cases (s.readers == 0)) [
  | inr locked ↦ absurd (ground (arith, locked, made))
  | inl free ↦
      let new : MapValue = record {
        entries = [];
        table = λ r c. none;
        index = length s.map_of_maps;
        typ = typ;
        keys = sort_strings keys;
      } in
      let is : insert name new s.map_of_maps ≡ t.map_of_maps = ground (arith, free, made) in
      ap (lookup k) (sym is) ∙ lookup-insert_ne name k new s.map_of_maps ne
]

module _ (hash_of : Labels → ℕ) where
  watch-append :
      (xs ys : List MapEntry) (s : Tui)
      → watch hash_of (xs ++ ys) s ≡ watch hash_of ys (watch hash_of xs s)
  unfolding watch
  watch-append [] ys s = refl
  watch-append (x ∷ xs) ys s = watch-append xs ys (watch_entry hash_of x s)

  module _ (name : String) (senders : List (String × List MapEntry)) (screen : Tui) where
    abbrev Delivers : List MapEntry → Pipe → Type 0
    Delivers = IsDelivery hash_of name senders screen

    -- A step that sends and takes nothing.
    moved :
        (p q : Pipe) (taken : List MapEntry)
        → q.senders ≡ p.senders
        → q.buffer ≡ p.buffer
        → q.is_closed ≡ p.is_closed
        → q.ended ≡ p.ended
        → NotAmong name q.to_announce
        → lookup name q.screen.map_of_maps ≡ lookup name p.screen.map_of_maps
        → Delivers taken p
        → Delivers (taken ++ []) q
    moved p q taken senders_are buffer_is closed_is ended_is rest shown h =
        rw (append-nil taken) (record {
          own_names = rw senders_are h.own_names;
          kept = rw (senders_are, buffer_is) h.kept;
          all_sent = λ closed. rw senders_are (h.all_sent (sym closed_is ∙ closed));
          drained = λ over. rw (closed_is, buffer_is) (h.drained (sym ended_is ∙ over));
          announced = rest;
          rendered = shown ∙ h.rendered;
        })

    Step-IsDelivery :
        (p q : Pipe) (taken more : List MapEntry)
        → Step hash_of p q more
        → Delivers taken p
        → Delivers (taken ++ more) q
    unfolding watch
    Step-IsDelivery p q taken more (announce a as' s next made is) h =
        let (ne, rest) = rw next at h.announced in
        rw is (
          moved p (record p { to_announce = as'; drawing = p.drawing ++ (a.name ∷ []); screen = s })
            taken refl refl refl refl rest
            (make_map_value-others a.name name a.keys a.typ p.screen s made ne) h)
    Step-IsDelivery p q taken more (drawn k names next is) h = rw is (
        moved p (record p { drawing = names; screen = draw p.screen }) taken refl refl refl refl
          h.announced (ap (lookup name) (draw-map_of_maps p.screen)) h)
    Step-IsDelivery p q taken more (key k ks next is) h = rw is (
        moved p (record p { pressed = ks; screen = press k p.screen }) taken refl refl refl refl
          h.announced (ap (lookup name) (press-map_of_maps k p.screen)) h)
    Step-IsDelivery p q taken more (send_entry k e es found free undrawn room is_open is) h =
        rw (is, append-nil taken)
          (record {
            own_names = SendOwn-insert k e es p.senders found h.own_names;
            kept =
                ap (λ xs. of_map name taken ++ xs)
                  (sent-kept name k e es p.buffer p.senders found
                    ((h.own_names k (e ∷ es) found).0))
                ∙ h.kept;
            all_sent = λ closed. ground (arith, is_open, closed);
            drained = λ over. ground (arith, is_open, h.drained over);
            announced = h.announced;
            rendered = h.rendered;
          })
    Step-IsDelivery p q taken more (close_entries sent _ _ is_open is) h =
        rw (is, append-nil taken)
          (record {
            own_names = h.own_names;
            kept = h.kept;
            all_sent = λ closed. sent;
            drained = λ over. (refl, (h.drained over).1);
            announced = h.announced;
            rendered = h.rendered;
          })
    Step-IsDelivery p q taken more (receive e es _ next on is_taken is) h =
        rw (is, is_taken)
          (record {
            own_names = h.own_names;
            kept =
                taken-kept name e taken es (of_map name (left name p.senders))
                ∙ ap
                    (λ xs.
                      of_map name taken ++ (of_map name xs ++ of_map name (left name p.senders)))
                    (sym next)
                ∙ h.kept;
            all_sent = h.all_sent;
            drained = λ over. ground (arith, on, over);
            announced = h.announced;
            rendered =
                watch_entry-lookup hash_of name e p.screen (watch hash_of taken screen) h.rendered
                ∙ ap (λ (s : Tui). lookup name s.map_of_maps)
                    (sym (watch-append taken (e ∷ []) screen));
          })
    Step-IsDelivery p q taken more (finish no_more over on is) h =
        rw (is, append-nil taken)
          (record {
            own_names = h.own_names;
            kept = h.kept;
            all_sent = h.all_sent;
            drained = λ ended. (over, no_more);
            announced = h.announced;
            rendered = h.rendered;
          })

    module _ (loops : List Announcement) (keys : List Key) where
      Run-IsDelivery :
          (q : Pipe) (n : ℕ) (taken : List MapEntry)
          → SendOwn senders
          → NotAmong name loops
          → Run hash_of (open_pipe senders loops keys screen) n taken q
          → Delivers taken q
      unfolding watch open_pipe
      Run-IsDelivery q n taken h fresh here = record {
        own_names = h;
        kept = refl;
        all_sent = λ closed. ground (arith, closed);
        drained = λ over. ground (arith, over);
        announced = fresh;
        rendered = refl;
      }
      Run-IsDelivery q m all h fresh (then_step n _ taken more _ r _ run step e is) =
          rw is (Step-IsDelivery r q taken more step (Run-IsDelivery r n taken h fresh run))

      -- When `watch` has returned, it has taken the entries of the loop of a map that was announced
      -- before, in their order and with nothing lost, and shows of that map what it makes of those that
      -- it took, one after the other.
      pub delivered :
          (q : Pipe) (n : ℕ) (taken es : List MapEntry)
          → SendOwn senders
          → NotAmong name loops
          → lookup name senders ≡ some es
          → Run hash_of (open_pipe senders loops keys screen) n taken q
          → q.ended ≡ true
          → Interleaved name es taken
            × (lookup name q.screen.map_of_maps
                ≡ lookup name (watch hash_of taken screen).map_of_maps)
      delivered q n taken es names fresh found run over =
          let h = Run-IsDelivery q n taken names fresh run in
          let (closed, empty) = h.drained over in
          (
            in_order name es taken (names name es found) (
                sym (append-nil (of_map name taken))
                ∙ sym (rw (empty, AllSent-left name q.senders (h.all_sent closed)) refl)
                ∙ h.kept
                ∙ ap (of_map name) (ground (arith, found))),
            h.rendered,
          )
