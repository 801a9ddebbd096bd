-- ===== src/Tui/Pipe.antt =====
-- pkg/tui/tui.go: `Run`, as steps of the goroutines that share the channel `Entries` and the screen. A
-- loop of the loader announces its map (pkg/loader/loader.go: WatchMaps) and then sends what passes the
-- filters, `watch` renders, the goroutine that draws takes queued updates and keys, and `Load` closes
-- the channel when all loops have returned.
pub mod Ends
pub mod Orders
pub mod Delivers
pub mod Displays
mod Tests
use bumblebee.Common.{
  ℕ, ◌+◌, ◌*◌, ◌<◌, ◌≡◌, ◌≢◌, String, Bool, true, false, Option, none, some, List, [], ◌∷◌, ◌++◌,
  length,
}
use bumblebee.Loader.Types.{MapType, Labels, MapEntry}
use bumblebee.Common.Dict.{lookup, insert}
use bumblebee.Tui.Table.{Tui, watch_entry}
use bumblebee.Tui.Screen.{make_map_value, draw, next_table, prev_table}

-- The arguments of `NewRingBuf` or `NewHashMap`.
pub record Announcement : Type 0 where
  pub name : String
  pub keys : List String
  pub typ : MapType

pub data Key : Type 0 where
  ctrl_n ctrl_p : Key

unfoldable pub press : Key → Tui → Tui
press ctrl_n s = next_table s
press ctrl_p s = prev_table s

-- `senders` has what each loop, by the name of its map, has still to send; `to_announce` the maps that
-- are not announced, in the order in which their loops will get the lock, and `drawing` those whose
-- loops wait in `QueueUpdateDraw`; `pressed` the keys to come; `ended` says that `watch` has returned.
pub record Pipe : Type 0 where
  pub senders : List (String × List MapEntry)
  pub to_announce : List Announcement
  pub drawing : List String
  pub pressed : List Key
  pub buffer : List MapEntry
  pub is_closed : Bool
  pub ended : Bool
  pub screen : Tui

-- The channel that `Run` makes.
abbrev pub capacity : ℕ
capacity = 20

unfoldable pub open_pipe : List (String × List MapEntry) → List Announcement → List Key → Tui → Pipe
open_pipe senders to_announce pressed screen = record {
  senders = senders;
  to_announce = to_announce;
  drawing = [];
  pressed = pressed;
  buffer = [];
  is_closed = false;
  ended = false;
  screen = screen;
}

-- A map that is announced already, or is not one of those.
abbrev pub NotAmong : String → List Announcement → Type 0
NotAmong k [] = Unit
NotAmong k (a ∷ as') = (a.name ≢ k) × NotAmong k as'

abbrev pub NotDrawing : String → List String → Type 0
NotDrawing k [] = Unit
NotDrawing k (j ∷ js) = (j ≢ k) × NotDrawing k js

abbrev pub AllSent : List (String × List MapEntry) → Type 0
AllSent [] = Unit
AllSent ((k, es) ∷ m) = (es ≡ []) × AllSent m

-- The maps of a program have different names.
abbrev pub NoName : String → List (String × List MapEntry) → Type 0
NoName k [] = Unit
NoName k ((j, es) ∷ m) = (j ≢ k) × NoName k m

abbrev pub DistinctNames : List (String × List MapEntry) → Type 0
DistinctNames [] = Unit
DistinctNames ((k, es) ∷ m) = NoName k m × DistinctNames m

-- A loop announces its map first, which waits while a read lock is held, and waits until its update is
-- drawn; then it sends. A send waits while the channel is full, a receive while it is empty and open. The
-- list has the entry that `watch` takes.
pub data Step (hash_of : Labels → ℕ) (p q : Pipe) : List MapEntry → Type 0 where
  announce :
      (a : Announcement) (as' : List Announcement) (s : Tui)
      → p.to_announce ≡ a ∷ as'
      → make_map_value a.name a.keys a.typ p.screen ≡ some s
      → q ≡ record p { to_announce = as'; drawing = p.drawing ++ (a.name ∷ []); screen = s }
      → Step hash_of p q []
  drawn :
      (name : String) (names : List String)
      → p.drawing ≡ name ∷ names
      → q ≡ record p { drawing = names; screen = draw p.screen }
      → Step hash_of p q []
  key :
      (k : Key) (ks : List Key)
      → p.pressed ≡ k ∷ ks
      → q ≡ record p { pressed = ks; screen = press k p.screen }
      → Step hash_of p q []
  send_entry :
      (name : String) (e : MapEntry) (es : List MapEntry)
      → lookup name p.senders ≡ some (e ∷ es)
      → NotAmong name p.to_announce
      → NotDrawing name p.drawing
      → length p.buffer < capacity
      → p.is_closed ≡ false
      → q ≡ record p { senders = insert name es p.senders; buffer = p.buffer ++ (e ∷ []) }
      → Step hash_of p q []
  close_entries :
      AllSent p.senders
      → p.to_announce ≡ []
      → p.drawing ≡ []
      → p.is_closed ≡ false
      → q ≡ record p { is_closed = true }
      → Step hash_of p q []
  receive :
      (e : MapEntry) (es taken : List MapEntry)
      → p.buffer ≡ e ∷ es
      → p.ended ≡ false
      → taken ≡ e ∷ []
      → q ≡ record p { buffer = es; screen = watch_entry hash_of e p.screen }
      → Step hash_of p q taken
  finish :
      p.buffer ≡ []
      → p.is_closed ≡ true
      → p.ended ≡ false
      → q ≡ record p { ended = true }
      → Step hash_of p q []

-- A run of a number of steps, with all entries that `watch` takes in it.
pub data Run (hash_of : Labels → ℕ) (p : Pipe) : ℕ → List MapEntry → Pipe → Type 0 where
  here : Run hash_of p 0 [] p
  then_step :
      (n m : ℕ) (taken more all : List MapEntry) (q r : Pipe)
      → Run hash_of p n taken q
      → Step hash_of q r more
      → m ≡ n + 1
      → all ≡ taken ++ more
      → Run hash_of p m all r
