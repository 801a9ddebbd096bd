-- ===== src/Tui/Pipe/Orders.antt =====
-- The entries of one map among those that the channel `Entries` of pkg/tui/tui.go carries.
use text.Mathlib.Text.{◌==◌ as str_eq}
use text.Mathlib.TextEquality.{eq_iff}
use mathlib.Core.List.{append_assoc}
use bumblebee.Common.{
  ◌≡◌, refl, sym, ap, ◌∙◌, inl, inr, String, none, some, List, [], ◌∷◌, ◌++◌, arith, Bool-cases,
}
use bumblebee.Loader.Types.{KvPair, MapEntry}
use bumblebee.Common.Dict.{lookup, insert, lookup-insert}
use bumblebee.Tui.Table.Rings.{of_map}
use bumblebee.Tui.Display.{Interleaved, nothing, own, other}
use bumblebee.Tui.Pipe.{Pipe, AllSent}

-- A loop sends entries under the name of its map.
abbrev pub AllNamed : String → List MapEntry → Type 0
AllNamed k [] = Unit
AllNamed k (e ∷ es) = (e.name ≡ k) × AllNamed k es

abbrev pub SendOwn : List (String × List MapEntry) → Type 0
SendOwn m = (k : String) (es : List MapEntry) → lookup k m ≡ some es → AllNamed k es

-- What the loop of a map has still to send.
abbrev pub left : String → List (String × List MapEntry) → List MapEntry
left k m = elim (lookup k m) [ none ↦ [] | some es ↦ es ]

of_map-append :
    (k : String) (xs ys : List MapEntry) → of_map k (xs ++ ys) ≡ of_map k xs ++ of_map k ys
of_map-append k [] ys = refl
of_map-append k (x ∷ xs) ys = ground (arith, of_map-append k xs ys)

pub SendOwn-insert :
    (name : String) (e : MapEntry) (es : List MapEntry) (m : List (String × List MapEntry))
    → lookup name m ≡ some (e ∷ es)
    → SendOwn m
    → SendOwn (insert name es m)
SendOwn-insert name e es m found own_names k fs later = elim (Bool-cases (str_eq name k)) [
  | inl same ↦
      let is : fs ≡ es = ground (arith, same, later, lookup-insert name k es m) in
      rw (is, sym ((eq_iff name k).0 same)) ((own_names name (e ∷ es) found).1)
  | inr differs ↦ own_names k fs (ground (arith, differs, later, lookup-insert name k es m))
]

-- The entries of one map: those in the channel, and then those that are still to be sent.
abbrev pub ahead : String → Pipe → List KvPair
ahead k p = of_map k p.buffer ++ of_map k (left k p.senders)

sent-ahead :
    (k name : String) (e : MapEntry) (es : List MapEntry) (m : List (String × List MapEntry))
    → lookup name m ≡ some (e ∷ es)
    → e.name ≡ name
    → of_map k (e ∷ []) ++ of_map k (left k (insert name es m)) ≡ of_map k (left k m)
sent-ahead k name e es m found named = elim (Bool-cases (str_eq name k)) [
  | inl same ↦ ground (arith, same, eq_iff name k, named, found, lookup-insert name k es m)
  | inr differs ↦ ground (arith, differs, named, lookup-insert name k es m)
]

pub sent-kept :
    (k name : String) (e : MapEntry) (es buffer : List MapEntry) (m : List (String × List MapEntry))
    → lookup name m ≡ some (e ∷ es)
    → e.name ≡ name
    → of_map k (buffer ++ (e ∷ [])) ++ of_map k (left k (insert name es m))
      ≡ of_map k buffer ++ of_map k (left k m)
sent-kept k name e es buffer m found named =
    ap (λ xs. xs ++ of_map k (left k (insert name es m))) (of_map-append k buffer (e ∷ []))
    ∙ append_assoc (of_map k buffer) (of_map k (e ∷ [])) (of_map k (left k (insert name es m)))
    ∙ ap (λ xs. of_map k buffer ++ xs) (sent-ahead k name e es m found named)

pub taken-kept :
    (k : String) (e : MapEntry) (taken es : List MapEntry) (rest : List KvPair)
    → of_map k (taken ++ (e ∷ [])) ++ (of_map k es ++ rest)
      ≡ of_map k taken ++ (of_map k (e ∷ es) ++ rest)
taken-kept k e taken es rest =
    ap (λ xs. xs ++ (of_map k es ++ rest)) (of_map-append k taken (e ∷ []))
    ∙ append_assoc (of_map k taken) (of_map k (e ∷ [])) (of_map k es ++ rest)
    ∙ ap (λ xs. of_map k taken ++ xs) (ground arith)

pub AllSent-left : (k : String) (m : List (String × List MapEntry)) → AllSent m → left k m ≡ []
unfolding lookup
AllSent-left k [] h = refl
AllSent-left k ((j, es) ∷ m) (empty, h) = ground (arith, AllSent-left k m h)

of_map-own :
    (k : String) (e : MapEntry) (es : List MapEntry)
    → e.name ≡ k
    → of_map k (e ∷ es) ≡ e.entry ∷ of_map k es
of_map-own k e es named = ground (arith, eq_iff e.name k)

pub in_order :
    (k : String) (es all : List MapEntry)
    → AllNamed k es
    → of_map k all ≡ of_map k es
    → Interleaved k es all
in_order k [] [] named same = nothing
in_order k (e ∷ es) [] (own_name, named) same = absurd (cc (same, of_map-own k e es own_name))
in_order k es (x ∷ all) named same = elim (Bool-cases (str_eq x.name k)) [
  | inr differs ↦
      other x es all (ground (arith, differs, eq_iff x.name k))
        (in_order k es all named (ground (arith, differs, same)))
  | inl is_own ↦
      by_own es named ((eq_iff x.name k).0 is_own) (ground (arith, is_own, same))
        (λ fs. in_order k fs all)
]
  where
    by_own :
        (es : List MapEntry)
        → AllNamed k es
        → x.name ≡ k
        → x.entry ∷ of_map k all ≡ of_map k es
        → ((fs : List MapEntry) → AllNamed k fs → of_map k all ≡ of_map k fs → Interleaved k fs all)
        → Interleaved k es (x ∷ all)
    by_own [] named own_name same later = absurd (cc same)
    by_own (e ∷ es) (e_name, named) own_name same later =
        let cons : x.entry ∷ of_map k all ≡ e.entry ∷ of_map k es =
          same ∙ of_map-own k e es e_name in
        let entries : e.entry ≡ x.entry = cc cons in
        let is : e ≡ x = λ i. record { name = (e_name ∙ sym own_name) i; entry = entries i } in
        rw is (own x es all (later es named (cc cons)))
