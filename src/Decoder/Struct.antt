-- ===== src/Decoder/Struct.antt =====
-- `DecodeBtfBinary` of pkg/decoder/decoder.go on a structure: round trip, and where it goes wrong.
use text.Mathlib.TextEquality.{eq_iff}
use mathlib.Core.List.{append_assoc, append-nil}
use bumblebee.Common.{
  ℕ, ◌+◌, ◌^◌, ◌<◌, ◌≡◌, refl, sym, ap, ◌≢◌, String, none, List, [], ◌∷◌, ◌++◌, length,
  length-append, arith,
}
use bumblebee.Decoder.Types.{
  Endian, Encoding, int, array, struct, BtfMembers, field, Value, false_value, ok, panic,
}
use bumblebee.Decoder.Decode.{
  index_nul, text_of, handle_array, process_plain, process_single_type, Fields, insert,
  decode_members, decode_btf_binary,
}
use bumblebee.Decoder.Format.{NoNul, EncodesAll, stop, piece, Fresh, Distinct}
use bumblebee.Decoder.RoundTrip.{read_chars-append}
use bumblebee.Decoder.Typedef.{process_single_type-Encodes}

insert-Fresh :
    (name : String) (v : Value) (acc : Fields)
    → Fresh name acc
    → insert name v acc ≡ acc ++ ((name, v) ∷ [])
unfolding insert
insert-Fresh name v [] h = refl
insert-Fresh name v ((n, w) ∷ acc) (other, h) =
    ground (arith, insert-Fresh name v acc h, eq_iff n name)

Fresh-append_ne :
    (m n : String) (v : Value) (xs ys : Fields) → Fresh m (xs ++ ((n, v) ∷ ys)) → m ≢ n
Fresh-append_ne m n v [] ys h = λ e. h.0 (sym e)
Fresh-append_ne m n v ((k, w) ∷ xs) ys h = Fresh-append_ne m n v xs ys h.1

Distinct-append :
    (n : String) (v : Value) (xs ys : Fields) → Distinct (xs ++ ((n, v) ∷ ys)) → Fresh n xs
Distinct-append n v [] ys h = tt
Distinct-append n v ((k, w) ∷ xs) ys h =
    (Fresh-append_ne k n v xs ys h.0, Distinct-append n v xs ys h.1)

decode_members-EncodesAll :
    (order : Endian) (ms : BtfMembers) (vs : Fields) (raw pre post : List ℕ) (acc : Fields)
    → EncodesAll order ms vs raw
    → length pre + length raw < 2 ^ 32
    → Distinct (acc ++ vs)
    → decode_members order (pre ++ (raw ++ post)) ms (length pre) acc ≡ ok (acc ++ vs)
unfolding decode_members
decode_members-EncodesAll order ms vs raw pre post acc stop bound d =
    ap (λ x. ok x) (sym (append-nil acc))
decode_members-EncodesAll order ms vs raw pre post acc
      (piece name t at rest_ms v rest_vs bs rest whole h hs e) bound d =
    let lengths : length raw ≡ length bs + length rest = rw e (length-append bs rest) in
    let split : raw ++ post ≡ bs ++ (rest ++ post) = rw e (append_assoc bs rest post) in
    let this =
      process_single_type-Encodes order pre bs (rest ++ post) (omega (arith, lengths)) v t h in
    let stored : insert name v acc ≡ acc ++ ((name, v) ∷ []) =
      insert-Fresh name v acc (Distinct-append name v acc rest_vs d) in
    let others =
      decode_members-EncodesAll order rest_ms rest_vs rest (pre ++ bs) post
        (acc ++ ((name, v) ∷ [])) hs (omega (arith, lengths, length-append pre bs))
        (rw (append_assoc acc ((name, v) ∷ []) rest_vs) d) in
    let here =
      rw
        (
          append_assoc pre bs (rest ++ post),
          length-append pre bs,
          append_assoc acc ((name, v) ∷ []) rest_vs,
          ← split,
        )
        at others in
    rw (rw (← split) at this, stored) here

-- A structure whose members stand one after the other without padding, in fewer than 2 ^ 32 bytes and
-- under different names, decodes to exactly its members and their values. Bytes after it are ignored.
pub decode_btf_binary-EncodesAll :
    (order : Endian) (ms : BtfMembers) (vs : Fields) (raw post : List ℕ)
    → EncodesAll order ms vs raw
    → length raw < 2 ^ 32
    → Distinct vs
    → decode_btf_binary order (struct ms) (raw ++ post) ≡ ok vs
unfolding decode_btf_binary
decode_btf_binary-EncodesAll order ms vs raw post h bound d =
    decode_members-EncodesAll order ms vs raw [] post [] h (omega arith) d

-- A member of the encoding bool at the front decodes to false and takes no bytes: the members behind it
-- are read from the first byte on, if they stand there in fewer than 2 ^ 32 bytes and all names differ.
pub bool_takes_no_bytes :
    (order : Endian) (name base : String) (size bits at : ℕ) (ms : BtfMembers) (vs : Fields)
    (raw post : List ℕ)
    → EncodesAll order ms vs raw
    → length raw < 2 ^ 32
    → Distinct ((name, false_value) ∷ vs)
    → decode_btf_binary order
        (struct (field name (int base size bits Encoding.bool) at ms))
        (raw ++ post)
      ≡ ok ((name, false_value) ∷ vs)
unfolding decode_btf_binary decode_members process_single_type process_plain insert
bool_takes_no_bytes order name base size bits at ms vs raw post h bound d =
    decode_members-EncodesAll order ms vs raw [] post ((name, false_value) ∷ []) h (omega arith) d

index_nul-NoNul : (bs : List ℕ) → NoNul bs → index_nul bs ≡ none
unfolding index_nul
index_nul-NoNul [] h = refl
index_nul-NoNul (b ∷ bs) h = ground (arith, index_nul-NoNul bs h.1)

-- An array of chars of which none is 0 panics, wherever it stands, if it ends below 2 ^ 32.
pub unterminated_panics :
    (order : Endian) (base : String) (bits at : ℕ) (e : Encoding) (pre bs post : List ℕ)
    → base ≡ "char"
    → length pre + length bs < 2 ^ 32
    → NoNul bs
    → process_single_type order
        (pre ++ (bs ++ post))
        (array (int base 1 bits e) (length bs))
        (length pre)
      ≡ panic
unfolding process_single_type process_plain handle_array text_of
unterminated_panics order base bits at e pre bs post is bound clean =
    ground (
      arith,
      read_chars-append order pre bs post bound,
      index_nul-NoNul bs clean,
      eq_iff base "char",
    )
