-- ===== src/Decoder/RoundTrip.antt =====
-- The decoder reads what the format says, wherever it stands in the raw bytes.
use text.Mathlib.TextEquality.{eq_iff}
use mathlib.Core.List.{append_assoc}
use bumblebee.Common.{
  ℕ, ◌+◌, ◌-◌, ◌^◌, ◌<◌, ◌≡◌, refl, ap, inl, inr, some, List, [], ◌∷◌, ◌++◌, length, length-append,
  take, drop, arith,
}
use bumblebee.Bpf.Context.{from_bytes}
use bumblebee.Decoder.Types.{Endian, little, big, BtfType, Value, str, ok}
use bumblebee.Decoder.Decode.{
  add_u32, slice, value_of, binary_read, read_bits, index_nul, text_of, handle_uint, handle_int,
  handle_float, read_chars, handle_array, process_plain,
}
use bumblebee.Decoder.Format.{IsWidth, NoNul, EncodesPlain, of_uint, of_sint, of_float, of_chars}

drop-append : (pre xs : List ℕ) → drop (length pre) (pre ++ xs) ≡ xs
drop-append [] xs = refl
drop-append (x ∷ pre) xs = drop-append pre xs

take-append : (bs xs : List ℕ) → take (length bs) (bs ++ xs) ≡ bs
take-append [] xs = refl
take-append (b ∷ bs) xs = ap (◌∷◌ b) (take-append bs xs)

take_all : (bs : List ℕ) → take (length bs) bs ≡ bs
take_all [] = refl
take_all (b ∷ bs) = ap (◌∷◌ b) (take_all bs)

-- A slice of the bytes `bs` where they stand in the raw bytes.
pub slice-append :
    (pre bs post : List ℕ) (n : ℕ)
    → length bs ≡ n
    → length pre + n < 2 ^ 32
    → slice (pre ++ (bs ++ post)) (length pre) (add_u32 (length pre) n) ≡ ok bs
unfolding slice
slice-append pre bs post n e bound =
    let wrap : add_u32 (length pre) n ≡ length pre + n = omega arith in
    let len : length pre + n - length pre ≡ length bs = omega arith in
    let got : take (length pre + n - length pre) (drop (length pre) (pre ++ (bs ++ post))) ≡ bs =
      rw (len, drop-append) (take-append bs post) in
    rw wrap (ground (arith, got, length-append pre (bs ++ post), length-append bs post))

binary_read-length :
    (order : Endian) (bs : List ℕ) → binary_read order (length bs) bs ≡ ok (value_of order bs)
unfolding binary_read
binary_read-length order bs = ground (arith, take_all bs)

pub binary_read-all :
    (order : Endian) (bs : List ℕ) (n : ℕ)
    → length bs ≡ n
    → binary_read order n bs ≡ ok (value_of order bs)
binary_read-all order bs n e = rw (← e) (binary_read-length order bs)

read_bits-all :
    (order : Endian) (bs : List ℕ) (n w : ℕ)
    → IsWidth n w
    → length bs ≡ n
    → read_bits order w bs ≡ ok (value_of order bs)
unfolding read_bits
read_bits-all order bs n w (e, inl h) l = ground (arith, binary_read-all order bs 1)
read_bits-all order bs n w (e, inr (inl h)) l = ground (arith, binary_read-all order bs 2)
read_bits-all order bs n w (e, inr (inr (inl h))) l = ground (arith, binary_read-all order bs 4)
read_bits-all order bs n w (e, inr (inr (inr h))) l = ground (arith, binary_read-all order bs 8)

value_of-byte : (order : Endian) (b : ℕ) → value_of order (b ∷ []) ≡ b
unfolding value_of from_bytes
value_of-byte little b = omega arith
value_of-byte big b = omega arith

-- The loop over the characters of an array.
pub read_chars-append :
    (order : Endian) (pre bs post : List ℕ)
    → length pre + length bs < 2 ^ 32
    → read_chars order (pre ++ (bs ++ post)) (length bs) (length pre)
      ≡ ok (bs, length pre + length bs)
unfolding read_chars
read_chars-append order pre [] post h = ground arith
read_chars-append order pre (b ∷ bs) post h =
    let len : length (pre ++ (b ∷ [])) ≡ add_u32 (length pre) 1 =
      omega (arith, length-append pre (b ∷ [])) in
    let room : length (pre ++ (b ∷ [])) + length bs < 2 ^ 32 =
      omega (arith, length-append pre (b ∷ [])) in
    let rest =
      rw (append_assoc pre (b ∷ []) (bs ++ post), len) at
        (read_chars-append order (pre ++ (b ∷ [])) bs post room) in
    ground (
      arith,
      rest,
      slice-append pre (b ∷ []) (bs ++ post) 1 refl,
      binary_read-all order (b ∷ []) 1 refl,
      value_of-byte order b,
    )

index_nul-append : (cs rest : List ℕ) → NoNul cs → index_nul (cs ++ (0 ∷ rest)) ≡ some (length cs)
unfolding index_nul
index_nul-append [] rest h = refl
index_nul-append (c ∷ cs) rest h = ground (arith, index_nul-append cs rest h.1)

text_of-append : (cs rest : List ℕ) → NoNul cs → text_of (cs ++ (0 ∷ rest)) ≡ ok (str cs)
unfolding text_of
text_of-append cs rest h = ground (arith, index_nul-append cs rest h, take-append cs (0 ∷ rest))

module _ (order : Endian) (pre bs post : List ℕ) (bound : length pre + length bs < 2 ^ 32) where
  pub process_plain-EncodesPlain :
      (v : Value) (t : BtfType)
      → EncodesPlain order v bs t
      → process_plain order (pre ++ (bs ++ post)) t (length pre) ≡ ok (v, length pre + length bs)
  unfolding process_plain handle_uint handle_int handle_float handle_array
  process_plain-EncodesPlain v t (of_uint name n w width l e) =
      ground (arith, slice-append pre bs post n l, read_bits-all order bs n w width l)
  process_plain-EncodesPlain v t (of_sint name n w width l e) =
      ground (arith, slice-append pre bs post n l, read_bits-all order bs n w width l)
  process_plain-EncodesPlain v t (of_float n (inl width) l e) =
      ground (arith, slice-append pre bs post n l, binary_read-all order bs 4)
  process_plain-EncodesPlain v t (of_float n (inr width) l e) =
      ground (arith, slice-append pre bs post n l, binary_read-all order bs 8)
  process_plain-EncodesPlain v t (of_chars name size w n e cs rest char one clean whole l is) =
      let chars : read_chars order (pre ++ (bs ++ post)) n (length pre)
          ≡ ok (bs, length pre + length bs) =
        rw (← l) (read_chars-append order pre bs post bound) in
      let string : text_of bs ≡ ok (str cs) = rw whole (text_of-append cs rest clean) in
      ground (arith, chars, string, eq_iff name "char")
