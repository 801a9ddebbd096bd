-- ===== src/Cli/Build/Paths.antt =====
-- The output file that pkg/cli/internal/commands/build/build.go chooses for an input file.
use Prim.Native.Char.{Char, code}
use Prim.Native.String.{◌++◌ as ◌<>◌}
use text.Mathlib.Text.{◌==◌ as str_eq}
use text.Mathlib.TextEquality.{eq_iff}
use text.Mathlib.TextPositions.{eq_refl}
use text.Mathlib.TextLemmas.{append_cancel_right, nil-append, cons-append}
use bumblebee.Common.{
  ℕ, ◌≡◌, refl, sym, ◌∙◌, String, Bool, false, Option, none, some, arith, if◌then◌else◌, ◌||◌, ◌==◌,
}

-- Whether a text has a character, by its code.
unfoldable pub has : ℕ → String → Bool
has t String.[] = false
has t (String.◌∷◌ c s) = (code c == t) || has t s

-- `filepath.Ext`: from the last dot of the last element of the path on.
unfoldable pub last_dot : String → Option String
unfolding has
last_dot String.[] = none
last_dot (String.◌∷◌ c s) =
    let rest = last_dot s in
    elim rest [
      | some e ↦ some e
      | none ↦ if has b'/' s then none else if code c == b'.' then some (String.◌∷◌ c s) else none
    ]

unfoldable pub ext : String → String
unfolding last_dot
ext path = elim (last_dot path) [ none ↦ "" | some e ↦ e ]

-- `strings.TrimSuffix`.
unfoldable pub trim_suffix : String → String → String
trim_suffix String.[] suffix = ""
trim_suffix (String.◌∷◌ c s) suffix =
    let rest = trim_suffix s suffix in
    if str_eq (String.◌∷◌ c s) suffix then "" else String.◌∷◌ c rest

unfoldable pub output_path : String → String → String
unfolding ext trim_suffix
output_path output_file input_file =
    if str_eq output_file "" then trim_suffix input_file (ext input_file) <> ".o" else output_file

last_dot-none : (s : String) → has b'.' s ≡ false → last_dot s ≡ none
unfolding last_dot
last_dot-none String.[] h = refl
last_dot-none (String.◌∷◌ c s) h = ground (arith, last_dot-none s)

last_dot-append :
    (s e : String) (c : Char)
    → code c ≡ b'.'
    → has b'.' e ≡ false
    → has b'/' e ≡ false
    → last_dot (s <> String.◌∷◌ c e) ≡ some (String.◌∷◌ c e)
unfolding last_dot
last_dot-append String.[] e c is dots slashes = rw nil-append (ground (arith, last_dot-none e dots))
last_dot-append (String.◌∷◌ d s) e c is dots slashes =
    rw cons-append (ground (arith, last_dot-append s e c is dots slashes))

trim_suffix-append :
    (s t : String) (c : Char) → trim_suffix (s <> String.◌∷◌ c t) (String.◌∷◌ c t) ≡ s
unfolding trim_suffix
trim_suffix-append String.[] t c = rw nil-append (ground (arith, eq_refl (String.◌∷◌ c t)))
trim_suffix-append (String.◌∷◌ d s) t c = rw cons-append (
    ground (
      arith,
      trim_suffix-append s t c,
      eq_iff (String.◌∷◌ d (s <> String.◌∷◌ c t)) (String.◌∷◌ c t),
      λ (e : String.◌∷◌ d (s <> String.◌∷◌ c t) ≡ String.◌∷◌ c t).
          append_cancel_right (String.◌∷◌ d s) "" (String.◌∷◌ c t)
            (cons-append d s (String.◌∷◌ c t) ∙ e ∙ sym (nil-append (String.◌∷◌ c t))),
    ))

-- Without an output file the last extension of the input gives way to .o.
pub output_path-ext :
    (s e : String) (c : Char)
    → code c ≡ b'.'
    → has b'.' e ≡ false
    → has b'/' e ≡ false
    → output_path "" (s <> String.◌∷◌ c e) ≡ s <> ".o"
unfolding output_path
output_path-ext s e c is dots slashes =
    ground (arith, last_dot-append s e c is dots slashes, trim_suffix-append s e c)

-- An input that is an object file is its own output.
pub output_path-object : (s : String) → output_path "" (s <> ".o") ≡ s <> ".o"
unfolding has
output_path-object s = output_path-ext s "o" "." refl refl refl
