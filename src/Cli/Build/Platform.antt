-- ===== src/Cli/Build/Platform.antt =====
-- `getPlatformInfo` of pkg/cli/internal/commands/build/build.go: what `uname -srm` prints.
use Prim.Native.Char.{Char, code}
use Prim.Native.String.{◌++◌ as ◌<>◌}
use text.Mathlib.TextLemmas.{nil-append, cons-append}
use bumblebee.Common.{
  ℕ, ◌≡◌, refl, ap, ◌∙◌, String, Bool, true, false, Option, none, some, List, [], ◌∷◌, arith,
  if◌then◌else◌, ◌&&◌, ◌||◌, ◌==◌, leb,
}
use bumblebee.Images.Oras.{Platform}

-- `unicode.IsSpace`.
unfoldable pub is_space : ℕ → Bool
is_space c =
    (leb 9 c && leb c 13)
    || c == 32
    || c == 0x85
    || c == 0xa0
    || c == 0x1680
    || (leb 0x2000 c && leb c 0x200a)
    || c == 0x2028
    || c == 0x2029
    || c == 0x202f
    || c == 0x205f
    || c == 0x3000

-- `strings.Split` at a character.
on_first : Char → List String → List String
on_first c [] = String.◌∷◌ c String.[] ∷ []
on_first c (t ∷ ts) = String.◌∷◌ c t ∷ ts

unfoldable pub split_at : ℕ → String → List String
unfolding on_first
split_at k String.[] = "" ∷ []
split_at k (String.◌∷◌ c s) =
    let rest = split_at k s in if code c == k then "" ∷ rest else on_first c rest

-- `strings.TrimSpace`.
unfoldable pub trim_left : String → String
trim_left String.[] = ""
trim_left (String.◌∷◌ c s) =
    let rest = trim_left s in if is_space (code c) then rest else String.◌∷◌ c s

before_space : Bool → Char → String → String
before_space true c String.[] = ""
before_space b c s = String.◌∷◌ c s

unfoldable pub trim_right : String → String
unfolding before_space
trim_right String.[] = ""
trim_right (String.◌∷◌ c s) = before_space (is_space (code c)) c (trim_right s)

unfoldable pub trim_space : String → String
unfolding trim_left trim_right
trim_space s = trim_right (trim_left s)

of_words : List String → Option Platform
of_words (os ∷ version ∷ arch ∷ []) = some (record {
  architecture = trim_space arch;
  os = trim_space os;
  os_version = trim_space version;
  os_features = [];
  variant = "";
})
of_words _ = none

-- None in the output is a command that failed.
unfoldable pub get_platform_info : Option String → Option Platform
unfolding split_at of_words
get_platform_info none = none
get_platform_info (some out) = of_words (split_at 32 out)

abbrev pub IsWord : String → Type 0
IsWord String.[] = Unit {0}
IsWord (String.◌∷◌ c s) = (is_space (code c) ≡ false) × IsWord s

trim_right-word : (s : String) → IsWord s → trim_right s ≡ s
unfolding trim_right
trim_right-word String.[] w = refl
trim_right-word (String.◌∷◌ c s) w = ground (arith, trim_right-word s w.1)

-- A word, with at most white space behind it.
trim_right-append :
    (s : String) (c : Char)
    → IsWord s
    → is_space (code c) ≡ true
    → trim_right (s <> String.◌∷◌ c "") ≡ s
unfolding trim_right
trim_right-append String.[] c w h = rw nil-append (ground arith)
trim_right-append (String.◌∷◌ d s) c w h =
    rw cons-append (ground (arith, trim_right-append s c w.1 h, w.0))

trim_left-space : (c : Char) → is_space (code c) ≡ true → trim_left (String.◌∷◌ c "") ≡ ""
unfolding trim_left
trim_left-space c h = rw h

trim_space-word : (s : String) → IsWord s → trim_space s ≡ s
unfolding trim_space
trim_space-word String.[] w = refl
trim_space-word (String.◌∷◌ c s) w = ground (arith, w.0, trim_right-word (String.◌∷◌ c s) w)

trim_space-append :
    (s : String) (c : Char)
    → IsWord s
    → is_space (code c) ≡ true
    → trim_space (s <> String.◌∷◌ c "") ≡ s
unfolding trim_space
trim_space-append String.[] c w h = rw (nil-append, trim_left-space c h)
trim_space-append (String.◌∷◌ d s) c w h =
    let right = trim_right-append (String.◌∷◌ d s) c w h in
    rw cons-append (ground (arith, w.0, (rw cons-append at right)))

not_space : (c : ℕ) → is_space c ≡ false → (c == 32) ≡ false
unfolding is_space
not_space c h = ground arith

-- What stands before a space is the first word.
split_at-line :
    (s : String) (c : Char)
    → IsWord s
    → code c ≡ 10
    → split_at 32 (s <> String.◌∷◌ c "") ≡ (s <> String.◌∷◌ c "") ∷ []
unfolding split_at
split_at-line String.[] c w is = rw nil-append (ground arith)
split_at-line (String.◌∷◌ d s) c w is =
    rw cons-append (ground (arith, split_at-line s c w.1 is, not_space (code d) w.0))

split_at-append :
    (s t : String) (c : Char)
    → IsWord s
    → code c ≡ 32
    → split_at 32 (s <> String.◌∷◌ c t) ≡ s ∷ split_at 32 t
unfolding split_at
split_at-append String.[] t c w is = rw nil-append (ground arith)
split_at-append (String.◌∷◌ d s) t c w is =
    rw cons-append (ground (arith, split_at-append s t c w.1 is, not_space (code d) w.0))

newline_is_space : (c : ℕ) → c ≡ 10 → is_space c ≡ true
unfolding is_space
newline_is_space c h = rw h

words_of_uname :
    (os version arch : String) (end : Char)
    → IsWord os
    → IsWord version
    → IsWord arch
    → code end ≡ 10
    → of_words (os ∷ version ∷ (arch <> String.◌∷◌ end "") ∷ [])
      ≡ some (record {
        architecture = arch;
        os = os;
        os_version = version;
        os_features = [];
        variant = "";
      })
unfolding of_words
words_of_uname os version arch end w1 w2 w3 e = rw (
  trim_space-append arch end w3 (newline_is_space (code end) e),
  trim_space-word os w1,
  trim_space-word version w2,
)

-- Three words and the end of the line become the platform.
pub get_platform_info-words :
    (os version arch : String) (a b end : Char)
    → IsWord os
    → IsWord version
    → IsWord arch
    → code a ≡ 32
    → code b ≡ 32
    → code end ≡ 10
    → get_platform_info
        (some (os <> String.◌∷◌ a (version <> String.◌∷◌ b (arch <> String.◌∷◌ end ""))))
      ≡ some (record {
        architecture = arch;
        os = os;
        os_version = version;
        os_features = [];
        variant = "";
      })
unfolding get_platform_info
get_platform_info-words os version arch a b end w1 w2 w3 e1 e2 e3 =
    let line = arch <> String.◌∷◌ end "" in
    let words : split_at 32 (os <> String.◌∷◌ a (version <> String.◌∷◌ b line))
        ≡ os ∷ version ∷ line ∷ [] =
      rw (
        split_at-append os (version <> String.◌∷◌ b line) a w1 e1,
        split_at-append version line b w2 e2,
        split_at-line arch end w3 e3,
      ) in
    ap of_words words ∙ words_of_uname os version arch end w1 w2 w3 e3
