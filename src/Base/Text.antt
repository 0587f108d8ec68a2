-- ===== src/Base/Text.antt =====
-- Go's strings that are valid UTF-8, as their code points: the texts that the program works on come out
-- of encoding/json, which yields no others, or are ASCII. A string that is not valid UTF-8 is outside
-- the model, but for the fragments of Login. Literals are written through `codes`, and `len` is `byte_length`.
use Prim.Native.Nat.{ℕ, zero, suc, ◌+◌, ◌/◌, ◌%◌}
use Prim.Native.Char.{code}
use Prim.Native.String.{String}
use mathlib.Core.Path.{◌≡◌, refl}
use mathlib.Core.Logic.{◌↔◌}
use mathlib.Core.Bool.{Bool, true, false, ◌&&◌}
use mathlib.Core.List.{List, [], ◌∷◌}
use native.Mathlib.Omega.{arith}
use datafoundry_proxy.Base.Lists.{length, take}
use datafoundry_proxy.Base.Tests.{◌==◌, ltb, if◌then◌else◌}

abbrev pub Str : Type 0
Str = List ℕ

-- The code points of a text.
abbrev pub codes : String → Str
codes String.[] = []
codes (String.◌∷◌ c s) = code c ∷ codes s

-- Go's `==` on strings.
unfoldable pub str_eq : Str → Str → Bool
str_eq [] [] = true
str_eq (a ∷ s) (b ∷ t) = a == b && str_eq s t
str_eq _ _ = false

pub str_eq_iff : (s t : Str) → (str_eq s t ≡ true) ↔ (s ≡ t)
unfolding str_eq
str_eq_iff [] [] = ground arith
str_eq_iff [] (b ∷ t) = ground arith
str_eq_iff (a ∷ s) [] = ground arith
str_eq_iff (a ∷ s) (b ∷ t) = ground (arith, str_eq_iff s t)

pub str_eq_refl : (s : Str) → str_eq s s ≡ true
str_eq_refl s = (str_eq_iff s s).1 refl

-- The character at a position, and 0 behind the end.
abbrev pub byte_at : Str → ℕ → ℕ
byte_at [] i = 0
byte_at (c ∷ s) zero = c
byte_at (c ∷ s) (suc i) = byte_at s i

-- The bytes of a character in UTF-8, and `len` of a text.
abbrev pub rune_len : ℕ → ℕ
rune_len c = if ltb c 128 then 1 else if ltb c 2048 then 2 else if ltb c 65536 then 3 else 4

abbrev pub byte_length : Str → ℕ
byte_length [] = 0
byte_length (c ∷ s) = rune_len c + byte_length s

-- `%d` of a number below 1000.
abbrev pub decimal : ℕ → Str
decimal n =
    if ltb n 10
    then (b'0' + n) ∷ []
    else if ltb n 100
    then (b'0' + n / 10) ∷ (b'0' + n % 10) ∷ []
    else (b'0' + n / 100) ∷ (b'0' + n / 10 % 10) ∷ (b'0' + n % 10) ∷ []

-- The same character put before the first part of a text that is split.
abbrev pub onto_first : ℕ → List Str → List Str
onto_first c [] = (c ∷ []) ∷ []
onto_first c (w ∷ l) = (c ∷ w) ∷ l

-- strings.HasPrefix, with the prefix first.
unfoldable pub has_prefix : Str → Str → Bool
has_prefix prefix s = str_eq (take (length prefix) s) prefix
