-- ===== src/Common/Text.antt =====
-- Text as its list of code points, so that code which walks characters and code which only
-- compares whole texts share one type. Literals are written `codes "..."`.
use Prim.Native.Nat.{ℕ, ◌+◌, ◌-◌}
use Prim.Native.Char.{code}
use Prim.Native.String.{String}
use mathlib.Core.Path.{◌≡◌, refl}
use mathlib.Core.Logic.{◌↔◌, ◌≢◌}
use mathlib.Core.Bool.{Bool, true, false, ◌&&◌, ◌||◌}
use mathlib.Core.List.{List, [], ◌∷◌, map}
use native.Mathlib.Omega.{arith}
use agentic_fraud_decisionin.Common.Tests.{leb, ltb, ◌==◌, if◌then◌else◌}
use agentic_fraud_decisionin.Common.Lists.{any}

abbrev pub Str : Type 0
Str = List ℕ

abbrev pub codes : String → Str
codes String.[] = []
codes (String.◌∷◌ c s) = code c ∷ codes s

unfoldable pub str_eq : Str → Str → Bool
str_eq [] [] = true
str_eq [] (d ∷ t) = false
str_eq (c ∷ s) [] = false
str_eq (c ∷ s) (d ∷ t) = c == d && str_eq s t

pub str_eq_iff : (s t : Str) → (str_eq s t ≡ true) ↔ (s ≡ t)
unfolding str_eq
str_eq_iff [] [] = ground arith
str_eq_iff [] (d ∷ t) = ground arith
str_eq_iff (c ∷ s) [] = ground arith
str_eq_iff (c ∷ s) (d ∷ t) = ground (arith, str_eq_iff s t)

pub str_ne : (s t : Str) → str_eq s t ≡ false → s ≢ t
str_ne s t h e = ground (arith, str_eq_iff s t)

pub str_eq_refl : (s : Str) → str_eq s s ≡ true
str_eq_refl s = (str_eq_iff s s).1 refl

pub str_eq_sym : (s t : Str) → str_eq s t ≡ str_eq t s
str_eq_sym s t = ground (arith, str_eq_iff s t, str_eq_iff t s)

-- `s in xs`, for a list or a set of texts.
abbrev pub mem_str : Str → List Str → Bool
mem_str s xs = any (str_eq s) xs

-- `prefix == text[:len(prefix)]`
unfoldable pub starts_with : Str → Str → Bool
starts_with [] s = true
starts_with (c ∷ p) [] = false
starts_with (c ∷ p) (d ∷ s) = c == d && starts_with p s

-- `needle in text`
unfoldable pub contains : Str → Str → Bool
unfolding starts_with
contains needle [] = starts_with needle []
contains needle (c ∷ s) = starts_with needle (c ∷ s) || contains needle s

-- `text.lower()` and `text.upper()` on ASCII letters.
abbrev pub lower_code : ℕ → ℕ
lower_code c = if leb b'A' c && leb c b'Z' then c + 32 else c

abbrev pub upper_code : ℕ → ℕ
upper_code c = if leb b'a' c && leb c b'z' then c - 32 else c

unfoldable pub lower : Str → Str
lower s = map lower_code s

unfoldable pub upper : Str → Str
upper s = map upper_code s

-- `s < t` on texts.
unfoldable pub lt_str : Str → Str → Bool
lt_str [] [] = false
lt_str [] (d ∷ t) = true
lt_str (c ∷ s) [] = false
lt_str (c ∷ s) (d ∷ t) = ltb c d || c == d && lt_str s t
