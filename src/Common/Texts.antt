-- ===== src/Common/Texts.antt =====
-- Strings as the program compares them: lists of UTF-16 code units, with `===` and `<`.
use Prim.Native.Nat.{ℕ, ◌+◌}
use Prim.Native.Char.{code}
use Prim.Native.String.{String}
use mathlib.Core.Path.{◌≡◌, refl}
use mathlib.Core.Logic.{◌↔◌, ◌⊎◌, inl, inr}
use mathlib.Core.Bool.{Bool, true, false, ◌&&◌, ◌||◌}
use mathlib.Core.List.{List, [], ◌∷◌}
use rehearsal_db.Common.Lists.{any, all, length, In}
use native.Mathlib.Omega.{arith}
use rehearsal_db.Common.Tests.{ltb, leb, ◌==◌, and-eq-true, ==_iff, if◌then◌else◌}

abbrev pub Text : Type 0
Text = List ℕ

-- The code units of a literal in the source, all of them ASCII.
abbrev pub codes : String → Text
codes String.[] = []
codes (String.◌∷◌ c s) = code c ∷ codes s

unfoldable pub text_eq : Text → Text → Bool
text_eq [] [] = true
text_eq (x ∷ s) (y ∷ t) = x == y && text_eq s t
text_eq _ _ = false

-- `s < t`: the first code unit that differs decides, and a proper prefix is smaller.
unfoldable pub text_lt : Text → Text → Bool
text_lt [] [] = false
text_lt [] (y ∷ t) = true
text_lt (x ∷ s) [] = false
text_lt (x ∷ s) (y ∷ t) = ltb x y || x == y && text_lt s t

pub text_eq_sound : (s t : Text) → text_eq s t ≡ true → s ≡ t
unfolding text_eq
text_eq_sound [] [] h = refl
text_eq_sound [] (y ∷ t) h = cc
text_eq_sound (x ∷ s) [] h = cc
text_eq_sound (x ∷ s) (y ∷ t) h =
    let (e, r) = and-eq-true (x == y) (text_eq s t) h in cc ((==_iff x y).0 e, text_eq_sound s t r)

pub text_eq_self : (s : Text) → text_eq s s ≡ true
unfolding text_eq
text_eq_self [] = refl
text_eq_self (x ∷ s) = ground (arith, text_eq_self s)

pub text_eq_iff : (s t : Text) → (text_eq s t ≡ true) ↔ (s ≡ t)
text_eq_iff s t = (text_eq_sound s t, λ e. rw e (text_eq_self t))

pub text_lt_irrefl : (s : Text) → text_lt s s ≡ false
unfolding text_lt
text_lt_irrefl [] = refl
text_lt_irrefl (x ∷ s) = ground (arith, text_lt_irrefl s)

pub text_lt_trans : (s t u : Text) → text_lt s t ≡ true → text_lt t u ≡ true → text_lt s u ≡ true
unfolding text_lt
text_lt_trans [] [] u h k = cc
text_lt_trans [] (y ∷ t) [] h k = cc
text_lt_trans [] (y ∷ t) (z ∷ u) h k = refl
text_lt_trans (x ∷ s) [] u h k = cc
text_lt_trans (x ∷ s) (y ∷ t) [] h k = cc
text_lt_trans (x ∷ s) (y ∷ t) (z ∷ u) h k = ground (arith, text_lt_trans s t u)

-- Two texts are equal or one is smaller.
pub text_trichotomy : (s t : Text) → (text_lt s t ≡ true) ⊎ (s ≡ t) ⊎ (text_lt t s ≡ true)
unfolding text_lt
text_trichotomy [] [] = inr (inl refl)
text_trichotomy [] (y ∷ t) = inl refl
text_trichotomy (x ∷ s) [] = inr (inr refl)
text_trichotomy (x ∷ s) (y ∷ t) = ground (arith, text_trichotomy s t)

pub any-text_eq_iff : (v : Text) (vs : List Text) → (any (text_eq v) vs ≡ true) ↔ In v vs
any-text_eq_iff v [] = ((λ h. cc), (λ h. absurd h))
any-text_eq_iff v (w ∷ vs) = ground (arith, any-text_eq_iff v vs, text_eq_iff v w)

pub In-cases : (v : Text) (vs : List Text) → In v vs ⊎ (¬ In v vs)
In-cases v [] = inr (λ h. h)
In-cases v (w ∷ vs) = ground (arith, In-cases v vs, text_eq_iff v w)

unfoldable pub is_digit : ℕ → Bool
is_digit c = leb b'0' c && leb c b'9'

unfoldable pub is_hex : ℕ → Bool
unfolding is_digit
is_hex c = is_digit c || leb b'a' c && leb c b'f'

-- `/^[a-f0-9]{64}$/u`
unfoldable pub is_sha256 : Text → Bool
unfolding is_hex
is_sha256 s = (length s == 64) && all is_hex s

-- `Buffer.byteLength(text, "utf8")`: a surrogate pair takes four bytes, a lone surrogate three.
abbrev pub is_high : ℕ → Bool
is_high c = leb 0xd800 c && leb c 0xdbff

abbrev pub is_low : ℕ → Bool
is_low c = leb 0xdc00 c && leb c 0xdfff

abbrev unit_bytes : ℕ → ℕ
unit_bytes c = if ltb c 0x80 then 1 else if ltb c 0x800 then 2 else 3

unfoldable pub byte_length : Text → ℕ
byte_length [] = 0
byte_length (c ∷ []) = unit_bytes c
byte_length (c ∷ d ∷ s) =
    let pair = byte_length s in
    let single = byte_length (d ∷ s) in
    if is_high c && is_low d then 4 + pair else unit_bytes c + single
