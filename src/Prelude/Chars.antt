-- ===== src/Prelude/Chars.antt =====
-- Texts character by character: `std::toupper` and `std::tolower` of ASCII, `std::views::split` at one
-- character.
use Prim.Native.Char.{Char, code, nul}
use Prim.Native.Nat.{ℕ, ◌+◌, ◌-◌, ◌<◌, Ordering, compare}
use Prim.Native.String
use Prim.Native.String.{String}
use mathlib.Core.Path.{◌≡◌, refl, ap, sym, ◌∙◌}
use mathlib.Core.Bool.{Bool, true, false, not, ◌&&◌, ◌||◌}
use mathlib.Core.List.{List, [], ◌∷◌}
use native.Mathlib.Omega.{arith}
use text.Mathlib.TextEquality.{Char-path}
use text.Mathlib.TextLemmas.{nil-append, cons-append}
use multi_market_prices.Prelude.Keys.{◌==◌, if◌then◌else◌, leb, nat_eq, nat_dec}

chr_by : (n : ℕ) (o : Ordering) → compare n 55296 ≡ o → Char
chr_by n Ordering.lt e = Char.char n (rw e tt)
chr_by n _ e = nul

-- The character of a code below the surrogates.
unfoldable pub chr : ℕ → Char
unfolding chr_by
chr n = chr_by n (compare n 55296) refl

code-chr_by : (n : ℕ) (o : Ordering) (e : compare n 55296 ≡ o) → n < 55296 → code (chr_by n o e) ≡ n
unfolding chr_by
code-chr_by n Ordering.lt e h = refl
code-chr_by n Ordering.eq e h = ground arith
code-chr_by n Ordering.gt e h = ground arith

pub code-chr : (n : ℕ) → n < 55296 → code (chr n) ≡ n
unfolding chr
code-chr n h = code-chr_by n (compare n 55296) refl h

unfoldable pub upper_char : Char → Char
unfolding chr
upper_char c = if leb 97 (code c) && leb (code c) 122 then chr (code c - 32) else c

unfoldable pub lower_char : Char → Char
unfolding chr
lower_char c = if leb 65 (code c) && leb (code c) 90 then chr (code c + 32) else c

-- `std::transform(s.begin(), s.end(), s.begin(), ::toupper)`
unfoldable pub to_upper : String → String
unfolding upper_char
to_upper String.[] = String.[]
to_upper (String.◌∷◌ c s) = String.◌∷◌ (upper_char c) (to_upper s)

unfoldable pub to_lower : String → String
unfolding lower_char
to_lower String.[] = String.[]
to_lower (String.◌∷◌ c s) = String.◌∷◌ (lower_char c) (to_lower s)

code-upper_char :
    (c : Char)
    → code (upper_char c) ≡ (if leb 97 (code c) && leb (code c) 122 then code c - 32 else code c)
unfolding upper_char
code-upper_char c = ground (arith, code-chr (code c - 32))

code-lower_char :
    (c : Char)
    → code (lower_char c) ≡ (if leb 65 (code c) && leb (code c) 90 then code c + 32 else code c)
unfolding lower_char
code-lower_char c = ground (arith, code-chr (code c + 32))

upper_char-lower_char : (c : Char) → upper_char (lower_char c) ≡ upper_char c
upper_char-lower_char c =
    Char-path (upper_char (lower_char c)) (upper_char c)
      (ground (arith, code-upper_char (lower_char c), code-lower_char c, code-upper_char c))

pub to_upper-to_lower : (s : String) → to_upper (to_lower s) ≡ to_upper s
unfolding to_upper to_lower
to_upper-to_lower String.[] = refl
to_upper-to_lower (String.◌∷◌ c s) = cc (upper_char-lower_char c, to_upper-to_lower s)

-- Whether the character of this code does not occur.
unfoldable pub lacks : ℕ → String → Bool
unfolding nat_dec
lacks d String.[] = true
lacks d (String.◌∷◌ c s) = not (code c == d) && lacks d s

-- A character before the first piece.
abbrev push_char : Char → List String → List String
push_char c [] = String.◌∷◌ c String.[] ∷ []
push_char c (s ∷ ss) = String.◌∷◌ c s ∷ ss

-- The pieces between the separators.
unfoldable pub pieces : ℕ → String → List String
unfolding nat_dec
pieces d String.[] = String.[] ∷ []
pieces d (String.◌∷◌ c s) = if code c == d then String.[] ∷ pieces d s else push_char c (pieces d s)

-- `std::views::split`: the empty text has no piece.
unfoldable pub split : ℕ → String → List String
unfolding pieces
split d String.[] = []
split d (String.◌∷◌ c s) = pieces d (String.◌∷◌ c s)

pub pieces-lacks : (d : ℕ) (s : String) → lacks d s ≡ true → pieces d s ≡ s ∷ []
unfolding pieces lacks
pieces-lacks d String.[] h = refl
pieces-lacks d (String.◌∷◌ c s) h = ground (arith, pieces-lacks d s)

pub pieces-append :
    (d : ℕ) (s : String) (c : Char) (t : String)
    → lacks d s ≡ true
    → code c ≡ d
    → pieces d (String.◌++◌ s (String.◌∷◌ c t)) ≡ s ∷ pieces d t
unfolding pieces lacks
pieces-append d String.[] c t h e = rw (nil-append (String.◌∷◌ c t)) (ground (arith, e))
pieces-append d (String.◌∷◌ a s) c t h e =
    rw (cons-append a s (String.◌∷◌ c t)) (ground (arith, pieces-append d s c t (ground arith) e))

abbrev starts : String → String → Bool
starts String.[] t = true
starts (String.◌∷◌ c s) String.[] = false
starts (String.◌∷◌ c s) (String.◌∷◌ d t) = code c == code d && starts s t

-- `t.find(s) != npos`
unfoldable pub occurs : String → String → Bool
unfolding nat_dec
occurs s String.[] = starts s String.[]
occurs s (String.◌∷◌ c t) = starts s (String.◌∷◌ c t) || occurs s t

-- The first piece before a separator, and the pieces after it.
pub split-append :
    (d : ℕ) (s : String) (c : Char) (t : String)
    → lacks d s ≡ true
    → code c ≡ d
    → split d (String.◌++◌ s (String.◌∷◌ c t)) ≡ s ∷ pieces d t
unfolding split
split-append d String.[] c t h e =
    rw (nil-append (String.◌∷◌ c t))
      (ap (pieces d) (sym (nil-append (String.◌∷◌ c t))) ∙ pieces-append d String.[] c t h e)
split-append d (String.◌∷◌ a s) c t h e = rw (cons-append a s (String.◌∷◌ c t)) (
    ap (pieces d) (sym (cons-append a s (String.◌∷◌ c t)))
    ∙ pieces-append d (String.◌∷◌ a s) c t h e)

-- A letter does not become a separator below the letters.
pub lacks-to_lower : (d : ℕ) (s : String) → d < 65 → lacks d s ≡ true → lacks d (to_lower s) ≡ true
unfolding lacks to_lower
lacks-to_lower d String.[] b h = refl
lacks-to_lower d (String.◌∷◌ c s) b h =
    ground (arith, code-lower_char c, lacks-to_lower d s b (ground (arith, h)))
