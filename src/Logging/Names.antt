-- ===== src/Logging/Names.antt =====
-- Logging.h: the names of the log's files tell their numbers.
use Prim.Native.Char.{Char, code}
use Prim.Native.String
use text.Mathlib.TextLemmas.{nil-append, cons-append}
use multi_market_prices.Prelude.{
  ℕ, ◌<◌, ◌^◌, ◌≡◌, refl, ap, sym, ◌∙◌, true, false, some, String, string_eq, nat_eq, nat_dec, ◌==◌,
  if◌then◌else◌, to_string, atoi, atoi-to_string, lacks, arith, inl, inr, Bool-cases, eq_of_==, chr,
}
use multi_market_prices.Logging.{generate_log_file_name}

tail : String → String
tail String.[] = String.[]
tail (String.◌∷◌ c s) = s

append_cancel : (s t u : String) → String.◌++◌ s t ≡ String.◌++◌ s u → t ≡ u
unfolding tail
append_cancel String.[] t u e = sym (nil-append t) ∙ e ∙ nil-append u
append_cancel (String.◌∷◌ c s) t u e =
    append_cancel s t u (ap tail (sym (cons-append c s t) ∙ e ∙ cons-append c s u))

-- What follows the first dot.
after_dot : String → String
unfolding nat_dec
after_dot String.[] = String.[]
after_dot (String.◌∷◌ c s) = if code c == b'.' then s else after_dot s

after_dot-append :
    (d : String) (c : Char) (t : String)
    → lacks b'.' d ≡ true
    → code c ≡ b'.'
    → after_dot (String.◌++◌ d (String.◌∷◌ c t)) ≡ t
unfolding after_dot lacks
after_dot-append String.[] c t h e = rw (nil-append (String.◌∷◌ c t)) (ground (arith, e))
after_dot-append (String.◌∷◌ a d) c t h e =
    rw (cons-append a d (String.◌∷◌ c t)) (ground (arith, after_dot-append d c t (ground arith) e))

dot : (t : String) → String.◌++◌ "." t ≡ String.◌∷◌ (chr b'.') t
unfolding chr
dot t = cons-append (chr b'.') String.[] t ∙ ap (λ u. String.◌∷◌ (chr b'.') u) (nil-append t)

numbered :
    (d : String) (n : ℕ)
    → lacks b'.' d ≡ true
    → after_dot (String.◌++◌ d (String.◌++◌ "." (to_string n))) ≡ to_string n
unfolding chr
numbered d n h =
    ap (λ u. after_dot (String.◌++◌ d u)) (dot (to_string n))
    ∙ after_dot-append d (chr b'.') (to_string n) h refl

-- Names of one base with dates without a dot tell their numbers.
same_number :
    (d e base : String) (n m : ℕ)
    → lacks b'.' d ≡ true
    → lacks b'.' e ≡ true
    → n < 2 ^ 31
    → m < 2 ^ 31
    → generate_log_file_name d base n ≡ generate_log_file_name e base m
    → n ≡ m
unfolding generate_log_file_name
same_number d e base n m h k a b q =
    let cut = append_cancel "_" _ _ (append_cancel base _ _ q) in
    let texts = sym (numbered d n h) ∙ ap after_dot cut ∙ numbered e m k in
    let same : some n ≡ some m = sym (atoi-to_string n a) ∙ ap atoi texts ∙ atoi-to_string m b in
    cc same

pub other_name :
    (d e base : String) (n m : ℕ)
    → lacks b'.' d ≡ true
    → lacks b'.' e ≡ true
    → n < m
    → m < 2 ^ 31
    → (generate_log_file_name d base m == generate_log_file_name e base n) ≡ false
other_name d e base n m h k a b =
    elim (Bool-cases (generate_log_file_name d base m == generate_log_file_name e base n)) [
      | inr f ↦ f
      | inl f ↦ absurd (
          omega (
            arith,
            a,
            same_number d e base m n h k b (omega (arith, a, b))
                (eq_of_== (generate_log_file_name d base m) (generate_log_file_name e base n) f),
          ))
    ]
