-- ===== src/Json/NumberRoundTrip.antt =====
-- Printed numbers and `parse_number` of service/src/json.rs.
use ahara_collector.Prelude.{
  ℕ, suc, ◌^◌, ◌<◌, ◌≡◌, refl, ◌∙◌, Bool, true, false, ◌⊎◌, inl, inr, text_eq, none, some, [], ◌∷◌,
  ◌++◌, Text, arith, all, any, if◌then◌else◌,
}
use ahara_collector.Prelude.Int.{ℤ, pos, negsuc, FitsI64}
use ahara_collector.Prelude.Decimal.{
  is_digit, number_from, decimal-all, decimal-cons, number_from-decimal,
}
use ahara_collector.Prelude.Results.{ok}
use ahara_collector.Json.Syntax.{Floats, int, float}
use ahara_collector.Json.Printer.{print_int}
use ahara_collector.Json.Numbers.{
  is_mark, is_number_char, number_span, signed, signed_digits, parse_i64, number_value,
  parse_number,
}

-- What follows a number does not go on with it.
unfoldable pub stops : Text → Bool
unfolding is_number_char
stops [] = true
stops (c ∷ s) = if is_number_char c then false else true

pub number_span-append :
    (run rest : Text)
    → all is_number_char run ≡ true
    → stops rest ≡ true
    → number_span (run ++ rest) ≡ (run, rest)
unfolding number_span all stops
number_span-append [] [] h k = refl
number_span-append [] (c ∷ s) h k = ground arith
number_span-append (c ∷ run) rest h k = ground (arith, number_span-append run rest)

number_char_of_digit : (s : Text) → all is_digit s ≡ true → all is_number_char s ≡ true
unfolding all is_number_char
number_char_of_digit [] h = refl
number_char_of_digit (c ∷ s) h = ground (arith, number_char_of_digit s)

no_mark_of_digit : (s : Text) → all is_digit s ≡ true → any is_mark s ≡ false
unfolding all any is_digit is_mark
no_mark_of_digit [] h = refl
no_mark_of_digit (c ∷ s) h = ground (arith, no_mark_of_digit s)

signed-pos : (n : ℕ) → n < 2 ^ 63 → signed Bool.false n ≡ some (pos n)
unfolding signed
signed-pos n h = ground arith

signed-negsuc : (n : ℕ) → n < 2 ^ 63 → signed Bool.true (suc n) ≡ some (negsuc n)
unfolding signed
signed-negsuc n h = ground arith

signed_digits-all :
    (minus : Bool) (c : ℕ) (s : Text)
    → all is_digit (c ∷ s) ≡ true
    → signed_digits minus (c ∷ s) ≡ signed minus (number_from 0 (c ∷ s))
unfolding signed_digits
signed_digits-all minus c s h = rw h

head_digit : (c : ℕ) (s : Text) → all is_digit (c ∷ s) ≡ true → is_digit c ≡ true
unfolding all
head_digit c s h = ground arith

parse_i64-pos :
    (c : ℕ) (s : Text)
    → all is_digit (c ∷ s) ≡ true
    → number_from 0 (c ∷ s) < 2 ^ 63
    → parse_i64 (c ∷ s) ≡ some (pos (number_from 0 (c ∷ s)))
unfolding parse_i64 is_digit
parse_i64-pos c s h k = ground (
  arith,
  head_digit c s h,
  signed_digits-all Bool.false c s h,
  signed-pos (number_from 0 (c ∷ s)) k,
)

parse_i64-negsuc :
    (n : ℕ) (c : ℕ) (s : Text)
    → all is_digit (c ∷ s) ≡ true
    → number_from 0 (c ∷ s) ≡ suc n
    → n < 2 ^ 63
    → parse_i64 (b'-' ∷ c ∷ s) ≡ some (negsuc n)
unfolding parse_i64
parse_i64-negsuc n c s h e k = signed_digits-all Bool.true c s h ∙ rw e (signed-negsuc n k)

-- A run of characters with no mark among them that reads as an `i64`.
number_value-int :
    (fl : Floats) (sign : Text) (c : ℕ) (s : Text) (i : ℤ)
    → all is_digit (c ∷ s) ≡ true
    → (sign ≡ []) ⊎ (sign ≡ b'-' ∷ [])
    → parse_i64 (sign ++ c ∷ s) ≡ some i
    → number_value fl sign (c ∷ s) ≡ ok (int i)
unfolding number_value is_digit text_eq
number_value-int fl [] c s i h k p = ground (arith, head_digit c s h, no_mark_of_digit (c ∷ s) h)
number_value-int fl (m ∷ sign) c s i h (inl e) p = cc
number_value-int fl (m ∷ []) c s i h (inr e) p = ground (arith, no_mark_of_digit (c ∷ s) h)
number_value-int fl (m ∷ b ∷ sign) c s i h (inr e) p = cc

parse_number-digits :
    (fl : Floats) (c : ℕ) (s rest : Text)
    → all is_digit (c ∷ s) ≡ true
    → number_from 0 (c ∷ s) < 2 ^ 63
    → stops rest ≡ true
    → parse_number fl (c ∷ (s ++ rest)) ≡ ok (int (pos (number_from 0 (c ∷ s))), rest)
unfolding parse_number is_digit
parse_number-digits fl c s rest h k stop = ground (
  arith,
  head_digit c s h,
  number_span-append (c ∷ s) rest (number_char_of_digit (c ∷ s) h) stop,
  number_value-int fl [] c s _ h (inl refl) (parse_i64-pos c s h k),
)

parse_number-minus :
    (fl : Floats) (n c : ℕ) (s rest : Text)
    → all is_digit (c ∷ s) ≡ true
    → number_from 0 (c ∷ s) ≡ suc n
    → n < 2 ^ 63
    → stops rest ≡ true
    → parse_number fl (b'-' ∷ c ∷ (s ++ rest)) ≡ ok (int (negsuc n), rest)
unfolding parse_number
parse_number-minus fl n c s rest h e k stop = ground (
  arith,
  number_span-append (c ∷ s) rest (number_char_of_digit (c ∷ s) h) stop,
  number_value-int fl (b'-' ∷ []) c s _ h (inr refl) (parse_i64-negsuc n c s h e k),
)

-- A printed `i64` is read back, and no more than that is read.
pub parse_number-print_int :
    (fl : Floats) (i : ℤ) (rest : Text)
    → FitsI64 i
    → stops rest ≡ true
    → parse_number fl (print_int i ++ rest) ≡ ok (int i, rest)
unfolding print_int
parse_number-print_int fl (pos n) rest h stop =
    let (c, s, e) = decimal-cons n in
    let digits = rw e at (decimal-all n) in
    let value = rw e at (number_from-decimal n) in
    rw e (rw (parse_number-digits fl c s rest digits (rw value h) stop) (rw value))
parse_number-print_int fl (negsuc n) rest h stop =
    let (c, s, e) = decimal-cons (suc n) in
    let digits = rw e at (decimal-all (suc n)) in
    let value = rw e at (number_from-decimal (suc n)) in
    rw e (parse_number-minus fl n c s rest digits value h stop)

-- A float that is finite, prints as a sign and number characters that begin with a digit, among
-- them a mark or more digits than an `i64` has, and that `f64::from_str` reads back. (The display of
-- 2.0 is `2`: that is read back as an integer.)
pub record PrintsBack (fl : Floats) (f : fl.F64) : Type 0 where
  pub finite : fl.is_finite f ≡ true
  pub minus : Bool
  pub head : ℕ
  pub run : Text
  pub shape : fl.display f ≡ (if minus then b'-' ∷ head ∷ run else head ∷ run)
  pub digit : is_digit head ≡ true
  pub chars : all is_number_char run ≡ true
  pub no_int : (any is_mark run ≡ true) ⊎ (parse_i64 (fl.display f) ≡ none)
  pub back : fl.parse (fl.display f) ≡ some f

number_value-float :
    (fl : Floats) (f : fl.F64) (sign : Text) (c : ℕ) (s : Text)
    → is_digit c ≡ true
    → (sign ≡ []) ⊎ (sign ≡ b'-' ∷ [])
    → (any is_mark s ≡ true) ⊎ (parse_i64 (sign ++ c ∷ s) ≡ none)
    → fl.parse (sign ++ c ∷ s) ≡ some f
    → number_value fl sign (c ∷ s) ≡ ok (float f)
unfolding number_value is_digit text_eq any
number_value-float fl f [] c s h k m p = ground arith
number_value-float fl f (m ∷ sign) c s h (inl e) n p = cc
number_value-float fl f (m ∷ []) c s h (inr e) n p = ground arith
number_value-float fl f (m ∷ b ∷ sign) c s h (inr e) n p = cc

parse_number-float :
    (fl : Floats) (f : fl.F64) (minus : Bool) (c : ℕ) (s rest : Text)
    → is_digit c ≡ true
    → all is_number_char s ≡ true
    → (any is_mark s ≡ true) ⊎ (parse_i64 ((if minus then b'-' ∷ [] else []) ++ c ∷ s) ≡ none)
    → fl.parse ((if minus then b'-' ∷ [] else []) ++ c ∷ s) ≡ some f
    → stops rest ≡ true
    → parse_number fl ((if minus then b'-' ∷ c ∷ s else c ∷ s) ++ rest) ≡ ok (float f, rest)
unfolding parse_number is_digit is_number_char all
parse_number-float fl f true c s rest h k m p stop = ground (
  arith,
  number_span-append (c ∷ s) rest (ground arith) stop,
  number_value-float fl f (b'-' ∷ []) c s h (inr refl) m p,
)
parse_number-float fl f false c s rest h k m p stop = ground (
  arith,
  number_span-append (c ∷ s) rest (ground arith) stop,
  number_value-float fl f [] c s h (inl refl) m p,
)

pub parse_number-display :
    (fl : Floats) (f : fl.F64) (rest : Text)
    → PrintsBack fl f
    → stops rest ≡ true
    → parse_number fl (fl.display f ++ rest) ≡ ok (float f, rest)
parse_number-display fl f rest h stop = rw h.shape (display_at h.minus h.shape)
  where
    display_at :
        (minus : Bool)
        → fl.display f ≡ (if minus then b'-' ∷ h.head ∷ h.run else h.head ∷ h.run)
        → parse_number fl ((if minus then b'-' ∷ h.head ∷ h.run else h.head ∷ h.run) ++ rest)
          ≡ ok (float f, rest)
    display_at true e =
        parse_number-float fl f true h.head h.run rest h.digit h.chars (rw e at h.no_int)
          (rw e at h.back) stop
    display_at false e =
        parse_number-float fl f false h.head h.run rest h.digit h.chars (rw e at h.no_int)
          (rw e at h.back) stop
