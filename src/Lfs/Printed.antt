-- ===== src/Lfs/Printed.antt =====
-- Reading what String of pkg/lfs/pointer.go has printed.
use soft_serve.Base.{
  ℕ, zero, suc, ◌+◌, ◌*◌, ◌/◌, ◌%◌, ◌-◌, ◌^◌, ◌<◌, ◌≡◌, refl, ap, ◌∙◌, Bool, true, false, not, ◌&&◌,
  Bool-cases, inl, inr, some, List, [], ◌∷◌, ◌++◌, all, length, Text, str, ltb, leb, ◌==◌, arith,
  has_prefix, has_prefix-append, trim_prefix, trim_prefix-append, lt→ltb,
}
use soft_serve.Base.Int.{ℤ, pos}
use soft_serve.Web.Decimal.{digits, decimal}
use soft_serve.Web.Objects.{is_valid, is_hex}
use soft_serve.Ssh.Commands.Parse.{digits_value, unsigned_value, positive, parse_int}
use soft_serve.Lfs.{
  read, meta_file_identifier, meta_file_oid_prefix, split_lines, check_lines, line,
  read_pointer_from_buffer, string,
}

abbrev is_digit : ℕ → Bool
is_digit c = leb 48 c && leb c 57

-- no line end
abbrev plain : Text → Bool
plain s = all (λ c. not (c == 10)) s

plain-append : (s t : Text) → plain s ≡ true → plain t ≡ true → plain (s ++ t) ≡ true
plain-append [] t h k = k
plain-append (c ∷ s) t h k = ground (arith, plain-append s t)

hex_plain : (s : Text) → all is_hex s ≡ true → plain s ≡ true
hex_plain [] h = refl
hex_plain (c ∷ s) h = ground (arith, hex_plain s)

digits_plain : (s : Text) → all is_digit s ≡ true → plain s ≡ true
digits_plain [] h = refl
digits_plain (c ∷ s) h = ground (arith, digits_plain s)

split_line : (s rest : Text) → plain s ≡ true → split_lines (line s rest) ≡ s ∷ split_lines rest
unfolding split_lines
split_line [] rest h = refl
split_line (c ∷ s) rest h = ground (arith, split_line s rest)

-- one more digit
digits_value-append :
    (acc : ℕ) (s : Text) (v c : ℕ)
    → digits_value acc s ≡ some v
    → is_digit c ≡ true
    → digits_value acc (s ++ c ∷ []) ≡ some (v * 10 + (c - 48))
unfolding digits_value
digits_value-append acc [] v c h k = ground (arith, h, k)
digits_value-append acc (d ∷ s) v c h k =
    ground (arith, h, digits_value-append (acc * 10 + (d - 48)) s v c)

digits_value-digits : (fuel n : ℕ) → n < fuel → digits_value 0 (digits fuel n) ≡ some n
unfolding digits digits_value
digits_value-digits zero n h = elim h [ ]
digits_value-digits (suc fuel) n h = elim (Bool-cases (ltb n 10)) [
  | inl small ↦ rw small (ground (arith, small))
  | inr large ↦ rw large (
      digits_value-append 0 (digits fuel (n / 10)) (n / 10) (48 + n % 10)
        (digits_value-digits fuel (n / 10) (ground (arith, large, h))) (ground arith)
      ∙ ap some (ground arith))
]

all-append :
    (s : Text) (c : ℕ)
    → all is_digit s ≡ true
    → is_digit c ≡ true
    → all is_digit (s ++ c ∷ []) ≡ true
all-append [] c h k = ground (arith, k)
all-append (d ∷ s) c h k = ground (arith, all-append s c)

all-digits : (fuel n : ℕ) → all is_digit (digits fuel n) ≡ true
unfolding digits
all-digits zero n = refl
all-digits (suc fuel) n = elim (Bool-cases (ltb n 10)) [
  | inl small ↦ rw small (ground (arith, small))
  | inr large ↦
      rw large
        (all-append (digits fuel (n / 10)) (48 + n % 10) (all-digits fuel (n / 10)) (ground arith))
]

parse_value :
    (c : ℕ) (s : Text) (n : ℕ)
    → all is_digit (c ∷ s) ≡ true
    → digits_value 0 (c ∷ s) ≡ some n
    → parse_int (c ∷ s) ≡ positive (some n)
unfolding parse_int unsigned_value
parse_value c s n h k =
    let no_minus : (c == 45) ≡ false = ground (arith, h) in
    let no_plus : (c == 43) ≡ false = ground (arith, h) in rw (no_minus, no_plus, k) refl

-- a decimal number has a digit
starts : (s : Text) (c : ℕ) → (d : ℕ) × (t : Text) × (s ++ c ∷ [] ≡ d ∷ t)
starts [] c = (c, [], refl)
starts (d ∷ s) c = (d, s ++ c ∷ [], refl)

decimal_starts : (n : ℕ) → (d : ℕ) × (t : Text) × (decimal n ≡ d ∷ t)
unfolding decimal digits
decimal_starts n = elim (Bool-cases (ltb n 10)) [
  | inl small ↦ (48 + n, [], rw small refl)
  | inr large ↦ rw large (starts (digits n (n / 10)) (48 + n % 10))
]

-- ParseInt reads a number of 63 bits that was printed
parse_int-decimal : (n : ℕ) → n < 2 ^ 63 → parse_int (decimal n) ≡ some (pos n)
unfolding decimal
parse_int-decimal n below =
    let (d, t, e) = decimal_starts n in
    let value = rw e at (digits_value-digits (suc n) n (omega arith)) in
    let digit = rw e at (all-digits (suc n) n) in
    rw e (parse_value d t n digit value ∙ bounded n below)
  where
    bounded : (k : ℕ) → k < 2 ^ 63 → positive (some k) ≡ some (pos k)
    bounded k h = rw (lt→ltb k (2 ^ 63) h) refl

read_by_lines :
    (buf : Text) (lines : List Text)
    → has_prefix buf meta_file_identifier ≡ true
    → split_lines buf ≡ lines
    → read_pointer_from_buffer buf ≡ check_lines lines
unfolding read_pointer_from_buffer
read_by_lines buf lines starts split = rw (starts, split) refl

-- the second and the third line
checked_lines :
    (first second third oid : Text) (rest : List Text) (size : ℤ)
    → trim_prefix second meta_file_oid_prefix ≡ oid
    → (length oid == 64) ≡ true
    → all is_hex oid ≡ true
    → parse_int (trim_prefix third (str "size ")) ≡ some size
    → check_lines (first ∷ second ∷ third ∷ rest) ≡ read (record { oid = oid; size = size })
checked_lines first second third oid rest size cut long hex number =
    rw (cut, long, hex, number) refl

lines_of_string :
    (oid : Text) (n : ℕ)
    → all is_hex oid ≡ true
    → split_lines (string (record { oid = oid; size = pos n }))
      ≡ meta_file_identifier ∷ (meta_file_oid_prefix ++ oid) ∷ (str "size " ++ decimal n) ∷ [] ∷ []
unfolding string split_lines
lines_of_string oid n hex =
    split_line meta_file_identifier
      (line (meta_file_oid_prefix ++ oid) (line (str "size " ++ decimal n) [])) refl
    ∙ ap (λ ls. meta_file_identifier ∷ ls)
        (split_line (meta_file_oid_prefix ++ oid) (line (str "size " ++ decimal n) [])
            (plain-append meta_file_oid_prefix oid refl (hex_plain oid hex))
          ∙ ap (λ ls. (meta_file_oid_prefix ++ oid) ∷ ls)
              (split_line (str "size " ++ decimal n) [] (
                plain-append (str "size ") (decimal n) refl
                  (digits_plain (decimal n) (unfold decimal in all-digits (suc n) n)))))

-- Reading the text of a valid pointer whose size is below 2^63 gives the pointer back.
pub read_pointer_from_buffer-string :
    (oid : Text) (n : ℕ)
    → n < 2 ^ 63
    → is_valid (record { oid = oid; size = pos n }) ≡ true
    → read_pointer_from_buffer (string (record { oid = oid; size = pos n }))
      ≡ read (record { oid = oid; size = pos n })
unfolding is_valid
read_pointer_from_buffer-string oid n below valid =
    read_by_lines (string (record { oid = oid; size = pos n })) _
      (unfold string in
        has_prefix-append meta_file_identifier
          (10 ∷ line (meta_file_oid_prefix ++ oid) (line (str "size " ++ decimal n) [])))
      (lines_of_string oid n hex)
    ∙ checked_lines meta_file_identifier (meta_file_oid_prefix ++ oid) (str "size " ++ decimal n)
        oid ([] ∷ []) (pos n) (trim_prefix-append meta_file_oid_prefix oid) long hex
        (ap parse_int (trim_prefix-append (str "size ") (decimal n)) ∙ parse_int-decimal n below)
  where
    long : (length oid == 64) ≡ true
    long = ground (arith, valid)

    hex : all is_hex oid ≡ true
    hex = ground (arith, valid)
