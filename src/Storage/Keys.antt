-- ===== src/Storage/Keys.antt =====
-- The texts of the identifiers that are keys of a tree: `std::to_string` on an `int32_t`, or the
-- same number put into a stream, and the number read back by `std::stringstream >> int32_t`.
use Prim.Native.Char.{Char, code}
use Prim.Native.String.{String}
use libworkflow.Prelude.{
  ℕ, suc, zero, ◌+◌, ◌-◌, ◌*◌, ◌/◌, ◌%◌, ◌≤◌, ◌<◌, ◌≡◌, refl, ap, ◌∙◌, false, ◌&&◌, not, ltb,
  if◌then◌else◌, arith, ◌==◌ as nat_eq,
}
use libworkflow.Prelude.Int.{ℤ, pos, negsuc}
use libworkflow.Storage.Tree.{has_dot, is_path}

unfoldable pub digit : ℕ → Char
digit zero = "0"
digit (suc zero) = "1"
digit (suc (suc zero)) = "2"
digit (suc (suc (suc zero))) = "3"
digit (suc (suc (suc (suc zero)))) = "4"
digit (suc (suc (suc (suc (suc zero))))) = "5"
digit (suc (suc (suc (suc (suc (suc zero)))))) = "6"
digit (suc (suc (suc (suc (suc (suc (suc zero))))))) = "7"
digit (suc (suc (suc (suc (suc (suc (suc (suc zero)))))))) = "8"
digit _ = "9"

-- The digits of a number in front of a text. The number itself is fuel enough.
unfoldable pub digits : ℕ → ℕ → String → String
unfolding digit
digits zero n rest = String.◌∷◌ (digit n) rest
digits (suc fuel) n rest =
    let more = digits fuel (n / 10) (String.◌∷◌ (digit (n % 10)) rest) in
    if ltb n 10 then String.◌∷◌ (digit n) rest else more

unfoldable pub to_string : ℤ → String
unfolding digits
to_string (pos n) = digits n n ""
to_string (negsuc n) = String.◌∷◌ "-" (digits (suc n) (suc n) "")

-- The digits at the front of a text, onto the number read so far.
unfoldable pub read_digits : ℕ → String → ℕ
read_digits n String.[] = n
read_digits n (String.◌∷◌ c s) =
    let rest = read_digits (n * 10 + (code c - b'0')) s in
    if not (ltb (code c) b'0') && not (ltb b'9' (code c)) then rest else n

abbrev minus : ℕ → ℤ
minus zero = pos zero
minus (suc n) = negsuc n

-- A text without digits leaves 0.
unfoldable pub read_int : String → ℤ
unfolding read_digits
read_int String.[] = pos 0
read_int (String.◌∷◌ c s) =
    if nat_eq (code c) b'-' then minus (read_digits 0 s) else pos (read_digits 0 (String.◌∷◌ c s))

code-digit : (n : ℕ) → n < 10 → code (digit n) ≡ b'0' + n
unfolding digit
code-digit zero small = refl
code-digit (suc zero) small = refl
code-digit (suc (suc zero)) small = refl
code-digit (suc (suc (suc zero))) small = refl
code-digit (suc (suc (suc (suc zero)))) small = refl
code-digit (suc (suc (suc (suc (suc zero))))) small = refl
code-digit (suc (suc (suc (suc (suc (suc zero)))))) small = refl
code-digit (suc (suc (suc (suc (suc (suc (suc zero))))))) small = refl
code-digit (suc (suc (suc (suc (suc (suc (suc (suc zero)))))))) small = refl
code-digit (suc (suc (suc (suc (suc (suc (suc (suc (suc zero))))))))) small = refl
code-digit (suc (suc (suc (suc (suc (suc (suc (suc (suc (suc n)))))))))) small =
    absurd (omega arith)

-- No digit is the sign.
read_int-digits :
    (fuel n : ℕ) (rest : String)
    → n ≤ fuel
    → read_int (digits fuel n rest) ≡ pos (read_digits 0 (digits fuel n rest))
unfolding digits read_int
read_int-digits zero n rest enough = ground (arith, code-digit n (omega arith))
read_int-digits (suc fuel) n rest enough = ground (
  arith,
  code-digit n,
  read_int-digits fuel (n / 10) (String.◌∷◌ (digit (n % 10)) rest) (omega arith),
)

read_digits-digit :
    (m n : ℕ) (rest : String)
    → n < 10
    → read_digits m (String.◌∷◌ (digit n) rest) ≡ read_digits (m * 10 + n) rest
unfolding read_digits
read_digits-digit m n rest small = ground (arith, code-digit n small)

read_digits-digits :
    (fuel n : ℕ) (rest : String)
    → n ≤ fuel
    → read_digits 0 (digits fuel n rest) ≡ read_digits n rest
unfolding digits
read_digits-digits zero n rest enough = ground (arith, read_digits-digit 0 n rest (omega arith))
read_digits-digits (suc fuel) n rest enough = ground (
  arith,
  read_digits-digit 0 n rest,
  read_digits-digit (n / 10) (n % 10) rest (omega arith),
  read_digits-digits fuel (n / 10) (String.◌∷◌ (digit (n % 10)) rest) (omega arith),
)

pub read_int-to_string : (i : ℤ) → read_int (to_string i) ≡ i
unfolding read_int to_string
read_int-to_string (pos n) =
    read_int-digits n n "" (omega arith) ∙ ap pos (read_digits-digits n n "" (omega arith))
read_int-to_string (negsuc n) = ap minus (read_digits-digits (suc n) (suc n) "" (omega arith))

has_dot-digit :
    (n : ℕ) (rest : String) → n < 10 → has_dot (String.◌∷◌ (digit n) rest) ≡ has_dot rest
has_dot-digit n rest small = ground (arith, code-digit n small)

has_dot-digits :
    (fuel n : ℕ) (rest : String) → n ≤ fuel → has_dot (digits fuel n rest) ≡ has_dot rest
unfolding digits
has_dot-digits zero n rest enough = has_dot-digit n rest (omega arith)
has_dot-digits (suc fuel) n rest enough = ground (
  arith,
  has_dot-digit n rest,
  has_dot-digit (n % 10) rest (omega arith),
  has_dot-digits fuel (n / 10) (String.◌∷◌ (digit (n % 10)) rest) (omega arith),
)

is_path-digits :
    (fuel n : ℕ) (rest : String)
    → n ≤ fuel
    → has_dot rest ≡ false
    → is_path (digits fuel n rest) ≡ false
unfolding digits
is_path-digits zero n rest enough plain = has_dot-digit n rest (omega arith) ∙ plain
is_path-digits (suc fuel) n rest enough plain = ground (
  arith,
  has_dot-digit n rest,
  has_dot-digit (n % 10) rest (omega arith),
  is_path-digits fuel (n / 10) (String.◌∷◌ (digit (n % 10)) rest) (omega arith),
)

pub is_path-to_string : (i : ℤ) → is_path (to_string i) ≡ false
unfolding to_string
is_path-to_string (pos n) = is_path-digits n n "" (omega arith) refl
is_path-to_string (negsuc n) = has_dot-digits (suc n) (suc n) "" (omega arith)
