-- ===== src/Console.antt =====
-- kprintf.c over the serial port of serial.c. The bytes sent to the port are a list, and a C string is
-- the list of its bytes before the NUL. The port's ready bit is polled before each byte, which sends
-- nothing.
pub mod Numbers
use hobby_os_kernel.Common.{
  ℕ, zero, suc, ◌+◌, ◌-◌, ◌*◌, ◌/◌, ◌%◌, ◌^◌, Bool, true, false, List, [], ◌∷◌, ◌++◌, if◌then◌else◌,
  ◌==◌, ltb, leb,
}
use hobby_os_kernel.Word.{u64}

abbrev pub serial_write_char : ℕ → List ℕ
serial_write_char c = c ∷ []

unfoldable pub serial_write_string : List ℕ → List ℕ
serial_write_string [] = []
serial_write_string (c ∷ str) =
    (if c == 10 then serial_write_char 13 ++ serial_write_char c else serial_write_char c)
    ++ serial_write_string str

-- `digits[d]`
abbrev pub digit : ℕ → ℕ
digit d = if ltb d 10 then 48 + d else 87 + d

-- `while (value != 0 && pos > 0)`; `buf` holds the characters from `pos` on.
digits_loop : ℕ → ℕ → ℕ → List ℕ → List ℕ
digits_loop zero value base buf = buf
digits_loop (suc pos) value base buf =
    let rest = digits_loop pos (value / base) base (digit (value % base) ∷ buf) in
    if value == 0 then buf else rest

pub uint_to_str : ℕ → ℕ → ℕ → List ℕ
uint_to_str value base buf_size =
    if value == 0 then 48 ∷ [] else digits_loop (buf_size - 1) value base []

-- The sign bit of a 64-bit word.
abbrev pub negative : ℕ → Bool
negative value = leb (2 ^ 63) value

pub kprintf_putint : ℕ → List ℕ
kprintf_putint value =
    if negative value
    then serial_write_char 45 ++ serial_write_string (uint_to_str (u64 (2 ^ 64 - value)) 10 21)
    else serial_write_string (uint_to_str value 10 21)

pub kprintf_puthex : ℕ → List ℕ
kprintf_puthex value = serial_write_string (uint_to_str value 16 17)

-- What follows the format: words, and pointers to strings.
pub data Arg : Type 0 where
  word : ℕ → Arg
  text : List ℕ → Arg

abbrev word_of : List Arg → ℕ
word_of [] = 0
word_of (word w ∷ args) = w
word_of (text t ∷ args) = 0

abbrev text_of_arg : List Arg → List ℕ
text_of_arg [] = []
text_of_arg (word w ∷ args) = []
text_of_arg (text t ∷ args) = t

abbrev tail : List Arg → List Arg
tail [] = []
tail (a ∷ args) = args

-- `(int64_t)(int)w`
abbrev pub sign_extend : ℕ → ℕ
sign_extend w = if leb (2 ^ 31) (w % 2 ^ 32) then 2 ^ 64 - 2 ^ 32 + w % 2 ^ 32 else w % 2 ^ 32

-- The `switch` over the character of a directive: what is sent.
convert : ℕ → Bool → List Arg → List ℕ
convert c is_long args =
    if c == 115
    then serial_write_string (text_of_arg args)
    else (if c == 99
        then serial_write_char (word_of args % 256)
        else (if c == 100
            then kprintf_putint (if is_long then word_of args else sign_extend (word_of args))
            else (if c == 120
                then kprintf_puthex (if is_long then word_of args else word_of args % 2 ^ 32)
                else (if c == 37
                    then serial_write_char 37
                    else serial_write_char 37 ++ serial_write_char c))))

-- Whether the directive takes an argument.
rest_args : ℕ → List Arg → List Arg
rest_args c args =
    if c == 115
    then tail args
    else (if c == 99
        then tail args
        else (if c == 100 then tail args else (if c == 120 then tail args else args)))

-- Where the loop stands: in text, behind a '%', or behind "%l".
pub data Mode : Type 0 where
  in_text after_percent after_long : Mode

format : Mode → List ℕ → List Arg → List ℕ
format in_text [] args = []
format after_percent [] args = serial_write_char 37
format after_long [] args = serial_write_char 37
format in_text (c ∷ p) args =
    if c == 37 then format after_percent p args else serial_write_char c ++ format in_text p args
format after_percent (c ∷ p) args =
    if c == 108
    then format after_long p args
    else convert c false args ++ format in_text p (rest_args c args)
format after_long (c ∷ p) args = convert c true args ++ format in_text p (rest_args c args)

pub kprintf : List ℕ → List Arg → List ℕ
kprintf fmt args = format in_text fmt args
