-- ===== src/Libc/Print.antt =====
-- libc/stdio: characters go to the screen one by one, and here to a list, the first one first.
pub mod Digits
pub mod Format
pub mod Ends
pub mod Numbers
pub mod Render
mod Tests
use simply_os.Base.{
  ℕ, zero, suc, ◌+◌, ◌-◌, ◌/◌, ◌%◌, ◌^◌, Bool, true, false, not, ◌&&◌, ◌||◌, Option, none, some,
  List, [], ◌∷◌, ◌++◌, u8, u32, ltb, leb, ◌==◌, if◌then◌else◌, length,
}

abbrev pub eof : ℕ
eof = 2 ^ 32 - 1

-- The result of `putchar`, and what was written.
abbrev pub putchar : ℕ → List ℕ → ℕ × List ℕ
putchar ic out = (ic, out ++ (u8 ic ∷ []))

-- The loop of `print` over the bytes that are left.
pub print : List ℕ → List ℕ → Bool × List ℕ
print [] out = (true, out)
print (byte ∷ bytes) out =
    let (result, next) = putchar byte out in
    let rest = print bytes next in if result == eof then (false, next) else rest

abbrev pub digit_char : ℕ → ℕ
digit_char digit = u8 (if ltb digit 10 then 48 + digit else 97 + digit - 10)

-- The loop of `print_uint`: the room that is left in the buffer, and the digits that are in it.
unfoldable pub digits_loop : ℕ → ℕ → ℕ → List ℕ → List ℕ
digits_loop base zero value pos = pos
digits_loop base (suc room) value pos =
    let rest = digits_loop base room (value / base) (digit_char (value % base) ∷ pos) in
    if value == 0 then pos else rest

pub print_uint : ℕ → ℕ → List ℕ → Bool × List ℕ
print_uint value base out =
    if ltb base 2 || ltb 16 base
    then (false, out)
    else if value == 0
    then print (48 ∷ []) out
    else print (digits_loop base 31 value []) out

-- An `int` is its 32 bits: it is negative from 2^31 on, and then `-(value + 1)` is 2^32 - 1 - value.
pub print_int : ℕ → List ℕ → Bool × List ℕ
print_int value out =
    let (ok, minus) = print (45 ∷ []) out in
    if leb (2 ^ 31) value
    then if not ok then (false, minus) else print_uint (u32 (2 ^ 32 - 1 - value + 1)) 10 minus
    else print_uint value 10 out

-- The arguments: a word (`int`, `unsigned`, `void *`), or a string without its NUL.
pub data Arg : Type 0 where
  word : ℕ → Arg
  text : List ℕ → Arg

-- `printf` returns a count or -1; it is undefined where an argument is missing or of another kind;
-- and the loop may have no fuel left.
pub data Result : Type 0 where
  returns : ℕ → List ℕ → Result
  fails : List ℕ → Result
  undefined : Result
  unfinished : Result

abbrev pub int_max : ℕ
int_max = 2 ^ 31 - 1

-- The characters up to the next `%`, and the rest.
pub literal : List ℕ → List ℕ × List ℕ
literal [] = ([], [])
literal (c ∷ cs) =
    let (more, left) = literal cs in if c == 37 then ([], c ∷ cs) else (c ∷ more, left)

-- Goes on if the characters were written.
pub when_printed : Bool × List ℕ → (List ℕ → Result) → Result
when_printed (ok, out) rest = if ok then rest out else fails out

-- The digits of `%u`.
pub print_u : ℕ → List ℕ → (ℕ → List ℕ → Result) → Result
print_u value out rest =
    let digits = digits_loop 10 31 value [] in
    if value == 0
    then when_printed (print (48 ∷ []) out) (rest 1)
    else when_printed (print digits out) (rest (length digits))

-- A conversion with its argument. `next` is the loop on the format behind it.
pub convert : ℕ → List Arg → ℕ → List ℕ → (List Arg → ℕ → List ℕ → Result) → Result
convert kind [] written out next = undefined
convert kind (word w ∷ args) written out next =
    if kind == 99
    then if int_max - written == 0
      then fails out
      else when_printed (print (u8 w ∷ []) out) (next args (written + 1))
    else if kind == 117
    then print_u w out (λ len. next args (written + len))
    else if kind == 100
    then when_printed (print_int w out) (next args (written + 1))
    else if kind == 120
    then when_printed (print_uint w 16 out) (next args (written + 1))
    else if kind == 112
    then when_printed (print (48 ∷ 120 ∷ []) out)
        (λ out1. when_printed (print_uint w 16 out1) (next args (written + 1)))
    else undefined
convert kind (text str ∷ args) written out next =
    if kind == 115
    then if ltb (int_max - written) (length str)
      then fails out
      else when_printed (print str out) (next args (written + length str))
    else undefined

abbrev pub is_conversion : ℕ → Bool
is_conversion kind =
    kind == 99 || kind == 115 || kind == 117 || kind == 100 || kind == 120 || kind == 112

-- A `%` that begins no conversion; the character behind it is not consumed.
pub print_percent : ℕ → List ℕ → (ℕ → List ℕ → Result) → Result
print_percent written out next =
    if int_max - written == 0
    then fails out
    else when_printed (print (37 ∷ []) out) (next (written + 1))

-- Characters that are shown as they are: the first one, and those up to the next `%`.
pub print_literal : List ℕ → ℕ → List ℕ → (ℕ → List ℕ → Result) → Result
print_literal chars written out next =
    if ltb (int_max - written) (length chars)
    then fails out
    else when_printed (print chars out) (next (written + length chars))

-- The loop over the format, with fuel.
pub printf_loop : ℕ → List ℕ → List Arg → ℕ → List ℕ → Result
printf_loop zero format args written out = unfinished
printf_loop (suc fuel) [] args written out = returns written out
printf_loop (suc fuel) (c ∷ []) args written out =
    let last = printf_loop fuel [] args in
    if c == 37 then print_percent written out last else print_literal (c ∷ []) written out last
printf_loop (suc fuel) (c ∷ d ∷ cs) args written out =
    let (more, left) = literal (d ∷ cs) in
    let (more2, left2) = literal cs in
    let plain = printf_loop fuel left args in
    let escaped = printf_loop fuel left2 args in
    let converted = λ (a : List Arg). printf_loop fuel cs a in
    let unknown = printf_loop fuel (d ∷ cs) args in
    if not (c == 37)
    then print_literal (c ∷ more) written out plain
    else if d == 37
    then print_literal (d ∷ more2) written out escaped
    else if is_conversion d
    then convert d args written out converted
    else print_percent written out unknown

pub printf : List ℕ → List Arg → List ℕ → Result
printf format args out = printf_loop (suc (length format)) format args 0 out

pub puts : List ℕ → List ℕ → Result
puts str out = printf (37 ∷ 115 ∷ 10 ∷ []) (text str ∷ []) out
