-- ===== src/Queue/Resp.antt =====
-- internal/queue/redis.go: writeCommandLocked and readResponseLocked over the bytes of a connection, and
-- the decimal numbers of package strconv that they use. A byte is a number; what the reader has not
-- read yet is the rest of the list. A length that the runtime cannot allocate makes the reader panic;
-- memory that runs out below that is not modelled.
pub mod Decimal
pub mod RoundTrip
pub mod Suffix
pub mod Termination
use notification_service.Base.{
  ℕ, zero, suc, ◌+◌, ◌-◌, ◌*◌, ◌/◌, ◌%◌, ◌^◌, Bool, true, false, ◌&&◌, Option, none, some, List, [],
  ◌∷◌, ◌++◌, ltb, leb, eqb, length, take, if◌then◌else◌,
}

abbrev pub Bytes : Type 0
Bytes = List ℕ

pub data ℤ : Type 0 where
  pos negsuc : ℕ → ℤ

-- strconv.Itoa of a number that is not negative: the digits, the last one first, before `out`.
unfoldable pub print : ℕ → ℕ → Bytes → Bytes
print zero n out = out
print (suc fuel) n out = elim (ltb n 10) [
  | true ↦ (b'0' + n) ∷ out
  | false ↦ print fuel (n / 10) ((b'0' + n % 10) ∷ out)
]

unfoldable pub itoa : ℕ → Bytes
itoa n = print (suc n) n []

abbrev pub is_digit : ℕ → Bool
is_digit c = leb b'0' c && leb c b'9'

unfoldable pub scan : Bytes → ℕ → Option ℕ
scan [] n = some n
scan (c ∷ s) n = let rest = scan s (n * 10 + (c - b'0')) in if is_digit c then rest else none

abbrev pub max_int64 : ℕ
max_int64 = 2 ^ 63 - 1

abbrev positive : Option ℕ → Option ℤ
positive none = none
positive (some n) = if ltb max_int64 n then none else some (pos n)

abbrev negative : Option ℕ → Option ℤ
negative none = none
negative (some zero) = some (pos 0)
negative (some (suc n)) = if ltb max_int64 n then none else some (negsuc n)

-- No digit is an error.
abbrev pub unsigned : Bytes → Option ℕ
unsigned [] = none
unsigned (c ∷ s) = scan (c ∷ s) 0

-- strconv.Atoi and ParseInt(line, 10, 64).
unfoldable pub parse_int : Bytes → Option ℤ
parse_int [] = none
parse_int (c ∷ s) =
    if eqb c b'-'
    then negative (unsigned s)
    else if eqb c b'+'
    then positive (unsigned s)
    else positive (unsigned (c ∷ s))

abbrev pub crlf : Bytes
crlf = 13 ∷ (10 ∷ [])

-- fmt.Sprintf("$%d\r\n%s\r\n", len(part), part).
unfoldable pub write_bulk : Bytes → Bytes
write_bulk part = b'$' ∷ (itoa (length part) ++ (crlf ++ (part ++ crlf)))

unfoldable pub write_parts : List Bytes → Bytes
write_parts [] = []
write_parts (part ∷ parts) = write_bulk part ++ write_parts parts

unfoldable pub write_command : List Bytes → Bytes
write_command parts = b'*' ∷ (itoa (length parts) ++ (crlf ++ write_parts parts))

-- A value of the reader: nil, a text, an int64 or a list of values.
mutual
  pub data Reply : Type 0 where
    nil : Reply
    text : Bytes → Reply
    number : ℤ → Reply
    array : Replies → Reply

  pub data Replies : Type 0 where
    end : Replies
    item : Reply → Replies → Replies

pub data ReadError : Type 0 where
  closed : ReadError
  redis_error bad_number : Bytes → ReadError
  unsupported_prefix : ℕ → ReadError

-- A value with the bytes that follow it.
pub data Outcome (A : Type 0) : Type 0 where
  ok : A → Bytes → Outcome A
  failed : ReadError → Outcome A
  panicked : Outcome A
  out_of_fuel : Outcome A

-- ReadString('\n'): the bytes before the newline, and those after it.
unfoldable pub read_line : Bytes → Option (Bytes × Bytes)
read_line [] = none
read_line (c ∷ s) =
    if eqb c 10
    then some ([], s)
    else elim (read_line s) [ none ↦ none | some (line, rest) ↦ some (c ∷ line, rest) ]

-- strings.TrimSuffix(line, "\r").
unfoldable pub trim_return : Bytes → Bytes
trim_return [] = []
trim_return (c ∷ []) = if eqb c 13 then [] else c ∷ []
trim_return (c ∷ (e ∷ s)) = c ∷ trim_return (e ∷ s)

-- io.ReadFull of a buffer of n bytes.
unfoldable pub read_full : ℕ → Bytes → Option (Bytes × Bytes)
read_full zero s = some ([], s)
read_full (suc n) [] = none
read_full (suc n) (c ∷ s) = elim (read_full n s) [
  | none ↦ none
  | some (buf, rest) ↦ some (c ∷ buf, rest)
]

unfoldable pub read_integer : Bytes → Bytes → Outcome Reply
read_integer line rest = elim (parse_int line) [
  | none ↦ failed (bad_number line)
  | some z ↦ ok (number z) rest
]

-- What make allocates at most: 2^48 bytes, the address space of a 64-bit platform, and so many values
-- of type any, each of 16 bytes. Beyond it make panics, as it does on a length that wrapped below 0.
abbrev pub max_buffer : ℕ
max_buffer = 2 ^ 48

abbrev pub max_values : ℕ
max_values = 2 ^ 44

-- A length of -1 is nil. A buffer whose length wraps (from `size` 2 ^ 63 - 2 on) is beyond the limit as well.
unfoldable pub read_bulk : Bytes → Bytes → Outcome Reply
read_bulk line rest = elim (parse_int line) [
  | none ↦ failed (bad_number line)
  | some (negsuc n) ↦ ok nil rest
  | some (pos size) ↦
      let buffer = read_full (size + 2) rest in
      if ltb max_buffer (size + 2) then panicked else elim buffer [
        | none ↦ failed closed
        | some (buf, rest') ↦ ok (text (take size buf)) rest'
      ]
]

-- The loop over the values of an array, each read by `next`.
unfoldable pub read_items : (Bytes → Outcome Reply) → ℕ → Bytes → Outcome Replies
read_items next zero s = ok end s
read_items next (suc count) s = elim (next s) [
  | out_of_fuel ↦ out_of_fuel
  | panicked ↦ panicked
  | failed e ↦ failed e
  | ok r rest ↦ elim (read_items next count rest) [
    | out_of_fuel ↦ out_of_fuel
    | panicked ↦ panicked
    | failed e ↦ failed e
    | ok rs rest' ↦ ok (item r rs) rest'
  ]
]

unfoldable pub read_array : (Bytes → Outcome Reply) → Bytes → Bytes → Outcome Reply
read_array next line rest = elim (parse_int line) [
  | none ↦ failed (bad_number line)
  | some (negsuc n) ↦ ok nil rest
  | some (pos count) ↦
      let items = read_items next count rest in
      if ltb max_values count then panicked else elim items [
        | out_of_fuel ↦ out_of_fuel
        | panicked ↦ panicked
        | failed e ↦ failed e
        | ok rs rest' ↦ ok (array rs) rest'
      ]
]

-- The switch on the prefix.
unfoldable pub read_value : (Bytes → Outcome Reply) → ℕ → Bytes → Bytes → Outcome Reply
read_value next prefix line rest =
    if eqb prefix b'+'
    then ok (text line) rest
    else if eqb prefix b'-'
    then failed (redis_error line)
    else if eqb prefix b':'
    then read_integer line rest
    else if eqb prefix b'$'
    then read_bulk line rest
    else if eqb prefix b'*'
    then read_array next line rest
    else failed (unsupported_prefix prefix)

unfoldable pub read : ℕ → Bytes → Outcome Reply
read zero s = out_of_fuel
read (suc fuel) [] = failed closed
read (suc fuel) (prefix ∷ s) = elim (read_line s) [
  | none ↦ failed closed
  | some (line, rest) ↦ read_value (read fuel) prefix (trim_return line) rest
]

-- A call of the reader on what the connection holds.
unfoldable pub read_response : Bytes → Outcome Reply
read_response s = read (suc (length s)) s
