-- ===== src/Queue/Resp/RoundTrip.antt =====
-- internal/queue/redis.go: a command that is written, read by the reader of responses.
use notification_service.Base.{
  ℕ, suc, ◌+◌, ◌≤◌, ◌≡◌, refl, sym, ap, ◌∙◌, true, List, some, [], ◌∷◌, ◌++◌, All, arith, length,
  take, length-append,
}
use notification_service.Queue.Resp.{
  Bytes, itoa, is_digit, max_buffer, max_values, crlf, write_bulk, write_parts, write_command,
  Replies, text, array, end, item, ok, read_line, trim_return, read_full, read_bulk, read_items,
  read_array, read_value, read, read_response,
}
use notification_service.Queue.Resp.Decimal.{itoa-digits, parse_int-itoa}

append_assoc : (xs ys zs : Bytes) → (xs ++ ys) ++ zs ≡ xs ++ (ys ++ zs)
append_assoc [] ys zs = refl
append_assoc (x ∷ xs) ys zs = ap (λ s. x ∷ s) (append_assoc xs ys zs)

read_line-digits :
    (s rest : Bytes)
    → All (λ c. is_digit c ≡ true) s
    → read_line (s ++ (crlf ++ rest)) ≡ some (s ++ 13 ∷ [], rest)
unfolding read_line
read_line-digits [] rest h = refl
read_line-digits (c ∷ s) rest h = ground (arith, h.0, read_line-digits s rest h.1)

trim_return-last : (s : Bytes) → trim_return (s ++ 13 ∷ []) ≡ s
unfolding trim_return
trim_return-last [] = refl
trim_return-last (c ∷ []) = refl
trim_return-last (c ∷ (e ∷ s)) = ap (λ t. c ∷ t) (trim_return-last (e ∷ s))

read_full-append : (s rest : Bytes) → read_full (length s) (s ++ rest) ≡ some (s, rest)
unfolding read_full
read_full-append [] rest = refl
read_full-append (c ∷ s) rest = ground (arith, read_full-append s rest)

take-append : (s rest : Bytes) → take (length s) (s ++ rest) ≡ s
take-append [] rest = refl
take-append (c ∷ s) rest = ap (λ t. c ∷ t) (take-append s rest)

-- The value that a command is.
abbrev pub texts : List Bytes → Replies
texts [] = end
texts (part ∷ parts) = item (text part) (texts parts)

-- A length that an int64 holds.
abbrev pub Fits : Bytes → Type 0
Fits part = length part + 2 ≤ max_buffer

read-write_bulk :
    (fuel : ℕ) (part rest : Bytes)
    → Fits part
    → read (suc fuel) (write_bulk part ++ rest) ≡ ok (text part) rest
unfolding read read_value read_bulk write_bulk
read-write_bulk fuel part rest h =
    let n = itoa (length part) in
    let shape : (n ++ (crlf ++ (part ++ crlf))) ++ rest ≡ n ++ (crlf ++ (part ++ (crlf ++ rest))) =
      append_assoc n (crlf ++ (part ++ crlf)) rest
      ∙ ap (λ s. n ++ (crlf ++ s)) (append_assoc part crlf rest) in
    let line = read_line-digits n (part ++ (crlf ++ rest)) (itoa-digits (length part)) in
    let size : length (part ++ crlf) ≡ length part + 2 = length-append part crlf in
    let buf : read_full (length part + 2) (part ++ (crlf ++ rest)) ≡ some (part ++ crlf, rest) =
      ap (λ k. read_full k (part ++ (crlf ++ rest))) (sym size)
      ∙ ap (read_full (length (part ++ crlf))) (sym (append_assoc part crlf rest))
      ∙ read_full-append (part ++ crlf) rest in
    ground (
      arith,
      shape,
      line,
      trim_return-last n,
      parse_int-itoa (length part) (omega (arith, h)),
      h,
      buf,
      take-append part crlf,
    )

read_items-write_parts :
    (fuel : ℕ) (parts : List Bytes) (rest : Bytes)
    → All Fits parts
    → read_items (read (suc fuel)) (length parts) (write_parts parts ++ rest)
      ≡ ok (texts parts) rest
unfolding read_items write_parts
read_items-write_parts fuel [] rest h = refl
read_items-write_parts fuel (part ∷ parts) rest h = ground (
  arith,
  append_assoc (write_bulk part) (write_parts parts) rest,
  read-write_bulk fuel part (write_parts parts ++ rest) h.0,
  read_items-write_parts fuel parts rest h.1,
)

read-write_command :
    (fuel : ℕ) (parts : List Bytes) (rest : Bytes)
    → length parts ≤ max_values
    → All Fits parts
    → read (suc (suc fuel)) (write_command parts ++ rest) ≡ ok (array (texts parts)) rest
unfolding read read_value read_array write_command
read-write_command fuel parts rest few h =
    let n = itoa (length parts) in
    let shape : (n ++ (crlf ++ write_parts parts)) ++ rest
        ≡ n ++ (crlf ++ (write_parts parts ++ rest)) =
      append_assoc n (crlf ++ write_parts parts) rest in
    let line = read_line-digits n (write_parts parts ++ rest) (itoa-digits (length parts)) in
    let items = read_items-write_parts fuel parts rest h in
    ground (
      arith,
      shape,
      line,
      trim_return-last n,
      parse_int-itoa (length parts) (omega (arith, few)),
      few,
      items,
    )

-- A command that is written to the connection, followed by any bytes, is read by the reader of
-- responses as the array of its parts, and leaves those bytes, where the reader can allocate the
-- parts: they are no more than 2^44, and none is longer than 2^48 bytes with its line end.
pub read_response-write_command :
    (parts : List Bytes) (rest : Bytes)
    → length parts ≤ max_values
    → All Fits parts
    → read_response (write_command parts ++ rest) ≡ ok (array (texts parts)) rest
unfolding read_response write_command write_parts
read_response-write_command parts rest few h =
    read-write_command (length ((itoa (length parts) ++ (crlf ++ write_parts parts)) ++ rest)) parts
      rest few h
