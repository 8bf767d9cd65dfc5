-- ===== src/Queue/Resp/Decimal.antt =====
-- internal/queue/redis.go: the lengths of a command, printed and read.
use notification_service.Base.{
  ℕ, zero, suc, ◌+◌, ◌/◌, ◌%◌, ◌<◌, ◌≤◌, ◌≡◌, ◌≢◌, refl, true, some, [], ◌∷◌, All, arith, ltb, inl,
  inr, Bool-cases,
}
use notification_service.Queue.Resp.{Bytes, print, itoa, is_digit, scan, parse_int, max_int64, pos}

scan-print : (fuel n : ℕ) (out : Bytes) → n < fuel → scan (print fuel n out) 0 ≡ scan out n
unfolding scan print
scan-print zero n out h = absurd (omega (arith, h))
scan-print (suc fuel) n out h = elim (Bool-cases (ltb n 10)) [
  | inl e ↦ ground (arith, e)
  | inr e ↦ ground (arith, e, h, scan-print fuel (n / 10) ((b'0' + n % 10) ∷ out))
]

print-digits :
    (fuel n : ℕ) (out : Bytes)
    → All (λ c. is_digit c ≡ true) out
    → All (λ c. is_digit c ≡ true) (print fuel n out)
unfolding print
print-digits zero n out h = h
print-digits (suc fuel) n out h = elim (Bool-cases (ltb n 10)) [
  | inl e ↦ ground (arith, e, h)
  | inr e ↦
      let last : is_digit (b'0' + n % 10) ≡ true = ground arith in
      ground (arith, e, print-digits fuel (n / 10) ((b'0' + n % 10) ∷ out) (last, h))
]

print-ne-nil : (fuel n : ℕ) (out : Bytes) → n < fuel → print fuel n out ≢ []
unfolding print
print-ne-nil zero n out h = absurd (omega (arith, h))
print-ne-nil (suc fuel) n out h = elim (Bool-cases (ltb n 10)) [
  | inl e ↦ ground (arith, e)
  | inr e ↦
      let rest = print-ne-nil fuel (n / 10) ((b'0' + n % 10) ∷ out) (ground (arith, e, h)) in
      ground (arith, e, rest)
]

pub itoa-digits : (n : ℕ) → All (λ c. is_digit c ≡ true) (itoa n)
unfolding itoa
itoa-digits n = print-digits (suc n) n [] tt

-- A sign is no digit, so digits are read as they stand.
parse_int-digits :
    (s : Bytes) (n : ℕ)
    → s ≢ []
    → All (λ c. is_digit c ≡ true) s
    → scan s 0 ≡ some n
    → n ≤ max_int64
    → parse_int s ≡ some (pos n)
unfolding parse_int
parse_int-digits [] n some_digit digits read fits = absurd (some_digit refl)
parse_int-digits (c ∷ s) n some_digit digits read fits = ground (arith, digits.0, read, fits)

pub parse_int-itoa : (n : ℕ) → n ≤ max_int64 → parse_int (itoa n) ≡ some (pos n)
unfolding itoa scan
parse_int-itoa n fits =
    parse_int-digits (print (suc n) n []) n (print-ne-nil (suc n) n [] (omega arith))
      (itoa-digits n) (scan-print (suc n) n [] (omega arith)) fits
