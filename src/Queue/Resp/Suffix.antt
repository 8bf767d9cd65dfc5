-- ===== src/Queue/Resp/Suffix.antt =====
-- internal/queue/redis.go: what the reader of responses leaves unread, and the lengths that it meets.
use notification_service.Base.{
  ℕ, zero, suc, ◌≤◌, ◌<◌, ◌≡◌, sym, ap, ◌∙◌, Bool, true, false, ◌||◌, Option, none, some, [], ◌∷◌,
  ◌++◌, arith, length, length-append, inl, inr, Option-cases, Bool-cases, eqb, ltb,
}
use mathlib.Core.List.{append_assoc}
use notification_service.Queue.Resp.{
  Bytes, ℤ, pos, negsuc, max_values, parse_int, read_line, trim_return, read_full,
}

-- The bytes that one stretch of bytes ends in.
abbrev pub IsTail : Bytes → Bytes → Type 0
IsTail rest s = (before : Bytes) × (s ≡ before ++ rest)

pub IsTail-trans : (a b c : Bytes) → IsTail a b → IsTail b c → IsTail a c
IsTail-trans a b c (xs, e) (ys, f) =
    (ys ++ xs, f ∙ ap (λ t. ys ++ t) e ∙ sym (append_assoc ys xs a))

pub IsTail-length : (rest s : Bytes) → IsTail rest s → length rest ≤ length s
IsTail-length rest s (before, e) = rw e (omega (arith, length-append before rest))

pub read_line-lt : (s line rest : Bytes) → read_line s ≡ some (line, rest) → length rest < length s
unfolding read_line
read_line-lt [] line rest h = cc h
read_line-lt (c ∷ s) line rest h = elim (Option-cases (read_line s)) [
  | inl e ↦ ground (arith, e, h)
  | inr ((l, r), e) ↦ ground (arith, e, h, read_line-lt s l r e)
]

cons-IsTail : (c : ℕ) (rest s : Bytes) → IsTail rest s → IsTail rest (c ∷ s)
cons-IsTail c rest s (before, e) = (c ∷ before, ap (λ t. c ∷ t) e)

pub read_full-IsTail :
    (n : ℕ) (s buf rest : Bytes) → read_full n s ≡ some (buf, rest) → IsTail rest s
unfolding read_full
read_full-IsTail zero s buf rest h = ([], ground (arith, h))
read_full-IsTail (suc n) [] buf rest h = cc h
read_full-IsTail (suc n) (c ∷ s) buf rest h = elim (Option-cases (read_full n s)) [
  | inl e ↦ let never : true ≡ false = ground (arith, e, h) in cc never
  | inr ((b, r), e) ↦
      let same : r ≡ rest = ground (arith, e, h) in
      cons-IsTail c rest s (read_full-IsTail n s b rest (e ∙ ap (λ t. some (b, t)) same))
]

pub read_line-IsTail : (s line rest : Bytes) → read_line s ≡ some (line, rest) → IsTail rest s
unfolding read_line
read_line-IsTail [] line rest h = cc h
read_line-IsTail (c ∷ s) line rest h = elim (Bool-cases (eqb c 10)) [
  | inl stop ↦ (c ∷ [], ground (arith, stop, h))
  | inr on ↦ elim (Option-cases (read_line s)) [
    | inl e ↦ let never : true ≡ false = ground (arith, e, h, on) in cc never
    | inr ((l, r), e) ↦
        let same : r ≡ rest = ground (arith, e, h, on) in
        cons-IsTail c rest s (read_line-IsTail s l rest (e ∙ ap (λ t. some (l, t)) same))
  ]
]

-- A line that holds a number above the values that an array may have.
abbrev is_above : Option ℤ → Bool
is_above none = false
is_above (some (negsuc n)) = false
is_above (some (pos n)) = ltb max_values n

abbrev pub is_huge : Bytes → Bool
is_huge line = is_above (parse_int line)

abbrev opens_huge : Option (Bytes × Bytes) → Bool
opens_huge none = false
opens_huge (some (line, rest)) = is_huge (trim_return line)

-- Such a line stands somewhere after a byte.
pub announces : Bytes → Bool
announces [] = false
announces (c ∷ s) = opens_huge (read_line s) || announces s

pub announces-append :
    (before rest : Bytes) → announces rest ≡ true → announces (before ++ rest) ≡ true
unfolding announces
announces-append [] rest h = h
announces-append (c ∷ before) rest h = ground (arith, announces-append before rest h)

pub announces-IsTail : (rest s : Bytes) → IsTail rest s → announces rest ≡ true → announces s ≡ true
announces-IsTail rest s (before, e) h = rw e (announces-append before rest h)

pub announces-line :
    (c : ℕ) (s line rest : Bytes)
    → read_line s ≡ some (line, rest)
    → is_huge (trim_return line) || announces rest ≡ true
    → announces (c ∷ s) ≡ true
unfolding announces
announces-line c s line rest e h = elim (Bool-cases (announces rest)) [
  | inl later ↦
      let there = announces-IsTail rest s (read_line-IsTail s line rest e) later in
      ground (arith, there)
  | inr never_later ↦ ground (arith, e, h, never_later)
]
