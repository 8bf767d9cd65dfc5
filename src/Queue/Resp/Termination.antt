-- ===== src/Queue/Resp/Termination.antt =====
-- internal/queue/redis.go: readResponseLocked calls itself for the values of an array; how often.
use notification_service.Base.{
  ℕ, zero, suc, ◌+◌, ◌≤◌, ◌<◌, ◌≡◌, refl, sym, subst, ◌⊎◌, Bool, true, ◌||◌, [], ◌∷◌, arith, length,
  inl, inr, Option-cases, Bool-cases, ltb, ap, take,
}
use notification_service.Queue.Resp.{
  ReadError, Bytes, pos, negsuc, max_values, max_buffer, panicked, Reply, Replies, Outcome, ok,
  failed, out_of_fuel, parse_int, read_line, trim_return, read_full, read_integer, read_bulk,
  read_items, read_array, read_value, read, read_response,
}
use notification_service.Queue.Resp.Suffix.{
  IsTail, IsTail-trans, IsTail-length, read_line-lt, read_full-IsTail, read_line-IsTail, is_huge,
  announces, announces-IsTail, announces-line,
}

-- A value and what the bytes end in, an error, or, where lengths are so loud, a panic.
abbrev pub Ends : {A : Type 0} → Bool → Bytes → Outcome A → Type 0
Ends loud s (ok a rest) = IsTail rest s
Ends loud s (failed e) = Unit
Ends loud s panicked = loud ≡ true
Ends loud s out_of_fuel = ⊥

Outcome-cases :
    {A : Type 0} (loud : Bool) (s : Bytes) (o : Outcome A)
    → Ends loud s o
    → (((e : ReadError) × (o ≡ failed e)) ⊎ ((o ≡ panicked) × (loud ≡ true)))
      ⊎ ((a : A) × (rest : Bytes) × (o ≡ ok a rest) × IsTail rest s)
Outcome-cases loud s (failed e) h = inl (inl (e, refl))
Outcome-cases loud s panicked h = inl (inr (refl, h))
Outcome-cases loud s (ok a rest) h = inr (a, rest, refl, h)
Outcome-cases loud s out_of_fuel h = absurd h

module _ {A : Type 0} (loud : Bool) (s : Bytes) (o : Outcome A) where
  failed-Ends : (e : ReadError) → o ≡ failed e → Ends loud s o
  failed-Ends e h = subst (Ends loud s) (sym h) tt

  panicked-Ends : o ≡ panicked → loud ≡ true → Ends loud s o
  panicked-Ends h l = subst (Ends loud s) (sym h) l

  ok-Ends : (a : A) (rest : Bytes) → o ≡ ok a rest → IsTail rest s → Ends loud s o
  ok-Ends a rest h tail = subst (Ends loud s) (sym h) tail

weaken-Ends :
    {A : Type 0} (loud louder : Bool) (s t : Bytes) (o : Outcome A)
    → (loud ≡ true → louder ≡ true)
    → IsTail s t
    → Ends loud s o
    → Ends louder t o
weaken-Ends loud louder s t (ok a rest) h k e = IsTail-trans rest s t e k
weaken-Ends loud louder s t (failed e) h k _ = tt
weaken-Ends loud louder s t panicked h k e = h e
weaken-Ends loud louder s t out_of_fuel h k e = absurd e

module _ (next : Bytes → Outcome Reply) (bound : ℕ)
    (ends : (s : Bytes) → length s ≤ bound → Ends (announces s) s (next s)) where
  read_items-Ends :
      (count : ℕ) (s : Bytes) → length s ≤ bound → Ends (announces s) s (read_items next count s)
  unfolding read_items
  read_items-Ends zero s h = ([], refl)
  read_items-Ends (suc count) s h =
      let all = read_items next (suc count) s in
      elim (Outcome-cases (announces s) s (next s) (ends s h)) [
        | inl (inl (e, failure)) ↦ failed-Ends (announces s) s all e (ground (arith, failure))
        | inl (inr (panic, loud)) ↦ panicked-Ends (announces s) s all (ground (arith, panic)) loud
        | inr (r, rest, one, tail) ↦
            let le = IsTail-length rest s tail in
            elim (Outcome-cases (announces rest) rest (read_items next count rest)
              (read_items-Ends count rest (omega (arith, h, le)))) [
                | inl (inl (e, failure)) ↦
                    failed-Ends (announces s) s all e (ground (arith, one, failure))
                | inl (inr (panic, loud)) ↦
                    panicked-Ends (announces s) s all (ground (arith, one, panic))
                      (announces-IsTail rest s tail loud)
                | inr (rs, rest', others, tail') ↦
                    ok-Ends (announces s) s all (Replies.item r rs) rest'
                      (ground (arith, one, others)) (IsTail-trans rest' rest s tail' tail)
              ]
      ]

  -- The line and what follows it.
  abbrev loudness : Bytes → Bytes → Bool
  loudness line rest = is_huge line || announces rest

  read_array-Ends :
      (line rest : Bytes)
      → length rest ≤ bound
      → Ends (loudness line rest) rest (read_array next line rest)
  unfolding read_array
  read_array-Ends line rest h =
      let loud = loudness line rest in
      let it = read_array next line rest in
      elim (Option-cases (parse_int line)) [
        | inl e ↦ ground (arith, e)
        | inr (negsuc n, e) ↦ ok-Ends loud rest it Reply.nil rest (ground (arith, e)) ([], refl)
        | inr (pos count, e) ↦ elim (Bool-cases (ltb max_values count)) [
          | inl huge ↦
              panicked-Ends loud rest it (ground (arith, e, huge)) (ground (arith, e, huge))
          | inr fine ↦
              elim (Outcome-cases (announces rest) rest (read_items next count rest)
                (read_items-Ends count rest h)) [
                  | inl (inl (f, failure)) ↦
                      failed-Ends loud rest it f (ground (arith, e, fine, failure))
                  | inl (inr (panic, later)) ↦
                      panicked-Ends loud rest it (ground (arith, e, fine, panic))
                        (ground (arith, later))
                  | inr (rs, rest', items, tail) ↦
                      ok-Ends loud rest it (Reply.array rs) rest' (ground (arith, e, fine, items))
                        tail
                ]
        ]
      ]

  read_bulk-Ends : (line rest : Bytes) → Ends (loudness line rest) rest (read_bulk line rest)
  unfolding read_bulk
  read_bulk-Ends line rest =
      let loud = loudness line rest in
      let it = read_bulk line rest in
      elim (Option-cases (parse_int line)) [
        | inl e ↦ ground (arith, e)
        | inr (negsuc n, e) ↦ ok-Ends loud rest it Reply.nil rest (ground (arith, e)) ([], refl)
        | inr (pos size, e) ↦ elim (Bool-cases (ltb max_buffer (size + 2))) [
          | inl huge ↦
              panicked-Ends loud rest it (ground (arith, e, huge)) (ground (arith, e, huge))
          | inr fine ↦ elim (Option-cases (read_full (size + 2) rest)) [
            | inl f ↦ ground (arith, e, f, fine)
            | inr ((buf, rest'), f) ↦
                ok-Ends loud rest it (Reply.text (take size buf)) rest' (ground (arith, e, f, fine))
                  (read_full-IsTail (size + 2) rest buf rest' f)
          ]
        ]
      ]

  read_value-Ends :
      (prefix : ℕ) (line rest : Bytes)
      → length rest ≤ bound
      → Ends (loudness line rest) rest (read_value next prefix line rest)
  unfolding read_value read_integer
  read_value-Ends prefix line rest h =
      let here : IsTail rest rest = ([], refl) in
      ground (arith, here, read_bulk-Ends line rest, read_array-Ends line rest h)

-- With fuel for each byte and one more, the reader ends.
read-Ends : (fuel : ℕ) (s : Bytes) → length s < fuel → Ends (announces s) s (read fuel s)
unfolding read
read-Ends zero s h = absurd (omega (arith, h))
read-Ends (suc fuel) [] h = tt
read-Ends (suc fuel) (prefix ∷ s) h = elim (Option-cases (read_line s)) [
  | inl e ↦ ground (arith, e)
  | inr ((line, rest), e) ↦
      let lt = read_line-lt s line rest e in
      let (before, joined) = read_line-IsTail s line rest e in
      let value =
        read_value-Ends (read fuel) (length rest)
          (λ t le. read-Ends fuel t (omega (arith, le, lt, h))) prefix (trim_return line) rest
          (omega arith) in
      let same : read_value (read fuel) prefix (trim_return line) rest
          ≡ read (suc fuel) (prefix ∷ s) =
        ground (arith, e) in
      subst (Ends (announces (prefix ∷ s)) (prefix ∷ s)) same (
        weaken-Ends (is_huge (trim_return line) || announces rest) (announces (prefix ∷ s)) rest
          (prefix ∷ s) (read_value (read fuel) prefix (trim_return line) rest)
          (announces-line prefix s line rest e) (prefix ∷ before, ap (λ t. prefix ∷ t) joined)
          value)
]

-- On any bytes, with one call of the reader allowed for each byte and one more, the reader of
-- responses ends: in a value, with what it leaves unread being what the bytes end in; in an error;
-- or in the panic of an allocation, and then a line with a number above 2^44 stands somewhere in
-- the bytes.
pub read_response-Ends : (s : Bytes) → Ends (announces s) s (read_response s)
unfolding read_response
read_response-Ends s = read-Ends (suc (length s)) s (omega arith)
