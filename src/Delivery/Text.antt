-- ===== src/Delivery/Text.antt =====
-- What internal/delivery/service.go uses of Go's strings package: strings.TrimSpace, and the test
-- that a trimmed text is empty.
use Prim.Native.Char.{code}
use notification_service.Base.{ℕ, String, Bool, true, ◌&&◌, ◌||◌, leb, eqb, if◌then◌else◌}

-- unicode.IsSpace.
is_space : ℕ → Bool
is_space c =
    (leb 9 c && leb c 13)
    || (eqb c 32
        || (eqb c 0x85
            || (eqb c 0xa0
                || (eqb c 0x1680
                    || ((leb 0x2000 c && leb c 0x200a)
                        || (eqb c 0x2028
                            || (eqb c 0x2029
                                || (eqb c 0x202f || (eqb c 0x205f || eqb c 0x3000)))))))))

-- strings.TrimSpace(s) == "".
unfoldable pub is_blank : String → Bool
unfolding is_space
is_blank String.[] = true
is_blank (String.◌∷◌ c s) = is_space (code c) && is_blank s

trim_right : String → String
trim_right String.[] = String.[]
trim_right (String.◌∷◌ c s) =
    let rest = trim_right s in
    if is_space (code c) && is_blank s then String.[] else String.◌∷◌ c rest

-- strings.TrimSpace.
unfoldable pub trim_space : String → String
unfolding trim_right is_space
trim_space String.[] = String.[]
trim_space (String.◌∷◌ c s) =
    let rest = trim_space s in if is_space (code c) then rest else trim_right (String.◌∷◌ c s)
