-- ===== src/Delivery/Retry/Backoff.antt =====
-- internal/delivery/service.go: the doubling loop in closed form.
use native.Mathlib.Nat.{pow-suc, one-le-pow}
use notification_service.Base.{ℕ, zero, suc, ◌*◌, ◌^◌, ◌≤◌, ◌≡◌, refl, arith, leb, if◌then◌else◌}
use notification_service.Delivery.Retry.{double_up_to}

double_up_to-suc :
    (limit rounds delay : ℕ)
    → double_up_to limit (suc rounds) delay
      ≡ (if leb limit (delay * 2) then limit else double_up_to limit rounds (delay * 2))
unfolding double_up_to
double_up_to-suc limit rounds delay = refl

-- A limit that one doubling reaches is reached by any further ones.
settle_limit :
    (limit delay q : ℕ)
    → 1 ≤ q
    → (if leb limit (delay * 2)
        then limit
        else (if leb limit (delay * 2 * q) then limit else delay * 2 * q))
      ≡ (if leb limit (delay * (q * 2)) then limit else delay * (q * 2))
settle_limit limit delay q h =
    let same : delay * 2 * q ≡ delay * (q * 2) = omega arith in
    let more : delay * 2 ≤ delay * 2 * q = grind arith in ground (arith, same, more)

-- The backoff loop, which doubles the delay round by round and stops at the limit, gives for one
-- or more rounds the delay times a power of two, or the limit if that reaches it.
pub double_up_to_lem :
    (limit rounds delay : ℕ)
    → double_up_to limit (suc rounds) delay
      ≡ (if leb limit (delay * 2 ^ suc rounds) then limit else delay * 2 ^ suc rounds)
double_up_to_lem limit zero delay = unfold double_up_to in refl
double_up_to_lem limit (suc n) delay =
    rw (double_up_to-suc, double_up_to_lem limit n (delay * 2), pow-suc 2 (suc n))
      (settle_limit limit delay (2 ^ suc n) (one-le-pow (suc n) 2 (omega arith)))
