-- ===== src/Api/Router/Guarded.antt =====
-- internal/http/router.go: what is reached without the administrators' token.
use notification_service.Base.{
  ◌≡◌, refl, String, Bool, true, false, ◌&&◌, ◌||◌, ◌==◌, not, some, List, [], ◌∷◌, any, map, arith,
  ◌⊎◌, inl, inr, Bool-cases, ℕ, ◌<◌, eqb, if◌then◌else◌,
}
use notification_service.Base.Table.{find, find_key}
use notification_service.Delivery.Text.{is_blank}
use notification_service.Api.{Env, World, too_large}
use notification_service.Api.Router.{
  Request, Route, RouterDeps, routes, provided, unauthorized, is_authorized, guard, dispatch,
  route_request, is_too_long,
}

-- The routes that are meant for everyone: liveness, readiness and the submission of a notification.
abbrev pub is_public : String → Bool
is_public pattern =
    pattern == "GET /healthz"
    || pattern == "GET /readyz"
    || pattern == "GET /v1/health"
    || pattern == "GET /v1/readiness"
    || pattern == "POST /v1/notifications"

abbrev is_open : Route → Bool
is_open r = not r.is_admin && not (is_public r.pattern)

none_open : any is_open routes ≡ false
unfolding routes
none_open = refl

any-find {ℓ} :
    {A : Type ℓ} (p q : A → Bool) (xs : List A) (x : A)
    → any p xs ≡ false
    → find q xs ≡ some x
    → p x ≡ false
unfolding find
any-find p q [] x h e = cc
any-find p q (y ∷ ys) x h e = ground (arith, h, e, any-find p q ys x)

find-of_any {ℓ} :
    {A : Type ℓ} (p : A → Bool) (xs : List A) → any p xs ≡ true → (x : A) × (find p xs ≡ some x)
unfolding find
find-of_any p [] h = cc
find-of_any p (x ∷ xs) h = elim (Bool-cases (p x)) [
  | inl e ↦ (x, rw e refl)
  | inr e ↦
      let (y, there) = find-of_any p xs (ground (arith, h, e)) in (y, ground (arith, e, there))
]

-- A body of a POST, PUT or PATCH that announces more bytes than the limit: 1 MiB where none is
-- configured.
abbrev pub limit_of : RouterDeps → ℕ
limit_of deps = if eqb deps.max_request_body_bytes 0 then 1048576 else deps.max_request_body_bytes

abbrev pub HasLongBody : RouterDeps → Request → Type 0
HasLongBody deps req =
    (req.has_body ≡ true)
    × ((req.method == "POST" || req.method == "PUT" || req.method == "PATCH") ≡ true)
    × (limit_of deps < req.content_length)

-- Where a token that is not blank is configured, and the digest of the request's credentials is
-- not that of the token, a request whose pattern is registered and is none of the five public ones
-- changes nothing and is answered 413 if it is a POST, PUT or PATCH with a body that announces
-- more bytes than the limit (1 MiB where none is set), and 401 otherwise.
pub route_request-guarded :
    (deps : RouterDeps) (env : Env) (req : Request) (w : World) (pattern : String)
    → deps.mux (map (λ r. r.pattern) routes) req ≡ some pattern
    → any (λ r. r.pattern == pattern) routes ≡ true
    → is_public pattern ≡ false
    → is_blank deps.admin_token ≡ false
    → (deps.sha256 (provided req) == deps.sha256 deps.admin_token) ≡ false
    → (HasLongBody deps req × (route_request deps env req w ≡ (w, too_large)))
      ⊎ ((¬ HasLongBody deps req) × (route_request deps env req w ≡ (w, unauthorized)))
unfolding route_request dispatch guard is_authorized is_too_long
route_request-guarded deps env req w pattern matched registered hidden set wrong =
    let (route, found) = find-of_any (λ r. r.pattern == pattern) routes registered in
    let named = find_key (λ r. r.pattern) pattern routes route found in
    let kept = any-find is_open (λ r. r.pattern == pattern) routes route none_open found in
    let public' : is_public route.pattern ≡ false = rw named hidden in
    let admin : route.is_admin ≡ true = ground (arith, kept, public') in
    elim (Bool-cases (is_too_long deps req)) [
      | inl long ↦ inl ((ground arith, ground arith, ground arith), ground arith)
      | inr short ↦ inr (
        λ (body, method, long). let never : true ≡ false = ground arith in cc never,
        ground (arith, matched, found, admin, set, wrong),
      )
    ]
