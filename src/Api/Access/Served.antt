-- ===== src/Api/Access/Served.antt =====
-- Who is served by internal/api/api.go and internal/ws/websocket.go.
use langley.Prelude.{
  ℕ, ◌≡◌, ◌≢◌, refl, ap, ◌↔◌, ◌⊎◌, inl, inr, Bool, true, false, not, [], ◌∷◌, ◌++◌, Option, none,
  some, Bytes, codes, beq_iff, beq_ne, is_empty, if◌then◌else◌, arith,
}
use langley.Go.Strings.{has_prefix}
use langley.Proxy.Headers.{get}
use langley.Ws.{is_localhost_origin}
use langley.Api.Access.{
  WebRequest, Verdict, refused, serves, has_cookie, has_bearer, is_same_site, auth_middleware,
  ws_handler,
}

-- the request is handed to the next handler
abbrev pub IsServed : Verdict → Type 0
IsServed (serves cookie) = Unit {0}
IsServed (refused status message) = ⊥

-- what lets a request through
abbrev pub MayEnter : Bytes → WebRequest → Type 0
MayEnter token r =
    (r.query (codes "token") ≡ [])
    × ((has_cookie r.cookie token ≡ true)
        ⊎ ((get r.header (codes "Authorization") ≡ codes "Bearer " ++ token)
            ⊎ (((get r.header (codes "Origin") ≢ [])
                  × (is_localhost_origin (get r.header (codes "Origin")) ≡ true))
                ⊎ ((get r.header (codes "Origin") ≡ []) × (is_same_site r.header ≡ true)))))

is_empty→nil : (s : Bytes) → is_empty s ≡ true → s ≡ []
is_empty→nil [] e = refl
is_empty→nil (c ∷ s) e = cc e

not_empty→cons : (s : Bytes) → is_empty s ≡ false → s ≢ []
not_empty→cons [] e = cc e
not_empty→cons (c ∷ s) e = λ p. cc p

nil→is_empty : (s : Bytes) → s ≡ [] → is_empty s ≡ true
nil→is_empty s p = ap is_empty p

cons→not_empty : (s : Bytes) → s ≢ [] → is_empty s ≡ false
cons→not_empty [] h = absurd (h refl)
cons→not_empty (c ∷ s) h = refl

-- the tests of the middleware, that let a request through
abbrev Passes : Bool → Bool → Bool → Bool → Bool → Bool → Type 0
Passes no_token cookie bearer no_origin local same_site =
    (no_token ≡ true)
    × ((cookie ≡ true)
        ⊎ ((bearer ≡ true)
            ⊎ (((no_origin ≡ false) × (local ≡ true)) ⊎ ((no_origin ≡ true) × (same_site ≡ true)))))

-- the verdict of the tests
abbrev verdict : Bool → Bool → Bool → Bool → Bool → Bool → Bytes → Verdict
verdict no_token cookie bearer no_origin local same_site token =
    if not no_token
    then refused 400 (codes "Token in URL is not allowed. Use Authorization header instead.")
    else if cookie
    then serves none
    else if bearer
    then serves none
    else if not no_origin
    then if not local
      then refused 403 (codes "Forbidden: non-localhost origin")
      else serves (some token)
    else if same_site
    then serves (some token)
    else refused 401 (codes "Unauthorized")

verdict→Passes :
    (n c b o l s : Bool) (token : Bytes) → IsServed (verdict n c b o l s token) → Passes n c b o l s
verdict→Passes false c b o l s token h = absurd h
verdict→Passes true true b o l s token h = (refl, inl refl)
verdict→Passes true false true o l s token h = (refl, inr (inl refl))
verdict→Passes true false false false true s token h = (refl, inr (inr (inl (refl, refl))))
verdict→Passes true false false false false s token h = absurd h
verdict→Passes true false false true l true token h = (refl, inr (inr (inr (refl, refl))))
verdict→Passes true false false true l false token h = absurd h

Passes→verdict :
    (n c b o l s : Bool) (token : Bytes) → Passes n c b o l s → IsServed (verdict n c b o l s token)
Passes→verdict false c b o l s token (p, h) = cc p
Passes→verdict true true b o l s token h = tt
Passes→verdict true false true o l s token h = tt
Passes→verdict true false false false true s token h = tt
Passes→verdict true false false true l true token h = tt
Passes→verdict true false false false false s token (p, inl q) = cc q
Passes→verdict true false false false false s token (p, inr (inl q)) = cc q
Passes→verdict true false false false false s token (p, inr (inr (inl (q, r)))) = cc r
Passes→verdict true false false false false s token (p, inr (inr (inr (q, r)))) = cc q
Passes→verdict true false false true l false token (p, inl q) = cc q
Passes→verdict true false false true l false token (p, inr (inl q)) = cc q
Passes→verdict true false false true l false token (p, inr (inr (inl (q, r)))) = cc q
Passes→verdict true false false true l false token (p, inr (inr (inr (q, r)))) = cc r

-- the tests of a request
abbrev PassesOf : Bytes → WebRequest → Type 0
PassesOf token r =
    Passes (is_empty (r.query (codes "token"))) (has_cookie r.cookie token)
      (has_bearer r.header token) (is_empty (get r.header (codes "Origin")))
      (is_localhost_origin (get r.header (codes "Origin"))) (is_same_site r.header)

Passes→MayEnter : (token : Bytes) (r : WebRequest) → PassesOf token r → MayEnter token r
Passes→MayEnter token r (n, inl c) = (is_empty→nil _ n, inl c)
Passes→MayEnter token r (n, inr (inl b)) = (is_empty→nil _ n, inr (inl ((beq_iff _ _).0 b)))
Passes→MayEnter token r (n, inr (inr (inl (o, l)))) =
    (is_empty→nil _ n, inr (inr (inl (not_empty→cons _ o, l))))
Passes→MayEnter token r (n, inr (inr (inr (o, s)))) =
    (is_empty→nil _ n, inr (inr (inr (is_empty→nil _ o, s))))

MayEnter→Passes : (token : Bytes) (r : WebRequest) → MayEnter token r → PassesOf token r
MayEnter→Passes token r (n, inl c) = (nil→is_empty _ n, inl c)
MayEnter→Passes token r (n, inr (inl b)) = (nil→is_empty _ n, inr (inl ((beq_iff _ _).1 b)))
MayEnter→Passes token r (n, inr (inr (inl (o, l)))) =
    (nil→is_empty _ n, inr (inr (inl (cons→not_empty _ o, l))))
MayEnter→Passes token r (n, inr (inr (inr (o, s)))) =
    (nil→is_empty _ n, inr (inr (inr (nil→is_empty _ o, s))))

-- A request is served exactly when its URL has no token and it has the token in its session cookie
-- or in its Authorization header, or an origin that passes for local, or, without an origin, a
-- Sec-Fetch-Site of same-origin or same-site.
pub auth_middleware_iff :
    (token : Bytes) (r : WebRequest) → IsServed (auth_middleware token r) ↔ MayEnter token r
unfolding auth_middleware
auth_middleware_iff token r = (
  λ h. Passes→MayEnter token r (verdict→Passes _ _ _ _ _ _ token h),
  λ h. Passes→verdict _ _ _ _ _ _ token (MayEnter→Passes token r h),
)

has_prefix-append : (p s : Bytes) → has_prefix (p ++ s) p ≡ true
unfolding has_prefix
has_prefix-append [] [] = refl
has_prefix-append [] (c ∷ s) = refl
has_prefix-append (c ∷ p) s = let e = has_prefix-append p s in ground (arith, e)

localhost_prefix : (s : Bytes) → is_localhost_origin (codes "http://localhost" ++ s) ≡ true
unfolding is_localhost_origin
localhost_prefix s = rw (has_prefix-append (codes "http://localhost") s) refl

-- Any origin that begins with http://localhost, that of another host such as
-- http://localhost.example.com too, is served without a token, and is given the token as its session
-- cookie; only a token in the URL, or one that it has already, prevents this.
pub auth_middleware-gives_token :
    (token : Bytes) (r : WebRequest) (s : Bytes)
    → r.query (codes "token") ≡ []
    → has_cookie r.cookie token ≡ false
    → has_bearer r.header token ≡ false
    → get r.header (codes "Origin") ≡ codes "http://localhost" ++ s
    → auth_middleware token r ≡ serves (some token)
unfolding auth_middleware
auth_middleware-gives_token token r s q c b o = rw (q, c, b, o, localhost_prefix s) refl

-- The websocket handler refuses a request without the token: unless its cookie, its Authorization
-- header or its URL has the token, the answer is 401 or, for an origin that is not local, 403.
pub ws_handler-refuses :
    (token : Bytes) (r : WebRequest)
    → has_cookie r.cookie token ≡ false
    → get r.header (codes "Authorization") ≢ codes "Bearer " ++ token
    → r.query (codes "token") ≢ token
    → (ws_handler token r ≡ some 401) ⊎ (ws_handler token r ≡ some 403)
unfolding ws_handler
ws_handler-refuses token r c b q = rw (c, beq_ne _ _ b, beq_ne _ _ q) (by_origin _)
  where
    by_origin :
        (foreign : Bool)
        → (◌≡◌ {A = Option ℕ} (if foreign then some 403 else some 401) (some 401))
          ⊎ (◌≡◌ {A = Option ℕ} (if foreign then some 403 else some 401) (some 403))
    by_origin true = inr refl
    by_origin false = inl refl
