-- ===== src/Api/Access.antt =====
-- The middleware of internal/api/api.go: CORS, the limit on the rate, and authentication; and the
-- authentication of the websocket handler of internal/ws/websocket.go. A request has its query, its
-- session cookie and its header.
pub mod Served
use langley.Prelude.{
  ℕ, Bool, true, false, not, ◌&&◌, ◌||◌, List, [], ◌∷◌, ◌++◌, Option, none, some, Bytes, codes, beq,
  is_empty, if◌then◌else◌,
}
use langley.Go.Strings.{has_prefix}
use langley.Proxy.Headers.{Header, get}
use langley.Ws.{is_localhost_origin}
use langley.Api.RateLimit.{RateLimiter, middleware}

pub record WebRequest : Type 0 where
  pub method : Bytes
  pub query : Bytes → Bytes
  pub cookie : Option Bytes
  pub header : Header
  pub remote_addr : Bytes

-- an error, or the next handler, with the value of the session cookie that is set
pub data Verdict : Type 0 where
  refused : ℕ → Bytes → Verdict
  serves : Option Bytes → Verdict

-- the session cookie is the token
abbrev pub has_cookie : Option Bytes → Bytes → Bool
has_cookie none token = false
has_cookie (some value) token = beq value token

abbrev pub has_bearer : Header → Bytes → Bool
has_bearer h token = beq (get h (codes "Authorization")) (codes "Bearer " ++ token)

-- a request without an origin that the browser calls its own
abbrev pub is_same_site : Header → Bool
is_same_site h =
    let site = get h (codes "Sec-Fetch-Site") in
    beq site (codes "same-origin") || beq site (codes "same-site")

-- authMiddleware
unfoldable pub auth_middleware : Bytes → WebRequest → Verdict
auth_middleware token r =
    let origin = get r.header (codes "Origin") in
    if not (is_empty (r.query (codes "token")))
    then refused 400 (codes "Token in URL is not allowed. Use Authorization header instead.")
    else if has_cookie r.cookie token
    then serves none
    else if has_bearer r.header token
    then serves none
    else if not (is_empty origin)
    then if not (is_localhost_origin origin)
      then refused 403 (codes "Forbidden: non-localhost origin")
      else serves (some token)
    else if is_same_site r.header
    then serves (some token)
    else refused 401 (codes "Unauthorized")

-- corsMiddleware: the origin that is allowed
unfoldable pub allowed_origin : WebRequest → Option Bytes
allowed_origin r =
    let origin = get r.header (codes "Origin") in
    if not (is_empty origin) && is_localhost_origin origin then some origin else none

-- what the chain of Server.Handler answers to a request of a handler that wants authentication:
-- the allowed origin, and the verdict, or the end of a preflight request
pub data Answer : Type 0 where
  preflight : Answer
  limited : ℕ → Answer
  judged : Verdict → Answer

unfoldable pub handler :
    RateLimiter → ℕ → Bytes → WebRequest → RateLimiter × (Option Bytes × Answer)
unfolding allowed_origin auth_middleware
handler rl now token r =
    if beq r.method (codes "OPTIONS")
    then (rl, (allowed_origin r, preflight))
    else let (next, over) = middleware rl now r.remote_addr in
      (
        next,
        (
          allowed_origin r,
          elim over [ some status ↦ limited status | none ↦ judged (auth_middleware token r) ],
        ),
      )

-- the authentication of Hub.Handler: the status of an error, or none before the upgrade
unfoldable pub ws_handler : Bytes → WebRequest → Option ℕ
ws_handler token r =
    let origin = get r.header (codes "Origin") in
    let authenticated =
      has_cookie r.cookie token
      || has_bearer r.header token
      || beq (r.query (codes "token")) token in
    if not (is_empty origin) && not (is_localhost_origin origin)
    then some 403
    else if not authenticated
    then some 401
    else none
