-- ===== src/Httpx/Middleware.antt =====
-- internal/platform/httpx/middleware.go: identifiers of requests, cross-origin headers, the chain
-- of middleware, and the middleware that turns a panic into an answer. A handler that panics
-- answers `none`; what it had written before is not modelled.
pub mod Origins
use Prim.Native.String
use uban_z.Prelude.{
  ℕ, String, Bool, true, false, not, ◌&&◌, ◌||◌, List, [], ◌∷◌, any, Option, none, some, ◌==◌,
  trim_space, if◌then◌else◌,
}

-- The parts of a request that the middleware looks at; a header that is absent is the empty text.
pub record Request : Type 0 where
  pub method : String
  pub origin : String
  pub request_id : String

pub record Reply : Type 0 where
  pub status : ℕ
  pub request_id : String
  pub allow_origin : Option String

abbrev pub Handler : Type 0 → Type 0
Handler S = Request → S → Option Reply × S

-- `Chain`: the first middleware is the outermost.
unfoldable pub chain : {S : Type 0} → Handler S → List (Handler S → Handler S) → Handler S
chain handler [] = handler
chain handler (mw ∷ mws) = mw (chain handler mws)

abbrev with_request_id : String → Option Reply → Option Reply
with_request_id id none = none
with_request_id id (some reply) = some (record reply { request_id = id })

-- `RequestID`: the header of the answer and the context of the request hold the same identifier.
-- A new one comes from the state, which stands for the generator of UUIDs.
unfoldable pub request_id : {S : Type 0} → (S → String × S) → Handler S → Handler S
request_id new_string next r s =
    if r.request_id == ""
    then (let fresh = new_string s in
        let out = next (record r { request_id = fresh.0 }) fresh.1 in
        (with_request_id fresh.0 out.0, out.1))
    else (let out = next r s in (with_request_id r.request_id out.0, out.1))

-- `RecoverPanic`.
abbrev pub recovered : Option Reply → Option Reply
recovered none = some (record { status = 500; request_id = ""; allow_origin = none })
recovered (some reply) = some reply

unfoldable pub recover_panic : {S : Type 0} → Handler S → Handler S
recover_panic next r s = (recovered (next r s).0, (next r s).1)

-- The loop of `CORS` over the configured origins: whether any origin may call, and which.
unfoldable pub allowed_origins : List String → Bool × List String
allowed_origins [] = (false, [])
allowed_origins (origin ∷ origins) =
    let rest = allowed_origins origins in
    let o = trim_space origin in
    if o == "" then rest else if o == "*" then (true, rest.1) else (rest.0, o ∷ rest.1)

-- The condition of the three headers that name an origin.
unfoldable pub allows : Bool × List String → String → Bool
allows cfg origin = not (origin == "") && (cfg.0 || any (λ o. o == origin) cfg.1)

abbrev with_origin : Option String → Option Reply → Option Reply
with_origin origin none = none
with_origin origin (some reply) = some (record reply { allow_origin = origin })

unfoldable pub cors : {S : Type 0} → List String → Handler S → Handler S
unfolding allowed_origins allows
cors origins next r s =
    let named = if allows (allowed_origins origins) r.origin then some r.origin else none in
    let passed = next r s in
    if r.method == "OPTIONS"
    then (some (record { status = 204; request_id = ""; allow_origin = named }), s)
    else (with_origin named passed.0, passed.1)
