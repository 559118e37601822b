-- ===== src/Gateway/Errors.antt =====
-- What the gateway makes of paths and of the errors of the services behind it.
use Prim.Native.String
use text.Mathlib.TextLemmas.{cons-append, nil-append}
use uban_z.Prelude.{
  if◌then◌else◌, Result, ok, err, Result-cases, false, ℕ, ◌≤◌, String, Bool, true, ◌||◌, ◌≡◌, ◌⊎◌,
  refl, ◌==◌, arith, inl, inr, Bool-cases, has_prefix, trim_space,
}
use uban_z.Gateway.{Upstream, GatewayError, ensure_api_prefix, modified, is_json_response}

prefixed : (s : String) → has_prefix (String.◌++◌ "/api" (String.◌∷◌ "/" s)) "/api/" ≡ true
unfolding has_prefix
prefixed s =
    let rest : String = String.◌∷◌ "/" s in
    rw
      (
        cons-append "/" "api" rest,
        cons-append "a" "pi" rest,
        cons-append "p" "i" rest,
        cons-append "i" "" rest,
        nil-append rest,
      )
      refl

-- A path that begins with a slash gets the prefix once.
pub ensure_api_prefix_idem :
    (s : String)
    → ensure_api_prefix (ensure_api_prefix (String.◌∷◌ "/" s))
      ≡ ensure_api_prefix (String.◌∷◌ "/" s)
unfolding ensure_api_prefix
ensure_api_prefix_idem s =
    elim (Bool-cases (String.◌∷◌ "/" s == "/api" || has_prefix (String.◌∷◌ "/" s) "/api/")) [
      | inl e ↦ ground (arith, e)
      | inr e ↦ ground (arith, e, prefixed s)
    ]

abbrev pub is_read : Result String String → Bool
is_read (ok body) = true
is_read (err e) = false

module _ (marshal : GatewayError → String) (to_lower : String → String) (status_text : ℕ → String)
    (json_valid : String → Bool) where
  json_is_json :
      to_lower "application/json" ≡ "application/json"
      → is_json_response marshal to_lower status_text json_valid "application/json" ≡ true
  unfolding is_json_response
  json_is_json law = rw law refl

  abbrev pub has_json : Result String String → Bool
  has_json (ok body) = json_valid (trim_space body)
  has_json (err e) = false

  -- If lower case leaves `application/json` as it is, the client of the proxy gets a response of
  -- status 400 or more with its status, or with 502 if its body cannot be read; and its content
  -- type is JSON's or its trimmed body is valid JSON.
  pub modified-readable :
      (service : String) (resp : Upstream)
      → 400 ≤ resp.status
      → to_lower "application/json" ≡ "application/json"
      → let out : Upstream = modified marshal to_lower status_text json_valid service resp in
        (out.status ≡ (if is_read resp.body then resp.status else 502))
        × ((is_json_response marshal to_lower status_text json_valid out.content_type ≡ true)
            ⊎ (has_json out.body ≡ true))
  unfolding modified
  modified-readable service resp h law = elim (Result-cases resp.body) [
    | inl (body, e) ↦ ground (arith, e, json_is_json law)
    | inr (x, e) ↦ ground (arith, e, json_is_json law)
  ]
