-- ===== src/Gateway.antt =====
-- internal/adapter/gateway/http/proxy.go. How Go reads a URL, the lower case of a text, the
-- standard texts of statuses, what is valid JSON and how a gateway error is printed as JSON are
-- parameters. A request is its path; the rest of it is passed on as it came.
pub mod Errors
use Prim.Native.String
use uban_z.Prelude.{
  ℕ, String, Bool, true, false, not, ◌&&◌, ◌||◌, Option, none, some, ◌==◌, Result, ok, err, ltb,
  has_prefix, drop_text, ends_with, contains_text, trim_space, if◌then◌else◌,
}

pub record Url : Type 0 where
  pub scheme : String
  pub host : String
  pub path : String

unfoldable pub keep_path : String → String
keep_path path = path

unfoldable pub ensure_api_prefix : String → String
unfolding has_prefix
ensure_api_prefix path =
    if path == "/api" || has_prefix path "/api/" then path else String.◌++◌ "/api" path

unfoldable pub single_joining_slash : String → String → String
unfolding ends_with has_prefix drop_text
single_joining_slash base_path request_path =
    if base_path == ""
    then request_path
    else if request_path == ""
    then base_path
    else if ends_with b'/' base_path && has_prefix request_path "/"
    then String.◌++◌ base_path (drop_text 1 request_path)
    else if not (ends_with b'/' base_path) && not (has_prefix request_path "/")
    then String.◌++◌ base_path (String.◌++◌ "/" request_path)
    else String.◌++◌ base_path request_path

unfoldable pub parse_upstream_url :
    (String → Result String Url) → String → String → Result String Url
parse_upstream_url parse raw_url name =
    if raw_url == "" then err (String.◌++◌ name " url is required") else elim (parse raw_url) [
      | err e ↦ err (String.◌++◌ "parse " (String.◌++◌ name (String.◌++◌ " url: " e)))
      | ok parsed ↦
          if parsed.scheme == "" || parsed.host == ""
          then err (String.◌++◌ name " url must include scheme and host")
          else ok parsed
    ]

-- The proxy that the mux gives a path to. It redirects a path that only lacks the last slash of
-- a pattern.
pub data Route : Type 0 where
  auth booking not_found redirected : Route

unfoldable pub route : String → Route
unfolding has_prefix
route path =
    if path == "/auth"
    then redirected
    else if has_prefix path "/auth/"
    then auth
    else if path == "/rooms" || has_prefix path "/rooms/"
    then booking
    else if path == "/booking" || has_prefix path "/booking/"
    then booking
    else if path == "/parser/status"
    then booking
    else not_found

-- What `Director` does to the address of a request.
unfoldable pub director : Url → (String → String) → String → Url
unfolding single_joining_slash
director target rewrite path = record target {
  path = single_joining_slash target.path (rewrite path);
}

pub record GatewayError : Type 0 where
  pub error : String
  pub service : String

-- Reading the body of a response may fail.
pub record Upstream : Type 0 where
  pub status : ℕ
  pub content_type : String
  pub body : Result String String

module _ (marshal : GatewayError → String) (to_lower : String → String) (status_text : ℕ → String)
    (json_valid : String → Bool) where
  abbrev pub replace_body : Upstream → GatewayError → Upstream
  replace_body resp value = record resp {
    content_type = "application/json";
    body = ok (String.◌++◌ (marshal value) "\n");
  }

  unfoldable pub is_json_response : String → Bool
  unfolding contains_text
  is_json_response content_type = contains_text (to_lower content_type) "application/json"

  unfoldable pub normalize_error_response : String → Upstream → Result String Upstream
  unfolding is_json_response trim_space
  normalize_error_response service resp = if ltb resp.status 400 then ok resp else elim resp.body [
    | err e ↦ err e
    | ok body ↦
        if trim_space body == ""
        then ok (replace_body resp (record { error = status_text resp.status; service = service }))
        else if is_json_response resp.content_type || json_valid (trim_space body)
        then ok resp
        else ok (replace_body resp (record { error = trim_space body; service = service }))
  ]

  unfoldable pub write_gateway_error : ℕ → String → String → Upstream
  write_gateway_error status service text = record {
    status = status;
    content_type = "application/json";
    body = ok (String.◌++◌ (marshal (record { error = text; service = service })) "\n");
  }

  -- What the client of the proxy gets: an error of `ModifyResponse` goes to `ErrorHandler`.
  unfoldable pub modified : String → Upstream → Upstream
  unfolding normalize_error_response write_gateway_error
  modified service resp = elim (normalize_error_response service resp) [
    | ok shown ↦ shown
    | err e ↦ write_gateway_error 502 service "upstream unavailable"
  ]
