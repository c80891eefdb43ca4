-- ===== src/Agent/Connect.antt =====
-- The two transports through which a request passes: that of internal/connectclient/client.go and,
-- inside it, that of internal/transport/client.go, as NewClient puts them together.
pub mod Clients
use rediver_sdk_go.Prelude.{
  ◌≡◌, refl, inl, inr, Bool-cases, String, ◌<>◌, is_empty, non_empty, ◌&&◌, if◌then◌else◌,
}
use rediver_sdk_go.Agent.Rpc.{AuthHeader, authorization_bearer, x_token, no_header, auth_header}

-- The two headers of a request; "" is a header that is not set.
pub record Headers : Type 0 where
  pub authorization : String
  pub token : String

abbrev pub no_headers : Headers
no_headers = record { authorization = ""; token = "" }

-- `RoundTrip` of connectclient, with what its `tokenFn` returns.
unfoldable pub inject_token : String → Headers → Headers
inject_token token h =
    if non_empty token && is_empty h.authorization then record h { token = token } else h

-- `RoundTrip` of transport, with the job token of the request's context.
unfoldable pub inject_auth : (jwt agent_token : String) → Headers → Headers
inject_auth jwt agent_token h =
    if non_empty jwt
    then record h { authorization = "Bearer " <> jwt }
    else if non_empty agent_token
    then record h { token = agent_token }
    else h

-- What NewClient makes of the two: its `tokenFn` returns "".
unfoldable pub request_headers : (jwt agent_token : String) → Headers
unfolding inject_token inject_auth
request_headers jwt agent_token = inject_auth jwt agent_token (inject_token "" no_headers)

abbrev pub headers_of : AuthHeader → Headers
headers_of (authorization_bearer jwt) = record no_headers { authorization = "Bearer " <> jwt }
headers_of (x_token t) = record no_headers { token = t }
headers_of no_header = no_headers

-- The two transports together set the one header that the model of a request has.
pub request_headers_lem :
    (jwt agent_token : String)
    → request_headers jwt agent_token ≡ headers_of (auth_header jwt agent_token)
unfolding request_headers auth_header inject_token inject_auth
request_headers_lem jwt agent_token = elim (Bool-cases (non_empty jwt)) [
  | inl job ↦ rw job refl
  | inr agent ↦ rw agent (elim (Bool-cases (non_empty agent_token)) [
    | inl known ↦ rw known refl
    | inr unknown ↦ rw unknown refl
  ])
]
