-- ===== src/Agent/Connect/Clients.antt =====
-- New of internal/connectclient/client.go and NewClient of internal/transport/client.go: the clients
-- of the services and the HTTP client that they share. A round tripper takes a request by its
-- context and its headers; what the one that is no more wrapped does with it is of the type `R`.
use rediver_sdk_go.Prelude.{◌≡◌, refl, ap, String, Option, none, some, List, [], ◌∷◌, ℤ, pos}
use rediver_sdk_go.Agent.Rpc.{TokenManager, auth_header}
use rediver_sdk_go.Agent.Connect.{
  Headers, no_headers, inject_token, inject_auth, request_headers, headers_of, request_headers_lem,
}

-- The values of a context, innermost first: job tokens, and values under other keys.
pub data ContextValue : Type 0 where
  job_token : (jwt : String) → ContextValue
  other : ContextValue

abbrev pub Context : Type 0
Context = List ContextValue

-- `WithJobToken`
unfoldable pub with_job_token : (jwt : String) → Context → Context
with_job_token jwt ctx = job_token jwt ∷ ctx

-- `jobTokenFromCtx`
unfoldable pub job_token_from_ctx : Context → String
job_token_from_ctx [] = ""
job_token_from_ctx (job_token jwt ∷ ctx) = jwt
job_token_from_ctx (other ∷ ctx) = job_token_from_ctx ctx

abbrev pub RoundTripper : Type 0 → Type 0
RoundTripper R = Context → Headers → R

-- The fields of an http.Client that NewClient keeps.
pub record HttpClient (R : Type 0) : Type 0 where
  pub timeout : ℤ
  pub transport : Option (RoundTripper R)

-- The clients of the generated code, each with the HTTP client and the URL that it was made of.
pub record ServiceClient (R : Type 0) : Type 0 where
  pub http : HttpClient R
  pub base_url : String

pub record Clients (R : Type 0) : Type 0 where
  pub artifact : ServiceClient R
  pub scanner : ServiceClient R
  pub job : ServiceClient R
  pub finding : ServiceClient R
  pub asset : ServiceClient R
  pub leak : ServiceClient R

pub record Client (R : Type 0) : Type 0 where
  pub clients : Clients R
  pub token_manager : TokenManager
  pub base_url : String

-- `http.DefaultClient` and `http.DefaultTransport`
module _ {R : Type 0} (default_client : HttpClient R) (default_transport : RoundTripper R) where
  -- What a client of net/http passes a request to.
  unfoldable pub transport_of : HttpClient R → RoundTripper R
  transport_of c = elim c.transport [ none ↦ default_transport | some t ↦ t ]

  -- The two authTransport types: of connectclient, and of transport.
  unfoldable pub token_transport : RoundTripper R → (token : String) → RoundTripper R
  unfolding inject_token
  token_transport base token ctx h = base ctx (inject_token token h)

  unfoldable pub auth_transport : RoundTripper R → TokenManager → RoundTripper R
  unfolding inject_auth job_token_from_ctx
  auth_transport base tm ctx h = base ctx (inject_auth (job_token_from_ctx ctx) tm.agent_token h)

  unfoldable pub with_auth_transport : HttpClient R → (token : String) → HttpClient R
  unfolding transport_of token_transport
  with_auth_transport base token = record base {
    transport = some (token_transport (transport_of base) token);
  }

  -- `connectclient.New`
  unfoldable pub new_clients : (base_url token : String) → Option (HttpClient R) → Clients R
  unfolding with_auth_transport
  new_clients base_url token http_client =
      let base : HttpClient R = elim http_client [ none ↦ default_client | some c ↦ c ] in
      let service : ServiceClient R = record {
        http = with_auth_transport base token;
        base_url = base_url;
      } in
      record {
        artifact = service;
        scanner = service;
        job = service;
        finding = service;
        asset = service;
        leak = service;
      }

  -- `NewClient`
  unfoldable pub new_client : (base_url : String) → TokenManager → Option (HttpClient R) → Client R
  unfolding new_clients auth_transport transport_of
  new_client base_url tm http_client =
      let given : HttpClient R = elim http_client [
        | none ↦ record { timeout = pos 0; transport = none }
        | some c ↦ c
      ] in
      let auth_client : HttpClient R = record {
        timeout = given.timeout;
        transport = some (auth_transport (transport_of given) tm);
      } in
      record {
        clients = new_clients base_url "" (some auth_client);
        token_manager = tm;
        base_url = base_url;
      }

  -- What a service sends for a request of the generated code, which has set no header of the two.
  unfoldable pub request : ServiceClient R → RoundTripper R
  unfolding transport_of
  request service = transport_of service.http

  -- The HTTP client that NewClient was given, where nil is a new one.
  abbrev pub given_transport : Option (HttpClient R) → RoundTripper R
  given_transport none = default_transport
  given_transport (some c) = transport_of c

  abbrev pub given_timeout : Option (HttpClient R) → ℤ
  given_timeout none = pos 0
  given_timeout (some c) = c.timeout

  -- A service whose requests have the timeout of the HTTP client and go to its transport with the
  -- one header that belongs to the context.
  abbrev pub IsAuthorised : TokenManager → Option (HttpClient R) → ServiceClient R → Type 0
  IsAuthorised tm http_client service =
      (service.http.timeout ≡ given_timeout http_client)
      × ((ctx : Context)
          → request service ctx no_headers
            ≡ given_transport http_client ctx
                (headers_of (auth_header (job_token_from_ctx ctx) tm.agent_token)))

  service-IsAuthorised :
      (base_url : String) (tm : TokenManager) (http_client : Option (HttpClient R))
      → IsAuthorised tm http_client (new_client base_url tm http_client).clients.job
  unfolding new_client request token_transport request_headers inject_token
  service-IsAuthorised base_url tm none = (
    refl,
    (λ ctx.
        ap (default_transport ctx) (request_headers_lem (job_token_from_ctx ctx) tm.agent_token)),
  )
  service-IsAuthorised base_url tm (some c) = (
    refl,
    (λ ctx. ap (transport_of c ctx) (request_headers_lem (job_token_from_ctx ctx) tm.agent_token)),
  )

  -- Every service of a client that NewClient makes, with an HTTP client or with nil, keeps its
  -- timeout and passes each request to its transport, or to the default one, with the bearer of the
  -- job token where the context carries one, else with the agent's token in X-Token if there is one,
  -- and with no other header of the two.
  pub new_client-IsAuthorised :
      (base_url : String) (tm : TokenManager) (http_client : Option (HttpClient R))
      → IsAuthorised tm http_client (new_client base_url tm http_client).clients.artifact
        × IsAuthorised tm http_client (new_client base_url tm http_client).clients.scanner
        × IsAuthorised tm http_client (new_client base_url tm http_client).clients.job
        × IsAuthorised tm http_client (new_client base_url tm http_client).clients.finding
        × IsAuthorised tm http_client (new_client base_url tm http_client).clients.asset
        × IsAuthorised tm http_client (new_client base_url tm http_client).clients.leak
  unfolding new_client
  new_client-IsAuthorised base_url tm http_client =
      let h = service-IsAuthorised base_url tm http_client in (h, h, h, h, h, h)
