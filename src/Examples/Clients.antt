-- ===== src/Examples/Clients.antt =====
-- The clients that NewClient makes without an HTTP client; the transport gives back what it is sent.
use rediver_sdk_go.Prelude.{◌≡◌, refl, String, none, [], pos}
use rediver_sdk_go.Agent.Connect.{Headers, no_headers, inject_token, inject_auth}
use rediver_sdk_go.Agent.Connect.Clients.{
  HttpClient, RoundTripper, new_client, request, with_job_token, job_token_from_ctx, IsAuthorised,
  new_client-IsAuthorised, transport_of, token_transport, with_auth_transport, new_clients,
  auth_transport,
}
use rediver_sdk_go.Examples.Values.{tokens}

abbrev echo : RoundTripper Headers
echo ctx h = h

abbrev standard : HttpClient Headers
standard = record { timeout = pos 0; transport = none }

abbrev url : String
url = "https://api.example"

new_client-IsAuthorised_example :
    IsAuthorised standard echo tokens none
      (new_client standard echo url tokens none).clients.artifact
    × IsAuthorised standard echo tokens none
        (new_client standard echo url tokens none).clients.scanner
    × IsAuthorised standard echo tokens none (new_client standard echo url tokens none).clients.job
    × IsAuthorised standard echo tokens none
        (new_client standard echo url tokens none).clients.finding
    × IsAuthorised standard echo tokens none
        (new_client standard echo url tokens none).clients.asset
    × IsAuthorised standard echo tokens none (new_client standard echo url tokens none).clients.leak
new_client-IsAuthorised_example = new_client-IsAuthorised standard echo url tokens none

-- The inner job's token is the one that is sent.
bearer_of_inner_job :
    request standard echo
      (new_client standard echo url tokens none).clients.job
      (with_job_token "jwt-2" (with_job_token "jwt-1" []))
      no_headers
    ≡ record { authorization = "Bearer jwt-2"; token = "" }
unfolding request new_client with_job_token job_token_from_ctx inject_token inject_auth transport_of
    token_transport with_auth_transport new_clients auth_transport
bearer_of_inner_job = refl
