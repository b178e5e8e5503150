-- ===== src/Tests/Proxying.antt =====
-- The theorem on the proxy at a concrete request.
use siteboost_core.Proxy.{
  Server, Request, hijacked, split_on, nonblank_names, connection_names, header_values,
  delete_headers, remove_hop_by_hop_headers, serve_http,
}
use siteboost_core.Proxy.Authority.{IsAuthority}
use siteboost_core.Proxy.Forwarding.{IsAllowed, serve_http-IsAllowed}
use siteboost_core.Tests.Inputs.{externals, matcher}
use siteboost_core.Common.{pos, lookup, delete, ◌≡◌, refl, true, none, some, [], ◌∷◌}
use siteboost_core.Text.{text, text_eq, trim_space, contains}
use siteboost_core.Text.Address.{split_host_port}
use siteboost_core.Config.Names.{non_target_reject}

abbrev server : Server
server = record {
  cfg = record {
    listen_addr = text "127.0.0.1:0";
    non_target_behavior = non_target_reject;
    read_header_timeout = pos 1;
    idle_timeout = pos 1;
    shutdown_timeout = pos 1;
  };
  matcher = matcher;
  serving = true;
  addr = text "127.0.0.1:8080";
}

abbrev request : Request
request = record {
  method = text "GET";
  host = text "c.d";
  url = some (record { scheme = text "http"; host = text "c.d"; user = none });
  request_uri = text "http://c.d/";
  header =
      (text "Connection", text "X-A, close" ∷ [])
      ∷ (text "X-A", text "1" ∷ [])
      ∷ (text "Te", text "trailers" ∷ [])
      ∷ (text "Accept", text "b" ∷ [])
      ∷ [];
  body = [];
}

request_header :
    remove_hop_by_hop_headers externals request.header ≡ (text "Accept", text "b" ∷ []) ∷ []
unfolding remove_hop_by_hop_headers delete_headers delete connection_names header_values lookup
    text_eq nonblank_names split_on trim_space
request_header = refl

request-IsAuthority : IsAuthority (text "c.d")
unfolding trim_space contains split_host_port
request-IsAuthority = record { trimmed = refl; no_scheme = refl; name = λ host port h. cc h }

serve_http-IsAllowed_example :
    IsAllowed externals server refl request
      (serve_http externals (λ _. none) (λ _. true) hijacked server request).1
serve_http-IsAllowed_example =
    serve_http-IsAllowed externals server refl (λ _. none) (λ _. true) hijacked request
      request-IsAuthority
