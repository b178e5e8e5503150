-- ===== src/Tests/Controlling.antt =====
-- The theorem on the control server at a concrete request.
use siteboost_core.RuntimeControl.{
  ControlServer, stop_route, Request, stopping, with_auth, handle_stop, serve,
}
use siteboost_core.RuntimeControl.Authorising.{IsEarned, serve-IsEarned}
use siteboost_core.Common.{ℕ, ◌≡◌, refl, true}
use siteboost_core.Text.{text, text_eq}

abbrev served : ControlServer
served = record {
  addr = text "127.0.0.1:0";
  token = text "t0";
  serving = true;
  url = text "http://127.0.0.1:8090";
}

abbrev stop_request : Request
stop_request = record { route = stop_route; method = text "POST"; authorization = text "Bearer t0" }

serve-stops : serve {A = ℕ} 1 served stop_request ≡ (stopping, true)
unfolding serve with_auth text_eq handle_stop
serve-stops = refl

serve-IsEarned_example :
    IsEarned {A = ℕ} 1 served stop_request (serve {A = ℕ} 1 served stop_request)
serve-IsEarned_example = serve-IsEarned {A = ℕ} 1 served stop_request
