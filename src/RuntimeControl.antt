-- ===== src/RuntimeControl.antt =====
-- internal/runtime/control.go: the control server, by which another process asks for the status or for
-- the stop. The choice of the handler by the path, and listening, are library calls: parameters.
pub mod Authorising
use siteboost_core.Common.{
  if◌then◌else◌, is_empty, [], Result, ok, require, ◌>>=◌, ◌>>◌, of_option, Bool, true, false, not,
  Option, none, some, ◌++◌,
}
use siteboost_core.Text.{Text, text, text_eq, trim_space}
use siteboost_core.Text.Address.{split_host_port}
use siteboost_core.External.{Externals, is_loopback}

pub record ControlServer : Type 0 where
  pub addr : Text
  pub token : Text
  -- whether there is an HTTP server
  pub serving : Bool
  -- the URL of the server that was started last, which Stop keeps
  pub url : Text

pub data ControlError : Type 0 where
  token_required already_started listen_failed not_loopback : ControlError

-- The status and stop functions are given always.
unfoldable pub new_control_server : Text → Text → Result ControlError ControlServer
new_control_server addr token = do
  require (not (is_empty (trim_space token))) token_required
  ok (record { addr = addr; token = token; serving = false; url = [] })

unfoldable pub is_loopback_addr : Externals → Text → Bool
is_loopback_addr x addr = elim (split_host_port addr) [
  | none ↦ false
  | some (host, _) ↦
      if x.equal_fold host (text "localhost")
      then true
      else elim (x.parse_ip host) [ none ↦ false | some ip ↦ is_loopback ip ]
]

-- Start, with the address that net.Listen gives for the configured one.
unfoldable pub start :
    Externals → (Text → Option Text) → ControlServer → Result ControlError ControlServer
start x listen s = do
  require (not s.serving) already_started
  bound ← of_option listen_failed (listen s.addr)
  require (is_loopback_addr x bound) not_loopback
  ok (record s { serving = true; url = text "http://" ++ bound })

-- Stop as far as the server's fields go; the error of the shutdown is I/O.
unfoldable pub stop : ControlServer → ControlServer
stop s = record s { serving = false }

-- The handler that the path of a request leads to.
pub data Route : Type 0 where
  status_route stop_route other_route : Route

-- A request, with its method and its Authorization header.
pub record Request : Type 0 where
  pub route : Route
  pub method : Text
  pub authorization : Text

pub data Response (A : Type 0) : Type 0 where
  unauthorized method_not_allowed not_found stopping : Response A
  status_of : A → Response A

module _ {A : Type 0} (status_fn : A) where
  -- Each handler gives its response, and whether it calls stopFn.
  unfoldable pub with_auth :
      ControlServer → (Request → Response A × Bool) → Request → Response A × Bool
  with_auth s next req =
      if not (text_eq req.authorization (text "Bearer " ++ s.token))
      then (unauthorized, false)
      else next req

  unfoldable pub handle_status : Request → Response A × Bool
  handle_status req =
      if not (text_eq req.method (text "GET"))
      then (method_not_allowed, false)
      else (status_of status_fn, false)

  unfoldable pub handle_stop : Request → Response A × Bool
  handle_stop req =
      if not (text_eq req.method (text "POST"))
      then (method_not_allowed, false)
      else (stopping, true)

  -- The handlers that Start registers.
  abbrev pub handler_of : ControlServer → Route → Request → Response A × Bool
  handler_of s status_route req = with_auth s handle_status req
  handler_of s stop_route req = with_auth s handle_stop req
  handler_of s other_route req = (not_found, false)

  unfoldable pub serve : ControlServer → Request → Response A × Bool
  serve s req = handler_of s req.route req
