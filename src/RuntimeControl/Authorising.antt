-- ===== src/RuntimeControl/Authorising.antt =====
-- What a request to the control server of internal/runtime/control.go can do.
use siteboost_core.RuntimeControl.{
  ControlServer, Route, status_route, stop_route, other_route, Request, Response, status_of,
  with_auth, handle_status, handle_stop, serve,
}
use siteboost_core.Common.{Bool-cases, ◌≡◌, refl, ◌⊎◌, inl, inr, Bool, true, false, ◌++◌}
use siteboost_core.Text.{Text, text, text_eq}
use siteboost_core.Text.Laws.{text_eq_sound}

module _ {A : Type 0} (status_fn : A) (s : ControlServer) where
  -- The header that a client with the token sends.
  abbrev pub IsAuthorised : Request → Type 0
  IsAuthorised req = req.authorization ≡ text "Bearer " ++ s.token

  abbrev discloses : Response A → Bool
  discloses (status_of _) = true
  discloses _ = false

  -- What a response and a call of stopFn tell of the request.
  abbrev pub IsEarned : Request → Response A × Bool → Type 0
  IsEarned req (reply, stopped) =
      ((stopped ≡ false)
        ⊎ (IsAuthorised req × (req.route ≡ stop_route) × (req.method ≡ text "POST")))
      × ((discloses reply ≡ false)
          ⊎ (IsAuthorised req × (req.route ≡ status_route) × (req.method ≡ text "GET")))

  serve_route :
      (route : Route) (method authorization : Text)
      → IsEarned
          (record { route = route; method = method; authorization = authorization })
          (serve status_fn s
            (record { route = route; method = method; authorization = authorization }))
  unfolding serve with_auth handle_status handle_stop
  serve_route other_route method authorization = (inl refl, inl refl)
  serve_route status_route method authorization =
      elim (Bool-cases (text_eq authorization (text "Bearer " ++ s.token))) [
        | inr other ↦ rw (other, with_auth) (inl refl, inl refl)
        | inl same ↦ elim (Bool-cases (text_eq method (text "GET"))) [
          | inr else_method ↦ rw (same, else_method, with_auth, handle_status) (inl refl, inl refl)
          | inl get ↦
              rw (same, get, with_auth, handle_status)
                (inl refl, inr (text_eq_sound _ _ same, refl, text_eq_sound _ _ get))
        ]
      ]
  serve_route stop_route method authorization =
      elim (Bool-cases (text_eq authorization (text "Bearer " ++ s.token))) [
        | inr other ↦ rw (other, with_auth) (inl refl, inl refl)
        | inl same ↦ elim (Bool-cases (text_eq method (text "POST"))) [
          | inr else_method ↦ rw (same, else_method, with_auth, handle_stop) (inl refl, inl refl)
          | inl post ↦
              rw (same, post, with_auth, handle_stop)
                (inr (text_eq_sound _ _ same, refl, text_eq_sound _ _ post), inl refl)
        ]
      ]

  -- A request stops the program only if it is a POST to the stop handler whose Authorization header is
  -- the bearer token, and it is told the status only if it is a GET to the status handler with that
  -- header.
  pub serve-IsEarned : (req : Request) → IsEarned req (serve status_fn s req)
  serve-IsEarned req = serve_route req.route req.method req.authorization
