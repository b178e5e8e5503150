-- ===== src/Proxy/Forwarding.antt =====
-- What the proxy of internal/proxy/server.go sends to the upstream.
use siteboost_core.Proxy.{
  Header, Server, Request, Response, Sent, nothing, forwarded, dialled, Hijack, connection_names,
  hop_by_hop_names, header_values, delete_headers, remove_hop_by_hop_headers,
  address_with_default_port, match_request_host, is_refused, outgoing, handle_http, handle_connect,
  serve_http,
}
use siteboost_core.Proxy.Authority.{IsAuthority, normalize_host_name}
use siteboost_core.Common.{
  Bool-cases, Option-cases, is_empty, In, Result, ok, Result-cases, ok_value, lookup, delete,
  lookup-delete, ◌≡◌, refl, sym, ◌∙◌, ◌⊎◌, inl, inr, Bool, false, ◌||◌, Option, none, some, List,
  [], ◌∷◌, arith,
}
use siteboost_core.Text.{Text, text, text_eq}
use siteboost_core.Text.Laws.{text_eq_refl, text_key}
use siteboost_core.Text.Address.{split_host_port, join_host_port}
use siteboost_core.External.{Url, Externals}
use siteboost_core.Rules.{MatchResult, RuleError, normalize_host, match_host}
use siteboost_core.Config.Names.{non_target_reject}

module _ (x : Externals) where
  lookup-delete_headers :
      (name : Text) (names : List Text) (header : Header)
      → lookup text_key name header ≡ none
      → lookup text_key name (delete_headers x names header) ≡ none
  unfolding delete_headers
  lookup-delete_headers name [] header h = h
  lookup-delete_headers name (other ∷ names) header h =
      lookup-delete_headers name names (delete text_key (x.canonical_header other) header)
        (rw (lookup-delete, h) (ground arith))

  lookup-delete_self :
      (name : Text) (header : Header) → lookup text_key name (delete text_key name header) ≡ none
  lookup-delete_self name header = rw (lookup-delete, (text_key.eq_iff name name).1 refl) refl

  delete_headers-In :
      (name : Text) (names : List Text) (header : Header)
      → In name names
      → lookup text_key (x.canonical_header name) (delete_headers x names header) ≡ none
  unfolding delete_headers
  delete_headers-In name [] header named = elim named [ ]
  delete_headers-In name (other ∷ names) header (inl same) =
      lookup-delete_headers (x.canonical_header name) names
        (delete text_key (x.canonical_header other) header)
        (rw same (lookup-delete_self (x.canonical_header other) header))
  delete_headers-In name (other ∷ names) header (inr later) =
      delete_headers-In name names (delete text_key (x.canonical_header other) header) later

  -- The names that a hop keeps to itself.
  abbrev pub IsHopByHop : Header → Text → Type 0
  IsHopByHop header name =
      In name hop_by_hop_names
      ⊎ In name (connection_names (header_values x (text "Connection") header))

  remove_hop_by_hop_headers-none :
      (header : Header) (name : Text)
      → IsHopByHop header name
      → lookup text_key (x.canonical_header name) (remove_hop_by_hop_headers x header) ≡ none
  unfolding remove_hop_by_hop_headers
  remove_hop_by_hop_headers-none header name (inl fixed) = delete_headers-In name _ _ fixed
  remove_hop_by_hop_headers-none header name (inr listed) =
      lookup-delete_headers (x.canonical_header name) hop_by_hop_names _
        (delete_headers-In name _ header listed)

  module _ (s : Server) (rejects : s.cfg.non_target_behavior ≡ non_target_reject) where
    abbrev pub IsCovered : Text → Type 0
    IsCovered raw =
        (normalized : Text) × (found : MatchResult) × (normalize_host x raw ≡ ok normalized)
        × (match_host x s.matcher normalized ≡ some found)

    admitted : (raw : Text) → is_refused x s raw ≡ false → IsCovered raw
    unfolding is_refused match_request_host
    admitted raw h = elim (Result-cases (normalize_host x raw)) [
      | inr (e, failed) ↦
          cc (rw (is_refused, match_request_host, failed, rejects, text_eq_refl) at h)
      | inl (normalized, given) ↦ elim (Option-cases (match_host x s.matcher normalized)) [
        | inl missing ↦
            cc (rw (is_refused, match_request_host, given, missing, rejects, text_eq_refl) at h)
        | inr (found, matched) ↦ (normalized, found, given, matched)
      ]
    ]

    -- The address of a host that the rules cover, with the port of the authority, or 443.
    abbrev pub IsCoveredAddress : Text → Text → Type 0
    IsCoveredAddress authority address =
        (host port : Text) × (found : MatchResult) × (address ≡ join_host_port host port)
        × (match_host x s.matcher host ≡ some found)
        × (((split_host_port authority ≡ none) × (port ≡ text "443"))
            ⊎ ((name : Text) × (split_host_port authority ≡ some (name, port))))

    -- What the upstream may be sent for a request.
    abbrev pub IsAllowed : Request → Sent → Type 0
    IsAllowed req nothing = Unit {0}
    IsAllowed req (forwarded out) =
        ((url : Url) × (out.url ≡ some url) × IsCovered url.host)
        × (out.url ≡ req.url)
        × (out.host ≡ req.host)
        × (out.method ≡ req.method)
        × (out.body ≡ req.body)
        × ((name : Text)
            → IsHopByHop req.header name
            → lookup text_key (x.canonical_header name) out.header ≡ none)
    IsAllowed req (dialled target) = IsCoveredAddress req.host target

    covered_address :
        (raw target : Text)
        → IsAuthority raw
        → IsCovered raw
        → address_with_default_port x raw (text "443") ≡ ok target
        → IsCoveredAddress raw target
    unfolding address_with_default_port
    covered_address raw target authority (normalized, found, normal, matched) given =
        elim (Option-cases (split_host_port raw)) [
          | inl whole ↦
              let address : ◌≡◌ {A = Result RuleError Text}
                  (ok (join_host_port normalized (text "443"))) (ok target) =
                rw (address_with_default_port, whole, normal) at given in
              (normalized, text "443", found, sym (ok_value address), matched, inl (whole, refl))
          | inr ((name, port), parts) ↦
              let same = normalize_host_name x raw name port authority parts in
              let normal_name : normalize_host x name ≡ ok normalized = sym same ∙ normal in
              let address : ◌≡◌ {A = Result RuleError Text} (ok (join_host_port normalized port))
                  (ok target) =
                rw (address_with_default_port, parts, normal_name) at given in
              (normalized, port, found, sym (ok_value address), matched, inr (name, parts))
        ]

    handle_connect-IsAllowed :
        (dial : Text → Bool) (takeover : Hijack) (req : Request)
        → IsAuthority req.host
        → IsAllowed req (handle_connect x dial takeover s req).1
    unfolding handle_connect
    handle_connect-IsAllowed dial takeover req authority =
        elim (Bool-cases (is_refused x s req.host)) [
          | inl refused ↦ rw refused tt
          | inr allowed ↦ elim (Result-cases (address_with_default_port x req.host (text "443"))) [
            | inr (e, failed) ↦ rw (allowed, failed) tt
            | inl (target, given) ↦ elim (Bool-cases (dial target)) [
              | inl up ↦
                  rw (allowed, given, up)
                    (covered_address req.host target authority (admitted req.host allowed) given)
              | inr down ↦
                  rw (allowed, given, down)
                    (covered_address req.host target authority (admitted req.host allowed) given)
            ]
          ]
        ]

    handle_http-IsAllowed :
        (round_trip : Request → Option Response) (req : Request)
        → IsAllowed req (handle_http x round_trip s req).1
    unfolding handle_http outgoing
    handle_http-IsAllowed round_trip req = elim (Option-cases req.url) [
      | inl missing ↦ rw missing tt
      | inr (url, given) ↦ elim (Bool-cases (is_empty url.host || is_empty url.scheme)) [
        | inl relative ↦ rw (given, relative) tt
        | inr absolute ↦
            elim (Bool-cases
              (text_eq url.scheme (text "http") || text_eq url.scheme (text "https"))) [
                | inr other ↦ rw (given, absolute, other) tt
                | inl http ↦ elim (Bool-cases (is_refused x s url.host)) [
                  | inl refused ↦ rw (given, absolute, http, refused) tt
                  | inr allowed ↦
                      rw (given, absolute, http, allowed)
                        (
                          (url, refl, admitted url.host allowed),
                          refl,
                          refl,
                          refl,
                          refl,
                          remove_hop_by_hop_headers-none req.header,
                        )
                ]
              ]
      ]
    ]

    -- Where hosts outside of the rules are rejected, whatever is sent to the upstream is for a host that
    -- the rules cover: a request with the method, host, URL and body of the client's, whose URL has
    -- such a host, without the headers that are for one hop only, those that its Connection header
    -- names among them; or the dialing of such a host, with the port of the CONNECT target or 443. The
    -- host of a request is taken to be a name or an address, with a port or not.
    pub serve_http-IsAllowed :
        (round_trip : Request → Option Response) (dial : Text → Bool) (takeover : Hijack)
        (req : Request)
        → IsAuthority req.host
        → IsAllowed req (serve_http x round_trip dial takeover s req).1
    unfolding serve_http
    serve_http-IsAllowed round_trip dial takeover req authority =
        elim (Bool-cases (text_eq req.method (text "CONNECT"))) [
          | inl connect ↦ rw connect (handle_connect-IsAllowed dial takeover req authority)
          | inr other ↦ rw other (handle_http-IsAllowed round_trip req)
        ]
