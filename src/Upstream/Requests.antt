-- ===== src/Upstream/Requests.antt =====
-- The messages of the SOCKS5 handshake against the format of RFC 1928: the CONNECT request is read
-- back by a decoder, and a server's reply is consumed to its last byte.
use siteboost_core.Text.Address.{split_host_port}
use siteboost_core.Upstream.Socks.{
  Bytes, Conn, unsigned_value, in_port_range, parse_port, address_bytes, socks5_connect_request,
  split_bytes, read_full, then_on, check, byte_at, bound_length, read_socks5_reply,
}
use siteboost_core.Common.{
  ltb, ◌==◌, if◌then◌else◌, Bool-cases, Option-cases, length, ok, ℕ, ◌+◌, ◌*◌, ◌/◌, ◌%◌, ◌^◌, ◌≤◌,
  ◌<◌, ◌≡◌, refl, subst, inl, inr, false, ◌&&◌, Option, none, some, [], ◌∷◌, ◌++◌, append_assoc,
  arith,
}
use siteboost_core.Text.{Text}
use siteboost_core.External.{Ip, Externals, mapped_v4, to4, to16}

-- An address as the protocol has it.
pub data SocksAddress : Type 0 where
  v4_address v6_address domain_name : Bytes → SocksAddress

-- The last part of a message: two bytes of a port, the high one first.
abbrev pub decode_port : Bytes → Option ℕ
decode_port (high ∷ low ∷ []) = some (high * 2 ^ 8 + low)
decode_port _ = none

abbrev pub with_port : SocksAddress → Bytes → Option (SocksAddress × ℕ)
with_port address bytes = elim (decode_port bytes) [
  | none ↦ none
  | some port ↦ some (address, port)
]

abbrev pub decode_fixed : ℕ → (Bytes → SocksAddress) → Bytes → Option (SocksAddress × ℕ)
decode_fixed n make bytes = elim (split_bytes n bytes) [
  | none ↦ none
  | some (address, port) ↦ with_port (make address) port
]

abbrev pub decode_domain : Bytes → Option (SocksAddress × ℕ)
decode_domain [] = none
decode_domain (n ∷ bytes) = decode_fixed n domain_name bytes

abbrev pub decode_address : ℕ → Bytes → Option (SocksAddress × ℕ)
decode_address kind bytes =
    if kind == 1
    then decode_fixed 4 v4_address bytes
    else if kind == 4
    then decode_fixed 16 v6_address bytes
    else if kind == 3
    then decode_domain bytes
    else none

-- A CONNECT request of version 5.
unfoldable pub decode_request : Bytes → Option (SocksAddress × ℕ)
decode_request (version ∷ command ∷ reserved ∷ kind ∷ bytes) =
    if version == 5 && command == 1 && reserved == 0 then decode_address kind bytes else none
decode_request _ = none

-- What a target's host stands for.
unfoldable pub destination : Externals → Text → SocksAddress
destination x host = elim (x.parse_ip host) [
  | some ip ↦ elim (to4 ip) [ some ipv4 ↦ v4_address ipv4 | none ↦ v6_address ip ]
  | none ↦ domain_name host
]

split_bytes-append :
    (front back : Bytes) → split_bytes (length front) (front ++ back) ≡ some (front, back)
unfolding split_bytes
split_bytes-append [] back = refl
split_bytes-append (b ∷ front) back = rw (split_bytes-append front back) refl

length-mapped_v4 : (ip b : Bytes) → mapped_v4 ip ≡ some b → length b ≡ 4
length-mapped_v4
      (b0 ∷ b1 ∷ b2 ∷ b3 ∷ b4 ∷ b5 ∷ b6 ∷ b7 ∷ b8 ∷ b9 ∷ b10 ∷ b11 ∷ b12 ∷ b13 ∷ b14 ∷ b15 ∷ []) b
      h =
    ground arith
length-mapped_v4 _ b h = cc

length-to4 : (ip b : Bytes) → to4 ip ≡ some b → length b ≡ 4
unfolding to4
length-to4 (b0 ∷ b1 ∷ b2 ∷ b3 ∷ []) b h = ground arith
length-to4 ip b h = length-mapped_v4 ip b h

to16_long : (ip : Bytes) → length ip ≡ 16 → to16 ip ≡ some ip
unfolding to16
to16_long (b0 ∷ b1 ∷ b2 ∷ b3 ∷ []) h = ground arith
to16_long ip h = ground arith

in_port_range_bound : (n port : ℕ) → in_port_range n ≡ some port → port < 2 ^ 16
in_port_range_bound n port h = ground arith

parse_port_bound : (s : Text) (port : ℕ) → parse_port s ≡ some port → port < 2 ^ 16
unfolding parse_port
parse_port_bound [] port h = cc
parse_port_bound (c ∷ s) port h = elim (Bool-cases (c == b'-')) [
  | inl minus ↦ cc (rw (minus, parse_port) at h)
  | inr no_minus ↦ elim (Option-cases (unsigned_value (if c == b'+' then s else c ∷ s))) [
    | inl invalid ↦ cc (rw (no_minus, invalid, parse_port) at h)
    | inr (n, value) ↦ in_port_range_bound n port (rw (no_minus, value, parse_port) at h)
  ]
]

port_bytes : (port : ℕ) → port < 2 ^ 16 → port / 2 ^ 8 % 2 ^ 8 * 2 ^ 8 + port % 2 ^ 8 ≡ port
port_bytes port h = omega arith

short_ltb : (n : ℕ) → n ≤ 255 → ltb 255 n ≡ false
short_ltb n h = ground arith

short_mod : (n : ℕ) → n ≤ 255 → n % 2 ^ 8 ≡ n
short_mod n h = omega arith

-- A fixed number of bytes and a port are read back.
decode_fixed-append :
    (n : ℕ) (make : Bytes → SocksAddress) (address : Bytes) (port : ℕ)
    → length address ≡ n
    → port < 2 ^ 16
    → decode_fixed n make (address ++ port / 2 ^ 8 % 2 ^ 8 ∷ port % 2 ^ 8 ∷ [])
      ≡ some (make address, port)
decode_fixed-append n make address port e h =
    subst
      (λ n.
        decode_fixed n make (address ++ port / 2 ^ 8 % 2 ^ 8 ∷ port % 2 ^ 8 ∷ [])
        ≡ some (make address, port))
      e
      (rw (split_bytes-append address (port / 2 ^ 8 % 2 ^ 8 ∷ port % 2 ^ 8 ∷ []), decode_fixed)
        (rw (port_bytes port h) refl))

module _ (x : Externals)
    (parse_ip_long : (s : Text) (ip : Ip) → x.parse_ip s ≡ some ip → length ip ≡ 16) where
  -- The part of the request behind its first three bytes.
  address_bytes-decode :
      (host : Text) (port : ℕ)
      → length host ≤ 255
      → port < 2 ^ 16
      → (address : Bytes) × (address_bytes x host ≡ ok address)
        × (decode_request (5 ∷ 1 ∷ 0 ∷ (address ++ port / 2 ^ 8 % 2 ^ 8 ∷ port % 2 ^ 8 ∷ []))
            ≡ some (destination x host, port))
  unfolding address_bytes decode_request destination
  address_bytes-decode host port short h = elim (Option-cases (x.parse_ip host)) [
    | inl no_ip ↦ (
      3 ∷ length host ∷ host,
      rw (no_ip, address_bytes)
          (rw (short_ltb (length host) short, short_mod (length host) short) refl),
      rw (no_ip, destination) (decode_fixed-append (length host) domain_name host port refl h),
    )
    | inr (ip, is_ip) ↦ elim (Option-cases (to4 ip)) [
      | inl six ↦
          let long = parse_ip_long host ip is_ip in
          (
            4 ∷ ip,
            rw (is_ip, address_bytes)
                (rw (six, address_bytes) (rw (to16_long ip long, address_bytes) refl)),
            rw (is_ip, destination)
                (rw (six, destination) (decode_fixed-append 16 v6_address ip port long h)),
          )
      | inr (ipv4, four) ↦ (
        1 ∷ ipv4,
        rw (is_ip, address_bytes) (rw (four, address_bytes) refl),
        rw (is_ip, destination)
            (rw (four, destination)
              (decode_fixed-append 4 v4_address ipv4 port (length-to4 ip ipv4 four) h)),
      )
    ]
  ]

  -- For a target that splits into a host of at most 255 bytes and a port that is accepted, where
  -- an address that parses has 16 bytes, the CONNECT request is made, and a decoder of the protocol's
  -- format reads from it the target's address, or its name, and its port.
  pub decode-socks5_connect_request :
      (target host port_text : Text) (port : ℕ)
      → split_host_port target ≡ some (host, port_text)
      → parse_port port_text ≡ some port
      → length host ≤ 255
      → (request : Bytes) × (socks5_connect_request x target ≡ ok request)
        × (decode_request request ≡ some (destination x host, port))
  unfolding socks5_connect_request
  decode-socks5_connect_request target host port_text port split parsed short =
      let (address, made, decoded) =
        address_bytes-decode host port short (parse_port_bound port_text port parsed) in
      (
        5 ∷ 1 ∷ 0 ∷ (address ++ port / 2 ^ 8 % 2 ^ 8 ∷ port % 2 ^ 8 ∷ []),
        rw (split, socks5_connect_request)
            (rw (parsed, socks5_connect_request) (rw (made, socks5_connect_request) refl)),
        decoded,
      )

-- A reply of the server to a request: the code, the reserved byte, the bound address and its port.
abbrev pub encode_address : SocksAddress → Bytes
encode_address (v4_address bytes) = 1 ∷ bytes
encode_address (v6_address bytes) = 4 ∷ bytes
encode_address (domain_name bytes) = 3 ∷ length bytes ∷ bytes

abbrev pub encode_reply : ℕ → ℕ → SocksAddress → ℕ → ℕ → Bytes
encode_reply code reserved bound high low =
    5 ∷ code ∷ reserved ∷ (encode_address bound ++ high ∷ low ∷ [])

-- An address of the length that its type has.
abbrev pub HasItsLength : SocksAddress → Type 0
HasItsLength (v4_address bytes) = length bytes ≡ 4
HasItsLength (v6_address bytes) = length bytes ≡ 16
HasItsLength (domain_name bytes) = Unit

split_bytes-exact :
    (n : ℕ) (front back : Bytes)
    → length front ≡ n
    → split_bytes n (front ++ back) ≡ some (front, back)
split_bytes-exact n front back e =
    subst (λ n. split_bytes n (front ++ back) ≡ some (front, back)) e
      (split_bytes-append front back)

-- The end of a reply: the address and the port.
read_bound :
    (conn : Conn) (n : ℕ) (bytes rest : Bytes) (high low : ℕ)
    → length bytes ≡ n
    → then_on
        (read_full n (record conn { incoming = (bytes ++ high ∷ low ∷ []) ++ rest }))
        (λ _ after. then_on (read_full 2 after) (λ _ last. (ok tt, last)))
      ≡ (ok tt, record conn { incoming = rest })
unfolding then_on read_full split_bytes
read_bound conn n bytes rest high low e =
    rw (append_assoc bytes (high ∷ low ∷ []) rest)
      (rw (split_bytes-exact n bytes (high ∷ low ∷ rest) e, read_full, then_on) refl)

-- A reply with the code 0 is consumed to its last byte, whatever its bound address is, so that the
-- bytes behind it are left for the tunnel; nothing is sent.
pub read_socks5_reply-encode_reply :
    (conn : Conn) (bound : SocksAddress) (reserved high low : ℕ) (rest : Bytes)
    → HasItsLength bound
    → conn.incoming ≡ encode_reply 0 reserved bound high low ++ rest
    → read_socks5_reply conn ≡ (ok tt, record conn { incoming = rest })
unfolding read_socks5_reply then_on read_full split_bytes bound_length check byte_at
read_socks5_reply-encode_reply conn (v4_address bytes) reserved high low rest e h =
    rw h (read_bound conn 4 bytes rest high low e)
read_socks5_reply-encode_reply conn (v6_address bytes) reserved high low rest e h =
    rw h (read_bound conn 16 bytes rest high low e)
read_socks5_reply-encode_reply conn (domain_name bytes) reserved high low rest e h =
    rw h (read_bound conn (length bytes) bytes rest high low refl)
