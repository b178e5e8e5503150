-- ===== src/Upstream/Socks.antt =====
-- internal/upstream/upstream.go: the SOCKS5 client's handshake over a connection. A byte is a
-- natural number, and a host name is given by its bytes.
use siteboost_core.Common.{
  ltb, leb, ◌==◌, if◌then◌else◌, length, is_empty, Result, ok, err, ◌>>=◌, require, of_option, ℕ,
  zero, suc, ◌+◌, ◌-◌, ◌*◌, ◌/◌, ◌%◌, ◌^◌, Bool, not, ◌&&◌, ◌||◌, Option, none, some, List, [], ◌∷◌,
  ◌++◌,
}
use siteboost_core.Text.{Text}
use siteboost_core.Text.Address.{split_host_port}
use siteboost_core.External.{Externals, to4, or_nil, to16}

abbrev pub Bytes : Type 0
Bytes = List ℕ

-- What the server still sends, the messages sent so far, and how many writes still succeed.
pub record Conn : Type 0 where
  pub incoming : Bytes
  pub sent : List Bytes
  pub writes : ℕ

pub data SocksError : Type 0 where
  target_syntax port_invalid host_too_long credentials_too_long : SocksError
  write_failed read_failed bad_version method_rejected authentication_failed : SocksError
  connect_failed : ℕ → SocksError
  bad_address_type : SocksError

-- The port that strconv.Atoi gives, where the code accepts it: decimal digits with an optional sign,
-- of a value from 1 to 65535.
unfoldable pub digits_value : ℕ → Text → Option ℕ
digits_value sum [] = some sum
digits_value sum (c ∷ s) =
    let rest = digits_value (sum * 10 + (c - 48)) s in if leb 48 c && leb c 57 then rest else none

unfoldable pub unsigned_value : Text → Option ℕ
unfolding digits_value
unsigned_value [] = none
unsigned_value (c ∷ s) = digits_value 0 (c ∷ s)

abbrev pub in_port_range : ℕ → Option ℕ
in_port_range port = if ltb port 1 || ltb 65535 port then none else some port

-- A negative number is below 1.
unfoldable pub parse_port : Text → Option ℕ
unfolding unsigned_value
parse_port [] = none
parse_port (c ∷ s) =
    if c == b'-' then none else elim (unsigned_value (if c == b'+' then s else c ∷ s)) [
      | none ↦ none
      | some port ↦ in_port_range port
    ]

-- The address type and the address of the request.
unfoldable pub address_bytes : Externals → Text → Result SocksError Bytes
address_bytes x host = elim (x.parse_ip host) [
  | some ip ↦ elim (to4 ip) [ some ipv4 ↦ ok (1 ∷ ipv4) | none ↦ ok (4 ∷ or_nil (to16 ip)) ]
  | none ↦ if ltb 255 (length host) then err host_too_long else ok (3 ∷ length host % 2 ^ 8 ∷ host)
]

unfoldable pub socks5_connect_request : Externals → Text → Result SocksError Bytes
socks5_connect_request x target = do
  (host, port_text) ← of_option target_syntax (split_host_port target)
  port ← of_option port_invalid (parse_port port_text)
  address ← address_bytes x host
  ok (5 ∷ 1 ∷ 0 ∷ (address ++ port / 2 ^ 8 % 2 ^ 8 ∷ port % 2 ^ 8 ∷ []))

-- io.ReadFull of `n` bytes: the bytes and what is left.
unfoldable pub split_bytes : ℕ → Bytes → Option (Bytes × Bytes)
split_bytes zero bytes = some ([], bytes)
split_bytes (suc n) [] = none
split_bytes (suc n) (b ∷ bytes) = elim (split_bytes n bytes) [
  | none ↦ none
  | some (front, back) ↦ some (b ∷ front, back)
]

-- A read that fails has taken what was there.
unfoldable pub read_full : ℕ → Conn → Result SocksError Bytes × Conn
read_full n conn = elim (split_bytes n conn.incoming) [
  | none ↦ (err read_failed, record conn { incoming = [] })
  | some (front, back) ↦ (ok front, record conn { incoming = back })
]

unfoldable pub write : Bytes → Conn → Result SocksError (Unit {0}) × Conn
write message conn = elim conn.writes [
  | zero ↦ (err write_failed, conn)
  | suc left ↦ (ok tt, record conn { sent = conn.sent ++ message ∷ []; writes = left })
]

-- A step, and the next one where it succeeds.
unfoldable pub then_on :
    {A B : Type 0}
    → Result SocksError A × Conn
    → (A → Conn → Result SocksError B × Conn)
    → Result SocksError B × Conn
then_on (ok v, conn) next = next v conn
then_on (err e, conn) next = (err e, conn)

-- `if !ok { return e }`
unfoldable pub check : Bool → SocksError → Conn → Result SocksError (Unit {0}) × Conn
check passed e conn = (require passed e, conn)

-- The byte at an index, where a read of enough bytes succeeded before.
unfoldable pub byte_at : ℕ → Bytes → ℕ
byte_at n [] = 0
byte_at zero (b ∷ bytes) = b
byte_at (suc n) (b ∷ bytes) = byte_at n bytes

-- How many bytes the bound address has, which depends on the type.
unfoldable pub bound_length : ℕ → Conn → Result SocksError ℕ × Conn
bound_length kind conn =
    if kind == 1
    then (ok 4, conn)
    else if kind == 3
    then then_on (read_full 1 conn) (λ length_byte conn. (ok (byte_at 0 length_byte), conn))
    else if kind == 4
    then (ok 16, conn)
    else (err bad_address_type, conn)

unfoldable pub read_socks5_reply : Conn → Result SocksError (Unit {0}) × Conn
read_socks5_reply conn = then_on (read_full 4 conn) λ header conn.
    then_on (check (byte_at 0 header == 5) bad_version conn) λ _ conn.
      then_on (check (byte_at 1 header == 0) (connect_failed (byte_at 1 header)) conn) λ _ conn.
        then_on (bound_length (byte_at 3 header) conn) λ discard conn.
          then_on (read_full discard conn)
            λ _ conn. then_on (read_full 2 conn) λ _ conn. (ok tt, conn)

abbrev pub greeting_message : Bool → Bytes
greeting_message auth_required = if auth_required then 5 ∷ 2 ∷ 0 ∷ 2 ∷ [] else 5 ∷ 1 ∷ 0 ∷ []

abbrev pub auth_message : Bytes → Bytes → Bytes
auth_message username password =
    1 ∷ length username % 2 ^ 8 ∷ (username ++ length password % 2 ^ 8 ∷ password)

module _ (x : Externals) (username password : Bytes) where
  unfoldable pub authenticate : Conn → Result SocksError (Unit {0}) × Conn
  authenticate conn =
      then_on
        (check (not (ltb 255 (length username) || ltb 255 (length password))) credentials_too_long
          conn)
        λ _ conn. then_on (write (auth_message username password) conn) λ _ conn.
          then_on (read_full 2 conn) λ answer conn.
            check (byte_at 0 answer == 1 && byte_at 1 answer == 0) authentication_failed conn

  -- What the method that the server selects asks for.
  unfoldable pub use_method : ℕ → Conn → Result SocksError (Unit {0}) × Conn
  use_method method conn =
      if method == 0
      then (ok tt, conn)
      else if method == 2
      then authenticate conn
      else (err method_rejected, conn)

  unfoldable pub send_request : Text → Conn → Result SocksError (Unit {0}) × Conn
  send_request target conn = elim (socks5_connect_request x target) [
    | err e ↦ (err e, conn)
    | ok request ↦ then_on (write request conn) λ _ conn. read_socks5_reply conn
  ]

  unfoldable pub handshake : Text → Conn → Result SocksError (Unit {0}) × Conn
  handshake target conn =
      let auth_required = not (is_empty username) || not (is_empty password) in
      then_on (write (greeting_message auth_required) conn) λ _ conn.
        then_on (read_full 2 conn) λ greeting conn.
          then_on (check (byte_at 0 greeting == 5) bad_version conn) λ _ conn.
            then_on (use_method (byte_at 1 greeting) conn) λ _ conn. send_request target conn
