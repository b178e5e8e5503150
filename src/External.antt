-- ===== src/External.antt =====
-- What the program calls and does not implement itself: the Unicode tables of the standard library
-- outside ASCII, golang.org/x/net/idna, the parsers net/url.Parse and net.ParseIP, the text of an
-- address, case folding, and the canonical form of header names.
use siteboost_core.Common.{
  ◌==◌, if◌then◌else◌, length, all, ℕ, Bool, false, ◌&&◌, Option, none, some, List, [], ◌∷◌,
}
use siteboost_core.Text.{Text, text_eq}

-- net.IP: the bytes of an address. `[]` is the nil address.
abbrev pub Ip : Type 0
Ip = List ℕ

-- The parts of url.URL that the program reads.
pub record Url : Type 0 where
  pub scheme : Text
  pub host : Text
  -- the user's name, and the password where one is given
  pub user : Option (Text × Option Text)

pub record Externals : Type 0 where
  -- unicode.ToLower of a code point outside ASCII
  pub lower_rune : ℕ → ℕ
  -- idna.Lookup.ToASCII
  pub to_ascii : Text → Option Text
  -- url.Parse, whose error is `none`
  pub url_parse : Text → Option Url
  -- net.ParseIP, whose nil is `none`
  pub parse_ip : Text → Option Ip
  -- strings.EqualFold
  pub equal_fold : Text → Text → Bool
  -- ip.String()
  pub ip_text : Ip → Text
  -- textproto.CanonicalMIMEHeaderKey
  pub canonical_header : Text → Text

-- `b` without the first twelve bytes of an IPv4-mapped address.
abbrev pub mapped_v4 : Ip → Option Ip
mapped_v4
      (b0 ∷ b1 ∷ b2 ∷ b3 ∷ b4 ∷ b5 ∷ b6 ∷ b7 ∷ b8 ∷ b9 ∷ b10 ∷ b11 ∷ b12 ∷ b13 ∷ b14 ∷ b15 ∷ []) =
    if all (λ b. b == 0) (b0 ∷ b1 ∷ b2 ∷ b3 ∷ b4 ∷ b5 ∷ b6 ∷ b7 ∷ b8 ∷ b9 ∷ [])
      && b10 == 0xff
      && b11 == 0xff
    then some (b12 ∷ b13 ∷ b14 ∷ b15 ∷ [])
    else none
mapped_v4 _ = none

-- ip.To4()
unfoldable pub to4 : Ip → Option Ip
to4 (a ∷ b ∷ c ∷ d ∷ []) = some (a ∷ b ∷ c ∷ d ∷ [])
to4 ip = mapped_v4 ip

-- ip.IsLoopback()
unfoldable pub is_loopback : Ip → Bool
is_loopback ip = elim (to4 ip) [
  | some (a ∷ _) ↦ a == 127
  | some [] ↦ false
  | none ↦ text_eq ip (0 ∷ 0 ∷ 0 ∷ 0 ∷ 0 ∷ 0 ∷ 0 ∷ 0 ∷ 0 ∷ 0 ∷ 0 ∷ 0 ∷ 0 ∷ 0 ∷ 0 ∷ 1 ∷ [])
]

-- The nil address for `none`.
abbrev pub or_nil : Option Ip → Ip
or_nil none = []
or_nil (some ip) = ip

-- ip.To16()
unfoldable pub to16 : Ip → Option Ip
to16 (a ∷ b ∷ c ∷ d ∷ []) =
    some (0 ∷ 0 ∷ 0 ∷ 0 ∷ 0 ∷ 0 ∷ 0 ∷ 0 ∷ 0 ∷ 0 ∷ 0xff ∷ 0xff ∷ a ∷ b ∷ c ∷ d ∷ [])
to16 ip = if length ip == 16 then some ip else none
