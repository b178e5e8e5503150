-- ===== src/Resolver/Policy.antt =====
-- The addresses that applyPolicy lets through, and their order.

use siteboost_core.Rules.{sort_slice}
use siteboost_core.Text.Laws.{text_eq_comm}
use siteboost_core.Rules.Sorting.{IsApart, All-sort_slice, sort_slice-IsApart}
use siteboost_core.Resolver.{
  Config, ip_string, seen_ip, is_usable, keep_usable, ipv4_first, ipv6_first, apply_policy,
}
use siteboost_core.Text.{text_eq}
use siteboost_core.External.{Ip, to4}
use siteboost_core.Common.{
  if◌then◌else◌, Bool-cases, Option-cases, taken, any, All, ◌≡◌, refl, ◌≢◌, inl, inr, Bool, true,
  false, not, ◌&&◌, ◌||◌, some, List, [], ◌∷◌, arith,
}

-- No two addresses print alike.
abbrev pub HasDistinctStrings : List Ip → Type 0
HasDistinctStrings ips = IsApart (λ one two. text_eq (ip_string one) (ip_string two)) ips

-- The addresses that may be used: not missing, and where IPv6 is disabled with an IPv4 form, which is
-- four bytes, or sixteen with ten zero bytes and two of 255 in front.
pub record MayBeUsed (cfg : Config) (ip : Ip) : Type 0 where
  pub given : ip ≢ []
  pub enabled : cfg.disable_ipv6 ≡ true → (four : Ip) × (to4 ip ≡ some four)

MayBeUsed-is_usable : (cfg : Config) (ip : Ip) → is_usable cfg ip ≡ true → MayBeUsed cfg ip
MayBeUsed-is_usable cfg [] h = cc
MayBeUsed-is_usable cfg (byte ∷ ip) h = record {
  given = λ e. cc e;
  enabled = λ disabled. elim (Option-cases (to4 (byte ∷ ip))) [
    | inl none_here ↦ cc (rw (disabled, none_here) at h)
    | inr found ↦ found
  ];
}

-- What holds of the addresses kept behind those seen so far.
record AreKept (cfg : Config) (seen kept : List Ip) : Type 0 where
  usable : All (λ ip. MayBeUsed cfg ip) kept
  distinct : HasDistinctStrings kept
  avoiding : All (λ ip. seen_ip ip seen ≡ false) kept

seen_ip-cons :
    (ip : Ip) (seen kept : List Ip)
    → All (λ one. seen_ip one (ip_string ip ∷ seen) ≡ false) kept
    → All (λ one. seen_ip one seen ≡ false) kept
      × (any (λ one. text_eq (ip_string ip) (ip_string one)) kept ≡ false)
seen_ip-cons ip seen [] h = (tt, refl)
seen_ip-cons ip seen (one ∷ kept) h =
    let (rest, none_here) = seen_ip-cons ip seen kept h.1 in
    let two : (text_eq (ip_string ip) (ip_string one) ≡ false) × (seen_ip one seen ≡ false) =
      both (text_eq (ip_string ip) (ip_string one)) (seen_ip one seen) h.0 in
    ((two.1, rest), rw two.0 none_here)
  where
    both : (b c : Bool) → (b || c) ≡ false → (b ≡ false) × (c ≡ false)
    both true c e = cc
    both false c e = (refl, e)

module _ (cfg : Config) where
  keep_usable-AreKept : (seen ips : List Ip) → AreKept cfg seen (keep_usable cfg seen ips)
  unfolding keep_usable
  keep_usable-AreKept seen [] = record { usable = tt; distinct = tt; avoiding = tt }
  keep_usable-AreKept seen (ip ∷ ips) =
      elim (Bool-cases (is_usable cfg ip && not (seen_ip ip seen))) [
        | inr dropped ↦ rw (dropped, keep_usable) (keep_usable-AreKept seen ips)
        | inl taken ↦
            rw (taken, keep_usable)
              (let parts = and_parts (is_usable cfg ip) (seen_ip ip seen) taken in
                let later = keep_usable-AreKept (ip_string ip ∷ seen) ips in
                let (rest, none_here) = seen_ip-cons ip seen _ later.avoiding in
                record {
                  usable = (MayBeUsed-is_usable cfg ip parts.0, later.usable);
                  distinct = (none_here, later.distinct);
                  avoiding = (parts.1, rest);
                })
      ]
    where
      and_parts : (b c : Bool) → (b && not c) ≡ true → (b ≡ true) × (c ≡ false)
      and_parts b c e = ground arith

  ip_comm :
      (one two : Ip)
      → text_eq (ip_string one) (ip_string two) ≡ text_eq (ip_string two) (ip_string one)
  ip_comm one two = text_eq_comm (ip_string one) (ip_string two)

  -- What the policy promises of the addresses it lets through.
  abbrev pub AreAllowed : List Ip → Type 0
  AreAllowed ips = All (λ ip. MayBeUsed cfg ip) ips × HasDistinctStrings ips

  sort_if-AreAllowed :
      (b : Bool) (lt : Ip → Ip → Bool) (ips : List Ip)
      → AreAllowed ips
      → AreAllowed (if b then sort_slice lt ips else ips)
  sort_if-AreAllowed true lt ips h =
      (All-sort_slice lt _ ips h.0, sort_slice-IsApart lt _ ip_comm ips h.1)
  sort_if-AreAllowed false lt ips h = h

  -- applyPolicy lets through usable addresses only (none is empty, and none is IPv6 with
  -- DisableIPv6), and no two that print alike.
  pub apply_policy-AreAllowed : (ips : List Ip) → AreAllowed (apply_policy cfg ips)
  unfolding apply_policy
  apply_policy-AreAllowed ips =
      let kept = keep_usable-AreKept [] ips in
      sort_if-AreAllowed cfg.prefer_ipv6 ipv6_first _
        (sort_if-AreAllowed cfg.prefer_ipv4 ipv4_first _ (kept.usable, kept.distinct))
