-- ===== src/DnsIntercept/Lifetimes.antt =====
-- How long a response may be kept, and what lifetimes a cached one shows.
use siteboost_core.Common.{
  ltb, ◌==◌, if◌then◌else◌, All, All-append, ℕ, ◌+◌, ◌*◌, ◌≤◌, ◌≡◌, refl, ◌≢◌, ◌⊎◌, Option, none,
  some, [], ◌∷◌, map, arith,
}
use siteboost_core.DnsIntercept.{
  second, ResourceRecord, Section, Msg, all_records, cap_record, cap_response_ttl, least_ttl,
  response_ttl, remaining_seconds,
}

-- A bound on the record, where there is one.
abbrev pub OnRecord : (ResourceRecord → Type 0) → Option ResourceRecord → Type 0
OnRecord P none = Unit
OnRecord P (some rr) = P rr

abbrev pub OnRecords : (ResourceRecord → Type 0) → Section → Type 0
OnRecords P records = All (OnRecord P) records

-- The least TTL is at most the one seen before, and at most that of every record.
abbrev AtMost : ℕ → Option ℕ → Type 0
AtMost t none = Unit
AtMost t (some s) = t ≤ s

least_ttl_bound :
    (seen : Option ℕ) (records : Section) (t : ℕ)
    → least_ttl seen records ≡ some t
    → AtMost t seen × OnRecords (λ rr. t ≤ rr.ttl) records
unfolding least_ttl
least_ttl_bound none [] t h = cc
least_ttl_bound (some s) [] t h = let e : s ≡ t = ground arith in (omega arith, tt)
least_ttl_bound none (none ∷ records) t h =
    let (_, later) = least_ttl_bound none records t h in (tt, (tt, later))
least_ttl_bound (some s) (none ∷ records) t h =
    let (here, later) = least_ttl_bound (some s) records t h in (here, (tt, later))
least_ttl_bound none (some rr ∷ records) t h =
    let (here, later) = least_ttl_bound (some rr.ttl) records t h in (tt, (here, later))
least_ttl_bound (some s) (some rr ∷ records) t h =
    let (here, later) = least_ttl_bound (some (if ltb rr.ttl s then rr.ttl else s)) records t h in
    let both : (t ≤ s) × (t ≤ rr.ttl) = ground arith in (both.0, (both.1, later))

least_ttl_seen : (s : ℕ) (records : Section) → least_ttl (some s) records ≢ none
unfolding least_ttl
least_ttl_seen s [] h = cc
least_ttl_seen s (none ∷ records) h = least_ttl_seen s records h
least_ttl_seen s (some rr ∷ records) h =
    least_ttl_seen (if ltb rr.ttl s then rr.ttl else s) records h

-- No TTL is found only where there is no record.
least_ttl-none :
    (P : ResourceRecord → Type 0) (records : Section)
    → least_ttl none records ≡ none
    → OnRecords P records
unfolding least_ttl
least_ttl-none P [] h = tt
least_ttl-none P (none ∷ records) h = (tt, least_ttl-none P records h)
least_ttl-none P (some rr ∷ records) h = absurd (least_ttl_seen rr.ttl records h)

OnRecords-weaken :
    (P Q : ResourceRecord → Type 0) (records : Section)
    → ((rr : ResourceRecord) → P rr → Q rr)
    → OnRecords P records
    → OnRecords Q records
OnRecords-weaken P Q [] f h = tt
OnRecords-weaken P Q (none ∷ records) f h = (tt, OnRecords-weaken P Q records f h.1)
OnRecords-weaken P Q (some rr ∷ records) f h = (f rr h.0, OnRecords-weaken P Q records f h.1)

-- A response is kept at most as long as every one of its records says, and, where the cache has a
-- configured lifetime, at most that long.
pub response_ttl_bound :
    (resp : Msg) (configured : ℕ)
    → OnRecords (λ rr. response_ttl resp configured ≤ rr.ttl * second) (all_records resp)
      × ((configured ≡ 0) ⊎ (response_ttl resp configured ≤ configured))
unfolding response_ttl
response_ttl_bound resp configured = step (least_ttl none (all_records resp)) refl
  where
    kept : Option ℕ → ℕ
    kept least =
        let max_ttl = if configured == 0 then 600 * second else configured in
        elim least [
          | none ↦ max_ttl
          | some ttl ↦ if ltb max_ttl (ttl * second) then max_ttl else ttl * second
        ]

    step :
        (least : Option ℕ)
        → least_ttl none (all_records resp) ≡ least
        → OnRecords (λ rr. kept least ≤ rr.ttl * second) (all_records resp)
          × ((configured ≡ 0) ⊎ (kept least ≤ configured))
    step none e = (least_ttl-none _ (all_records resp) e, ground arith)
    step (some t) e = (
      OnRecords-weaken (λ rr. t ≤ rr.ttl) (λ rr. kept (some t) ≤ rr.ttl * second) (all_records resp)
          (λ rr bound. ground arith) (least_ttl_bound none _ t e).1,
      ground arith,
    )

-- Capping leaves no TTL above the time that remains.
cap_section :
    (remaining : ℕ) (records : Section)
    → OnRecords (λ rr. rr.ttl ≤ remaining) (map (cap_record remaining) records)
cap_section remaining [] = tt
cap_section remaining (none ∷ records) = (tt, cap_section remaining records)
cap_section remaining (some rr ∷ records) = (ground arith, cap_section remaining records)

pub cap_response_ttl_bound :
    (remaining : ℕ) (m : Msg)
    → OnRecords (λ rr. rr.ttl ≤ remaining) (all_records (cap_response_ttl remaining m))
unfolding cap_response_ttl
cap_response_ttl_bound remaining m =
    All-append _ (map (cap_record remaining) m.answer) _ (cap_section remaining m.answer) (
      All-append _ (map (cap_record remaining) m.ns) _ (cap_section remaining m.ns)
        (cap_section remaining m.extra))

remaining_seconds_bound :
    (expires now : ℕ) → now ≤ expires → now + remaining_seconds expires now * second ≤ expires
unfolding remaining_seconds
remaining_seconds_bound expires now h = ground arith

pub cap_fresh :
    (expires now : ℕ) (m : Msg)
    → now ≤ expires
    → OnRecords
        (λ rr. now + rr.ttl * second ≤ expires)
        (all_records (cap_response_ttl (remaining_seconds expires now) m))
cap_fresh expires now m h =
    OnRecords-weaken (λ rr. rr.ttl ≤ remaining_seconds expires now)
      (λ rr. now + rr.ttl * second ≤ expires)
      (all_records (cap_response_ttl (remaining_seconds expires now) m))
      (λ rr bound. omega (arith, remaining_seconds_bound expires now h))
      (cap_response_ttl_bound (remaining_seconds expires now) m)
