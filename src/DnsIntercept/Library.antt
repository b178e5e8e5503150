-- ===== src/DnsIntercept/Library.antt =====
-- What the server relies on in the DNS library: SetReply and SetRcode answer under the request's id,
-- with an empty answer section and the code that was asked for.
use siteboost_core.Common.{ℕ, ◌≡◌, refl, []}
use siteboost_core.DnsIntercept.{rcode_success, Msg, DnsLibrary}

pub record IsDnsLibrary (lib : DnsLibrary) : Type 0 where
  pub set_reply_id : (req : Msg) → (lib.set_reply req).id ≡ req.id
  pub set_reply_rcode : (req : Msg) → (lib.set_reply req).rcode ≡ rcode_success
  pub set_reply_answer : (req : Msg) → (lib.set_reply req).answer ≡ []
  pub set_rcode_id : (req : Msg) (code : ℕ) → (lib.set_rcode req code).id ≡ req.id
  pub set_rcode_rcode : (req : Msg) (code : ℕ) → (lib.set_rcode req code).rcode ≡ code

-- A library that meets this: a reply without records.
abbrev pub plain_library : DnsLibrary
plain_library = record {
  set_reply = λ req. record req { rcode = 0; answer = []; ns = []; extra = [] };
  set_rcode = λ req code. record req { rcode = code; answer = []; ns = []; extra = [] };
}

pub plain_library-IsDnsLibrary : IsDnsLibrary plain_library
plain_library-IsDnsLibrary = record {
  set_reply_id = λ req. refl;
  set_reply_rcode = λ req. refl;
  set_reply_answer = λ req. refl;
  set_rcode_id = λ req code. refl;
  set_rcode_rcode = λ req code. refl;
}
