-- ===== src/Gateway/Tests/Requests.antt =====
-- gateway/http.rs and gateway/limits.rs at concrete inputs.
use warpdeck.Prelude.{
  ℕ, ◌+◌, ◌-◌, ◌*◌, ◌/◌, ◌≡◌, refl, Bool, true, leb, min, none, some, List, [], ◌∷◌, ◌++◌, ◌==◌,
  codes, max, arith,
}
use warpdeck.Prelude.Machine.{nanos_per_sec}
use warpdeck.Runtime.Registry.{Registry, RuntimeState, stopped_runtime, with_state}
use warpdeck.Gateway.Pool.{new, pick}
use warpdeck.Gateway.Limits.{F64}
use warpdeck.Gateway.Limits.Permits.{arrive, leave, IsCounted, opened, passes, passes-opened}
use warpdeck.Prelude.Text.{lines}
use warpdeck.Gateway.Http.{read_head}
use warpdeck.Gateway.Http.Base64.{base64_encode, digit}
use warpdeck.Gateway.Http.Session.{Client, Environment, Ended, Tunnel, handle_conn}
use warpdeck.Gateway.Http.Session.Admitted.{
  HasCredentials, is_reached, handle_conn-admitted, handle_conn-forwarded,
}

-- The example of RFC 4648.
encoded : base64_encode (codes "fooba") ≡ codes "Zm9vYmE="
unfolding base64_encode digit
encoded = refl

-- Exact numbers, in billionths.
abbrev exact : F64
exact = record {
  Float = ℕ;
  from = λ n. n * nanos_per_sec;
  as_secs_f64 = λ n. n;
  one = nanos_per_sec;
  plus = λ a b. a + b;
  minus = λ a b. a - b;
  times = λ a b. a * b / nanos_per_sec;
  smaller = min;
  at_least = λ a b. leb b a;
}

passes-opened_example :
    IsCounted exact
      (max 0 1)
      (passes exact (arrive 3 ∷ arrive 4 ∷ leave ∷ []) (opened exact (some 0) (some 5) 2))
passes-opened_example = passes-opened exact 0 (some 5) 2 (arrive 3 ∷ arrive 4 ∷ leave ∷ [])

abbrev is_blank : ℕ → Bool
is_blank c = c == 32

abbrev plain : Environment
plain = record {
  decode = λ s. s;
  is_whitespace = is_blank;
  parse_addr = λ s. none;
  dial = λ upstream host port. true;
}

abbrev fleet : Registry
fleet = (7, with_state RuntimeState.healthy stopped_runtime) ∷ []

abbrev client : Client
client = record { allowed = true; auth = some (codes "u", codes "p"); permit = none }

abbrev crlf : List ℕ
crlf = 13 ∷ 10 ∷ []

abbrev request : List ℕ
request =
    codes "GET http://a:81/ HTTP/1.1"
    ++ (crlf ++ (codes "Proxy-Authorization: Basic dTpw" ++ (crlf ++ crlf)))

abbrev session : Ended
session = handle_conn plain fleet client (request ∷ []) new

reached : is_reached session ≡ true
unfolding handle_conn pick lines digit base64_encode
reached = refl

handle_conn-admitted_example :
    (client.allowed ≡ true)
    × (buf : List ℕ) × (rest : List (List ℕ)) × (read_head (request ∷ []) [] ≡ some (buf, rest))
    × HasCredentials is_blank (codes "u" ++ b':' ∷ codes "p") buf
handle_conn-admitted_example =
    handle_conn-admitted plain fleet client new (request ∷ []) (codes "u") (codes "p") refl
      (omega arith, (omega arith, (omega arith, tt))) reached

abbrev tunnel : Tunnel
tunnel = record {
  upstream = record { instance_id = 7; port = 40007 };
  host = codes "a";
  port = 81;
  forwarded = request;
}

tunnelled : session.tunnel ≡ some tunnel
unfolding handle_conn pick lines digit base64_encode
tunnelled = refl

quiet : session.response ≡ none
unfolding handle_conn pick lines digit base64_encode
quiet = refl

handle_conn-forwarded_example : HasCredentials is_blank (codes "u" ++ b':' ∷ codes "p") request
handle_conn-forwarded_example =
    handle_conn-forwarded plain fleet client new (request ∷ []) (codes "u") (codes "p") refl
      (omega arith, (omega arith, (omega arith, tt))) tunnel tunnelled quiet
