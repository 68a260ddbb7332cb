-- ===== src/Runtime/Tests/Probes.antt =====
-- runtime/probe/socks5.rs at concrete answers.
use warpdeck.Prelude.{◌≡◌, refl, none, List, [], ◌∷◌, ◌++◌, ℕ, codes, Option, arith}
use warpdeck.Gateway.Socks5.{Target, connect_request}
use warpdeck.Runtime.Probe.{
  IpLiteral, Answer, ProbeError, greeting, request, read_reply, skip_bound, handshake,
}
use warpdeck.Runtime.Probe.Established.{handshake-connected}

abbrev no_literal : List ℕ → Option IpLiteral
no_literal host = none

-- A server that asks for a password.
needs_password :
    handshake no_literal (codes "a.io") 443 (5 ∷ 255 ∷ [])
    ≡ (greeting ∷ [], Answer.failed (ProbeError.no_auth_not_accepted 255))
unfolding handshake
needs_password = refl

refused : read_reply (5 ∷ 5 ∷ 0 ∷ 1 ∷ []) ≡ Answer.failed (ProbeError.rejected 5)
unfolding read_reply
refused = refl

cut_short : read_reply (5 ∷ 0 ∷ 0 ∷ 1 ∷ 127 ∷ []) ≡ Answer.failed ProbeError.unexpected_eof
unfolding read_reply skip_bound
cut_short = refl

handshake-connected_example :
    handshake no_literal
      (codes "a.io")
      443
      (5 ∷ 0 ∷ 5 ∷ 0 ∷ 0 ∷ 3 ∷ 2 ∷ 105 ∷ 111 ∷ 0 ∷ 0 ∷ 72 ∷ [])
    ≡ (
      greeting ∷ (5 ∷ 1 ∷ 0 ∷ 3 ∷ 4 ∷ (codes "a.io" ++ 1 ∷ 187 ∷ [])) ∷ [],
      Answer.connected (72 ∷ []),
    )
unfolding handshake request read_reply skip_bound connect_request
handshake-connected_example =
    handshake-connected no_literal (codes "a.io") 443 (Target.domain (105 ∷ 111 ∷ [])) 0 0 (72 ∷ [])
      (omega arith, refl) (omega arith, refl)
