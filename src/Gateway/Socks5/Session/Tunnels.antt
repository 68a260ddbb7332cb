-- ===== src/Gateway/Socks5/Session/Tunnels.antt =====
-- gateway/socks5.rs: what a session must have passed before a tunnel is opened.
use warpdeck.Prelude.{
  ℕ, zero, suc, ◌≡◌, ◌⊎◌, inl, inr, refl, Bool, true, false, some, List, [], ◌∷◌, ◌++◌, ◌==◌,
  length, split_at?, arith, Option-cases, Bool-cases, ==_iff,
}
use warpdeck.Runtime.Registry.{Registry}
use warpdeck.Gateway.Pool.{RoundRobinPool, Upstream, pick}
use warpdeck.Gateway.Auth.{verify_credentials}
use warpdeck.Gateway.Socks5.{Method, user_pass, Target, counted}
use warpdeck.Gateway.Socks5.Session.{
  Stage, closed, go, negotiate, authenticate, admit, read_request, Tunnel, Client, is_rejected,
  connect_upstream, serve_request, handle_conn,
}

Stage-cases :
    {A : Type 0} (s : Stage A)
    → ((out : List ℕ) × (s ≡ closed out))
      ⊎ ((a : A) × (out : List ℕ) × (rest : List ℕ) × (s ≡ go a out rest))
Stage-cases (closed out) = inl (out, refl)
Stage-cases (go a out rest) = inr (a, out, rest, refl)

split_at?_lem :
    (n : ℕ) (xs a rest : List ℕ)
    → split_at? n xs ≡ some (a, rest)
    → (xs ≡ a ++ rest) × (length a ≡ n)
split_at?_lem zero xs a rest e = (ground arith, ground arith)
split_at?_lem (suc n) [] a rest e = absurd (ground arith)
split_at?_lem (suc n) (x ∷ xs) a rest e = elim (Option-cases (split_at? n xs)) [
  | inl p ↦ absurd (ground arith)
  | inr ((b, c), p) ↦
      let (q, l) = split_at?_lem n xs b c p in (ground (arith, q), ground (arith, l))
]

counted_lem :
    (input a rest : List ℕ) → counted input ≡ some (a, rest) → input ≡ length a ∷ (a ++ rest)
counted_lem [] a rest e = absurd (ground arith)
counted_lem (n ∷ xs) a rest e = let (q, l) = split_at?_lem n xs a rest e in cc

authenticate_lem :
    (u p input out rest : List ℕ)
    → authenticate (u, p) input ≡ go tt out rest
    → (user : List ℕ) × (pass : List ℕ) × (input
        ≡ 1 ∷ length user ∷ (user ++ length pass ∷ (pass ++ rest)))
      × (verify_credentials (some (u, p)) user pass ≡ true)
unfolding authenticate
authenticate_lem u p [] out rest e = absurd (ground arith)
authenticate_lem u p (v ∷ input) out rest e = elim (Bool-cases (v == 1)) [
  | inr bad ↦ absurd (ground arith)
  | inl good ↦ elim (Option-cases (counted input)) [
    | inl q ↦ absurd (ground arith)
    | inr ((user, r), q) ↦ elim (Option-cases (counted r)) [
      | inl t ↦ absurd (ground arith)
      | inr ((pass, more), t) ↦
          let a = counted_lem input user r q in
          let b = counted_lem r pass more t in
          let w = (==_iff v 1).0 good in
          let same : more ≡ rest = ground arith in (user, pass, cc, ground arith)
    ]
  ]
]

negotiate_lem :
    (input out rest : List ℕ) (method : Method)
    → negotiate true input ≡ go method out rest
    → method ≡ user_pass
unfolding negotiate
negotiate_lem [] out rest method e = absurd (ground arith)
negotiate_lem (v ∷ []) out rest method e = absurd (ground arith)
negotiate_lem (v ∷ n ∷ input) out rest method e = ground arith

module _ (decode : List ℕ → List ℕ) (dial : Upstream → Target → ℕ → Bool)
    (registry : Registry) where
  connect_lem :
      (target : Target) (port : ℕ) (output : List ℕ) (pool : RoundRobinPool) (t : Tunnel)
      → (connect_upstream decode dial registry target port output pool).tunnel ≡ some t
      → ((pick registry pool).0 ≡ some t.upstream) × (dial t.upstream t.target t.port ≡ true)
  unfolding connect_upstream
  connect_lem target port output pool t e = (ground arith, ground arith)

  serve_lem :
      (client : Client) (output input : List ℕ) (pool : RoundRobinPool) (t : Tunnel)
      → (serve_request decode dial registry client output input pool).tunnel ≡ some t
      → (is_rejected client.permit ≡ false)
        × ((pick registry pool).0 ≡ some t.upstream)
        × (dial t.upstream t.target t.port ≡ true)
  unfolding serve_request
  serve_lem client output input pool t e = elim (Bool-cases (is_rejected client.permit)) [
    | inl bad ↦ absurd (ground arith)
    | inr good ↦ elim (Stage-cases (read_request decode input)) [
      | inl (out, q) ↦ absurd (ground arith)
      | inr ((target, port), out, rest, q) ↦
          let found : (connect_upstream decode dial registry target port output pool).tunnel
              ≡ some t =
            ground arith in
          let (picked, dialled) = connect_lem target port output pool t found in
          (good, picked, dialled)
    ]
  ]

  -- With credentials configured, a tunnel is opened only for a client that the allowlist lets in, that
  -- has sent, after its greeting, a user name and a password which the configured ones confirm, and that
  -- the limits have not turned away; it goes to the upstream that the pool picked, and that upstream
  -- accepted the target.
  pub handle_conn-authenticated :
      (client : Client) (u p input : List ℕ) (pool : RoundRobinPool) (t : Tunnel)
      → client.auth ≡ some (u, p)
      → (handle_conn decode dial registry client input pool).tunnel ≡ some t
      → (client.allowed ≡ true)
        × (is_rejected client.permit ≡ false)
        × ((pick registry pool).0 ≡ some t.upstream)
        × (dial t.upstream t.target t.port ≡ true)
        × ((greeting : List ℕ) × (sent : List ℕ) × (user : List ℕ) × (pass : List ℕ) × (more : List
              ℕ)
            × (negotiate true input ≡ go user_pass greeting sent)
            × (sent ≡ 1 ∷ length user ∷ (user ++ length pass ∷ (pass ++ more)))
            × (verify_credentials (some (u, p)) user pass ≡ true))
  unfolding handle_conn admit
  handle_conn-authenticated client u p input pool t auth e = elim (Bool-cases client.allowed) [
    | inr bad ↦ absurd (ground arith)
    | inl allowed ↦ elim (Stage-cases (negotiate true input)) [
      | inl (out, q) ↦ absurd (ground arith)
      | inr (method, greeting, sent, q) ↦
          let chosen = negotiate_lem input greeting sent method q in
          elim (Bool-cases client.written) [
            | inr bad ↦ absurd (ground arith)
            | inl written ↦ elim (Stage-cases (authenticate (u, p) sent)) [
              | inl (out, r) ↦ absurd (ground arith)
              | inr (a, answer, more, r) ↦
                  let served : (serve_request decode dial registry client (greeting ++ answer) more
                        pool).tunnel
                      ≡ some t =
                    ground arith in
                  let (permitted, picked, dialled) =
                    serve_lem client (greeting ++ answer) more pool t served in
                  let (user, pass, same, verified) = authenticate_lem u p sent answer more r in
                  (
                    allowed,
                    permitted,
                    picked,
                    dialled,
                    (greeting, sent, user, pass, more, ground arith, same, verified),
                  )
            ]
          ]
    ]
  ]
