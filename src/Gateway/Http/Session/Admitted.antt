-- ===== src/Gateway/Http/Session/Admitted.antt =====
-- gateway/http.rs: who is served, and what the upstream learns of the credentials.
use warpdeck.Prelude.{
  ℕ, ◌≡◌, refl, subst, ap, ◌∙◌, sym, Bool, true, false, ◌||◌, Option, none, some, List, [], ◌∷◌,
  ◌++◌, any_of, list_eq, codes, All, arith, Option-cases, Bool-cases, inl, inr,
}
use warpdeck.Runtime.Registry.{Registry}
use warpdeck.Gateway.Pool.{RoundRobinPool}
use warpdeck.Prelude.Text.{
  starts_with, to_ascii_lowercase, drop_until, is_ascii_whitespace, trim, trim_end_matches, lines,
  first_of,
}
use warpdeck.Gateway.Http.{read_head}
use warpdeck.Gateway.Http.Base64.{base64_encode, base64_decode, base64_decode-base64_encode, IsByte}
use warpdeck.Gateway.Http.Session.{
  Client, Environment, Ended, Tunnel, expected_token, header_name, is_token_line, is_admitted,
  handle_conn, serve_request, connect_upstream, is_refused, target_of,
}

list_eq→eq : (a b : List ℕ) → list_eq a b ≡ true → a ≡ b
list_eq→eq [] [] h = refl
list_eq→eq [] (y ∷ b) h = absurd (ground arith)
list_eq→eq (x ∷ a) [] h = absurd (ground arith)
list_eq→eq (x ∷ a) (y ∷ b) h = ground (arith, list_eq→eq a b)

-- The line is a Proxy-Authorization header whose value is the Basic scheme with an encoding of the text.
pub record Carries (is_whitespace : ℕ → Bool) (text line : List ℕ) : Type 0 where
  pub encoded : List ℕ
  pub named : starts_with header_name (to_ascii_lowercase line) ≡ true
  pub value :
      trim_end_matches 13 (trim is_whitespace (drop_until is_ascii_whitespace line))
      ≡ codes "Basic " ++ encoded
  pub decoded : base64_decode encoded ≡ some text

-- Some line of the head does.
pub record HasCredentials (is_whitespace : ℕ → Bool) (text head : List ℕ) : Type 0 where
  pub before : List (List ℕ)
  pub line : List ℕ
  pub after : List (List ℕ)
  pub found : lines head ≡ before ++ line ∷ after
  pub carries : Carries is_whitespace text line

any_of-split :
    (f : List ℕ → Bool) (ls : List (List ℕ))
    → any_of f ls ≡ true
    → (before : List (List ℕ)) × (line : List ℕ) × (after : List (List ℕ)) × (ls
        ≡ before ++ line ∷ after)
      × (f line ≡ true)
any_of-split f [] h = absurd (ground arith)
any_of-split f (l ∷ ls) h = elim (Bool-cases (f l)) [
  | inl yes_l ↦ ([], l, ls, refl, yes_l)
  | inr no_l ↦
      let (before, line, after, p, q) = any_of-split f ls (ground (arith, no_l)) in
      (l ∷ before, line, after, ap (λ (x : List (List ℕ)). l ∷ x) p, q)
]

is_token_line-Carries :
    (is_whitespace : ℕ → Bool) (user pass line : List ℕ)
    → All IsByte (user ++ b':' ∷ pass)
    → is_token_line is_whitespace (expected_token (user, pass)) line ≡ true
    → Carries is_whitespace (user ++ b':' ∷ pass) line
unfolding is_token_line expected_token
is_token_line-Carries is_whitespace user pass line bytes h = record {
  encoded = base64_encode (user ++ b':' ∷ pass);
  named = ground arith;
  value = list_eq→eq _ _ (ground arith);
  decoded = base64_decode-base64_encode (user ++ b':' ∷ pass) bytes;
}

is_admitted-HasCredentials :
    (is_whitespace : ℕ → Bool) (user pass head : List ℕ)
    → All IsByte (user ++ b':' ∷ pass)
    → is_admitted is_whitespace (some (user, pass)) (lines head) ≡ true
    → HasCredentials is_whitespace (user ++ b':' ∷ pass) head
unfolding is_admitted
is_admitted-HasCredentials is_whitespace user pass head bytes h =
    let (before, line, after, p, q) =
      any_of-split (is_token_line is_whitespace (expected_token (user, pass))) (lines head) h in
    record {
      before = before;
      line = line;
      after = after;
      found = p;
      carries = is_token_line-Carries is_whitespace user pass line bytes q;
    }

abbrev pub is_tunnel : Option Tunnel → Bool
is_tunnel none = false
is_tunnel (some t) = true

-- The session got as far as the limits, or has a tunnel.
abbrev pub is_reached : Ended → Bool
is_reached e = e.permit_asked || is_tunnel e.tunnel

reached_of_tunnel : (e : Ended) (t : Tunnel) → e.tunnel ≡ some t → is_reached e ≡ true
reached_of_tunnel e t found = ground arith

module _ (env : Environment) (registry : Registry) (client : Client) (pool : RoundRobinPool) where
  connect_upstream_asked :
      (head host_port : List ℕ)
      → (connect_upstream env registry head host_port pool).permit_asked ≡ true
  unfolding connect_upstream
  connect_upstream_asked head host_port = ground arith

  connect_upstream_forwarded :
      (head host_port : List ℕ) (t : Tunnel)
      → (connect_upstream env registry head host_port pool).tunnel ≡ some t
      → (connect_upstream env registry head host_port pool).response ≡ none
      → t.forwarded ≡ head
  unfolding connect_upstream
  connect_upstream_forwarded head host_port t found quiet = ground arith

  serve_request_admitted :
      (head : List ℕ)
      → is_reached (serve_request env registry client head pool) ≡ true
      → is_admitted env.is_whitespace client.auth (lines head) ≡ true
  unfolding serve_request
  serve_request_admitted head reached =
      elim (Bool-cases (is_admitted env.is_whitespace client.auth (lines head))) [
        | inl in_ ↦ in_
        | inr out ↦ absurd (ground (arith, out))
      ]

  serve_request_forwarded :
      (head : List ℕ) (t : Tunnel)
      → (serve_request env registry client head pool).tunnel ≡ some t
      → (serve_request env registry client head pool).response ≡ none
      → t.forwarded ≡ head
  unfolding serve_request
  serve_request_forwarded head t found quiet =
      elim (Bool-cases (is_admitted env.is_whitespace client.auth (lines head))) [
        | inr out ↦ absurd (ground (arith, rw (out, serve_request) at found))
        | inl in_ ↦ elim (Bool-cases (is_refused client.permit)) [
          | inl full ↦ absurd (ground (arith, rw (in_, full, serve_request) at found))
          | inr free ↦ elim (Option-cases (target_of env.is_whitespace (first_of (lines head)))) [
            | inl p ↦ absurd (ground (arith, rw (in_, free, p, serve_request) at found))
            | inr (host_port, p) ↦
                connect_upstream_forwarded head host_port t
                  (rw (in_, free, p, serve_request) at found)
                  (rw (in_, free, p, serve_request) at quiet)
          ]
        ]
      ]

  module _ (chunks : List (List ℕ)) (user pass : List ℕ)
      (configured : client.auth ≡ some (user, pass))
      (bytes : All IsByte (user ++ b':' ∷ pass)) where
    -- With credentials configured, given as bytes, a session gets a tunnel, or as far as the
    -- limits, only if the allowlist lets the client in and the head that was read has a Proxy-
    -- Authorization line of the Basic scheme whose value decodes to the configured user name and
    -- password.
    pub handle_conn-admitted :
        is_reached (handle_conn env registry client chunks pool) ≡ true
        → (client.allowed ≡ true)
          × (buf : List ℕ) × (rest : List (List ℕ)) × (read_head chunks [] ≡ some (buf, rest))
          × HasCredentials env.is_whitespace (user ++ b':' ∷ pass) (env.decode buf)
    unfolding handle_conn
    handle_conn-admitted reached = elim (Bool-cases client.allowed) [
      | inr out ↦ absurd (ground (arith, out))
      | inl in_ ↦ elim (Option-cases (read_head chunks [])) [
        | inl p ↦ absurd (ground (arith, p, in_))
        | inr ((buf, rest), p) ↦
            let served = serve_request_admitted (env.decode buf) (ground (arith, p, in_)) in
            (
              in_,
              buf,
              rest,
              p,
              is_admitted-HasCredentials env.is_whitespace user pass (env.decode buf) bytes (
                  ap
                    (λ (a : Option (List ℕ × List ℕ)).
                      is_admitted env.is_whitespace a (lines (env.decode buf)))
                    (sym configured)
                  ∙ served),
            )
      ]
    ]

    -- With credentials configured, given as bytes: a session with a tunnel to whose client the
    -- gateway has answered nothing itself, as it does for a CONNECT, passes the Proxy-Authorization
    -- line on to the upstream, and so to the site that the request is for. What is forwarded has
    -- the configured user name and password in it.
    pub handle_conn-forwarded :
        (t : Tunnel)
        → (handle_conn env registry client chunks pool).tunnel ≡ some t
        → (handle_conn env registry client chunks pool).response ≡ none
        → HasCredentials env.is_whitespace (user ++ b':' ∷ pass) t.forwarded
    unfolding handle_conn
    handle_conn-forwarded t found quiet = elim (Bool-cases client.allowed) [
      | inr out ↦ absurd (ground (arith, out))
      | inl in_ ↦ elim (Option-cases (read_head chunks [])) [
        | inl p ↦ absurd (ground (arith, p, in_))
        | inr ((buf, rest), p) ↦
            let head = env.decode buf in
            let e : handle_conn env registry client chunks pool
                ≡ serve_request env registry client head pool =
              ground (arith, in_, p) in
            let at : (serve_request env registry client head pool).tunnel ≡ some t =
              ap (λ (x : Ended). x.tunnel) (sym e) ∙ found in
            let same : t.forwarded ≡ head =
              serve_request_forwarded head t at (ap (λ (x : Ended). x.response) (sym e) ∙ quiet) in
            let served =
              serve_request_admitted head
                (reached_of_tunnel (serve_request env registry client head pool) t at) in
            subst (HasCredentials env.is_whitespace (user ++ b':' ∷ pass)) (sym same) (
              is_admitted-HasCredentials env.is_whitespace user pass head bytes (
                ap (λ (a : Option (List ℕ × List ℕ)). is_admitted env.is_whitespace a (lines head))
                  (sym configured)
                ∙ served))
      ]
    ]
