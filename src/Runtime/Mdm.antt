-- ===== src/Runtime/Mdm.antt =====
-- runtime/mdm.rs: the text of `mdm.xml`. A text is its code points; `print` writes a number in decimal.
pub mod Escape
use warpdeck.Prelude.{ℕ, Option, none, some, List, [], ◌∷◌, ◌++◌, ◌==◌, codes, if◌then◌else◌}
use warpdeck.Runtime.Credentials.{CredentialMode, InstanceCredentials, zero_trust}

abbrev pub escaped : ℕ → List ℕ
escaped c =
    if c == b'&'
    then codes "&amp;"
    else if c == b'<'
    then codes "&lt;"
    else if c == b'>'
    then codes "&gt;"
    else if c == b'"'
    then codes "&quot;"
    else if c == 39
    then codes "&apos;"
    else c ∷ []

unfoldable pub escape_xml : List ℕ → List ℕ
escape_xml [] = []
escape_xml (c ∷ s) = escaped c ++ escape_xml s

abbrev newline : List ℕ
newline = 10 ∷ []

-- A key with a text, each on a line of its own.
abbrev entry : List ℕ → List ℕ → List ℕ
entry key value =
    codes "  <key>"
    ++ (key
        ++ (codes "</key>"
            ++ (newline ++ (codes "  <string>" ++ (value ++ (codes "</string>" ++ newline))))))

abbrev document : List ℕ → List ℕ → List ℕ → List ℕ → List ℕ
document org client_id client_secret port =
    codes "<dict>"
    ++ (newline
        ++ (entry (codes "organization") org
            ++ (entry (codes "auth_client_id") client_id
                ++ (entry (codes "auth_client_secret") client_secret
                    ++ (entry (codes "service_mode") (codes "proxy")
                        ++ (codes "  <key>proxy_port</key>"
                            ++ (newline
                                ++ (codes "  <integer>"
                                    ++ (port
                                        ++ (codes "</integer>"
                                            ++ (newline
                                                ++ (entry (codes "warp_tunnel_protocol")
                                                      (codes "masque")
                                                    ++ (codes "</dict>" ++ newline)))))))))))))

abbrev render_with :
    (ℕ → List ℕ) → ℕ → Option (List ℕ) → Option (List ℕ) → Option (List ℕ) → Option (List ℕ)
unfolding escape_xml
render_with print port (some org) (some client_id) (some client_secret) =
    some (document (escape_xml org) (escape_xml client_id) (escape_xml client_secret) (print port))
render_with print port _ _ _ = none

unfoldable pub render_mdm_xml : (ℕ → List ℕ) → InstanceCredentials → ℕ → Option (List ℕ)
unfolding render_with
render_mdm_xml print c proxy_port = elim c.mode [
  | zero_trust ↦ render_with print proxy_port c.zero_trust_org c.zt_client_id c.zt_client_secret
  | _ ↦ none
]
