-- ===== src/Runtime/Credentials.antt =====
-- runtime/credentials.rs: the account that an instance is started with.
use warpdeck.Prelude.{ℕ, Bool, true, false, Option, none, List}

pub data CredentialMode : Type 0 where
  free warp_plus zero_trust : CredentialMode

pub record InstanceCredentials : Type 0 where
  pub mode : CredentialMode
  pub license : Option (List ℕ)
  pub zero_trust_org : Option (List ℕ)
  pub zt_client_id : Option (List ℕ)
  pub zt_client_secret : Option (List ℕ)

abbrev pub free_credentials : InstanceCredentials
free_credentials = record {
  mode = free;
  license = none;
  zero_trust_org = none;
  zt_client_id = none;
  zt_client_secret = none;
}

abbrev pub is_zero_trust : InstanceCredentials → Bool
is_zero_trust c = elim c.mode [ zero_trust ↦ true | _ ↦ false ]
