-- ===== src/Runtime/Instance.antt =====
-- runtime/instance.rs with the port constants of config.rs: instance identifiers and the one place
-- where an instance's internal port is computed.
pub mod Ports
use warpdeck.Prelude.{ℕ, ◌+◌, Bool, List, [], ◌∷◌, ltb, contains, if◌then◌else◌}
use warpdeck.Prelude.Int.{ℤ, pos, negsuc}
use warpdeck.Prelude.Machine.{i64_max, u16_max}

abbrev pub web_port : ℕ
web_port = 9000

abbrev pub socks5_port : ℕ
socks5_port = 11080

abbrev pub http_port : ℕ
http_port = 18080

abbrev pub first_warp_port : ℕ
first_warp_port = 40000

abbrev pub reserved_ports : List ℕ
reserved_ports = web_port ∷ socks5_port ∷ http_port ∷ []

-- The wrapped `i64` is not negative once `from_db` has let it through.
abbrev pub InstanceId : Type 0
InstanceId = ℕ

pub data InstanceIdError : Type 0 where
  negative : ℤ → InstanceIdError
  out_of_range : ℕ → InstanceIdError
  reserved : ℕ → InstanceIdError

pub data IdResult : Type 0 where
  ok : ℕ → IdResult
  err : InstanceIdError → IdResult

unfoldable pub from_db : ℤ → IdResult
from_db (pos n) = ok n
from_db (negsuc n) = err (negative (negsuc n))

abbrev pub is_reserved_port : ℕ → Bool
is_reserved_port port = contains reserved_ports port

unfoldable pub instance_port : InstanceId → IdResult
instance_port id =
    let candidate = first_warp_port + id in
    if ltb i64_max candidate
    then err (out_of_range id)
    else if ltb u16_max candidate
    then err (out_of_range id)
    else if is_reserved_port candidate
    then err (reserved id)
    else ok candidate
