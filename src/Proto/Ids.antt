-- ===== src/Proto/Ids.antt =====
-- `iroh::EndpointId`, which is not part of the repository: 32 bytes that `from_bytes` has checked.
use keep_talking_sfu.Prelude.{◌≡◌, Option, some, length}
use keep_talking_sfu.Prelude.Wire.{Bytes}

pub record EndpointIds (EndpointId : Type 0) : Type 0 where
  pub as_bytes : EndpointId → Bytes
  pub from_bytes : Bytes → Option EndpointId
  pub discrete : Discrete EndpointId
  -- The text of the error with which `from_bytes` refuses these bytes.
  pub refusal : Bytes → Bytes
  pub length-as_bytes : (id : EndpointId) → length (as_bytes id) ≡ 32
  pub from_bytes-as_bytes : (id : EndpointId) → from_bytes (as_bytes id) ≡ some id
  pub as_bytes-from_bytes : (b : Bytes) (id : EndpointId) → from_bytes b ≡ some id → as_bytes id ≡ b
