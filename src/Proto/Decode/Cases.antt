-- ===== src/Proto/Decode/Cases.antt =====
-- What the readers of a frame body can come to: an error, or a prefix of the body and the rest.
use keep_talking_sfu.Prelude.{
  ◌≡◌, refl, sym, Bool-cases, ◌++◌, length, take, drop, ltb, arith, length-take, take-append-drop,
  inl, inr, Option-cases,
}
use keep_talking_sfu.Prelude.Outcome.{ok, err}
use keep_talking_sfu.Prelude.Wire.{Bytes}
use keep_talking_sfu.Proto.Ids.{EndpointIds}
use keep_talking_sfu.Proto.Topic.{IsTopic}
use keep_talking_sfu.Proto.Decode.{
  DecodeError, Decoded, truncated_topic, truncated_endpoint_id, invalid_endpoint_id, take_topic,
  take_id,
}

-- A reader that read `A`s whose bytes are `bytes`: it fails with an error, or takes these bytes off.
pub data Taken {A : Type 0} (bytes : A → Bytes) (IsRead : A → Type 0) (body : Bytes)
    (out : Decoded (A × Bytes)) : Type 0 where
  refused : (e : DecodeError) → out ≡ err e → Taken bytes IsRead body out
  took :
      (a : A) (rest : Bytes)
      → IsRead a
      → body ≡ bytes a ++ rest
      → out ≡ ok (a, rest)
      → Taken bytes IsRead body out

pub take_topic_cases : (body : Bytes) → Taken (λ t. t.bytes) IsTopic body (take_topic body)
unfolding take_topic
take_topic_cases body = elim (Bool-cases (ltb (length body) 32)) [
  | inl short ↦ refused truncated_topic (rw short refl)
  | inr long ↦
      took (record { bytes = take 32 body }) (drop 32 body) (ground (arith, length-take 32 body))
        (sym (take-append-drop 32 body)) (ground arith)
]

module _ {EndpointId : Type 0} ⦃ids : EndpointIds EndpointId⦄ where
  pub take_id_cases :
      (body : Bytes) → Taken ids.as_bytes (λ id. length (ids.as_bytes id) ≡ 32) body (take_id body)
  unfolding take_id
  take_id_cases body = elim (Bool-cases (ltb (length body) 32)) [
    | inl short ↦ refused truncated_endpoint_id (rw short refl)
    | inr long ↦ elim (Option-cases (ids.from_bytes (take 32 body))) [
      | inl bad ↦ refused (invalid_endpoint_id (ids.refusal (take 32 body))) (ground (arith, bad))
      | inr (id, good) ↦
          took id (drop 32 body) (ids.length-as_bytes id)
            (rw (ids.as_bytes-from_bytes (take 32 body) id good) (sym (take-append-drop 32 body)))
            (ground (arith, good))
    ]
  ]
