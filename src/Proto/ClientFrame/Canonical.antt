-- ===== src/Proto/ClientFrame/Canonical.antt =====
-- `ClientFrame::decode` on every input: it returns, and it accepts only what `encode` writes.
use keep_talking_sfu.Prelude.{
  ℕ, ◌≡◌, ◌≢◌, ◌∙◌, refl, sym, ap, subst, Bool-cases, [], ◌∷◌, ◌++◌, arith, append-nil, ◌==◌, inl,
  inr,
}
use keep_talking_sfu.Prelude.Outcome.{ok, err, panic, ◌>>=◌, err-panic, ok-panic, err-ok, ok-inj}
use keep_talking_sfu.Prelude.Wire.{Bytes}
use keep_talking_sfu.Proto.Ids.{EndpointIds}
use keep_talking_sfu.Proto.Tag
use keep_talking_sfu.Proto.Topic.{Topic, IsTopic}
use keep_talking_sfu.Proto.Decode.{
  take_topic, take_id, trailing_client_bytes, unknown_client_frame, Decoded, DecodeError,
}
use keep_talking_sfu.Proto.Decode.Cases.{refused, took, take_topic_cases, take_id_cases}
use keep_talking_sfu.Proto.ClientFrame.{
  ClientFrame, subscribe, unsubscribe, announce, publish, publish_to, topic, decode, no_trailing,
}
use keep_talking_sfu.Proto.ClientFrame.RoundTrip.{tag_of, body_of, IsFrame}

-- The outcomes of a decoder that is total and reads no other bytes than `bytes` writes.
data Faithful {EndpointId : Type 0} ⦃ids : EndpointIds EndpointId⦄ (tag : ℕ) (body : Bytes)
    (out : Decoded (ClientFrame EndpointId)) : Type 0 where
  failed : (e : DecodeError) → out ≡ err e → Faithful tag body out
  decoded :
      (f : ClientFrame EndpointId)
      → out ≡ ok f
      → IsFrame f
      → tag_of f ≡ tag
      → body_of f ≡ body
      → Faithful tag body out

module _ {EndpointId : Type 0} ⦃ids : EndpointIds EndpointId⦄ (tag : ℕ) (body : Bytes) where
  topic_then :
      (k : Topic × Bytes → Decoded (ClientFrame EndpointId))
      → ((t : Topic) (rest : Bytes)
          → IsTopic t
          → body ≡ t.bytes ++ rest
          → Faithful tag body (k (t, rest)))
      → Faithful tag body (take_topic body >>= k)
  topic_then k v = elim (take_topic_cases body) [
    | refused e x ↦ failed e (rw x refl)
    | took t rest h b x ↦ rw x (v t rest h b)
  ]

  id_then :
      (front : Bytes) (k : EndpointId × Bytes → Decoded (ClientFrame EndpointId))
      → ((id : EndpointId) (rest : Bytes)
          → front ≡ ids.as_bytes id ++ rest
          → Faithful tag body (k (id, rest)))
      → Faithful tag body (take_id front >>= k)
  id_then front k v = elim (take_id_cases {EndpointId = EndpointId} ⦃ids = ids⦄ front) [
    | refused e x ↦ failed e (rw x refl)
    | took id rest h b x ↦ rw x (v id rest b)
  ]

  end_Faithful :
      (f : ClientFrame EndpointId) (t : Topic) (rest : Bytes)
      → IsFrame f
      → tag_of f ≡ tag
      → body_of f ≡ t.bytes
      → body ≡ t.bytes ++ rest
      → Faithful tag body (no_trailing tag f rest)
  unfolding no_trailing
  end_Faithful f t [] h g b e = decoded f refl h g (b ∙ sym (append-nil t.bytes) ∙ sym e)
  end_Faithful f t (x ∷ rest) h g b e = failed (trailing_client_bytes tag) (ground arith)

  decode-Faithful : Faithful tag body (decode {EndpointId = EndpointId} tag body)
  unfolding decode topic
  decode-Faithful = elim (Bool-cases (tag == Tag.subscribe)) [
    | inl g ↦ rw g (
        topic_then _ (λ t rest h b.
          unfold no_trailing in end_Faithful (subscribe t) t rest h (ground (arith, g)) refl b))
    | inr n1 ↦ rw n1 (elim (Bool-cases (tag == Tag.unsubscribe)) [
      | inl g ↦ rw g (
          topic_then _ (λ t rest h b.
            unfold no_trailing in end_Faithful (unsubscribe t) t rest h (ground (arith, g)) refl b))
      | inr n2 ↦ rw n2 (elim (Bool-cases (tag == Tag.announce)) [
        | inl g ↦ rw g (
            topic_then _
              (λ t rest h b. decoded (announce t rest) refl h (ground (arith, g)) (sym b)))
        | inr n3 ↦ rw n3 (elim (Bool-cases (tag == Tag.publish)) [
          | inl g ↦ rw g (
              topic_then _
                (λ t rest h b. decoded (publish t rest) refl h (ground (arith, g)) (sym b)))
          | inr n4 ↦ rw n4 (elim (Bool-cases (tag == Tag.publish_to)) [
            | inl g ↦ rw g (
                topic_then _ (λ t rest h b. id_then rest _ (λ id rest' b'.
                  decoded (publish_to t id rest') refl h (ground (arith, g))
                    (sym (b ∙ ap (λ r. t.bytes ++ r) b')))))
            | inr n5 ↦ rw n5 (failed (unknown_client_frame tag) refl)
          ])
        ])
      ])
    ])
  ]

  -- Decoding a client frame returns: whatever the tag and the body are, it does not panic.
  pub client_decode_total : decode {EndpointId = EndpointId} tag body ≢ panic
  client_decode_total p = elim decode-Faithful [
    | failed e x ↦ absurd (err-panic e (sym x ∙ p))
    | decoded f x h g b ↦ absurd (ok-panic f (sym x ∙ p))
  ]

  -- The decoder accepts nothing but the protocol's form: a frame that it returns has a 32-byte
  -- topic, and its own tag and body are exactly the ones that were decoded.
  pub decode-ok :
      (f : ClientFrame EndpointId)
      → decode tag body ≡ ok f
      → IsFrame f × (tag_of f ≡ tag) × (body_of f ≡ body)
  decode-ok f p = elim decode-Faithful [
    | failed e x ↦ absurd (err-ok e f (sym x ∙ p))
    | decoded f' x h g b ↦
        subst (λ f. IsFrame f × (tag_of f ≡ tag) × (body_of f ≡ body)) (ok-inj f' f (sym x ∙ p))
          (h, g, b)
  ]
