-- ===== src/Proto/ServerFrame/Total.antt =====
-- `ServerFrame::decode` on every input: the length tests before the panicking readers are enough.
use keep_talking_sfu.Prelude.{
  ℕ, zero, suc, ◌≡◌, ◌≢◌, ◌∙◌, refl, sym, Bool, true, false, not, Bool-cases, inl, inr, [], ◌∷◌,
  length, ltb, ◌==◌, arith,
}
use keep_talking_sfu.Prelude.Outcome.{ok, err, panic, ensure, ◌>>=◌, ok-panic, err-panic}
use keep_talking_sfu.Prelude.Wire.{Bytes}
use keep_talking_sfu.Proto.Ids.{EndpointIds}
use keep_talking_sfu.Proto.Tag
use keep_talking_sfu.Proto.Topic.{Topic}
use keep_talking_sfu.Proto.Decode.{
  DecodeError, Decoded, get_u8, get_u16, get_u32, split_to, take_topic, take_id,
}
use keep_talking_sfu.Proto.Decode.Cases.{refused, took, take_topic_cases, take_id_cases}
use keep_talking_sfu.Proto.ServerFrame.{
  ServerFrame, has_more, no_trailing, take_member, take_members, decode,
}

bind_total :
    {A B : Type 0} (m : Decoded A) (k : A → Decoded B)
    → m ≢ panic
    → ((a : A) → k a ≢ panic)
    → (m >>= k) ≢ panic
bind_total (ok a) k hm hk = hk a
bind_total (err e) k hm hk = err-panic e
bind_total panic k hm hk = absurd (hm refl)

ensure_total :
    {B : Type 0} (c : Bool) (e : DecodeError) (m : Decoded B)
    → (c ≡ true → m ≢ panic)
    → (ensure c e >>= λ _. m) ≢ panic
ensure_total true e m h = h refl
ensure_total false e m h = err-panic e

take_topic_total : (body : Bytes) → take_topic body ≢ panic
take_topic_total body p = elim (take_topic_cases body) [
  | refused e x ↦ absurd (err-panic e (sym x ∙ p))
  | took t rest h b x ↦ absurd (ok-panic (t, rest) (sym x ∙ p))
]

get_u32_total : (body : Bytes) → ltb (length body) 4 ≡ false → get_u32 body ≢ panic
unfolding get_u32
get_u32_total (a ∷ b ∷ c ∷ d ∷ body) h = ok-panic _
get_u32_total [] h = ground arith
get_u32_total (a ∷ []) h = ground arith
get_u32_total (a ∷ b ∷ []) h = ground arith
get_u32_total (a ∷ b ∷ c ∷ []) h = ground arith

split_to_total : (n : ℕ) (body : Bytes) → ltb (length body) n ≡ false → split_to n body ≢ panic
unfolding split_to
split_to_total n body h = rw h (ok-panic _)

module _ {EndpointId : Type 0} ⦃ids : EndpointIds EndpointId⦄ where
  take_id_total : (body : Bytes) → take_id {EndpointId = EndpointId} body ≢ panic
  take_id_total body p = elim (take_id_cases {EndpointId = EndpointId} ⦃ids = ids⦄ body) [
    | refused e x ↦ absurd (err-panic e (sym x ∙ p))
    | took id rest h b x ↦ absurd (ok-panic (id, rest) (sym x ∙ p))
  ]

  no_trailing_total :
      (tag : ℕ) (f : ServerFrame EndpointId) (body : Bytes) → no_trailing tag f body ≢ panic
  unfolding no_trailing
  no_trailing_total tag f body = ensure_total (length body == 0) _ (ok f) (λ _. ok-panic f)

  take_member_total : (body : Bytes) → take_member {EndpointId = EndpointId} body ≢ panic
  unfolding take_member
  take_member_total body = bind_total (take_id body) _ (take_id_total body) (λ p.
      ensure_total (not (ltb (length p.1) 4)) _ _ (λ long.
        bind_total (get_u32 p.1) _ (get_u32_total p.1 (ground arith)) (λ q.
          ensure_total (not (ltb (length q.1) q.0)) _ _ (λ fits.
            bind_total (split_to q.0 q.1) _ (split_to_total q.0 q.1 (ground arith))
              (λ r. ok-panic _)))))

  take_members_total :
      (count : ℕ) (body : Bytes) → take_members {EndpointId = EndpointId} count body ≢ panic
  unfolding take_members
  take_members_total zero body = ok-panic _
  take_members_total (suc count) body =
      bind_total (take_member body) _ (take_member_total body) (λ p.
        bind_total (take_members count p.1) _ (take_members_total count p.1) (λ q. ok-panic _))

  head_total :
      (body : Bytes) (k : (ℕ × Bytes) × ℕ → Decoded (ServerFrame EndpointId))
      → ltb (length body) 3 ≡ false
      → ((q : (ℕ × Bytes) × ℕ) → k q ≢ panic)
      → (get_u8 body >>= λ flags. get_u16 (flags.1) >>= λ count. k ((count.0, count.1), flags.0))
        ≢ panic
  unfolding get_u8 get_u16
  head_total (a ∷ b ∷ c ∷ body) k h hk = hk _
  head_total [] k h hk = ground arith
  head_total (a ∷ []) k h hk = ground arith
  head_total (a ∷ b ∷ []) k h hk = ground arith

  member_arm :
      (body : Bytes) (k : (Topic × EndpointId) × Bytes → Decoded (ServerFrame EndpointId))
      → ((q : (Topic × EndpointId) × Bytes) → k q ≢ panic)
      → (take_topic body >>= λ p. take_id (p.1) >>= λ q. k ((p.0, q.0), q.1)) ≢ panic
  member_arm body k hk =
      bind_total (take_topic body) _ (take_topic_total body)
        (λ p. bind_total (take_id p.1) _ (take_id_total p.1) (λ q. hk _))

  -- Decoding a server frame returns: whatever the tag and the body are, the client does not panic.
  pub server_decode_total :
      (tag : ℕ) (body : Bytes) → decode {EndpointId = EndpointId} tag body ≢ panic
  unfolding decode
  server_decode_total tag body = elim (Bool-cases (tag == Tag.snapshot)) [
    | inl g ↦ rw g (
        bind_total (take_topic body) _ (take_topic_total body) (λ p.
          ensure_total (not (ltb (length p.1) 3)) _ _ (λ long.
            head_total p.1
              (λ q. take_members q.0.0 q.0.1 >>= λ r.
                no_trailing tag (ServerFrame.snapshot p.0 (has_more q.1) r.0) r.1)
              (ground arith)
              (λ q.
                bind_total (take_members q.0.0 q.0.1) _ (take_members_total q.0.0 q.0.1)
                  (λ r. no_trailing_total tag _ r.1)))))
    | inr n1 ↦ rw n1 (elim (Bool-cases (tag == Tag.joined)) [
      | inl g ↦ rw g (
          member_arm body (λ q. no_trailing tag (ServerFrame.joined q.0.0 q.0.1) q.1)
            (λ q. no_trailing_total tag _ q.1))
      | inr n2 ↦ rw n2 (elim (Bool-cases (tag == Tag.left)) [
        | inl g ↦ rw g (
            member_arm body (λ q. no_trailing tag (ServerFrame.left q.0.0 q.0.1) q.1)
              (λ q. no_trailing_total tag _ q.1))
        | inr n3 ↦ rw n3 (elim (Bool-cases (tag == Tag.presence)) [
          | inl g ↦
              rw g
                (member_arm body (λ q. ok (ServerFrame.presence q.0.0 q.0.1 q.1)) (λ q. ok-panic _))
          | inr n4 ↦ rw n4 (elim (Bool-cases (tag == Tag.deliver)) [
            | inl g ↦
                rw g (bind_total (take_topic body) _ (take_topic_total body) (λ p. ok-panic _))
            | inr n5 ↦ rw n5 (elim (Bool-cases (tag == Tag.error)) [
              | inl g ↦
                  rw g (bind_total (take_topic body) _ (take_topic_total body) (λ p. ok-panic _))
              | inr n6 ↦ rw n6 (err-panic _)
            ])
          ])
        ])
      ])
    ])
  ]
