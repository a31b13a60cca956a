-- ===== src/Proto/Datagram.antt =====
-- src/proto.rs, `datagram` and `split_datagram`: `topic ‖ payload` datagrams.
use keep_talking_sfu.Prelude.{◌≡◌, ◌∙◌, ◌↔◌, sym, ap, subst, ◌≢◌, Option, none, some, ◌++◌}
use keep_talking_sfu.Prelude.Outcome.{ok, err, panic}
use keep_talking_sfu.Prelude.Wire.{Bytes}
use keep_talking_sfu.Proto.Topic.{Topic, IsTopic}
use keep_talking_sfu.Proto.Decode.{Decoded, take_topic, take_topic-append}
use keep_talking_sfu.Proto.Decode.Cases.{refused, took, take_topic_cases}

unfoldable pub datagram : Topic → Bytes → Bytes
datagram t payload = t.bytes ++ payload

-- `take_topic(..).ok()?`; a panic would be the task's, and `take_topic` has none.
abbrev pub split_of : Decoded (Topic × Bytes) → Option (Topic × Bytes)
split_of (ok p) = some p
split_of (err e) = none
split_of panic = none

unfoldable pub split_datagram : Bytes → Option (Topic × Bytes)
split_datagram d = split_of (take_topic d)

none-some {ℓ} : {A : Type ℓ} (a : A) → none ≢ some a
none-some a e = cc

some-inj {ℓ} : {A : Type ℓ} (a b : A) → some a ≡ some b → a ≡ b
some-inj a b e = cc

split-made :
    (t : Topic) (payload d : Bytes)
    → split_datagram d ≡ some (t, payload)
    → IsTopic t × (d ≡ datagram t payload)
unfolding split_datagram datagram
split-made t payload d e = elim (take_topic_cases d) [
  | refused x r ↦ absurd (none-some (t, payload) (sym (ap split_of r) ∙ e))
  | took u rest h b r ↦
      subst (λ p. IsTopic (p.0) × (d ≡ p.0.bytes ++ p.1))
        (some-inj (u, rest) (t, payload) (sym (ap split_of r) ∙ e)) (h, b)
]

-- A datagram splits into a topic of 32 bytes and a payload exactly when it is what `datagram` makes
-- of them.
pub split_datagram-datagram :
    (t : Topic) (payload d : Bytes)
    → (split_datagram d ≡ some (t, payload)) ↔ (IsTopic t × (d ≡ datagram t payload))
unfolding split_datagram datagram
split_datagram-datagram t payload d = (
  split-made t payload d,
  λ h. ap (λ x. split_of (take_topic x)) (h.1) ∙ ap split_of (take_topic-append t payload (h.0)),
)
