-- ===== src/Server/Session/Subscriptions.antt =====
-- The topics of one connection: how many, and which.
use keep_talking_sfu.Prelude.{
  ℕ, ◌≤◌, ◌<◌, ◌≡◌, false, Bool-cases, Option, none, some, List, [], ◌∷◌, length, leb, ltb, ite,
  arith, inl, inr,
}
use keep_talking_sfu.Prelude.Wire.{Bytes}
use keep_talking_sfu.Proto.Ids.{EndpointIds}
use keep_talking_sfu.Proto.Topic.{Topic, is_zero, zero_topic}
use keep_talking_sfu.Proto.Topic
use keep_talking_sfu.Proto.ClientFrame.{ClientFrame}
use keep_talking_sfu.Proto.Reason
use keep_talking_sfu.Proto.Limits.{max_announce_len}
use keep_talking_sfu.Server.Rooms.{World, join}
use keep_talking_sfu.Server.Rooms.Invariant.{Inv, join-Inv, leave-Inv, announce-Inv}
use keep_talking_sfu.Server.Limits.{Limits}
use keep_talking_sfu.Server.Bucket.{Doubles, Bucket, try_take}
use keep_talking_sfu.Server.Session.{
  Session, contains, without, answer, take_publish, rate_limited, count, joined, handle_subscribe,
  handle_unsubscribe, handle_announce, handle_frame,
}

abbrev pub AreUnique : List Topic → Type 0
AreUnique [] = Unit {0}
AreUnique (t ∷ topics) = (contains t topics ≡ false) × AreUnique topics

pub contains-without :
    (t u : Topic) (topics : List Topic)
    → contains t (without u topics) ≡ ite (Topic.discrete u t) false (contains t topics)
contains-without t u [] = ground arith
contains-without t u (s ∷ topics) = ground (arith, contains-without t u topics)

without-AreUnique :
    (u : Topic) (topics : List Topic) → AreUnique topics → AreUnique (without u topics)
without-AreUnique u [] h = tt
without-AreUnique u (s ∷ topics) h =
    ground (arith, without-AreUnique u topics h.1, contains-without s u topics)

length-without : (u : Topic) (topics : List Topic) → length (without u topics) ≤ length topics
length-without u [] = omega arith
length-without u (s ∷ topics) = ground (arith, length-without u topics)

module _ {EndpointId F : Type 0} ⦃ids : EndpointIds EndpointId⦄ ⦃f64 : Doubles F⦄
    (peer_of : ℕ → EndpointId) (limits : Limits F) where
  -- The subscribed topics are different from each other, within the limit, and none is the reserved
  -- one; the connection speaks for its authenticated peer, and the rooms are well formed.
  pub record IsSession (s : Session EndpointId F) : Type 0 where
    pub rooms : Inv peer_of s.world.rooms
    pub auth : peer_of s.handle.conn_id ≡ s.handle.peer
    pub few : length s.subscribed ≤ limits.max_topics_per_connection
    pub unique : AreUnique s.subscribed
    pub no_zero : contains zero_topic s.subscribed ≡ false

  -- An answer leaves all but the queues as it was.
  answer-IsSession :
      (topic : Option Topic) (reason : Bytes) (s : Session EndpointId F)
      → IsSession s
      → IsSession (answer topic reason s)
  unfolding answer
  answer-IsSession topic reason s v = record {
    rooms = v.rooms;
    auth = v.auth;
    few = v.few;
    unique = v.unique;
    no_zero = v.no_zero;
  }

  rate_limited-IsSession :
      (topic : Topic) (s : Session EndpointId F) → IsSession s → IsSession (rate_limited topic s)
  unfolding rate_limited answer count
  rate_limited-IsSession topic s v = record {
    rooms = v.rooms;
    auth = v.auth;
    few = v.few;
    unique = v.unique;
    no_zero = v.no_zero;
  }

  joined-IsSession :
      (topic : Topic) (r : World EndpointId × Option ℕ) (s : Session EndpointId F)
      → Inv peer_of r.0.rooms
      → length s.subscribed < limits.max_topics_per_connection
      → contains topic s.subscribed ≡ false
      → is_zero topic ≡ false
      → IsSession s
      → IsSession (joined topic r s)
  unfolding joined answer is_zero
  joined-IsSession topic (w, some size) s rooms few new_topic other v = record {
    rooms = rooms;
    auth = v.auth;
    few = omega (arith, few);
    unique = (new_topic, v.unique);
    no_zero = ground (arith, other, v.no_zero);
  }
  joined-IsSession topic (w, none) s rooms few new_topic other v = record {
    rooms = rooms;
    auth = v.auth;
    few = v.few;
    unique = v.unique;
    no_zero = v.no_zero;
  }

  with_join_rate :
      (b : Bucket F) (s : Session EndpointId F)
      → IsSession s
      → IsSession (record s { join_rate = b })
  with_join_rate b s v = record {
    rooms = v.rooms;
    auth = v.auth;
    few = v.few;
    unique = v.unique;
    no_zero = v.no_zero;
  }

  with_publish_rate :
      (b : Bucket F) (s : Session EndpointId F)
      → IsSession s
      → IsSession (record s { publish_rate = b })
  with_publish_rate b s v = record {
    rooms = v.rooms;
    auth = v.auth;
    few = v.few;
    unique = v.unique;
    no_zero = v.no_zero;
  }

  subscribe-IsSession :
      (now : ℕ) (topic : Topic) (s : Session EndpointId F)
      → IsSession s
      → IsSession (handle_subscribe limits now topic s)
  unfolding handle_subscribe
  subscribe-IsSession now topic s v =
      let (bucket, allowed) = try_take now 0 s.join_rate in
      let s' = record s { join_rate = bucket } in
      let v' = with_join_rate bucket s v in
      elim (Bool-cases (contains topic s.subscribed)) [
        | inl known ↦ rw known v
        | inr unknown ↦ rw unknown (elim (Bool-cases (is_zero topic)) [
          | inl zero_one ↦ rw zero_one (answer-IsSession (some topic) Reason.reserved_topic s v)
          | inr other ↦
              rw other
                (elim (Bool-cases (leb limits.max_topics_per_connection (length s.subscribed))) [
                  | inl full ↦ rw full (answer-IsSession (some topic) Reason.too_many_topics s v)
                  | inr room ↦ rw room (elim (Bool-cases allowed) [
                    | inl yes_take ↦ rw yes_take (
                        joined-IsSession topic (join topic s.handle s.world) s'
                          (join-Inv peer_of topic s.handle s.world v.auth v.rooms) (ground arith)
                          unknown other v')
                    | inr limited ↦ rw limited (rate_limited-IsSession topic s' v')
                  ])
                ])
        ])
      ]

  unsubscribe-IsSession :
      (topic : Topic) (s : Session EndpointId F)
      → IsSession s
      → IsSession (handle_unsubscribe topic s)
  unfolding handle_unsubscribe
  unsubscribe-IsSession topic s v = elim (Bool-cases (contains topic s.subscribed)) [
    | inl known ↦ rw known (record {
      rooms = leave-Inv peer_of topic s.handle s.world v.auth v.rooms;
      auth = v.auth;
      few = omega (arith, length-without topic s.subscribed, v.few);
      unique = without-AreUnique topic s.subscribed v.unique;
      no_zero = ground (arith, contains-without zero_topic topic s.subscribed, v.no_zero);
    })
    | inr unknown ↦ rw unknown v
  ]

  take_publish-IsSession :
      (now frame_len : ℕ) (s : Session EndpointId F)
      → IsSession s
      → IsSession (take_publish now frame_len s).0
  unfolding take_publish
  take_publish-IsSession now frame_len s v =
      with_publish_rate (try_take now frame_len s.publish_rate).0 s v

  announce-IsSession :
      (now frame_len : ℕ) (topic : Topic) (blob : Bytes) (s : Session EndpointId F)
      → IsSession s
      → IsSession (handle_announce now topic blob frame_len s)
  unfolding handle_announce
  announce-IsSession now frame_len topic blob s v =
      let (s', allowed) = take_publish now frame_len s in
      let v' = take_publish-IsSession now frame_len s v in
      elim (Bool-cases (ltb max_announce_len (length blob))) [
        | inl big ↦ rw big (answer-IsSession (some topic) Reason.announce_too_large s v)
        | inr small ↦ rw small (elim (Bool-cases (contains topic s.subscribed)) [
          | inr unknown ↦ rw unknown (answer-IsSession (some topic) Reason.not_subscribed s v)
          | inl known ↦ rw known (elim (Bool-cases allowed) [
            | inr limited ↦ rw limited (rate_limited-IsSession topic s' v')
            | inl yes_take ↦ rw yes_take (record {
              rooms = announce-Inv peer_of topic s.handle s.world v.auth v.rooms blob;
              auth = v'.auth;
              few = v'.few;
              unique = v'.unique;
              no_zero = v'.no_zero;
            })
          ])
        ])
      ]

  -- Every frame of the session stream keeps this: the topics of a connection are different from
  -- each other, at most as many as the limit, and never the reserved one, and the rooms stay well
  -- formed.
  pub handle_frame-IsSession :
      (now frame_len : ℕ) (f : ClientFrame EndpointId) (s : Session EndpointId F)
      → IsSession s
      → IsSession (handle_frame limits now f frame_len s)
  unfolding handle_frame
  handle_frame-IsSession now n (ClientFrame.subscribe topic) s v = subscribe-IsSession now topic s v
  handle_frame-IsSession now n (ClientFrame.unsubscribe topic) s v = unsubscribe-IsSession topic s v
  handle_frame-IsSession now n (ClientFrame.announce topic blob) s v =
      announce-IsSession now n topic blob s v
  handle_frame-IsSession now n (ClientFrame.publish topic payload) s v =
      answer-IsSession (some topic) Reason.publish_on_session s v
  handle_frame-IsSession now n (ClientFrame.publish_to topic recipient payload) s v =
      answer-IsSession (some topic) Reason.publish_on_session s v
