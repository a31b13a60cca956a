-- ===== src/Client/Frames/Merge.antt =====
-- Chunks of a snapshot come out as one.
use keep_talking_sfu.Prelude.{
  ℕ, ◌*◌, ◌≤◌, ◌≡◌, ◌∙◌, refl, ap, Bool, true, false, List, [], ◌∷◌, ◌++◌, length, lookup, insert,
  remove, remove-insert, lookup-insert_self, arith, append_assoc, append-nil, length-append,
}
use keep_talking_sfu.Proto.Limits.{max_members_per_topic}
use keep_talking_sfu.Proto.Topic.{Topic}
use keep_talking_sfu.Proto.Topic
use keep_talking_sfu.Proto.Snapshot.Chunks.{union, MoreToLast}
use keep_talking_sfu.Proto.ServerFrame.{Member, ServerFrame, snapshot}
use keep_talking_sfu.Proto.Ids.{EndpointIds}
use keep_talking_sfu.Prelude.Outcome.{ok}
use keep_talking_sfu.Client.Frames.{
  Pump, PumpEnd, goes_on, emits, or_empty, merge, on_frame, after_turn,
}

module _ {EndpointId : Type 0} where
  -- The members of the topic's chunks so far.
  abbrev pub waiting : Topic → Pump EndpointId → List (Member EndpointId)
  waiting t p = or_empty (lookup Topic.discrete t p.partial)

  -- With the topic's chunks put at `ms`, or taken away.
  abbrev put : Topic → List (Member EndpointId) → Pump EndpointId → Pump EndpointId
  put t ms p = record p { partial = insert Topic.discrete t ms p.partial }

  abbrev pub without : Topic → Pump EndpointId → Pump EndpointId
  without t p = record p { partial = remove Topic.discrete t p.partial }

  waiting-put :
      (t : Topic) (ms : List (Member EndpointId)) (p : Pump EndpointId)
      → waiting t (put t ms p) ≡ ms
  waiting-put t ms p = rw (lookup-insert_self Topic.discrete t ms p.partial) refl

  without-put :
      (t : Topic) (ms : List (Member EndpointId)) (p : Pump EndpointId)
      → without t (put t ms p) ≡ without t p
  without-put t ms p =
      ap (λ m. record p { partial = m }) (remove-insert Topic.discrete t ms p.partial)

  -- A chunk that is not the last waits behind the ones before it.
  merge_more :
      (t : Topic) (ms : List (Member EndpointId)) (p : Pump EndpointId)
      → length (waiting t p ++ ms) ≤ 2 * max_members_per_topic
      → merge t true ms p ≡ goes_on (put t (waiting t p ++ ms) p)
  unfolding merge
  merge_more t ms p few = ground arith

  -- The last chunk comes out with the ones before it, and nothing of the topic waits on.
  merge_last :
      (t : Topic) (ms : List (Member EndpointId)) (p : Pump EndpointId)
      → length (waiting t p ++ ms) ≤ 2 * max_members_per_topic
      → merge t false ms p ≡ emits (snapshot t false (waiting t p ++ ms)) (without t p)
  unfolding merge
  merge_last t ms p few =
      ground (arith, waiting-put t (waiting t p ++ ms) p, without-put t (waiting t p ++ ms) p)

  -- The frames of a snapshot's chunks.
  abbrev pub chunk_frames :
      Topic → List (Bool × List (Member EndpointId)) → List (ServerFrame EndpointId)
  chunk_frames t [] = []
  chunk_frames t ((more, chunk) ∷ parts) = snapshot t more chunk ∷ chunk_frames t parts

module _ {EndpointId : Type 0} ⦃ids : EndpointIds EndpointId⦄ (accepts : ℕ → Bool) where
  -- The frames in turn, before the rest of the loop.
  abbrev pub in_turn :
      (Pump EndpointId → Pump EndpointId × PumpEnd)
      → List (ServerFrame EndpointId)
      → Pump EndpointId
      → Pump EndpointId × PumpEnd
  in_turn go_on [] p = go_on p
  in_turn go_on (f ∷ fs) p = after_turn accepts (in_turn go_on fs) p (on_frame (ok f) p)

  pub in_turn-chunk_frames :
      (go_on : Pump EndpointId → Pump EndpointId × PumpEnd) (t : Topic)
      (parts : List (Bool × List (Member EndpointId))) (p q : Pump EndpointId)
      (fs : List (ServerFrame EndpointId))
      → MoreToLast parts
      → length (waiting t p ++ union parts) ≤ 2 * max_members_per_topic
      → in_turn go_on (chunk_frames t parts ++ fs) p
        ≡ after_turn accepts
            (in_turn go_on fs)
            q
            (emits (snapshot t false (waiting t p ++ union parts)) (without t p))
  unfolding on_frame
  in_turn-chunk_frames go_on t [] p q fs h few = absurd h
  in_turn-chunk_frames go_on t ((more, chunk) ∷ []) p q fs h few =
      rw (h, append-nil chunk) (rw (merge_last t chunk p (rw append-nil at few)) refl)
  in_turn-chunk_frames go_on t ((more, chunk) ∷ part ∷ parts) p q fs (h, hs) few =
      let next = put t (waiting t p ++ chunk) p in
      let all = append_assoc (waiting t p) chunk (union (part ∷ parts)) in
      let w = waiting-put t (waiting t p ++ chunk) p in
      let rest =
        in_turn-chunk_frames go_on t (part ∷ parts) next q fs hs
          (omega (arith, ap (λ ms. length (ms ++ union (part ∷ parts))) w, ap length all)) in
      rw
        (
          h,
          merge_more t chunk p (
              omega (
                arith,
                ap length all,
                length-append (waiting t p ++ chunk) (union (part ∷ parts)),
              )),
        )
        (rest
          ∙ ap
              (λ ms.
                after_turn accepts (in_turn go_on fs) q
                  (emits (snapshot t false ms) (without t next)))
              (ap (λ ms. ms ++ union (part ∷ parts)) w ∙ all)
          ∙ ap
              (λ r.
                after_turn accepts (in_turn go_on fs) q
                  (emits (snapshot t false (waiting t p ++ (chunk ++ union (part ∷ parts)))) r))
              (without-put t (waiting t p ++ chunk) p))
