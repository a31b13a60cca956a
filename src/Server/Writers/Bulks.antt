-- ===== src/Server/Writers/Bulks.antt =====
-- src/server.rs, `send_bulk`: a bulk delivery on a stream of its own.
use keep_talking_sfu.Prelude.{ℕ, ◌∷◌, if◌then◌else◌}
use keep_talking_sfu.Proto.StreamError
use keep_talking_sfu.Proto.Lane.{bulk, prefix}
use keep_talking_sfu.Transport.{Transport, Opening, opened, denied, no_credit}
use keep_talking_sfu.Server.Stats.{Stats, bump}
use keep_talking_sfu.Server.Deliver.{Deliver, chunks}
use keep_talking_sfu.Server.Writers.{
  closed, stalled, Written, written, failed, out_of_fuel, write_chunks, open_lane,
}

abbrev pub bump_stalled : Stats → Stats
bump_stalled stats = record stats { bulk_stalled = bump stats.bulk_stalled }

-- `send_bulk`: a bulk delivery on a stream of its own.
module _ {C : Type 0} ⦃net : Transport C⦄ where
  -- Behind the write: finish, and the client's acknowledgement.
  abbrev pub after_bulk : ℕ → Stats → C × Written → C × Stats
  after_bulk i stats (c, written) =
      let (c', acknowledged) = net.stopped i ((net.finish i c).0) in
      if acknowledged then (c', stats) else (net.reset i StreamError.stalled c', bump_stalled stats)
  after_bulk i stats (c, failed closed) = (c, stats)
  after_bulk i stats (c, failed stalled) = (net.reset i StreamError.stalled c, bump_stalled stats)
  after_bulk i stats (c, out_of_fuel) = (c, stats)

  abbrev pub bulk_opened : Deliver → Stats → C × Opening → C × Stats
  bulk_opened d stats (c, opened i) = after_bulk i stats (write_chunks i (prefix bulk ∷ chunks d) c)
  bulk_opened d stats (c, denied) = (c, stats)
  bulk_opened d stats (c, no_credit) = (c, bump_stalled stats)

  unfoldable pub send_bulk : Deliver → Stats → C → C × Stats
  send_bulk d stats c = bulk_opened d stats (open_lane bulk c)
