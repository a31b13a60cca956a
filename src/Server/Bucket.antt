-- ===== src/Server/Bucket.antt =====
-- src/server.rs, `Rate`, `Bucket` and `refill`: token buckets on frames and on bytes. They count in
-- `f64`, which is the parameter `Doubles`; `Instant` is the nanoseconds of a clock.
use keep_talking_sfu.Prelude.{
  ℕ, ◌-◌, ◌≡◌, refl, Bool, true, false, ◌||◌, if◌then◌else◌, arith, Bool-cases, inl, inr,
}

-- The operations of `f64` that the buckets use. `le b b` holds of every double but NaN.
pub record Doubles (F : Type 0) : Type 0 where
  pub plus : F → F → F
  pub minus : F → F → F
  pub times : F → F → F
  pub minimum : F → F → F
  pub lt : F → F → Bool
  pub le : F → F → Bool
  pub infinity : F
  pub is_infinite : F → Bool
  -- `len as f64`, and `Duration::as_secs_f64` of nanoseconds.
  pub from_usize : ℕ → F
  pub as_secs : ℕ → F
  pub minimum-le : (a b : F) → le b b ≡ true → le (minimum a b) b ≡ true
  pub minus-le : (a b : F) (n : ℕ) → le a b ≡ true → le (minus a (from_usize n)) b ≡ true
  -- The code tests for either infinity, and answers with the positive one.
  pub infinite-le :
      (b : F) → is_infinite b ≡ true → le (from_usize 0) b ≡ true → le infinity b ≡ true

pub record Rate (F : Type 0) : Type 0 where
  pub bytes_per_second : F
  pub burst_bytes : F
  pub frames_per_second : F
  pub burst_frames : F

pub record Bucket (F : Type 0) : Type 0 where
  pub rate : Rate F
  pub bytes : F
  pub frames : F
  pub last : ℕ

module _ {F : Type 0} ⦃f64 : Doubles F⦄ where
  -- `Rate::frames`
  unfoldable pub frames_only : F → F → Rate F
  frames_only per_second burst = record {
    bytes_per_second = f64.infinity;
    burst_bytes = f64.infinity;
    frames_per_second = per_second;
    burst_frames = burst;
  }

  -- `Bucket::new`, at a reading of the clock.
  unfoldable pub new : Rate F → ℕ → Bucket F
  new rate now = record {
    rate = rate;
    bytes = rate.burst_bytes;
    frames = rate.burst_frames;
    last = now;
  }

  unfoldable pub refill : F → F → F → F → F
  refill level per_second burst elapsed =
      if f64.is_infinite burst
      then f64.infinity
      else f64.minimum (f64.plus level (f64.times elapsed per_second)) burst

  -- `duration_since` is zero if the clock went back.
  unfoldable pub try_take : ℕ → ℕ → Bucket F → Bucket F × Bool
  try_take now len b =
      let elapsed = f64.as_secs (now - b.last) in
      let bytes = refill b.bytes b.rate.bytes_per_second b.rate.burst_bytes elapsed in
      let frames = refill b.frames b.rate.frames_per_second b.rate.burst_frames elapsed in
      let size = f64.from_usize len in
      let refilled = record b { bytes = bytes; frames = frames; last = now } in
      if f64.lt frames (f64.from_usize 1) || f64.lt bytes (f64.minimum size b.rate.burst_bytes)
      then (refilled, false)
      else (
        record refilled {
          bytes = f64.minus bytes size;
          frames = f64.minus frames (f64.from_usize 1);
        },
        true,
      )

  -- A burst is no NaN and not negative.
  abbrev pub IsBurst : F → Type 0
  IsBurst b = (f64.le b b ≡ true) × (f64.le (f64.from_usize 0) b ≡ true)

  pub record IsValid (b : Bucket F) : Type 0 where
    pub burst_bytes : IsBurst b.rate.burst_bytes
    pub burst_frames : IsBurst b.rate.burst_frames
    pub bytes : f64.le b.bytes b.rate.burst_bytes ≡ true
    pub frames : f64.le b.frames b.rate.burst_frames ≡ true

  refill-le :
      (level per_second burst elapsed : F)
      → IsBurst burst
      → f64.le (refill level per_second burst elapsed) burst ≡ true
  unfolding refill
  refill-le level per_second burst elapsed ok = ground (
    arith,
    f64.minimum-le (f64.plus level (f64.times elapsed per_second)) burst,
    f64.infinite-le burst,
  )

  -- Whether it allows a frame or not, a valid bucket then holds no more than its bursts, however
  -- long it was left alone; its rate stays, and the clock's reading is kept.
  pub try_take-IsValid :
      (now len : ℕ) (b : Bucket F)
      → IsValid b
      → IsValid (try_take now len b).0
        × ((try_take now len b).0.rate ≡ b.rate)
        × ((try_take now len b).0.last ≡ now)
  unfolding try_take
  try_take-IsValid now len b v =
      let elapsed = f64.as_secs (now - b.last) in
      let few_bytes =
        refill-le b.bytes b.rate.bytes_per_second b.rate.burst_bytes elapsed v.burst_bytes in
      let few_frames =
        refill-le b.frames b.rate.frames_per_second b.rate.burst_frames elapsed v.burst_frames in
      let bytes = refill b.bytes b.rate.bytes_per_second b.rate.burst_bytes elapsed in
      let frames = refill b.frames b.rate.frames_per_second b.rate.burst_frames elapsed in
      elim (Bool-cases (
        f64.lt frames (f64.from_usize 1)
        || f64.lt bytes (f64.minimum (f64.from_usize len) b.rate.burst_bytes))) [
          | inl short ↦ rw short (
            record {
              burst_bytes = v.burst_bytes;
              burst_frames = v.burst_frames;
              bytes = few_bytes;
              frames = few_frames;
            },
            refl,
            refl,
          )
          | inr enough ↦ rw enough (
            record {
              burst_bytes = v.burst_bytes;
              burst_frames = v.burst_frames;
              bytes = f64.minus-le bytes b.rate.burst_bytes len few_bytes;
              frames = f64.minus-le frames b.rate.burst_frames 1 few_frames;
            },
            refl,
            refl,
          )
        ]
