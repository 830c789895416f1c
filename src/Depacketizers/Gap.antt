-- ===== src/Depacketizers/Gap.antt =====
-- src/voice_conn.rs: a gap in the sequence numbers, and SSRCs beside one another.
use clankvox.Base.{
  ℕ, ◌+◌, ◌%◌, Bool, Option, none, some, List, ◌≡◌, ◌≢◌, refl, arith, ◌==◌, if◌then◌else◌,
  Bool-cases, inl, inr, Option-cases,
}
use clankvox.Base.Bytes.{u16_mod}
use clankvox.Base.Outcome.{Outcome, ok, panic, ◌>>=◌}
use clankvox.Rtp.{VideoCodecKind, h264, vp8}
use clankvox.H264
use clankvox.H264.{Frame}
use clankvox.Vp8
use clankvox.Depacketizers.{
  VideoDepacketizerState, VideoDepacketizers, new, push, push_codec, after_sequence_check,
  clear_partial_frame, state_for, store, push_ssrc, same_codec,
}

-- A new state that keeps the cached parameter sets and nothing else.
abbrev pub forget : VideoDepacketizerState → VideoDepacketizerState
forget s = record {
  codec = s.codec;
  last_sequence = none;
  h264_state = record H264.default {
    cached_sps = s.h264_state.cached_sps;
    cached_pps = s.h264_state.cached_pps;
  };
  vp8_state = Vp8.default;
}

-- A packet that does not follow its predecessor is treated as the first packet of a new state that
-- keeps only the cached parameter sets: nothing of a partial frame survives the gap.
pub push_after_gap :
    (s : VideoDepacketizerState) (previous sequence timestamp : ℕ) (marker : Bool)
    (payload : List ℕ)
    → s.last_sequence ≡ some previous
    → (previous + 1) % u16_mod ≢ sequence
    → push s sequence timestamp marker payload ≡ push (forget s) sequence timestamp marker payload
unfolding push after_sequence_check clear_partial_frame H264.reset Vp8.reset
push_after_gap s previous sequence timestamp marker payload e gap = rw e (ground arith)

pub record IsBounded (s : VideoDepacketizerState) : Type 0 where
  pub h264_bounded : H264.Bounded.IsBounded s.h264_state
  pub vp8_bounded : Vp8.Bounded.IsBounded s.vp8_state

abbrev pub Returns : Outcome (Option Frame × VideoDepacketizerState) → Type 0
Returns (ok result) = H264.Bounded.IsFrame result.0 × IsBounded result.1
Returns panic = ⊥

with_h264-Returns :
    (s : VideoDepacketizerState) (r : Outcome (Option Frame × H264.H264Depacketizer))
    → IsBounded s
    → H264.Bounded.Returns r
    → Returns (r >>= λ result. ok (result.0, record s { h264_state = result.1 }))
with_h264-Returns s panic h b = b
with_h264-Returns s (ok (frame, d)) h b =
    (b.0, record { h264_bounded = b.1; vp8_bounded = h.vp8_bounded })

with_vp8-Returns :
    (s : VideoDepacketizerState) (r : Outcome (Option Frame × Vp8.Vp8Depacketizer))
    → IsBounded s
    → Vp8.Bounded.Returns r
    → Returns (r >>= λ result. ok (result.0, record s { vp8_state = result.1 }))
with_vp8-Returns s panic h b = b
with_vp8-Returns s (ok (frame, d)) h b =
    (b.0, record { h264_bounded = h.h264_bounded; vp8_bounded = b.1 })

push_codec-Returns :
    (codec : VideoCodecKind) (s : VideoDepacketizerState) (timestamp : ℕ) (marker : Bool)
    (payload : List ℕ)
    → IsBounded s
    → Returns (push_codec codec s timestamp marker payload)
unfolding push_codec
push_codec-Returns h264 s t m p h =
    with_h264-Returns s (H264.push s.h264_state t m p) h
      (H264.Bounded.push-Returns s.h264_state t m p h.h264_bounded)
push_codec-Returns vp8 s t m p h =
    with_vp8-Returns s (Vp8.push s.vp8_state t m p) h
      (Vp8.Bounded.push-Returns s.vp8_state t m p h.vp8_bounded)

after_sequence_check-IsBounded :
    (s : VideoDepacketizerState) (sequence : ℕ)
    → IsBounded s
    → IsBounded (after_sequence_check s sequence)
unfolding after_sequence_check clear_partial_frame H264.reset Vp8.reset
after_sequence_check-IsBounded s sequence h = ground arith

push-Returns :
    (s : VideoDepacketizerState) (sequence timestamp : ℕ) (marker : Bool) (payload : List ℕ)
    → IsBounded s
    → Returns (push s sequence timestamp marker payload)
unfolding push
push-Returns s sequence timestamp marker payload h =
    let s' = after_sequence_check s sequence in
    push_codec-Returns s'.codec s' timestamp marker payload
      (after_sequence_check-IsBounded s sequence h)

abbrev pub AllBounded : VideoDepacketizers → Type 0
AllBounded by_ssrc = (ssrc : ℕ) (s : VideoDepacketizerState) → by_ssrc ssrc ≡ some s → IsBounded s

new-IsBounded : (codec : VideoCodecKind) → IsBounded (new codec)
unfolding new
new-IsBounded codec = omega arith

state_for-IsBounded :
    (by_ssrc : VideoDepacketizers) (ssrc : ℕ) (codec : VideoCodecKind)
    → AllBounded by_ssrc
    → IsBounded (state_for by_ssrc ssrc codec)
unfolding state_for
state_for-IsBounded by_ssrc ssrc codec h = elim (Option-cases (by_ssrc ssrc)) [
  | inl e ↦ rw (e, state_for) (new-IsBounded codec)
  | inr (s, e) ↦ elim (Bool-cases (same_codec s.codec codec)) [
    | inl same ↦ rw (e, state_for, same) (h ssrc s e)
    | inr other ↦ rw (e, state_for, other) (new-IsBounded codec)
  ]
]

-- What `push_ssrc` promises of its result, in a store `by_ssrc`.
pub record Stored (by_ssrc : VideoDepacketizers) (ssrc : ℕ) (frame : Option Frame)
    (after : VideoDepacketizers) : Type 0 where
  pub is_frame : H264.Bounded.IsFrame frame
  pub all_bounded : AllBounded after
  pub others : (other : ℕ) → other ≢ ssrc → after other ≡ by_ssrc other

store-Stored :
    (by_ssrc : VideoDepacketizers) (ssrc : ℕ) (r : Outcome (Option Frame × VideoDepacketizerState))
    → AllBounded by_ssrc
    → Returns r
    → (frame : Option Frame) × (after : VideoDepacketizers) × ((r >>= store by_ssrc ssrc)
        ≡ ok (frame, after))
      × Stored by_ssrc ssrc frame after
store-Stored by_ssrc ssrc panic h b = absurd b
store-Stored by_ssrc ssrc (ok (frame, s)) h b = (
  frame,
  λ other. if other == ssrc then some s else by_ssrc other,
  refl,
  record {
    is_frame = b.0;
    all_bounded = λ other t e. ground (arith, h other t);
    others = λ other ne. ground arith;
  },
)

-- On any packet payload of any SSRC, when all depacketizers are within their limit: `push` returns
-- without a panic, a frame that it hands on is not empty and within 8 MiB, all depacketizers stay within
-- their limit, and those of other SSRCs are left as they were.
pub push_ssrc_returns :
    (by_ssrc : VideoDepacketizers) (ssrc : ℕ) (codec : VideoCodecKind) (sequence timestamp : ℕ)
    (marker : Bool) (payload : List ℕ)
    → AllBounded by_ssrc
    → (frame : Option Frame) × (after : VideoDepacketizers) × (push_ssrc by_ssrc ssrc codec sequence
          timestamp marker payload
        ≡ ok (frame, after))
      × Stored by_ssrc ssrc frame after
unfolding push_ssrc
push_ssrc_returns by_ssrc ssrc codec sequence timestamp marker payload h =
    let s = state_for by_ssrc ssrc codec in
    store-Stored by_ssrc ssrc (push s sequence timestamp marker payload) h
      (push-Returns s sequence timestamp marker payload (state_for-IsBounded by_ssrc ssrc codec h))
