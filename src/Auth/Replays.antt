-- ===== src/Auth/Replays.antt =====
-- internal/zero/raft/auth.go and internal/cluster/auth.go: when a message is accepted again.
use mxkeys_org.Prelude.{
  ℕ, ◌+◌, ◌≤◌, ◌<◌, ◌≡◌, ◌≢◌, ◌∙◌, sym, ap, true, false, arith, Option, none, some, String, str_eq,
  List, [], ◌∷◌, Dict, find, assign, All,
}
use mxkeys_org.Auth.{
  Signed, accepted, max_skew, track_signature, tracked, compare_mac, verify_message, Arrival,
  verify_all,
}
use mxkeys_org.Auth.Tracking.{
  track-find, track-tracks, track-replay, tracked-fst, tracked-snd, tracked-accepted, track-assigns,
  track-again,
}

module _ (mac : Signed → Option String) where
  compare-find :
      (now : ℕ) (msg : Signed) (seen : Dict ℕ) (s : String) (t : ℕ) (expected : Option String)
      → find s seen ≡ some t
      → now ≤ t + max_skew
      → find s (compare_mac mac now msg seen expected).0 ≡ some t
  compare-find now msg seen s t none h late = h
  compare-find now msg seen s t (some expected) h late =
      let kept = track-find now s t msg.signature msg.timestamp seen h late in
      let same = tracked-fst (track_signature now msg.signature msg.timestamp seen) in
      ground (arith, kept, same, h)

  compare-accepted :
      (now : ℕ) (msg : Signed) (seen : Dict ℕ) (expected : Option String)
      → (compare_mac mac now msg seen expected).1 ≡ accepted
      → find msg.signature (compare_mac mac now msg seen expected).0 ≡ some msg.timestamp
  compare-accepted now msg seen none ok = ground (arith, ok)
  compare-accepted now msg seen (some expected) ok =
      let tracks = track-tracks now msg.signature msg.timestamp seen in
      let same = tracked-fst (track_signature now msg.signature msg.timestamp seen) in
      ground (arith, tracks, same, ok)

  compare-replay :
      (now : ℕ) (msg : Signed) (seen : Dict ℕ) (t : ℕ) (expected : Option String)
      → find msg.signature seen ≡ some t
      → now ≤ t + max_skew
      → (compare_mac mac now msg seen expected).1 ≢ accepted
  compare-replay now msg seen t none h late ok = ground (arith, ok)
  compare-replay now msg seen t (some expected) h late ok =
      let replay = track-replay now msg.signature msg.timestamp t seen h late in
      let last = tracked-snd (track_signature now msg.signature msg.timestamp seen) in
      ground (arith, replay, last, ok)

  -- What one verification does to a tracked signature.
  verify-find :
      (since now : ℕ) (msg : Signed) (seen : Dict ℕ) (s : String) (t : ℕ)
      → find s seen ≡ some t
      → now ≤ t + max_skew
      → find s (verify_message mac since now msg seen).0 ≡ some t
  unfolding verify_message
  verify-find since now msg seen s t h late =
      let compared = compare-find now msg seen s t (mac (record msg { signature = "" })) h late in
      ground (arith, compared, h)

  -- What a run of verifications does to a tracked signature.
  verify_all-find :
      (later : List Arrival) (seen : Dict ℕ) (s : String) (t : ℕ)
      → find s seen ≡ some t
      → All (λ a. a.now ≤ t + max_skew) later
      → find s (verify_all mac later seen) ≡ some t
  unfolding verify_all
  verify_all-find [] seen s t h early = h
  verify_all-find (a ∷ later) seen s t h (now, early) =
      verify_all-find later (verify_message mac a.since a.now a.message seen).0 s t
        (verify-find a.since a.now a.message seen s t h now) early

  -- A message that is accepted has its signature tracked.
  accepted-find :
      (since now : ℕ) (msg : Signed) (seen : Dict ℕ)
      → (verify_message mac since now msg seen).1 ≡ accepted
      → find msg.signature (verify_message mac since now msg seen).0 ≡ some msg.timestamp
  unfolding verify_message
  accepted-find since now msg seen ok =
      let compared = compare-accepted now msg seen (mac (record msg { signature = "" })) in
      ground (arith, compared, ok)

  -- A message whose signature is tracked is not accepted before the time of it is over.
  tracked_refused :
      (since now : ℕ) (msg : Signed) (seen : Dict ℕ) (t : ℕ)
      → find msg.signature seen ≡ some t
      → now ≤ t + max_skew
      → (verify_message mac since now msg seen).1 ≢ accepted
  unfolding verify_message
  tracked_refused since now msg seen t h late ok =
      let compared = compare-replay now msg seen t (mac (record msg { signature = "" })) h late in
      ground (arith, compared, ok)

  -- After a message is accepted and then others are verified, each with its clock at most
  -- maxRPCSkew after the timestamp of that message, a message with the same signature whose
  -- clock is at most maxRPCSkew after that timestamp too is not accepted.
  pub no_replay :
      (first : Arrival) (later : List Arrival) (again : Arrival) (seen : Dict ℕ)
      → (verify_message mac first.since first.now first.message seen).1 ≡ accepted
      → All (λ a. a.now ≤ first.message.timestamp + max_skew) later
      → again.message.signature ≡ first.message.signature
      → again.now ≤ first.message.timestamp + max_skew
      → (verify_message mac again.since again.now again.message
          (verify_all mac (first ∷ later) seen)).1
        ≢ accepted
  unfolding verify_all
  no_replay first later again seen ok steady same late =
      let after = (verify_message mac first.since first.now first.message seen).0 in
      let tracked_first = accepted-find first.since first.now first.message seen ok in
      let still =
        verify_all-find later after first.message.signature first.message.timestamp tracked_first
          steady in
      tracked_refused again.since again.now again.message (verify_all mac later after)
        first.message.timestamp (ap (λ s. find s (verify_all mac later after)) same ∙ still) late

  -- What is seen after a message is accepted.
  compare-assigns :
      (now : ℕ) (msg : Signed) (seen : Dict ℕ) (expected : Option String)
      → (compare_mac mac now msg seen expected).1 ≡ accepted
      → (m : Dict ℕ) × ((compare_mac mac now msg seen expected).0
          ≡ assign msg.signature msg.timestamp m)
  compare-assigns now msg seen none ok = ground (arith, ok)
  compare-assigns now msg seen (some expected) ok =
      let same = tracked-fst (track_signature now msg.signature msg.timestamp seen) in
      let passed : (tracked (track_signature now msg.signature msg.timestamp seen)).1 ≡ accepted =
        ground (arith, ok) in
      let (m, at) = track-assigns now msg.signature msg.timestamp seen passed in
      (m, ground (arith, same, at, ok))

  -- The comparison passes again when the tracking does.
  compare-again :
      (now now' : ℕ) (msg : Signed) (seen seen' : Dict ℕ) (expected : Option String)
      → (compare_mac mac now msg seen expected).1 ≡ accepted
      → (track_signature now' msg.signature msg.timestamp seen').1 ≡ true
      → (compare_mac mac now' msg seen' expected).1 ≡ accepted
  compare-again now now' msg seen seen' none ok fresh = ground (arith, ok)
  compare-again now now' msg seen seen' (some expected) ok fresh =
      let last = tracked-accepted (track_signature now' msg.signature msg.timestamp seen') fresh in
      ground (arith, ok, last)

  -- What a message that is accepted went through.
  verify-reached :
      (since now : ℕ) (msg : Signed) (seen : Dict ℕ)
      → (verify_message mac since now msg seen).1 ≡ accepted
      → (str_eq msg.signature "" ≡ false)
        × (verify_message mac since now msg seen
            ≡ compare_mac mac now msg seen (mac (record msg { signature = "" })))
  unfolding verify_message
  verify-reached since now msg seen ok = (ground (arith, ok), ground (arith, ok))

  verify-passes :
      (since now : ℕ) (msg : Signed) (seen : Dict ℕ)
      → str_eq msg.signature "" ≡ false
      → since ≤ msg.timestamp + max_skew
      → msg.timestamp ≤ since + max_skew
      → verify_message mac since now msg seen
        ≡ compare_mac mac now msg seen (mac (record msg { signature = "" }))
  unfolding verify_message
  verify-passes since now msg seen there late early = ground (arith, there, late, early)

  -- A message that is accepted once is accepted after it, at readings on both sides of its end.
  verify-again :
      (since now since' now' : ℕ) (msg : Signed) (seen : Dict ℕ)
      → (verify_message mac since now msg seen).1 ≡ accepted
      → since' ≤ msg.timestamp + max_skew
      → msg.timestamp ≤ since' + max_skew
      → msg.timestamp + max_skew < now'
      → (verify_message mac since' now' msg (verify_message mac since now msg seen).0).1 ≡ accepted
  verify-again since now since' now' msg seen ok late early past =
      let expected = mac (record msg { signature = "" }) in
      let (there, reached) = verify-reached since now msg seen ok in
      let compared = sym (ap (λ r. r.1) reached) ∙ ok in
      let (m, at) = compare-assigns now msg seen expected compared in
      let fresh = track-again now' msg.signature msg.timestamp m past in
      let again =
        compare-again now now' msg seen (assign msg.signature msg.timestamp m) expected compared
          fresh in
      let after = ap (λ r. r.0) reached ∙ at in
      let passed =
        verify-passes since' now' msg (verify_message mac since now msg seen).0 there late early in
      ap (λ r. r.1) passed ∙ ap (λ m. (compare_mac mac now' msg m expected).1) after ∙ again

  -- A message that was accepted is accepted once more when time.Since of it is within maxRPCSkew
  -- either way and the clock that the tracking reads after it is more than maxRPCSkew after its timestamp.
  pub replay_between_readings :
      (first : Arrival) (since now : ℕ) (seen : Dict ℕ)
      → (verify_message mac first.since first.now first.message seen).1 ≡ accepted
      → since ≤ first.message.timestamp + max_skew
      → first.message.timestamp ≤ since + max_skew
      → first.message.timestamp + max_skew < now
      → (verify_message mac since now first.message (verify_all mac (first ∷ []) seen)).1 ≡ accepted
  unfolding verify_all
  replay_between_readings first since now seen =
      verify-again first.since first.now since now first.message seen
