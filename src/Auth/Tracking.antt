-- ===== src/Auth/Tracking.antt =====
-- internal/zero/raft/auth.go and internal/cluster/auth.go: the tracking of the signatures that were seen.
use mxkeys_org.Prelude.{
  ℕ, ◌+◌, ◌-◌, ◌≤◌, ◌<◌, ◌≡◌, ◌∙◌, refl, sym, ap, Bool, true, false, arith, Option, none, some,
  String, eq_iff, [], ◌∷◌, Dict, find, assign, remove, find-remove, find-assign,
}
use mxkeys_org.Auth.{accepted, max_skew, forget_before, track_found, track_signature, tracked}

-- A signature of a message that is not from before the cutoff is kept.
find-forget_before :
    (cutoff : ℕ) (s : String) (t : ℕ) (seen : Dict ℕ)
    → find s seen ≡ some t
    → cutoff ≤ t
    → find s (forget_before cutoff seen) ≡ some t
unfolding forget_before find
find-forget_before cutoff s t [] h late = h
find-forget_before cutoff s t ((k, v) ∷ seen) h late =
    ground (arith, find-forget_before cutoff s t seen, late)

-- Finding a signature after another was tracked.
find-track_found :
    (cutoff : ℕ) (s : String) (t : ℕ) (signature : String) (timestamp : ℕ) (seen : Dict ℕ)
    (o : Option ℕ)
    → find signature seen ≡ o
    → find s seen ≡ some t
    → cutoff ≤ t
    → find s (track_found cutoff signature timestamp seen o).0 ≡ some t
find-track_found cutoff s t signature timestamp seen none e h late =
    let at = find-assign signature s timestamp seen in
    let same = (eq_iff signature s).0 in
    let clash : (signature ≡ s) → (none ≡ some t) = λ q. sym e ∙ ap (λ k. find k seen) q ∙ h in
    grind (arith, at, same, clash, h)
find-track_found cutoff s t signature timestamp seen (some v) e h late =
    let at = find-assign signature s timestamp seen in
    let same = (eq_iff signature s).0 in
    let equal : (signature ≡ s) → (some v ≡ some t) = λ q. sym e ∙ ap (λ k. find k seen) q ∙ h in
    ground (arith, at, same, equal, h, late)

-- A signature that is tracked stays tracked, whatever is tracked at a time before its end.
pub track-find :
    (now : ℕ) (s : String) (t : ℕ) (signature : String) (timestamp : ℕ) (seen : Dict ℕ)
    → find s seen ≡ some t
    → now ≤ t + max_skew
    → find s (track_signature now signature timestamp seen).0 ≡ some t
unfolding track_signature
track-find now s t signature timestamp seen h late =
    let kept = forget_before (now - max_skew) seen in
    let young : now - max_skew ≤ t = omega (arith, late) in
    let still = find-forget_before (now - max_skew) s t seen h young in
    find-track_found (now - max_skew) s t signature timestamp kept (find signature kept) refl still
      young

pub tracked-fst : (r : Dict ℕ × Bool) → (tracked r).0 ≡ r.0
tracked-fst (seen, true) = refl
tracked-fst (seen, false) = refl

pub tracked-snd : (r : Dict ℕ × Bool) → (tracked r).1 ≡ accepted → r.1 ≡ true
tracked-snd (seen, true) ok = refl
tracked-snd (seen, false) ok = ground (arith, ok)

track_found-tracks :
    (cutoff : ℕ) (signature : String) (timestamp : ℕ) (seen : Dict ℕ) (o : Option ℕ)
    → (tracked (track_found cutoff signature timestamp seen o)).1 ≡ accepted
    → find signature (track_found cutoff signature timestamp seen o).0 ≡ some timestamp
track_found-tracks cutoff signature timestamp seen none ok =
    let at = find-assign signature signature timestamp seen in
    let same = (eq_iff signature signature).1 refl in grind (arith, at, same)
track_found-tracks cutoff signature timestamp seen (some v) ok =
    let at = find-assign signature signature timestamp seen in
    let same = (eq_iff signature signature).1 refl in ground (arith, at, same, ok)

-- A signature is tracked when the tracking does not call it a replay.
pub track-tracks :
    (now : ℕ) (signature : String) (timestamp : ℕ) (seen : Dict ℕ)
    → (tracked (track_signature now signature timestamp seen)).1 ≡ accepted
    → find signature (track_signature now signature timestamp seen).0 ≡ some timestamp
unfolding track_signature
track-tracks now signature timestamp seen ok =
    let cutoff = now - max_skew in
    let kept = forget_before cutoff seen in
    track_found-tracks cutoff signature timestamp kept (find signature kept) ok

-- A signature that is tracked is a replay until its end.
pub track-replay :
    (now : ℕ) (signature : String) (timestamp : ℕ) (t : ℕ) (seen : Dict ℕ)
    → find signature seen ≡ some t
    → now ≤ t + max_skew
    → (track_signature now signature timestamp seen).1 ≡ false
unfolding track_signature
track-replay now signature timestamp t seen h late =
    let young : now - max_skew ≤ t = omega (arith, late) in
    let kept = forget_before (now - max_skew) seen in
    let still = find-forget_before (now - max_skew) signature t seen h young in
    let at : track_found (now - max_skew) signature timestamp kept (find signature kept)
        ≡ track_found (now - max_skew) signature timestamp kept (some t) =
      ap (track_found (now - max_skew) signature timestamp kept) still in
    ap (λ r. r.1) at ∙ ground (arith, young)

pub tracked-accepted : (r : Dict ℕ × Bool) → r.1 ≡ true → (tracked r).1 ≡ accepted
tracked-accepted (seen, true) ok = refl
tracked-accepted (seen, false) ok = ground (arith, ok)

track_found-assigns :
    (cutoff : ℕ) (signature : String) (timestamp : ℕ) (seen : Dict ℕ) (o : Option ℕ)
    → (tracked (track_found cutoff signature timestamp seen o)).1 ≡ accepted
    → (track_found cutoff signature timestamp seen o).0 ≡ assign signature timestamp seen
track_found-assigns cutoff signature timestamp seen none ok = refl
track_found-assigns cutoff signature timestamp seen (some v) ok = ground (arith, ok)

-- What is seen after a message is accepted.
pub track-assigns :
    (now : ℕ) (signature : String) (timestamp : ℕ) (seen : Dict ℕ)
    → (tracked (track_signature now signature timestamp seen)).1 ≡ accepted
    → (m : Dict ℕ) × ((track_signature now signature timestamp seen).0
        ≡ assign signature timestamp m)
unfolding track_signature
track-assigns now signature timestamp seen ok =
    let kept = forget_before (now - max_skew) seen in
    (kept, track_found-assigns (now - max_skew) signature timestamp kept (find signature kept) ok)

-- Forgetting brings no signature.
forget_before-fresh :
    (cutoff : ℕ) (s : String) (seen : Dict ℕ)
    → find s seen ≡ none
    → find s (forget_before cutoff seen) ≡ none
unfolding forget_before find
forget_before-fresh cutoff s [] h = refl
forget_before-fresh cutoff s ((k, v) ∷ seen) h = ground (arith, forget_before-fresh cutoff s seen)

forget_before-old :
    (cutoff : ℕ) (s : String) (t : ℕ) (seen : Dict ℕ)
    → t < cutoff
    → forget_before cutoff ((s, t) ∷ seen) ≡ forget_before cutoff seen
unfolding forget_before
forget_before-old cutoff s t seen old = ground (arith, old)

-- Tracking a signature again after its end.
pub track-again :
    (now : ℕ) (signature : String) (timestamp : ℕ) (seen : Dict ℕ)
    → timestamp + max_skew < now
    → (track_signature now signature timestamp (assign signature timestamp seen)).1 ≡ true
unfolding track_signature assign
track-again now signature timestamp seen past =
    let rest = remove signature seen in
    let cutoff = now - max_skew in
    let old : timestamp < cutoff = omega (arith, past) in
    let gone : find signature rest ≡ none =
      grind (arith, find-remove signature signature seen, (eq_iff signature signature).1 refl) in
    let none_left = forget_before-fresh cutoff signature rest gone in
    let forgotten = forget_before-old cutoff signature timestamp rest old in
    let at : find signature (forget_before cutoff ((signature, timestamp) ∷ rest)) ≡ none =
      ap (find signature) forgotten ∙ none_left in
    ap
      (λ o.
        (track_found cutoff signature timestamp
          (forget_before cutoff ((signature, timestamp) ∷ rest)) o).1)
      at
