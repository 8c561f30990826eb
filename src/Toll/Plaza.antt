-- ===== src/Toll/Plaza.antt =====
-- A vehicle's way through the plaza: gate, toll manager, FastTag server, and back to the gate.
use cn_lab.Base.{
  ℕ, ◌%◌, ◌<◌, ◌≡◌, ◌≢◌, refl, ap, ◌∙◌, Option, none, some, List, [], ◌∷◌, ◌++◌, append_assoc,
  length, Bool, false, arith, ◌==◌, if◌then◌else◌, All,
}
use mathlib.Core.Option
use cn_lab.Toll.{
  Lane, Counts, count_passed, fast_tag_id, valid_fast_tag, await_verdict, settle, is_allowed,
}
use cn_lab.Toll.Gate.{Verdict, IsSent, packets_of, await_verdict-first}

-- The buffers around a verdict: the kernel's headers and the cleared rest.
pub record Frame : Type 0 where
  pub header : List ℕ
  pub header' : List ℕ
  pub zeros : List ℕ

-- The toll manager hands the number and the FastTag id on, the server answers with two packets.
abbrev pub verdict_for : List ℕ → Option ℕ → Frame → Verdict
verdict_for number peer f = record {
  number = number;
  valid = valid_fast_tag (fast_tag_id peer);
  header = f.header;
  header' = f.header';
  zeros = f.zeros;
}

-- A vehicle in a lane: its number (9 bytes at most, as v.c, g1.c and TM.c hand on 10 bytes), and its port as getpeername finds it. The gate's raw socket holds
-- the verdicts of `queued` when the vehicle's own arrives. The answer to the vehicle and the counters.
unfoldable pub pass : Lane → List ℕ → Option ℕ → Frame → List Verdict → Counts → Option (ℕ × Counts)
pass lane number peer f queued c =
    Option.map (λ r. (r.0, settle lane r.0 c))
      (await_verdict number (packets_of (queued ++ verdict_for number peer f ∷ [])))

-- The FastTag of a port: a multiple of three.
abbrev pub has_tag : Option ℕ → Bool
has_tag none = false
has_tag (some port) = port % 3 == 0

verdict-has_tag :
    (peer : Option ℕ) → valid_fast_tag (fast_tag_id peer) ≡ (if has_tag peer then 1 else 0)
unfolding valid_fast_tag fast_tag_id
verdict-has_tag none = refl
verdict-has_tag (some port) = refl

settle-has_tag :
    (b : Bool) (lane : Lane) (v : ℕ) (c : Counts)
    → v ≡ (if b then 1 else 0)
    → settle lane v c ≡ (if b then count_passed lane c else c)
unfolding settle
settle-has_tag b lane v c e = ground arith

is_allowed-has_tag : (b : Bool) (v : ℕ) → v ≡ (if b then 1 else 0) → is_allowed v ≡ b
unfolding is_allowed
is_allowed-has_tag b v e = ground arith

-- If the number has 9 bytes at most, so that its NUL fits the 10 bytes that the programs hand on, and
-- the gate's socket holds no verdict for the same number, a vehicle whose port is a multiple of
-- three is allowed and counted once in its lane; any other, and one whose port is not found, is
-- turned away, and the counters stay as they were.
pub pass_lem :
    (lane : Lane) (number : List ℕ) (peer : Option ℕ) (f : Frame) (queued : List Verdict)
    (c : Counts)
    → length number < 10
    → All (λ o. IsSent o × (o.number ≢ number)) queued
    → IsSent (verdict_for number peer f)
    → (answer : ℕ) × (pass lane number peer f queued c
        ≡ some (answer, if has_tag peer then count_passed lane c else c))
      × (is_allowed answer ≡ has_tag peer)
unfolding pass
pass_lem lane number peer f queued c short others sent = (
  valid_fast_tag (fast_tag_id peer),
  ap (Option.map (λ r. (r.0, settle lane r.0 c)))
        (await_verdict-first queued (verdict_for number peer f) [] short others sent)
      ∙ ap (λ (k : Counts). some (valid_fast_tag (fast_tag_id peer), k))
          (settle-has_tag (has_tag peer) lane _ c (verdict-has_tag peer)),
  is_allowed-has_tag (has_tag peer) _ (verdict-has_tag peer),
)

-- If the number has 9 bytes at most and the gate's socket still holds a verdict for the same number, such as one of an earlier visit at
-- another gate, the vehicle gets the first such verdict, whatever its present port, and it is
-- counted by it.
pub pass_stale :
    (lane : Lane) (stale : Verdict) (peer : Option ℕ) (f : Frame) (before after : List Verdict)
    (c : Counts)
    → length stale.number < 10
    → All (λ o. IsSent o × (o.number ≢ stale.number)) before
    → IsSent stale
    → pass lane stale.number peer f (before ++ stale ∷ after) c
      ≡ some (stale.valid, settle lane stale.valid c)
unfolding pass
pass_stale lane stale peer f before after c short others sent =
    ap
      (λ (l : List Verdict).
        Option.map (λ r. (r.0, settle lane r.0 c)) (await_verdict stale.number (packets_of l)))
      (append_assoc before (stale ∷ after) (verdict_for stale.number peer f ∷ []))
    ∙ ap (Option.map (λ r. (r.0, settle lane r.0 c))) (
        await_verdict-first before stale (after ++ verdict_for stale.number peer f ∷ []) short
          others sent)
