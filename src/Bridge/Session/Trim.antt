-- ===== src/Bridge/Session/Trim.antt =====
-- `trim_queue_locked` of src/nats2ntrip.cpp: what it drops, and its sums.
use rtcmbridge.Base.{
  ltb→lt, ltb_false→le, ℕ, ◌+◌, ◌-◌, ◌^◌, ◌≤◌, ◌<◌, ◌≡◌, refl, ap, ◌∙◌, Bool, true, List, [], ◌∷◌,
  ◌++◌, arith, Bytes, length, Bool-cases, inl, inr, ltb,
}
use rtcmbridge.Bridge.Session.{sub64, add64, Backlog, trim_loop}

-- The bytes of the payloads together.
unfoldable pub total_size : List Bytes → ℕ
total_size [] = 0
total_size (p ∷ ps) = length p + total_size ps

pub total_size-append : (ps qs : List Bytes) → total_size (ps ++ qs) ≡ total_size ps + total_size qs
unfolding total_size
total_size-append [] qs = omega arith
total_size-append (p ∷ ps) qs = omega (arith, total_size-append ps qs)

pub sub64-of_le : (a b : ℕ) → b ≤ a → a < 2 ^ 64 → sub64 a b ≡ a - b
sub64-of_le a b h l = omega (arith, h, l)

pub add64-of_lt : (a b : ℕ) → a + b < 2 ^ 64 → add64 a b ≡ a + b
add64-of_lt a b h = omega (arith, h)

-- Taking `cut` from the front of the queue, each payload while the queue is over the limit, leaves
-- the last list, which is not.
pub data Drops (limit : ℕ) : List Bytes → List Bytes → List Bytes → Type 0 where
  fits : {queue : List Bytes} → total_size queue ≤ limit → Drops limit [] queue queue
  over :
      {front : Bytes} {cut rest kept : List Bytes}
      → limit < total_size (front ∷ rest)
      → Drops limit cut rest kept
      → Drops limit (front ∷ cut) (front ∷ rest) kept

pub Drops-append :
    {limit : ℕ} {cut queue kept : List Bytes} → Drops limit cut queue kept → cut ++ kept ≡ queue
Drops-append (fits h) = refl
Drops-append (over {front = p} h d) = ap (λ (q : List Bytes). p ∷ q) (Drops-append d)

pub Drops-bound :
    {limit : ℕ} {cut queue kept : List Bytes} → Drops limit cut queue kept → total_size kept ≤ limit
Drops-bound (fits h) = h
Drops-bound (over h d) = Drops-bound d

-- `b` is what the loop leaves of `queue`, and its sums agree with what was taken.
pub record Trimmed (limit : ℕ) (queue : List Bytes) (gone : ℕ) (b : Backlog) : Type 0 where
  pub cut : List Bytes
  pub drops : Drops limit cut queue b.queue
  pub queued : b.queued_bytes ≡ total_size b.queue
  pub counted : b.dropped_bytes ≡ gone + total_size cut

-- With sums below 2^64 the loop drops the oldest payloads, no more than it takes to reach the limit,
-- and counts them.
pub trim_loop-Trimmed :
    (limit : ℕ) (queue : List Bytes) (gone : ℕ) (any : Bool)
    → gone + total_size queue < 2 ^ 64
    → Trimmed limit queue gone (trim_loop limit queue (total_size queue) gone any)
unfolding trim_loop total_size
trim_loop-Trimmed limit [] gone any h = record {
  cut = [];
  drops = fits (omega arith);
  queued = refl;
  counted = omega arith;
}
trim_loop-Trimmed limit (front ∷ rest) gone any h =
    let size = length front + total_size rest in
    let queued : sub64 size (length front) ≡ total_size rest =
      sub64-of_le _ _ (omega arith) (omega (arith, h)) ∙ omega arith in
    let counted : add64 gone (length front) ≡ gone + length front =
      add64-of_lt _ _ (omega (arith, h)) in
    let r = trim_loop-Trimmed limit rest (gone + length front) true (omega (arith, h)) in
    elim (Bool-cases (ltb limit size)) [
      | inl e ↦
          rw (e, queued, counted)
            record {
              cut = front ∷ r.cut;
              drops = over (ltb→lt _ _ e) r.drops;
              queued = r.queued;
              counted = r.counted ∙ omega arith;
            }
      | inr e ↦ rw e record {
        cut = [];
        drops = fits (ltb_false→le _ _ e);
        queued = refl;
        counted = omega arith;
      }
    ]
