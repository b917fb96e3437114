-- ===== src/Bridge/Publisher/Published.antt =====
-- What `StreamSession` of src/ntrip2nats.cpp publishes, counts and logs.
use mathlib.Core.List.{flatten}
use rtcmbridge.Base.{
  ℕ, suc, ◌^◌, ◌<◌, ◌≡◌, refl, sym, ap, ◌∙◌, none, some, Option, List, [], ◌∷◌, ◌++◌, arith, Bytes,
  length, leb, Bool-cases, inl, inr, append-nil, append_assoc, length-append,
}
use rtcmbridge.Bridge.Session.{to_u64, add64, sub64}
use rtcmbridge.Bridge.Publisher.{StreamSession, log_throughput, publish, handle_stream}

-- The chunks that the connection delivers; the nth publication has the nth status.
unfoldable pub handle_all : (ℕ → Option Bytes) → StreamSession → List Bytes → StreamSession
handle_all status s [] = s
handle_all status s (bytes ∷ more) =
    handle_all (λ n. status (suc n)) (handle_stream s bytes (status 0)) more

-- One chunk, where its publication succeeds.
abbrev pub if_ok : Option Bytes → Bytes → List Bytes
if_ok none bytes = bytes ∷ []
if_ok (some text) bytes = []

-- The chunks whose publication succeeds.
abbrev pub succeeding : (ℕ → Option Bytes) → List Bytes → List Bytes
succeeding status [] = []
succeeding status (bytes ∷ more) = if_ok (status 0) bytes ++ succeeding (λ n. status (suc n)) more

-- From `s` to `t` every chunk has been offered and counted, and those of `ok` have been published.
pub record Publishes (s t : StreamSession) (chunks ok : List Bytes) : Type 0 where
  pub offered : t.offered ≡ s.offered ++ chunks
  pub published : t.published ≡ s.published ++ ok
  pub counted : t.total ≡ add64 s.total (length (flatten chunks))
  pub same_limit : t.limit ≡ s.limit
  pub same_subject : t.subject ≡ s.subject

-- Less than the limit has been counted since the last line.
pub record IsLogged (s : StreamSession) : Type 0 where
  pub recent : sub64 s.total s.last_log < to_u64 s.limit
  pub in_range : s.total < 2 ^ 64
  pub positive : 0 < to_u64 s.limit

log_throughput-IsLogged :
    (s : StreamSession) → s.total < 2 ^ 64 → 0 < to_u64 s.limit → IsLogged (log_throughput s)
unfolding log_throughput
log_throughput-IsLogged s r p =
    elim (Bool-cases (leb (to_u64 s.limit) (sub64 s.total s.last_log))) [
      | inl due ↦ simp due record { recent = omega arith; in_range = r; positive = p }
      | inr early ↦ simp early record { recent = ground arith; in_range = r; positive = p }
    ]

publish-IsLogged :
    (s : StreamSession) (bytes : Bytes) (status : Option Bytes)
    → IsLogged s
    → IsLogged (publish s bytes status)
unfolding publish
publish-IsLogged s bytes none v = record {
  recent = v.recent;
  in_range = v.in_range;
  positive = v.positive;
}
publish-IsLogged s bytes (some text) v = record {
  recent = v.recent;
  in_range = v.in_range;
  positive = v.positive;
}

-- Where the throughput is logged every so many bytes, then after every chunk, whatever is delivered and
-- whether it can be published, fewer bytes than that have been counted since the last line on it.
pub handle_all-IsLogged :
    (status : ℕ → Option Bytes) (s : StreamSession) (chunks : List Bytes)
    → IsLogged s
    → IsLogged (handle_all status s chunks)
unfolding handle_all handle_stream
handle_all-IsLogged status s [] v = v
handle_all-IsLogged status s (bytes ∷ more) v =
    let counted = record s { total = add64 s.total (length bytes) } in
    handle_all-IsLogged (λ n. status (suc n)) (handle_stream s bytes (status 0)) more
      (publish-IsLogged (log_throughput counted) bytes (status 0)
        (log_throughput-IsLogged counted (omega arith) v.positive))

log_throughput-Publishes :
    (s : StreamSession) → s.total < 2 ^ 64 → Publishes s (log_throughput s) [] []
unfolding log_throughput flatten
log_throughput-Publishes s r = elim (Bool-cases (leb (to_u64 s.limit) (sub64 s.total s.last_log))) [
  | inl due ↦ simp due record {
    offered = sym (append-nil s.offered);
    published = sym (append-nil s.published);
    counted = omega arith;
    same_limit = refl;
    same_subject = refl;
  }
  | inr early ↦ simp early record {
    offered = sym (append-nil s.offered);
    published = sym (append-nil s.published);
    counted = omega arith;
    same_limit = refl;
    same_subject = refl;
  }
]

handle-Publishes :
    (s : StreamSession) (bytes : Bytes) (status : Option Bytes)
    → Publishes s (handle_stream s bytes status) (bytes ∷ []) (if_ok status bytes)
unfolding handle_stream publish flatten
handle-Publishes s bytes none =
    let counted = record s { total = add64 s.total (length bytes) } in
    let p = log_throughput-Publishes counted (omega arith) in
    record {
      offered = ap (λ x. x ++ (bytes ∷ [])) (p.offered ∙ append-nil s.offered);
      published = ap (λ x. x ++ (bytes ∷ [])) (p.published ∙ append-nil s.published);
      counted = omega (arith, p.counted, length-append bytes []);
      same_limit = p.same_limit;
      same_subject = p.same_subject;
    }
handle-Publishes s bytes (some text) =
    let counted = record s { total = add64 s.total (length bytes) } in
    let p = log_throughput-Publishes counted (omega arith) in
    record {
      offered = ap (λ x. x ++ (bytes ∷ [])) (p.offered ∙ append-nil s.offered);
      published = p.published;
      counted = omega (arith, p.counted, length-append bytes []);
      same_limit = p.same_limit;
      same_subject = p.same_subject;
    }

-- Chunks are offered in order, each as one message, and counted, and those whose publication succeeds
-- are published.
pub handle_all-Publishes :
    (status : ℕ → Option Bytes) (s : StreamSession) (chunks : List Bytes)
    → s.total < 2 ^ 64
    → Publishes s (handle_all status s chunks) chunks (succeeding status chunks)
unfolding handle_all flatten
handle_all-Publishes status s [] r = record {
  offered = sym (append-nil s.offered);
  published = sym (append-nil s.published);
  counted = omega arith;
  same_limit = refl;
  same_subject = refl;
}
handle_all-Publishes status s (bytes ∷ more) r =
    let t = handle_stream s bytes (status 0) in
    let first = handle-Publishes s bytes (status 0) in
    let one : length (flatten (bytes ∷ [])) ≡ length bytes =
      omega (arith, length-append bytes []) in
    let in_range : t.total < 2 ^ 64 = omega (arith, first.counted) in
    let rest = handle_all-Publishes (λ n. status (suc n)) t more in_range in
    record {
      offered =
          rest.offered
          ∙ ap (λ x. x ++ more) first.offered
          ∙ append_assoc s.offered (bytes ∷ []) more;
      published =
          rest.published
          ∙ ap (λ x. x ++ succeeding (λ n. status (suc n)) more) first.published
          ∙ append_assoc s.published (if_ok (status 0) bytes)
              (succeeding (λ n. status (suc n)) more);
      counted = omega (arith, rest.counted, first.counted, one, length-append bytes (flatten more));
      same_limit = rest.same_limit ∙ first.same_limit;
      same_subject = rest.same_subject ∙ first.same_subject;
    }
