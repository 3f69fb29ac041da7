-- ===== src/Metering/Once.antt =====
-- When the metering body of crates/router-server/src/usage.rs charges, and for what: the proofs about its
-- `poll_frame`, `complete` and `drop`.
use rapidrouter.Prelude.{
  ℕ, ◌-◌, ◌≡◌, refl, sym, ap, ◌∙◌, true, false, List, [], ◌∷◌, ◌++◌, length, take, drop, arith,
  if◌then◌else◌, ◌<◌, ◌≤◌, is_utf8-continuation, length-append, drop-append,
}
use rapidrouter.Metering.{
  Json, TokenUsage, no_usage, stream_usage, extract_sync, MeteredBody, observe, Completion, Poll,
  bytes, trailers, failed, ended, pending, dropped, completion_of, complete, poll, poll_all,
}
use rapidrouter.Metering.Tail.{
  observe_all, joined, Holds, observe_all-Holds, observe_all-same, drop-nil, take-nil,
}

-- The frames of bytes up to the first end, error or drop.
abbrev pub chunks_before : List Poll → List (List ℕ)
chunks_before [] = []
chunks_before (bytes chunk ∷ rest) = chunk ∷ chunks_before rest
chunks_before (trailers ∷ rest) = chunks_before rest
chunks_before (pending ∷ rest) = chunks_before rest
chunks_before (failed ∷ rest) = []
chunks_before (ended ∷ rest) = []
chunks_before (dropped ∷ rest) = []

module _ (j : Json) (lossy : List ℕ → List ℕ) (cap : ℕ) where
  taken : MeteredBody → MeteredBody
  taken b = record b { hooked = false; captured = [] }

  complete-unhooked : (b : MeteredBody) → b.hooked ≡ false → complete j lossy b ≡ (b, [])
  unfolding complete
  complete-unhooked b h = ground arith

  complete-hooked :
      (b : MeteredBody)
      → b.hooked ≡ true
      → complete j lossy b ≡ (taken b, completion_of j lossy b ∷ [])
  unfolding complete taken
  complete-hooked b h = ground arith

  -- The end of the stream for a body that is asked to complete.
  after_complete : MeteredBody × List Completion → List Poll → List Completion
  after_complete r rest = r.1 ++ (poll_all j lossy cap r.0 rest).1

  -- A body whose hook is gone completes nothing.
  poll_all-unhooked :
      (b : MeteredBody) (polls : List Poll)
      → b.hooked ≡ false
      → (poll_all j lossy cap b polls).1 ≡ []
  unfolding poll_all poll observe after_complete
  poll_all-unhooked b [] h = refl
  poll_all-unhooked b (bytes chunk ∷ rest) h = poll_all-unhooked (observe cap b chunk) rest h
  poll_all-unhooked b (trailers ∷ rest) h = poll_all-unhooked b rest h
  poll_all-unhooked b (pending ∷ rest) h = poll_all-unhooked b rest h
  poll_all-unhooked b (failed ∷ rest) h =
      ap (λ r. after_complete r rest) (complete-unhooked b h) ∙ poll_all-unhooked b rest h
  poll_all-unhooked b (ended ∷ rest) h =
      ap (λ r. after_complete r rest) (complete-unhooked b h) ∙ poll_all-unhooked b rest h
  poll_all-unhooked b (dropped ∷ rest) h =
      ap (λ r. after_complete r rest) (complete-unhooked b h) ∙ poll_all-unhooked b rest h

  complete-once :
      (b : MeteredBody) (rest : List Poll)
      → b.hooked ≡ true
      → after_complete (complete j lossy b) rest ≡ completion_of j lossy b ∷ []
  unfolding after_complete taken
  complete-once b rest h =
      ap (λ r. after_complete r rest) (complete-hooked b h)
      ∙ ap (λ l. completion_of j lossy b ∷ l) (poll_all-unhooked (taken b) rest refl)

  poll_all-once :
      (b : MeteredBody) (polls : List Poll)
      → b.hooked ≡ true
      → (poll_all j lossy cap b (polls ++ (dropped ∷ []))).1
        ≡ completion_of j lossy (observe_all cap b (chunks_before polls)) ∷ []
  unfolding poll_all poll observe after_complete
  poll_all-once b [] h = complete-once b [] h
  poll_all-once b (bytes chunk ∷ rest) h = poll_all-once (observe cap b chunk) rest h
  poll_all-once b (trailers ∷ rest) h = poll_all-once b rest h
  poll_all-once b (pending ∷ rest) h = poll_all-once b rest h
  poll_all-once b (failed ∷ rest) h = complete-once b (rest ++ (dropped ∷ [])) h
  poll_all-once b (ended ∷ rest) h = complete-once b (rest ++ (dropped ∷ [])) h
  poll_all-once b (dropped ∷ rest) h = complete-once b (rest ++ (dropped ∷ [])) h

  -- The usage of a response, of all its bytes.
  abbrev pub usage_of : MeteredBody → List ℕ → TokenUsage
  usage_of b seen =
      let tail = drop (length seen - cap) seen in
      if b.stream then stream_usage j b.dialect tail else extract_sync j b.dialect tail

  -- However a response is cut into frames, and whatever polls, trailers, errors and ends come with them,
  -- its metering completes exactly once by the time that it is dropped: with the status, with the usage
  -- that the last `cap` bytes say of what came before the first end or error, and with the first bytes of
  -- the same up to the capture limit, read lossily as a text. The body starts with its hook and with nothing seen.
  pub poll_all-completes :
      (b : MeteredBody) (polls : List Poll)
      → b.hooked ≡ true
      → b.tail ≡ []
      → b.captured ≡ []
      → (poll_all j lossy cap b (polls ++ (dropped ∷ []))).1 ≡ (
          record {
            status = b.status;
            usage = usage_of b (joined (chunks_before polls));
            output = lossy (take b.capture_limit (joined (chunks_before polls)));
          }
          ∷ [])
  unfolding completion_of
  poll_all-completes b polls hooked no_tail nothing =
      let chunks = chunks_before polls in
      let fresh : Holds cap b.capture_limit [] b = record {
        bound = refl;
        tail = no_tail ∙ sym (drop-nil (0 - cap));
        captured = nothing ∙ sym (take-nil b.capture_limit);
      } in
      let held = observe_all-Holds cap b.capture_limit [] chunks b fresh in
      let (status, stream, dialect) = observe_all-same cap b chunks in
      poll_all-once b polls hooked ∙ rw (held.tail, held.captured, status, stream, dialect) refl

  -- A stream whose tail is cut within a character of several bytes is charged for nothing, whatever usage
  -- its events report: if the last `cap` bytes seen begin with a byte that continues a character, the
  -- usage that it completes with is zero.
  pub poll_all-cut_tail :
      (b : MeteredBody) (polls : List Poll) (before rest : List ℕ) (c : ℕ)
      → b.hooked ≡ true
      → b.tail ≡ []
      → b.captured ≡ []
      → b.stream ≡ true
      → joined (chunks_before polls) ≡ before ++ (c ∷ rest)
      → length (c ∷ rest) ≡ cap
      → 128 ≤ c
      → c < 192
      → (poll_all j lossy cap b (polls ++ (dropped ∷ []))).1 ≡ (
          record {
            status = b.status;
            usage = no_usage;
            output = lossy (take b.capture_limit (joined (chunks_before polls)));
          }
          ∷ [])
  unfolding stream_usage
  poll_all-cut_tail b polls before rest c hooked no_tail nothing stream cut full low high =
      let seen = joined (chunks_before polls) in
      let n = length seen - cap in
      let at : n ≡ length before = omega (arith, ap length cut, length-append before (c ∷ rest)) in
      let tail : drop n seen ≡ c ∷ rest =
        ap (λ k. drop k seen) at
        ∙ ap (λ l. drop (length before) l) cut
        ∙ drop-append before (c ∷ rest) in
      let zero_usage : usage_of b seen ≡ no_usage =
        rw (stream, tail, is_utf8-continuation c rest low high) refl in
      poll_all-completes b polls hooked no_tail nothing
      ∙ ap
          (λ u.
            record { status = b.status; usage = u; output = lossy (take b.capture_limit seen) }
            ∷ [])
          zero_usage
