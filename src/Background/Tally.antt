-- ===== src/Background/Tally.antt =====
-- The first loop of the thread against a count of the packets: what `run` leaves of each header
-- depends on how many packets there were for it, and on nothing else.
use aiocp.Prelude.{
  ℕ, zero, suc, ◌+◌, ◌-◌, ◌^◌, ◌%◌, ◌<◌, ◌≡◌, refl, ap, ◌∙◌, Option, none, some, List, [], ◌∷◌,
  ◌++◌, length, ◌==◌, if◌then◌else◌, arith,
}
use aiocp.Prelude.Int.{ℤ, neg, is_pos}
use aiocp.Io.{Outcome, ok}
use aiocp.Os.{Os, Dequeued}
use aiocp.Task.{Header, unlock}
use aiocp.Task.Rounds.{unlock_loop-replicate}
use aiocp.Shared.{Shared, with_port}
use aiocp.Port.{
  CompletionOutcome, completed, aborted, errored, shutdown_port, fetch_sub, isize_min, drop_status,
  release, unlock_status, status_of,
}
use aiocp.Background.{run, dispatch, by_outcome}
use aiocp.Background.Life.{Unlocked, by_outcome-Unlocked}
use aiocp.Background.Loops.{run-stop, run-status}
use aiocp.Background.Queue.{IsQueue, AllOrdinary, dispatch-Handled}
use aiocp.Background.Termination.{next, poll-ordinary, poll-stop}

abbrev names : ℕ → Option ℕ → ℕ
names a none = 0
names a (some b) = if b == a then 1 else 0

-- How many of the packets are for the header at `a`.
abbrev pub tally : ℕ → List Dequeued → ℕ
tally a [] = 0
tally a (d ∷ ds) = names a d.overlapped + tally a ds

abbrev settled_lock : ℕ → ℤ → ℤ
settled_lock k lock = if k == 0 then lock else if is_pos lock then neg lock else lock

-- A header after `k` packets for it: `k` counts fewer, and out of flight if there was any.
abbrev pub finish : ℕ → Header → Header
finish k h = record h { lock = settled_lock k h.lock; strong = h.strong - k }

settled_lock-settled_lock :
    (j k : ℕ) (lock : ℤ) → settled_lock k (settled_lock j lock) ≡ settled_lock (j + k) lock
settled_lock-settled_lock j k lock = ground arith

finish-finish : (j k : ℕ) (h : Header) → finish k (finish j h) ≡ finish (j + k) h
finish-finish j k h =
    let locks = settled_lock-settled_lock j k h.lock in
    let counts : h.strong - j - k ≡ h.strong - (j + k) = omega arith in rw (locks, counts) refl

finish_none : (h : Header) → h ≡ finish 0 h
finish_none h =
    let same : h.strong ≡ h.strong - 0 = omega arith in ap (λ n. record h { strong = n }) same

-- What a shutdown does to the counter.
add_isize_min : (n : ℕ) → n < 2 ^ 63 → (n + isize_min) % 2 ^ 64 ≡ n + 2 ^ 63
add_isize_min n small = omega arith

module _ {W : Type 0} (os : Os W) where
  drop_status-finish :
      (rounds a : ℕ) (s s2 : Shared W)
      → Unlocked rounds a s s2
      → (b : ℕ) → (drop_status (some a) s2).heap b ≡ finish (names b (some a)) (s.heap b)
  unfolding drop_status unlock
  drop_status-finish rounds a s s2 u b =
      rw u.heap (ground (arith, unlock_loop-replicate rounds (s.heap a).lock))

  by_outcome-none :
      (outcome : CompletionOutcome) (rounds : ℕ) (s : Shared W)
      → by_outcome os outcome rounds none s ≡ s
  unfolding by_outcome unlock_status release
  by_outcome-none aborted rounds s = refl
  by_outcome-none completed rounds s = refl
  by_outcome-none errored rounds s = refl

  header-finish :
      (rounds : ℕ) (outcome : CompletionOutcome) (header : Option ℕ) (s : Shared W) (b : ℕ)
      → (drop_status header (by_outcome os outcome rounds header s)).heap b
        ≡ finish (names b header) (s.heap b)
  header-finish rounds outcome none s b =
      rw (by_outcome-none outcome rounds s) (unfold drop_status in finish_none (s.heap b))
  header-finish rounds outcome (some a) s b =
      drop_status-finish rounds a s _ (by_outcome-Unlocked os outcome rounds a s) b

  dispatch-finish :
      (rounds : ℕ) (d : Dequeued) (s : Shared W) (b : ℕ)
      → (dispatch os rounds (status_of os d) s).heap b ≡ finish (names b d.overlapped) (s.heap b)
  unfolding dispatch status_of
  dispatch-finish rounds d s b = header-finish rounds (status_of os d).outcome d.overlapped s b

module _ {W : Type 0} (os : Os W) (packets : W → List Dequeued) (q : IsQueue os packets) where
  -- The first loop has ended with `n`, and has left of each header what the count of the packets says.
  pub record Tallied (n : ℕ) (items : List Dequeued) (s : Shared W)
      (r : Option (Outcome ℕ) × Shared W) : Type 0 where
    pub result : r.0 ≡ some (ok n)
    pub heap : (a : ℕ) → r.1.heap a ≡ finish (tally a items) (s.heap a)
    pub pending : r.1.port.pending ≡ n + 2 ^ 63

  run_stop-Tallied :
      (spurious fuel n : ℕ) (stop : Dequeued) (rest : List Dequeued) (s : Shared W)
      → packets s.world ≡ stop ∷ rest
      → stop.completion_key ≡ shutdown_port
      → stop.overlapped ≡ none
      → s.port.pending ≡ n
      → n < 2 ^ 63
      → Tallied n [] s (run os spurious (suc fuel) s)
  unfolding drop_status
  run_stop-Tallied spurious fuel n stop rest s e k null p small =
      rw (run-stop os spurious fuel s.port.pending s _ (poll-stop os packets q s stop rest e k)) (
        rw (null, p)
          (record {
            result = refl;
            heap = λ a. finish_none (s.heap a);
            pending = add_isize_min n small;
          }))

  -- The first loop against a count of the packets. On a port that is a queue, with packets under
  -- ordinary keys ahead of a shutdown that has no header, with more fuel than packets and a counter
  -- of those packets and `n` more: whatever the outcomes of the packets, their order, and how often
  -- an exchange fails by itself, the loop ends with `n`, which stays in the counter with the sign bit
  -- set. A header with `k` packets among them has `k` counts fewer, and its operation is completed if
  -- it was in flight and `k` is not 0; all else about the headers is as before.
  pub run-Tallied :
      (spurious fuel n : ℕ) (items : List Dequeued) (stop : Dequeued) (rest : List Dequeued)
      (s : Shared W)
      → packets s.world ≡ items ++ stop ∷ rest
      → AllOrdinary items
      → stop.completion_key ≡ shutdown_port
      → stop.overlapped ≡ none
      → length items < fuel
      → s.port.pending ≡ length items + n
      → length items + n < 2 ^ 63
      → Tallied n items s (run os spurious fuel s)
  run-Tallied spurious zero n items stop rest s e o k null f p small = absurd (omega arith)
  run-Tallied spurious (suc fuel) n [] stop rest s e o k null f p small =
      run_stop-Tallied spurious fuel n stop rest s e k null (omega arith) (omega arith)
  run-Tallied spurious (suc fuel) n (d ∷ ds) stop rest s e o k null f p small =
      let s1 = with_port (fetch_sub 1 s.port) (next os packets q s) in
      let h = dispatch-Handled os packets q spurious (status_of os d) s1 in
      let later =
        run-Tallied spurious fuel n ds stop rest (dispatch os spurious (status_of os d) s1)
          (h.queue ∙ (q.oldest s.port.raw s.world d (ds ++ stop ∷ rest) e).1) o.1 k null
          (omega arith) (ap (λ x. x.pending) h.settles.port ∙ omega arith) (omega arith) in
      rw
        (run-status os spurious fuel _ s s1
          (poll-ordinary os packets q s d (ds ++ stop ∷ rest) e o.0))
        (record {
          result = later.result;
          heap = λ a.
              later.heap a
              ∙ ap (finish (tally a ds)) (dispatch-finish os spurious d s1 a)
              ∙ finish-finish (names a d.overlapped) (tally a ds) (s.heap a);
          pending = later.pending;
        })
